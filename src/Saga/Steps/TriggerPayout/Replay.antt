-- ===== src/Saga/Steps/TriggerPayout/Replay.antt =====
-- A payout that the rail has paid, met again by the step (internal/saga/steps/trigger_payout.go).
use selatpay.Prelude.{◌≡◌, ap, true, some, ◌==◌, find?}
use selatpay.Prelude.Text.{Text}
use selatpay.Db.Tables.{Uuid, PaymentIntent, IntentState, Payout, PayoutState, Merchant}
use selatpay.Db.Tx.{ok, World}
use selatpay.Payout.Rail.{Router}
use selatpay.Payout.MockBank.{mock_idr_bank_name}
use selatpay.Ledger.Posting.{run_tx, entries_balanced}
use selatpay.Ledger.Posting.Atomic.{run_tx_ok}
use selatpay.Saga.Steps.Queries.{find_intent, payout_by_intent, upserted}
use selatpay.Saga.Steps.Names.{step_apply_payout_result}
use selatpay.Saga.Steps.TriggerPayout.{
  Recipient, recipient_from_merchant, resume_payout, trigger_payout, advance_intent_to_settling,
}

resume_payout-done :
    (uuid_string : Uuid → Text) (rails : Router) (intent_id : Uuid) (w : World)
    (intent : PaymentIntent) (recipient : Recipient) (po : Payout)
    → po.state ≡ PayoutState.succeeded
    → intent.state ≡ IntentState.settling
    → resume_payout uuid_string intent_id rails intent recipient po w
      ≡ (ok step_apply_payout_result, w)
unfolding resume_payout advance_intent_to_settling
resume_payout-done uuid_string rails intent_id w intent recipient po done settling =
    rw (done, settling)

-- Where the payout has succeeded, the intent is settling, its merchant has an account and the
-- postings balance, the step changes nothing and sends nothing, whichever rails there are, and
-- goes on to apply_payout_result.
pub trigger_payout_replayed :
    (uuid_string : Uuid → Text) (rails : Router) (intent_id : Uuid) (w : World)
    (intent : PaymentIntent) (merchant : Merchant) (recipient : Recipient) (po : Payout)
    → find_intent intent_id w.db.payment_intents ≡ some intent
    → find? (λ m. m.id == intent.merchant_id) w.db.merchants ≡ some merchant
    → recipient_from_merchant merchant ≡ some recipient
    → payout_by_intent intent_id w.db.payouts ≡ some po
    → po.state ≡ PayoutState.succeeded
    → intent.state ≡ IntentState.settling
    → entries_balanced w.db.postings w.db.postings ≡ true
    → run_tx (trigger_payout uuid_string rails intent_id) w ≡ (ok step_apply_payout_result, w)
unfolding trigger_payout
trigger_payout_replayed uuid_string rails intent_id w intent merchant recipient po i m r p done
      settling balanced =
    let found = ap (λ o. upserted intent_id mock_idr_bank_name intent.amount_idr o w) p in
    run_tx_ok (trigger_payout uuid_string rails intent_id) w w step_apply_payout_result
      (rw (i, m, r, found)
        (resume_payout-done uuid_string rails intent_id w intent recipient po done settling))
      balanced
