-- ===== src/Saga/Steps/TriggerPayout/Resubmit.antt =====
-- Two attempts at one payout (internal/saga/steps/trigger_payout.go) and the keys that they carry.
use selatpay.Prelude.{◌+◌, ◌≡◌, ◌≢◌, refl, ◌∙◌, ap, true, none, [], ◌∷◌, ◌++◌, ◌==◌, find?, arith}
use selatpay.Prelude.Text.{Text}
use selatpay.Db.Tables.{Uuid, IntentState}
use selatpay.Db.Tx.{ok, World, SubmitRequest}
use selatpay.Payout.Rail.{success, retry, SubmitResult, Router}
use selatpay.Ledger.Posting.{run_tx, entries_balanced}
use selatpay.Saga.Steps.TriggerPayout.{trigger_payout}
use selatpay.Saga.Steps.TriggerPayout.Attempt.{Ready, first_request, rolled_back}
use selatpay.Saga.Steps.TriggerPayout.Answer.{trigger_payout_retry, trigger_payout_success}

module _ (uuid_string : Uuid → Text) (rails : Router) (intent_id : Uuid) (w : World)
    (ready : Ready rails intent_id w) where
  -- After a rollback the intent stands where it stood before the first attempt.
  abbrev pub again :
      find? (λ p. p.id == w.next_id + 1) w.db.payouts ≡ none
      → Ready rails intent_id (rolled_back uuid_string rails intent_id w ready)
  again unused = record {
    intent = ready.intent;
    merchant = ready.merchant;
    recipient = ready.recipient;
    rail = ready.rail;
    intent_found = ready.intent_found;
    merchant_found = ready.merchant_found;
    recipient_given = ready.recipient_given;
    rail_found = ready.rail_found;
    no_payout = ready.no_payout;
    id_unused = unused;
  }

  abbrev pub second_request : find? (λ p. p.id == w.next_id + 1) w.db.payouts ≡ none → SubmitRequest
  second_request unused =
      first_request uuid_string rails intent_id (rolled_back uuid_string rails intent_id w ready)
        (again unused)

  -- A payout that the rail asked to try again, and then paid, was sent to it twice for the same
  -- amount under two idempotency keys, given that two UUIDs have two texts: the row whose id is
  -- the key was rolled back, and the second attempt inserts a row of its own.
  pub trigger_payout_resubmits :
      ((a b : Uuid) → uuid_string a ≡ uuid_string b → a ≡ b)
      → (unused : find? (λ p. p.id == w.next_id + 1) w.db.payouts ≡ none)
        (first second : SubmitResult)
      → ready.rail.submit w.submitted (first_request uuid_string rails intent_id w ready) ≡ ok first
      → first.outcome ≡ retry
      → ready.rail.submit
          (w.submitted ++ first_request uuid_string rails intent_id w ready ∷ [])
          (second_request unused)
        ≡ ok second
      → second.outcome ≡ success
      → ready.intent.state ≡ IntentState.funded
      → entries_balanced w.db.postings w.db.postings ≡ true
      → ((run_tx
            (trigger_payout uuid_string rails intent_id)
            (run_tx (trigger_payout uuid_string rails intent_id) w).1).1.submitted
          ≡ (w.submitted ++ first_request uuid_string rails intent_id w ready ∷ [])
            ++ second_request unused ∷ [])
        × ((first_request uuid_string rails intent_id w ready).idempotency
            ≢ (second_request unused).idempotency)
        × ((first_request uuid_string rails intent_id w ready).amount_idr
            ≡ (second_request unused).amount_idr)
  trigger_payout_resubmits injective unused first second a1 o1 a2 o2 funded balanced = (
    ap (λ x. (run_tx (trigger_payout uuid_string rails intent_id) x.1).1.submitted)
          (trigger_payout_retry uuid_string rails intent_id w ready first a1 o1)
        ∙ ap (λ x. x.1.submitted)
            (trigger_payout_success uuid_string rails intent_id
              (rolled_back uuid_string rails intent_id w ready) (again unused) second a2 o2 funded
              balanced),
    λ same.
        let clash : w.next_id ≡ w.next_id + 1 = injective w.next_id (w.next_id + 1) same in
        omega arith,
    refl,
  )
