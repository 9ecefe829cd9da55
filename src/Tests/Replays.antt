-- ===== src/Tests/Replays.antt =====
-- The payout step over a payout that is paid.
use selatpay.Prelude.{◌==◌, ◌≡◌, refl, none, some, true, [], ◌∷◌, find?}
use selatpay.Prelude.Text.{codes}
use selatpay.Prelude.Int.{pos}
use selatpay.Db.Tables.{PaymentIntent, IntentState, Payout, PayoutState}
use selatpay.Db.Tx.{ok, World}
use selatpay.Ledger.Posting.{run_tx, entries_balanced}
use selatpay.Saga.Steps.Names.{step_apply_payout_result}
use selatpay.Saga.Steps.Queries.{find_intent, payout_by_intent}
use selatpay.Saga.Steps.TriggerPayout.{Recipient, recipient_from_merchant, trigger_payout}
use selatpay.Saga.Steps.TriggerPayout.Replay.{trigger_payout_replayed}
use selatpay.Tests.Books.{books}
use selatpay.Tests.Payouts.{intent, merchant, key}

abbrev settling_intent : PaymentIntent
settling_intent = record intent { state = IntentState.settling }

abbrev paid : Payout
paid = record {
  id = 9;
  intent_id = 7;
  rail = codes "mock_idr_bank";
  amount_idr = pos 100000;
  state = PayoutState.succeeded;
  rail_reference = some (codes "R1");
  last_error = none;
  attempts = 1;
}

abbrev settled_world : World
settled_world = record books {
  db = record (books.db) {
    payment_intents = settling_intent ∷ [];
    merchants = merchant ∷ [];
    payouts = paid ∷ [];
  };
}

intent_found : find_intent 7 settled_world.db.payment_intents ≡ some settling_intent
unfolding find_intent find?
intent_found = refl

merchant_found : find? (λ m. m.id == 3) settled_world.db.merchants ≡ some merchant
unfolding find?
merchant_found = refl

abbrev recipient : Recipient
recipient = record {
  bank_code = codes "014";
  account_number = codes "123";
  account_name = codes "Toko";
}

recipient_given : recipient_from_merchant merchant ≡ some recipient
unfolding recipient_from_merchant
recipient_given = refl

paid_found : payout_by_intent 7 settled_world.db.payouts ≡ some paid
unfolding payout_by_intent find?
paid_found = refl

balanced : entries_balanced settled_world.db.postings settled_world.db.postings ≡ true
unfolding entries_balanced
balanced = refl

trigger_payout_replayed_example :
    run_tx (trigger_payout key [] 7) settled_world ≡ (ok step_apply_payout_result, settled_world)
trigger_payout_replayed_example =
    trigger_payout_replayed key [] 7 settled_world settling_intent merchant recipient paid
      intent_found merchant_found recipient_given paid_found refl refl balanced
