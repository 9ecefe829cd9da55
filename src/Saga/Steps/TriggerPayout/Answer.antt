-- ===== src/Saga/Steps/TriggerPayout/Answer.antt =====
-- What the first attempt at a payout leaves, for each answer of the rail.
use selatpay.Prelude.{
  ◌≡◌, ◌∙◌, ap, true, Option, none, some, [], ◌∷◌, ◌++◌, ◌==◌, update_where, ==_self, ==→eq,
  find?-All, All-units, update_where-last,
}
use selatpay.Prelude.Text.{Text}
use selatpay.Db.Tables.{Uuid, IntentState, Payout, PayoutState}
use selatpay.Db.Tx.{ok, err, World, terminal, message}
use selatpay.Payout.Rail.{success, retry, permanent, SubmitResult, Router}
use selatpay.Ledger.Posting.{run_tx, entries_balanced}
use selatpay.Saga.Steps.Queries.{find_intent, mark_submitting, mark_succeeded, set_intent_state}
use selatpay.Payout.MockBank.{mock_idr_bank_name}
use selatpay.Saga.Steps.Names.{step_apply_payout_result}
use selatpay.Saga.Steps.TriggerPayout.{
  settle_outcome, trigger_payout, retry_message, permanent_message, nullable_string,
  advance_intent_to_settling,
}
use selatpay.Saga.Steps.TriggerPayout.Attempt.{
  Ready, first_payout, first_request, rolled_back, found_sent, trigger_payout-settles,
}

module _ (uuid_string : Uuid → Text) (rails : Router) (intent_id : Uuid) (w : World)
    (ready : Ready rails intent_id w) where
  -- The rail asks to try again: the step ends in an error that is not terminal, and the payout row with
  -- its reset is rolled back; only the request that was sent, and the id that it carried, are spent.
  pub trigger_payout_retry :
      (result : SubmitResult)
      → ready.rail.submit w.submitted (first_request uuid_string rails intent_id w ready)
        ≡ ok result
      → result.outcome ≡ retry
      → run_tx (trigger_payout uuid_string rails intent_id) w ≡ (
        err (message (retry_message result.message)),
        (rolled_back uuid_string rails intent_id w ready),
      )
  unfolding settle_outcome
  trigger_payout_retry result answer same =
      trigger_payout-settles uuid_string rails intent_id w ready result retry answer same
      ∙ rw (found_sent uuid_string rails intent_id w ready)

  -- The rail rejects the payout for good: the step ends in a terminal error, and neither the payout nor
  -- the intent is left in the state failed, since both writes are rolled back with the step.
  pub trigger_payout_permanent :
      (result : SubmitResult)
      → ready.rail.submit w.submitted (first_request uuid_string rails intent_id w ready)
        ≡ ok result
      → result.outcome ≡ permanent
      → run_tx (trigger_payout uuid_string rails intent_id) w ≡ (
        err (terminal (message (permanent_message result.message))),
        (rolled_back uuid_string rails intent_id w ready),
      )
  unfolding settle_outcome
  trigger_payout_permanent result answer same =
      trigger_payout-settles uuid_string rails intent_id w ready result permanent answer same
      ∙ rw ((found_sent uuid_string rails intent_id w ready), ready.intent_found)

  intent_found_by_id : find_intent ready.intent.id w.db.payment_intents ≡ some ready.intent
  unfolding find_intent
  intent_found_by_id =
      ap (λ i. find_intent i w.db.payment_intents)
        (==→eq ready.intent.id intent_id
          (find?-All (λ _. Unit {0}) (λ i. i.id == intent_id) w.db.payment_intents ready.intent
            (All-units w.db.payment_intents) ready.intent_found).1)
      ∙ ready.intent_found

  last_updated :
      (f : Payout → Payout) (po : Payout)
      → (po.id == w.next_id) ≡ true
      → update_where (λ p. p.id == w.next_id) f (w.db.payouts ++ po ∷ [])
        ≡ w.db.payouts ++ f po ∷ []
  last_updated f po = update_where-last (λ p. p.id == w.next_id) f w.db.payouts po ready.id_unused

  abbrev given : Text → Option Text
  given [] = none
  given (c ∷ s) = some (c ∷ s)

  -- The payout row of a first attempt that was paid.
  abbrev pub paid : Text → Payout
  paid reference = record {
    id = w.next_id;
    intent_id = intent_id;
    rail = mock_idr_bank_name;
    amount_idr = ready.intent.amount_idr;
    state = PayoutState.succeeded;
    rail_reference = given reference;
    last_error = none;
    attempts = 1;
  }

  -- The rail has paid the first attempt of a funded intent, and the postings balance: one payout
  -- row more is committed, the mock bank's for the intent's amount, succeeded, with the rail's
  -- reference (null when it is empty) and one attempt, the rows of the intent's id are settling, nothing else
  -- changes in the tables, and the next step is apply_payout_result.
  pub trigger_payout_success :
      (result : SubmitResult)
      → ready.rail.submit w.submitted (first_request uuid_string rails intent_id w ready)
        ≡ ok result
      → result.outcome ≡ success
      → ready.intent.state ≡ IntentState.funded
      → entries_balanced w.db.postings w.db.postings ≡ true
      → run_tx (trigger_payout uuid_string rails intent_id) w ≡ (
        ok step_apply_payout_result,
        record (rolled_back uuid_string rails intent_id w ready) {
          db = record (w.db) {
            payouts = w.db.payouts ++ paid result.rail_reference ∷ [];
            payment_intents =
                update_where
                  (λ i. i.id == ready.intent.id)
                  (λ i. record i { state = IntentState.settling })
                  w.db.payment_intents;
          };
        },
      )
  unfolding settle_outcome advance_intent_to_settling set_intent_state
  trigger_payout_success result answer same funded balanced =
      trigger_payout-settles uuid_string rails intent_id w ready result success answer same
      ∙ rw ((found_sent uuid_string rails intent_id w ready), funded, intent_found_by_id)
          (rw (
            last_updated mark_submitting (first_payout ready.intent intent_id w.next_id)
                (==_self w.next_id),
            last_updated (mark_succeeded (nullable_string result.rail_reference))
                (mark_submitting (first_payout ready.intent intent_id w.next_id))
                (==_self w.next_id),
            balanced,
          ))
