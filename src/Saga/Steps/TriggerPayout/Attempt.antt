-- ===== src/Saga/Steps/TriggerPayout/Attempt.antt =====
-- The first attempt at a payout: what the rail is asked, and how the step goes on from its answer.
use selatpay.Prelude.{
  ◌+◌, ◌≡◌, ◌∙◌, ap, none, some, [], ◌∷◌, ◌++◌, ◌==◌, find?, update_where, ==_self, find?-last,
  find?-update_where,
}
use selatpay.Prelude.Text.{Text}
use selatpay.Db.Tables.{Uuid, PaymentIntent, Payout, Merchant}
use selatpay.Db.Tx.{ok, World, SubmitRequest}
use selatpay.Payout.Rail.{Outcome, SubmitResult, Rail, Router, get_rail}
use selatpay.Payout.MockBank.{mock_idr_bank_name}
use selatpay.Ledger.Posting.{run_tx, settle}
use selatpay.Saga.Steps.Queries.{
  find_intent, payout_by_intent, upsert_payout, upserted, new_payout, mark_submitting,
}
use selatpay.Saga.Steps.TriggerPayout.{
  Recipient, recipient_from_merchant, settle_outcome, submit_payout, submit_on, resume_payout,
  trigger_payout, request,
}

-- The row that the first attempt inserts.
abbrev pub first_payout : PaymentIntent → Uuid → Uuid → Payout
first_payout intent intent_id id = new_payout intent_id mock_idr_bank_name intent.amount_idr id

-- An intent whose merchant has an account to be paid to, whose rail is known, and that has no payout yet.
pub record Ready (rails : Router) (intent_id : Uuid) (w : World) : Type 0 where
  pub intent : PaymentIntent
  pub merchant : Merchant
  pub recipient : Recipient
  pub rail : Rail
  pub intent_found : find_intent intent_id w.db.payment_intents ≡ some intent
  pub merchant_found : find? (λ m. m.id == intent.merchant_id) w.db.merchants ≡ some merchant
  pub recipient_given : recipient_from_merchant merchant ≡ some recipient
  pub rail_found : get_rail rails mock_idr_bank_name ≡ ok rail
  pub no_payout : payout_by_intent intent_id w.db.payouts ≡ none
  pub id_unused : find? (λ p. p.id == w.next_id) w.db.payouts ≡ none

module _ (uuid_string : Uuid → Text) (rails : Router) (intent_id : Uuid) (w : World)
    (ready : Ready rails intent_id w) where
  -- What the rail is asked.
  abbrev pub first_request : SubmitRequest
  first_request =
      request uuid_string intent_id ready.intent (first_payout ready.intent intent_id w.next_id)
        ready.recipient

  abbrev inserted : World
  inserted = record w {
    db = record (w.db) {
      payouts = w.db.payouts ++ first_payout ready.intent intent_id w.next_id ∷ [];
    };
    next_id = w.next_id + 1;
  }

  -- The tables and the requests when the rail has answered.
  abbrev pub sent : World
  sent = record w {
    db = record (w.db) {
      payouts =
          update_where (λ p. p.id == w.next_id) mark_submitting
            (w.db.payouts ++ first_payout ready.intent intent_id w.next_id ∷ []);
    };
    next_id = w.next_id + 1;
    submitted = w.submitted ++ first_request ∷ [];
  }

  upsert_payout-inserts :
      upsert_payout intent_id mock_idr_bank_name ready.intent.amount_idr w
      ≡ (ok (first_payout ready.intent intent_id w.next_id), inserted)
  upsert_payout-inserts =
      ap (λ o. upserted intent_id mock_idr_bank_name ready.intent.amount_idr o w) ready.no_payout

  found_again :
      find?
        (λ p. p.id == w.next_id)
        (w.db.payouts ++ first_payout ready.intent intent_id w.next_id ∷ [])
      ≡ some (first_payout ready.intent intent_id w.next_id)
  found_again =
      find?-last (λ p. p.id == w.next_id) w.db.payouts
        (first_payout ready.intent intent_id w.next_id) ready.id_unused (==_self w.next_id)

  submit_payout-sends :
      (result : SubmitResult)
      → ready.rail.submit w.submitted first_request ≡ ok result
      → submit_payout uuid_string intent_id ready.rail ready.intent
          (first_payout ready.intent intent_id w.next_id)
          ready.recipient
          inserted
        ≡ settle_outcome intent_id ready.intent
            (first_payout ready.intent intent_id w.next_id)
            result.outcome
            result
            sent
  unfolding submit_payout
  submit_payout-sends result answer = rw (found_again, answer)

  resume_payout-sends :
      (result : SubmitResult)
      → ready.rail.submit w.submitted first_request ≡ ok result
      → resume_payout uuid_string intent_id rails ready.intent ready.recipient
          (first_payout ready.intent intent_id w.next_id)
          inserted
        ≡ settle_outcome intent_id ready.intent
            (first_payout ready.intent intent_id w.next_id)
            result.outcome
            result
            sent
  unfolding resume_payout
  resume_payout-sends result answer =
      ap
        (λ o.
          submit_on uuid_string intent_id ready.intent ready.recipient
            (first_payout ready.intent intent_id w.next_id) o inserted)
        ready.rail_found
      ∙ submit_payout-sends result answer

  trigger_payout-sends :
      (result : SubmitResult)
      → ready.rail.submit w.submitted first_request ≡ ok result
      → trigger_payout uuid_string rails intent_id w
        ≡ settle_outcome intent_id ready.intent
            (first_payout ready.intent intent_id w.next_id)
            result.outcome
            result
            sent
  unfolding trigger_payout
  trigger_payout-sends result answer =
      rw (ready.intent_found, ready.merchant_found, ready.recipient_given, upsert_payout-inserts)
        (resume_payout-sends result answer)

  pub found_sent :
      find? (λ p. p.id == w.next_id) sent.db.payouts
      ≡ some (mark_submitting (first_payout ready.intent intent_id w.next_id))
  found_sent =
      find?-update_where (λ p. p.id == w.next_id) mark_submitting
        (w.db.payouts ++ first_payout ready.intent intent_id w.next_id ∷ [])
        (first_payout ready.intent intent_id w.next_id) (λ p h. h) found_again

  -- What is left of an attempt that is rolled back: the id is spent and the request is out.
  abbrev pub rolled_back : World
  rolled_back = record w { next_id = w.next_id + 1; submitted = w.submitted ++ first_request ∷ [] }

  pub trigger_payout-settles :
      (result : SubmitResult) (out : Outcome)
      → ready.rail.submit w.submitted first_request ≡ ok result
      → result.outcome ≡ out
      → run_tx (trigger_payout uuid_string rails intent_id) w
        ≡ settle w (
            settle_outcome intent_id ready.intent
              (first_payout ready.intent intent_id w.next_id)
              out
              result
              sent)
  unfolding run_tx
  trigger_payout-settles result out answer same = ap (settle w) (
      trigger_payout-sends result answer
      ∙ ap
          (λ o.
            settle_outcome intent_id ready.intent (first_payout ready.intent intent_id w.next_id) o
              result sent)
          same)
