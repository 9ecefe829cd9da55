-- ===== src/Saga/Steps/TriggerPayout.antt =====
-- internal/saga/steps/trigger_payout.go. A step returns the name of the next one; the text of a UUID
-- (google/uuid) is a parameter.
pub mod Attempt
pub mod Answer
pub mod Replay
pub mod Resubmit
use selatpay.Prelude.{ℕ, ◌+◌, Bool, Option, none, some, List, [], ◌∷◌, ◌++◌, if◌then◌else◌}
use selatpay.Prelude.Text.{Text, codes}
use selatpay.Db.Tables.{Uuid, PaymentIntent, IntentState, Payout, PayoutState, Merchant}
use selatpay.Db.Tx.{
  Err, Result, ok, err, World, Tx, pure, fail, or_fail, catch, ◌>>=◌, ◌>>◌, SubmitRequest, wrap,
  terminal, message,
}
use selatpay.Payout.Rail.{
  Outcome, success, retry, permanent, unknown, SubmitResult, Rail, Router, get_rail,
}
use selatpay.Payout.MockBank.{mock_idr_bank_name}
use selatpay.Saga.Steps.Names.{step_apply_payout_result}
use selatpay.Saga.Steps.Queries.{
  terminal_if_missing, get_intent, update_intent_state, get_merchant, upsert_payout, update_payout,
  mark_submitting, mark_succeeded, mark_failed, reset_to_pending,
}

pub record Recipient : Type 0 where
  pub bank_code : Text
  pub account_number : Text
  pub account_name : Text

given : Option Text → Option Text → Option Text → Option Recipient
given (some (a ∷ code)) (some (b ∷ number)) (some (c ∷ name)) =
    some (record { bank_code = a ∷ code; account_number = b ∷ number; account_name = c ∷ name })
given _ _ _ = none

-- A missing column and an empty one are refused alike.
unfoldable pub recipient_from_merchant : Merchant → Option Recipient
unfolding given
recipient_from_merchant m = given m.bank_code m.bank_account_number m.bank_account_name

abbrev pub nullable_string : Text → Option Text
nullable_string [] = none
nullable_string (c ∷ s) = some (c ∷ s)

-- `advanceIntentToSettling`.
unfoldable pub advance_intent_to_settling : PaymentIntent → Tx Text
advance_intent_to_settling intent = elim intent.state [
  | IntentState.funded ↦ do
    catch (update_intent_state intent.id IntentState.settling) wrap
    pure step_apply_payout_result
  | _ ↦ pure step_apply_payout_result
]

abbrev pub retry_message : Text → Text
retry_message m = codes "rail retry: " ++ m

abbrev pub permanent_message : Text → Text
permanent_message [] = codes "rail permanently rejected payout"
permanent_message (c ∷ s) = c ∷ s

-- The `switch` on the rail's outcome.
unfoldable pub settle_outcome : Uuid → PaymentIntent → Payout → Outcome → SubmitResult → Tx Text
unfolding advance_intent_to_settling
settle_outcome intent_id intent po success result = do
  catch (update_payout po.id (mark_succeeded (nullable_string result.rail_reference))) wrap
  advance_intent_to_settling intent
settle_outcome intent_id intent po retry result = do
  let msg : Text = retry_message result.message
  catch (update_payout po.id (reset_to_pending (nullable_string msg))) wrap
  fail (message msg)
settle_outcome intent_id intent po permanent result = do
  let msg : Text = permanent_message result.message
  catch (update_payout po.id (mark_failed (nullable_string msg))) wrap
  catch (update_intent_state intent_id IntentState.failed) wrap
  fail (terminal (message msg))
settle_outcome intent_id intent po (unknown n) result = fail (terminal (message []))

-- `rail.Submit`: the request is out whatever becomes of the transaction.
abbrev pub send : Rail → SubmitRequest → Tx SubmitResult
send rail req w = (rail.submit w.submitted req, record w { submitted = w.submitted ++ req ∷ [] })

module _ (uuid_string : Uuid → Text) where
  -- The idempotency key is the id of the payout row.
  abbrev pub request : Uuid → PaymentIntent → Payout → Recipient → SubmitRequest
  request intent_id intent po r = record {
    payout_id = po.id;
    intent_id = intent_id;
    amount_idr = po.amount_idr;
    bank_code = r.bank_code;
    account_number = r.account_number;
    account_name = r.account_name;
    memo = codes "selatpay/" ++ intent.external_ref;
    idempotency = uuid_string po.id;
  }

  unfoldable pub submit_payout : Uuid → Rail → PaymentIntent → Payout → Recipient → Tx Text
  unfolding settle_outcome
  submit_payout intent_id rail intent po r = do
    catch (update_payout po.id mark_submitting) wrap
    result ← catch (send rail (request intent_id intent po r)) wrap
    settle_outcome intent_id intent po result.outcome result

  abbrev pub submit_on : Uuid → PaymentIntent → Recipient → Payout → Result Rail → Tx Text
  submit_on intent_id intent r po (err e) = fail (terminal (wrap e))
  submit_on intent_id intent r po (ok rail) = submit_payout intent_id rail intent po r

  -- A payout that is resolved skips the rail.
  unfoldable pub resume_payout : Uuid → Router → PaymentIntent → Recipient → Payout → Tx Text
  resume_payout intent_id rails intent r po = elim po.state [
    | PayoutState.succeeded ↦ advance_intent_to_settling intent
    | PayoutState.failed ↦ fail (terminal (message []))
    | _ ↦ submit_on intent_id intent r po (get_rail rails po.rail)
  ]

  -- `Execute`.
  unfoldable pub trigger_payout : Router → Uuid → Tx Text
  unfolding resume_payout recipient_from_merchant
  trigger_payout rails intent_id = do
    intent ← catch (get_intent intent_id) terminal_if_missing
    merchant ← catch (get_merchant intent.merchant_id) wrap
    r ← or_fail (recipient_from_merchant merchant) (terminal (message []))
    po ← catch (upsert_payout intent_id mock_idr_bank_name intent.amount_idr) wrap
    resume_payout intent_id rails intent r po
