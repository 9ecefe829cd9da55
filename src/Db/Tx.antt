-- ===== src/Db/Tx.antt =====
-- Errors as values, the state that outlives a transaction, and the transaction itself.
use selatpay.Prelude.{ℕ, suc, Bool, Option, none, some, List, if◌then◌else◌}
use selatpay.Prelude.Text.{Text}
use selatpay.Prelude.Int.{ℤ}
use selatpay.Db.Tables.{
  Uuid, Account, JournalEntry, Posting, PaymentIntent, Payout, SagaState, Quote, Merchant,
  OnchainPayment,
}

-- The errors that the modelled code returns or tests for. `wrap` is `fmt.Errorf("...: %w", err)`,
-- whose text is left out, and `terminal` is `saga.Terminal`.
pub data Err : Type 0 where
  no_rows unique_violation check_violation : Err
  no_lines non_positive_amount unbalanced invalid_direction empty_currency empty_external_ref : Err
  empty_kind account_not_found duplicate_external_ref : Err
  unknown_rail unknown_step not_found unavailable no_spl_transfer : Err
  message : Text → Err
  wrap terminal : Err → Err

pub data Result (A : Type 0) : Type 0 where
  ok : A → Result A
  err : Err → Result A

-- A row of saga_runs; `last_error` keeps the error whose text the column holds.
pub record SagaRun : Type 0 where
  pub id : Uuid
  pub intent_id : Uuid
  pub saga_kind : Text
  pub current_step : Text
  pub state : SagaState
  pub step_attempts : ℕ
  pub next_run_at : ℕ
  pub lease_owner : Option Text
  pub lease_until : Option ℕ
  pub last_error : Option Err

-- A row of outbox. The payload and the headers are kept as the producer gave them.
pub record OutboxRow : Type 0 where
  pub id : Uuid
  pub topic : Text
  pub aggregate_id : Option Uuid
  pub payload : Text
  pub headers : List (Text × Text)
  pub next_attempt_at : ℕ
  pub delivered_at : Option ℕ
  pub attempts : ℕ
  pub last_error : Option Err

pub record Db : Type 0 where
  pub accounts : List Account
  pub journal_entries : List JournalEntry
  pub postings : List Posting
  pub payment_intents : List PaymentIntent
  pub payouts : List Payout
  pub quotes : List Quote
  pub merchants : List Merchant
  pub onchain_payments : List OnchainPayment
  pub saga_runs : List SagaRun
  pub outbox : List OutboxRow

pub record SubmitRequest : Type 0 where
  pub payout_id : Uuid
  pub intent_id : Uuid
  pub amount_idr : ℤ
  pub bank_code : Text
  pub account_number : Text
  pub account_name : Text
  pub memo : Text
  pub idempotency : Text

-- What a transaction runs over. A rollback restores `db` and nothing else: `gen_random_uuid()` never
-- gives an id twice (the ids are handed out in order), and the requests that a rail has sent are sent.
pub record World : Type 0 where
  pub db : Db
  pub next_id : Uuid
  pub now : ℕ
  pub submitted : List SubmitRequest

abbrev pub Tx : Type 0 → Type 0
Tx A = World → Result A × World

module _ {A : Type 0} where
  abbrev pub pure : A → Tx A
  pure a w = (ok a, w)

  abbrev pub fail : Err → Tx A
  fail e w = (err e, w)

  abbrev pub or_fail : Option A → Err → Tx A
  or_fail none e = fail e
  or_fail (some a) e = pure a

  abbrev pub gets : (Db → A) → Tx A
  gets f w = (ok (f w.db), w)

  -- `if err != nil { return ..., f(err) }`.
  abbrev pub rename : (Err → Err) → Result A × World → Result A × World
  rename f (ok a, w) = (ok a, w)
  rename f (err e, w) = (err (f e), w)

  abbrev pub catch : Tx A → (Err → Err) → Tx A
  catch m f w = rename f (m w)

abbrev pub modify : (Db → Db) → Tx (Unit {0})
modify f w = (ok tt, record w { db = f w.db })

abbrev pub fresh_id : Tx Uuid
fresh_id w = (ok w.next_id, record w { next_id = suc w.next_id })

abbrev pub guard : Bool → Err → Tx (Unit {0})
guard b e w = (if b then ok tt else err e, w)

abbrev pub resume : {A B : Type 0} → (A → Tx B) → Result A × World → Result B × World
resume f (ok a, w) = f a w
resume f (err e, w) = (err e, w)

infixl 5 ◌>>=◌ ◌>>◌
abbrev pub ◌>>=◌ : {A B : Type 0} → Tx A → (A → Tx B) → Tx B
◌>>=◌ m f w = resume f (m w)

abbrev pub ◌>>◌ : {A B : Type 0} → Tx A → Tx B → Tx B
m >> k = m >>= λ _. k
