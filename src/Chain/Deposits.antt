-- ===== src/Chain/Deposits.antt =====
-- The queries of the watcher: UpsertOnchainPayment and ListUnfinalizedOnchainPayments of
-- internal/db/sqlc/onchain_payments.sql.go, EnqueueSagaRun of internal/db/sqlc/saga_runs.sql.go and
-- ListActiveReferenceIntents of internal/db/sqlc/payment_intents.sql.go. The foreign keys are left
-- out: an intent is never deleted.
use selatpay.Prelude.{
  ℕ, ◌+◌, Bool, true, false, ◌&&◌, not, Option, none, some, List, [], ◌∷◌, ◌++◌, ◌==◌, ltb,
  if◌then◌else◌, find?, update_where, select, take,
}
use selatpay.Prelude.Text.{Text, text_eq}
use selatpay.Prelude.Int.{pos, leb_ℤ, ltb_ℤ}
use selatpay.Prelude.Keys.{has_key}
use selatpay.Db.Tables.{
  Uuid, OnchainPayment, Commitment, processed, confirmed, finalized, PaymentIntent, IntentState,
  SagaState,
}
use selatpay.Db.Tx.{ok, err, SagaRun, Tx, check_violation}
use selatpay.Saga.Steps.Queries.{is_finalized}

-- The order of the enum `solana_commitment`.
abbrev pub rank : Commitment → ℕ
rank processed = 0
rank confirmed = 1
rank finalized = 2

-- The CASE of the upsert.
unfoldable pub advanced_to : Commitment → Commitment → Commitment
advanced_to old excluded = if ltb (rank old) (rank excluded) then excluded else old

-- COALESCE.
abbrev pub coalesce : Option Uuid → Option Uuid → Option Uuid
coalesce none excluded = excluded
coalesce (some id) excluded = some id

unfoldable pub merged : OnchainPayment → OnchainPayment → OnchainPayment
unfolding advanced_to
merged excluded old = record old {
  commitment = advanced_to old.commitment excluded.commitment;
  intent_id = coalesce old.intent_id excluded.intent_id;
}

abbrev pub signature_of : OnchainPayment → Text
signature_of p = p.signature

unfoldable pub find_payment : Text → List OnchainPayment → Option OnchainPayment
find_payment signature = find? (has_key signature_of text_eq signature)

unfoldable pub update_payment :
    Text → (OnchainPayment → OnchainPayment) → List OnchainPayment → List OnchainPayment
update_payment signature f = update_where (has_key signature_of text_eq signature) f

abbrev pub payment_upserted : OnchainPayment → Option OnchainPayment → Tx OnchainPayment
payment_upserted p none w =
    (ok p, record w { db = record (w.db) { onchain_payments = w.db.onchain_payments ++ p ∷ [] } })
payment_upserted p (some old) w = (
  ok (merged p old),
  record w {
    db = record (w.db) {
      onchain_payments = update_payment p.signature (merged p) w.db.onchain_payments;
    };
  },
)

-- The column checks: a positive amount and a slot that is not negative.
abbrev pub payment_admitted : OnchainPayment → Bool
payment_admitted p =
    (if leb_ℤ p.amount (pos 0) then false else true)
    && (if ltb_ℤ p.slot (pos 0) then false else true)

unfoldable pub upsert_onchain_payment : OnchainPayment → Tx OnchainPayment
unfolding find_payment update_payment
upsert_onchain_payment p w =
    if payment_admitted p
    then payment_upserted p (find_payment p.signature w.db.onchain_payments) w
    else (err check_violation, w)

-- The key (intent_id, saga_kind) of a saga.
abbrev pub run_key : SagaRun → Uuid × Text
run_key r = (r.intent_id, r.saga_kind)

abbrev pub key_eq : Uuid × Text → Uuid × Text → Bool
key_eq a b = (a.0 == b.0) && text_eq a.1 b.1

unfoldable pub find_run : Uuid → Text → List SagaRun → Option SagaRun
find_run intent_id kind = find? (has_key run_key key_eq (intent_id, kind))

abbrev pub new_run : Uuid → Text → Text → Uuid → ℕ → SagaRun
new_run intent_id kind step id now = record {
  id = id;
  intent_id = intent_id;
  saga_kind = kind;
  current_step = step;
  state = SagaState.pending;
  step_attempts = 0;
  next_run_at = now;
  lease_owner = none;
  lease_until = none;
  last_error = none;
}

abbrev pub run_enqueued : Uuid → Text → Text → Option SagaRun → Tx SagaRun
run_enqueued intent_id kind step (some r) w = (ok r, w)
run_enqueued intent_id kind step none w =
    let r : SagaRun = new_run intent_id kind step w.next_id w.now in
    (
      ok r,
      record w {
        db = record (w.db) { saga_runs = w.db.saga_runs ++ r ∷ [] };
        next_id = w.next_id + 1;
      },
    )

-- The conflict branch writes a value that is there already.
unfoldable pub enqueue_saga_run : Uuid → Text → Text → Tx SagaRun
unfolding find_run
enqueue_saga_run intent_id kind step w =
    run_enqueued intent_id kind step (find_run intent_id kind w.db.saga_runs) w

-- The rows stand in the order of created_at.
unfoldable pub list_unfinalized : ℕ → List OnchainPayment → List OnchainPayment
list_unfinalized limit payments =
    take limit (select (λ p. not (is_finalized p.commitment)) payments)

abbrev awaits : IntentState → Bool
awaits IntentState.pending = true
awaits IntentState.funded = true
awaits _ = false

abbrev has_reference : Option Text → Bool
has_reference none = false
has_reference (some _) = true

unfoldable pub list_active_references : List PaymentIntent → List PaymentIntent
list_active_references = select (λ i. awaits i.state && has_reference i.reference_pubkey)
