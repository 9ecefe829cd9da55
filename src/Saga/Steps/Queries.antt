-- ===== src/Saga/Steps/Queries.antt =====
-- The queries that the steps run on intents, payouts, merchants, quotes and deposits
-- (internal/db/sqlc). An `UPDATE ... RETURNING` that matches no row returns no_rows.
use selatpay.Prelude.{
  ◌+◌, Bool, true, false, ◌&&◌, Option, none, some, List, [], ◌∷◌, ◌++◌, ◌==◌, find?, update_where,
}
use selatpay.Prelude.Text.{Text}
use selatpay.Prelude.Int.{ℤ}
use selatpay.Db.Tables.{
  Uuid, PaymentIntent, IntentState, Payout, PayoutState, Quote, Merchant, OnchainPayment,
  Commitment, processed, confirmed, finalized,
}
use selatpay.Db.Tx.{Err, ok, err, Tx, or_fail, no_rows, wrap, terminal, not_found}

-- `errors.Is(err, pgx.ErrNoRows)` sends a missing row to a terminal error; any other error is wrapped.
abbrev pub terminal_if_missing : Err → Err
terminal_if_missing no_rows = terminal not_found
terminal_if_missing e = wrap e

unfoldable pub find_intent : Uuid → List PaymentIntent → Option PaymentIntent
find_intent id = find? (λ i. i.id == id)

-- GetPaymentIntentByID.
abbrev pub get_intent : Uuid → Tx PaymentIntent
get_intent id w = or_fail (find_intent id w.db.payment_intents) no_rows w

-- UpdatePaymentIntentState.
unfoldable pub set_intent_state : Uuid → IntentState → List PaymentIntent → List PaymentIntent
set_intent_state id s = update_where (λ i. i.id == id) (λ i. record i { state = s })

abbrev pub intent_moved : Uuid → IntentState → Option PaymentIntent → Tx PaymentIntent
intent_moved id s none w = (err no_rows, w)
intent_moved id s (some i) w = (
  ok (record i { state = s }),
  record w { db = record (w.db) { payment_intents = set_intent_state id s w.db.payment_intents } },
)

abbrev pub update_intent_state : Uuid → IntentState → Tx PaymentIntent
update_intent_state id s w = intent_moved id s (find_intent id w.db.payment_intents) w

-- GetMerchantByID and GetQuote.
abbrev pub get_merchant : Uuid → Tx Merchant
get_merchant id w = or_fail (find? (λ m. m.id == id) w.db.merchants) no_rows w

abbrev pub get_quote : Uuid → Tx Quote
get_quote id w = or_fail (find? (λ q. q.id == id) w.db.quotes) no_rows w

abbrev pub is_finalized : Commitment → Bool
is_finalized finalized = true
is_finalized confirmed = false
is_finalized processed = false

abbrev pub links : Uuid → Option Uuid → Bool
links id none = false
links id (some i) = i == id

-- GetFinalizedDepositForIntent: the rows stand in the order of created_at.
unfoldable pub finalized_deposit : Uuid → List OnchainPayment → Option OnchainPayment
finalized_deposit id = find? (λ p. links id p.intent_id && is_finalized p.commitment)

abbrev pub get_finalized_deposit : Uuid → Tx OnchainPayment
get_finalized_deposit id w = or_fail (finalized_deposit id w.db.onchain_payments) no_rows w

unfoldable pub payout_by_intent : Uuid → List Payout → Option Payout
payout_by_intent id = find? (λ p. p.intent_id == id)

-- GetPayoutByIntent.
abbrev pub get_payout_by_intent : Uuid → Tx Payout
get_payout_by_intent id w = or_fail (payout_by_intent id w.db.payouts) no_rows w

abbrev pub new_payout : Uuid → Text → ℤ → Uuid → Payout
new_payout intent_id rail amount_idr id = record {
  id = id;
  intent_id = intent_id;
  rail = rail;
  amount_idr = amount_idr;
  state = PayoutState.pending;
  rail_reference = none;
  last_error = none;
  attempts = 0;
}

abbrev pub upserted : Uuid → Text → ℤ → Option Payout → Tx Payout
upserted intent_id rail amount_idr (some po) w = (ok po, w)
upserted intent_id rail amount_idr none w =
    let po : Payout = new_payout intent_id rail amount_idr w.next_id in
    (
      ok po,
      record w {
        db = record (w.db) { payouts = w.db.payouts ++ po ∷ [] };
        next_id = w.next_id + 1;
      },
    )

-- UpsertPayout: a row of the intent is returned as it is, whatever rail and amount are given. The CHECK
-- of payouts that the amount is positive is left out: it is the amount of a payment intent, whose
-- own CHECK is the same.
abbrev pub upsert_payout : Uuid → Text → ℤ → Tx Payout
upsert_payout intent_id rail amount_idr w =
    upserted intent_id rail amount_idr (payout_by_intent intent_id w.db.payouts) w

abbrev pub payout_changed : Uuid → (Payout → Payout) → Option Payout → Tx Payout
payout_changed id f none w = (err no_rows, w)
payout_changed id f (some po) w = (
  ok (f po),
  record w { db = record (w.db) { payouts = update_where (λ p. p.id == id) f w.db.payouts } },
)

-- The four updates of a payout by id.
abbrev pub update_payout : Uuid → (Payout → Payout) → Tx Payout
update_payout id f w = payout_changed id f (find? (λ p. p.id == id) w.db.payouts) w

abbrev pub mark_submitting : Payout → Payout
mark_submitting po = record po { state = PayoutState.submitting; attempts = po.attempts + 1 }

abbrev pub mark_succeeded : Option Text → Payout → Payout
mark_succeeded ref po = record po {
  state = PayoutState.succeeded;
  rail_reference = ref;
  last_error = none;
}

abbrev pub mark_failed : Option Text → Payout → Payout
mark_failed e po = record po { state = PayoutState.failed; last_error = e }

abbrev pub reset_to_pending : Option Text → Payout → Payout
reset_to_pending e po = record po { state = PayoutState.pending; last_error = e }
