-- ===== src/Saga/Steps/ApplyPayoutResult/Marked.antt =====
-- The intent that `apply_payout_result` marks, and its two entries.
use selatpay.Prelude.{◌≡◌, ◌≢◌, refl, sym, ap, ◌∙◌, subst, some, find?, find?-update_where, ◌==◌}
use selatpay.Prelude.Text.{Text}
use selatpay.Prelude.Int.{ℤ}
use selatpay.Db.Tables.{Uuid, PaymentIntent, IntentState, Payout}
use selatpay.Db.Tx.{ok, World}
use selatpay.Ledger.Posting.Atomic.{eq_of_ok}
use selatpay.Saga.Steps.Names.{
  step_emit_completed, account_liability_user_funds, account_cash_out_idr,
  account_revenue_fx_spread_idr, account_expense_fx_swap_idr, account_equity_fx_settlement,
  currency_usdc, currency_idr,
}
use selatpay.Saga.Steps.Queries.{find_intent, set_intent_state}
use selatpay.Saga.Steps.ApplyPayoutResult.{
  mark_paid_out, fx_swap_entry, post_fx_swap_usdc, disbursed_entry, post_payout_disbursed_idr,
}
use selatpay.Saga.Steps.ApplyPayoutResult.Booked.{Booked, account-Booked, posted-Booked}

-- An intent that is not settling is left as it is.
pub mark_paid_out_from :
    (id : Uuid) (i : PaymentIntent) (w : World)
    → i.state ≢ IntentState.settling
    → mark_paid_out id i w ≡ (ok step_emit_completed, w)
unfolding mark_paid_out
mark_paid_out_from id i w apart = go i.state refl
  where
    go : (s : IntentState) → i.state ≡ s → mark_paid_out id i w ≡ (ok step_emit_completed, w)
    go IntentState.pending h = rw (mark_paid_out, h) refl
    go IntentState.funded h = rw (mark_paid_out, h) refl
    go IntentState.settling h = absurd (apart h)
    go IntentState.paid_out h = rw (mark_paid_out, h) refl
    go IntentState.completed h = rw (mark_paid_out, h) refl
    go IntentState.expired h = rw (mark_paid_out, h) refl
    go IntentState.failed h = rw (mark_paid_out, h) refl

-- What marking an intent leaves: the intent but for its state, and the other tables.
pub record Marked (id : Uuid) (i : PaymentIntent) (next : Text) (w v : World) : Type 0 where
  pub state : IntentState
  pub named : next ≡ step_emit_completed
  pub found : find_intent id v.db.payment_intents ≡ some (record i { state = state })
  pub not_settling : state ≢ IntentState.settling
  pub others : v.db ≡ record (w.db) { payment_intents = v.db.payment_intents }

pub mark_paid_out_ok :
    (id : Uuid) (i : PaymentIntent) (next : Text) (w v : World)
    → find_intent id w.db.payment_intents ≡ some i
    → mark_paid_out id i w ≡ (ok next, v)
    → Marked id i next w v
unfolding mark_paid_out find_intent set_intent_state
mark_paid_out_ok id i next w v there e = go i.state refl
  where
    still : i.state ≢ IntentState.settling → Marked id i next w v
    still apart =
        let done = sym (mark_paid_out_from id i w apart) ∙ e in
        record {
          state = i.state;
          named = sym (eq_of_ok (ap (λ t. t.0) done));
          found = ap (λ t. find_intent id t.1.db.payment_intents) (sym done) ∙ there;
          not_settling = apart;
          others =
              subst (λ t. t.1.db ≡ record (w.db) { payment_intents = t.1.db.payment_intents }) done
                refl;
        }

    go : (s : IntentState) → i.state ≡ s → Marked id i next w v
    go IntentState.settling h =
        let done = rw (h, there) at e in
        record {
          state = IntentState.paid_out;
          named = sym (eq_of_ok (ap (λ t. t.0) done));
          found =
              ap (λ t. find? (λ j. j.id == id) t.1.db.payment_intents) (sym done)
              ∙ find?-update_where (λ j. j.id == id)
                  (λ j. record j { state = IntentState.paid_out }) w.db.payment_intents i
                  (λ y hit. hit) there;
          not_settling = λ p. cc;
          others =
              subst (λ t. t.1.db ≡ record (w.db) { payment_intents = t.1.db.payment_intents }) done
                refl;
        }
    go IntentState.pending h = still (λ p. cc)
    go IntentState.funded h = still (λ p. cc)
    go IntentState.paid_out h = still (λ p. cc)
    go IntentState.completed h = still (λ p. cc)
    go IntentState.expired h = still (λ p. cc)
    go IntentState.failed h = still (λ p. cc)

module _ (uuid_string : Uuid → Text) (id : Uuid) where
  pub swap-Booked :
      (amount : ℤ) (po : Payout) (u : Unit {0}) (w v : World)
      → post_fx_swap_usdc uuid_string id amount po w ≡ (ok u, v)
      → Booked (post_fx_swap_usdc uuid_string id amount po) u w v
  unfolding post_fx_swap_usdc
  swap-Booked amount po u w v e =
      account-Booked account_equity_fx_settlement currency_usdc _ u w v e (λ settlement e₁.
        account-Booked account_liability_user_funds currency_usdc _ u w v e₁ (λ user_funds e₂.
          posted-Booked (fx_swap_entry uuid_string id amount po user_funds settlement) u w v e₂))

  pub disbursed-Booked :
      (mid paid spread : ℤ) (po : Payout) (u : Unit {0}) (w v : World)
      → post_payout_disbursed_idr uuid_string id mid paid spread po w ≡ (ok u, v)
      → Booked (post_payout_disbursed_idr uuid_string id mid paid spread po) u w v
  unfolding post_payout_disbursed_idr
  disbursed-Booked mid paid spread po u w v e =
      account-Booked account_expense_fx_swap_idr currency_idr _ u w v e (λ expense e₁.
        account-Booked account_cash_out_idr currency_idr _ u w v e₁ (λ cash_out e₂.
          account-Booked account_revenue_fx_spread_idr currency_idr _ u w v e₂ (λ revenue e₃.
            posted-Booked
              (disbursed_entry uuid_string id mid paid spread po expense cash_out revenue) u w v
              e₃)))
