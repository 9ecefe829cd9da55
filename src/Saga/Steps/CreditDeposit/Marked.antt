-- ===== src/Saga/Steps/CreditDeposit/Marked.antt =====
-- The account that a step looks up, and the intent that `credit_deposit` marks.
use selatpay.Prelude.{
  ◌≡◌, ◌≢◌, refl, sym, ap, ◌∙◌, subst, Option, some, find?, find?-update_where, ◌==◌, ◌&&◌,
}
use selatpay.Prelude.Text.{Text, text_eq}
use selatpay.Db.Tables.{Uuid, Account, PaymentIntent, IntentState}
use selatpay.Db.Tx.{ok, World, Db, account_not_found}
use selatpay.Db.Chain.{or_fail_ok}
use selatpay.Ledger.Posting.{get_account_by_code_tx}
use selatpay.Ledger.Posting.Atomic.{eq_of_ok}
use selatpay.Saga.Steps.Names.{step_trigger_payout}
use selatpay.Saga.Steps.Queries.{find_intent, set_intent_state}
use selatpay.Saga.Steps.CreditDeposit.{mark_funded}

-- The account of a code, if there is one.
abbrev pub find_account : Text → Text → Db → Option Account
find_account code currency db =
    find? (λ a. text_eq a.code code && text_eq a.currency currency) db.accounts

pub get_account_ok :
    (code currency : Text) (a : Account) (w v : World)
    → get_account_by_code_tx code currency w ≡ (ok a, v)
    → (find_account code currency w.db ≡ some a) × (v ≡ w)
unfolding get_account_by_code_tx
get_account_ok code currency a w v e =
    or_fail_ok (find_account code currency w.db) account_not_found a w v e

pub get_account_from :
    (code currency : Text) (a : Account) (w : World)
    → find_account code currency w.db ≡ some a
    → get_account_by_code_tx code currency w ≡ (ok a, w)
unfolding get_account_by_code_tx
get_account_from code currency a w e = rw e refl

-- An intent that is not pending is left as it is.
pub mark_funded_from :
    (id : Uuid) (i : PaymentIntent) (w : World)
    → i.state ≢ IntentState.pending
    → mark_funded id i w ≡ (ok step_trigger_payout, w)
unfolding mark_funded
mark_funded_from id i w apart = go i.state refl
  where
    go : (s : IntentState) → i.state ≡ s → mark_funded id i w ≡ (ok step_trigger_payout, w)
    go IntentState.pending h = absurd (apart h)
    go IntentState.funded h = rw (mark_funded, h) refl
    go IntentState.settling h = rw (mark_funded, h) refl
    go IntentState.paid_out h = rw (mark_funded, h) refl
    go IntentState.completed h = rw (mark_funded, h) refl
    go IntentState.expired h = rw (mark_funded, h) refl
    go IntentState.failed h = rw (mark_funded, h) refl

-- What marking an intent leaves: an intent that is not pending, and the other tables.
pub record Marked (id : Uuid) (next : Text) (w v : World) : Type 0 where
  pub intent : PaymentIntent
  pub named : next ≡ step_trigger_payout
  pub found : find_intent id v.db.payment_intents ≡ some intent
  pub not_pending : intent.state ≢ IntentState.pending
  pub others : v.db ≡ record (w.db) { payment_intents = v.db.payment_intents }

pub mark_funded_ok :
    (id : Uuid) (i : PaymentIntent) (next : Text) (w v : World)
    → find_intent id w.db.payment_intents ≡ some i
    → mark_funded id i w ≡ (ok next, v)
    → Marked id next w v
unfolding mark_funded find_intent set_intent_state
mark_funded_ok id i next w v there e = go i.state refl
  where
    still : i.state ≢ IntentState.pending → Marked id next w v
    still apart =
        let done = sym (mark_funded_from id i w apart) ∙ e in
        record {
          intent = i;
          named = sym (eq_of_ok (ap (λ t. t.0) done));
          found = ap (λ t. find_intent id t.1.db.payment_intents) (sym done) ∙ there;
          not_pending = apart;
          others =
              subst (λ t. t.1.db ≡ record (w.db) { payment_intents = t.1.db.payment_intents }) done
                refl;
        }

    go : (s : IntentState) → i.state ≡ s → Marked id next w v
    go IntentState.pending h =
        let done = rw (h, there) at e in
        record {
          intent = record i { state = IntentState.funded };
          named = sym (eq_of_ok (ap (λ t. t.0) done));
          found =
              ap (λ t. find? (λ j. j.id == id) t.1.db.payment_intents) (sym done)
              ∙ find?-update_where (λ j. j.id == id) (λ j. record j { state = IntentState.funded })
                  w.db.payment_intents i (λ y hit. hit) there;
          not_pending = λ p. cc;
          others =
              subst (λ t. t.1.db ≡ record (w.db) { payment_intents = t.1.db.payment_intents }) done
                refl;
        }
    go IntentState.funded h = still (λ p. cc)
    go IntentState.settling h = still (λ p. cc)
    go IntentState.paid_out h = still (λ p. cc)
    go IntentState.completed h = still (λ p. cc)
    go IntentState.expired h = still (λ p. cc)
    go IntentState.failed h = still (λ p. cc)
