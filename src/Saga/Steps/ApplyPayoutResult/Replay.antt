-- ===== src/Saga/Steps/ApplyPayoutResult/Replay.antt =====
-- Running `apply_payout_result` again.
use selatpay.Prelude.{
  ◌≡◌, ◌≢◌, refl, sym, ap, ◌∙◌, subst, some, [], inl, inr, find?, ◌==◌, Bool-cases,
}
use selatpay.Prelude.Text.{Text}
use selatpay.Prelude.Int.{pos, ltb_ℤ, ◌-ℤ◌, wrap64}
use selatpay.Db.Tables.{Uuid, PaymentIntent, IntentState, Payout, PayoutState, Quote}
use selatpay.Db.Tx.{ok, World, Tx, fail, catch, ◌>>=◌, wrap, terminal, message, no_rows}
use selatpay.Db.Chain.{bind_ok, bind_from, catch_ok, or_fail_ok}
use selatpay.Ledger.Posting.{entry_by_ref}
use selatpay.Ledger.Posting.Frame.{BooksOnly-trans, BooksOnly-intents}
use selatpay.Saga.Steps.Mid.{compute_mid_idr}
use selatpay.Saga.Steps.Queries.{
  terminal_if_missing, find_intent, get_intent, get_quote, payout_by_intent, get_payout_by_intent,
}
use selatpay.Saga.Steps.ApplyPayoutResult.{
  mark_paid_out, post_fx_swap_usdc, post_payout_disbursed_idr, book_payout, apply_payout_result,
}
use selatpay.Saga.Steps.ApplyPayoutResult.Booked.{Later, Later-trans}
use selatpay.Saga.Steps.ApplyPayoutResult.Marked.{
  mark_paid_out_from, mark_paid_out_ok, swap-Booked, disbursed-Booked,
}

module _ (uuid_string : Uuid → Text) (id : Uuid) where
  -- What a payout that is booked leaves.
  record Done (i : PaymentIntent) (po : Payout) (q : Quote) (next : Text) (w v : World)
      : Type 0 where
    state : IntentState
    found : find_intent id v.db.payment_intents ≡ some (record i { state = state })
    not_settling : state ≢ IntentState.settling
    others : v.db ≡ record (w.db) {
      journal_entries = v.db.journal_entries;
      postings = v.db.postings;
      payment_intents = v.db.payment_intents;
    }
    again : book_payout uuid_string id (record i { state = state }) po q v ≡ (ok next, v)

  book_payout-Done :
      (i : PaymentIntent) (po : Payout) (q : Quote) (next : Text) (w v : World)
      → find_intent id w.db.payment_intents ≡ some i
      → book_payout uuid_string id i po q w ≡ (ok next, v)
      → Done i po q next w v
  unfolding book_payout
  book_payout-Done i po q next w v there e =
      let mid = compute_mid_idr i.quoted_amount_usdc q.rate_num q.rate_scale in
      let spread = wrap64 (mid -ℤ po.amount_idr) in
      let swap = post_fx_swap_usdc uuid_string id i.quoted_amount_usdc po in
      let disburse = post_payout_disbursed_idr uuid_string id mid po.amount_idr spread po in
      elim (Bool-cases (ltb_ℤ spread (pos 0))) [
        | inl negative ↦ let no = rw negative at e in absurd (cc)
        | inr covered ↦
            let (u₁, x, first, rest) =
              bind_ok swap (λ _. disburse >>= λ _. mark_paid_out id i) next w v (rw covered at e) in
            let (u₂, y, second, last) = bind_ok disburse (λ _. mark_paid_out id i) next x v rest in
            let b₁ = swap-Booked uuid_string id i.quoted_amount_usdc po u₁ w x first in
            let b₂ = disbursed-Booked uuid_string id mid po.amount_idr spread po u₂ x y second in
            let m =
              mark_paid_out_ok id i next y v
                (ap (λ d. find_intent id d.payment_intents) b₂.books
                  ∙ ap (λ d. find_intent id d.payment_intents) b₁.books
                  ∙ there)
                last in
            let marked : Later y v = record {
              accounts_kept = ap (λ d. d.accounts) m.others;
              recorded_kept =
                  λ ref k kept. ap (λ d. entry_by_ref ref d.journal_entries) m.others ∙ kept;
            } in
            record {
              state = m.state;
              found = m.found;
              not_settling = m.not_settling;
              others = BooksOnly-intents w y v (BooksOnly-trans w x y b₁.books b₂.books) m.others;
              again = rw covered (
                  bind_from swap
                    (λ _. disburse >>= λ _. mark_paid_out id (record i { state = m.state })) u₁ v v
                    (b₁.again v (Later-trans x y v b₂.later marked))
                  ∙ bind_from disburse (λ _. mark_paid_out id (record i { state = m.state })) u₂ v v
                      (b₂.again v marked)
                  ∙ mark_paid_out_from id (record i { state = m.state }) v m.not_settling
                  ∙ ap (λ n. (ok n, v)) (sym m.named));
            }
      ]

  abbrev with_quote : PaymentIntent → Payout → Tx Text
  with_quote i po = catch (get_quote i.quote_id) wrap >>= λ q. book_payout uuid_string id i po q

  abbrev when_paid : PayoutState → Tx Text → Tx Text
  when_paid s m = elim s [ PayoutState.succeeded ↦ m | _ ↦ fail (terminal (message [])) ]

  abbrev with_payout : PaymentIntent → Payout → Tx Text
  with_payout i po = when_paid po.state (with_quote i po)

  abbrev with_intent : PaymentIntent → Tx Text
  with_intent i = catch (get_payout_by_intent id) terminal_if_missing >>= λ po. with_payout i po

  -- Only a payout that succeeded is booked.
  when_paid_ok :
      (s : PayoutState) (m : Tx Text) (next : Text) (w v : World)
      → when_paid s m w ≡ (ok next, v)
      → (s ≡ PayoutState.succeeded) × (m w ≡ (ok next, v))
  when_paid_ok PayoutState.succeeded m next w v e = (refl, e)
  when_paid_ok PayoutState.pending m next w v e = absurd (cc)
  when_paid_ok PayoutState.submitting m next w v e = absurd (cc)
  when_paid_ok PayoutState.failed m next w v e = absurd (cc)

  apply_payout_result_reads :
      (i : PaymentIntent) (po : Payout) (q : Quote) (w : World)
      → find_intent id w.db.payment_intents ≡ some i
      → payout_by_intent id w.db.payouts ≡ some po
      → po.state ≡ PayoutState.succeeded
      → find? (λ x. x.id == i.quote_id) w.db.quotes ≡ some q
      → apply_payout_result uuid_string id w ≡ book_payout uuid_string id i po q w
  unfolding apply_payout_result
  apply_payout_result_reads i po q w there₁ there₂ paid there₃ =
      bind_from (catch (get_intent id) wrap) with_intent i w w (rw there₁ refl)
      ∙ bind_from (catch (get_payout_by_intent id) terminal_if_missing) (with_payout i) po w w
          (rw there₂ refl)
      ∙ ap (λ s. when_paid s (with_quote i po) w) paid
      ∙ bind_from (catch (get_quote i.quote_id) wrap) (book_payout uuid_string id i po) q w w
          (rw there₃ refl)

  -- What a payout that was booked leaves: an intent that is not settling, and no table touched but the
  -- ledger's and the intents'.
  pub record Applied (w v : World) : Type 0 where
    pub intent : PaymentIntent
    pub intent_found : find_intent id v.db.payment_intents ≡ some intent
    pub not_settling : intent.state ≢ IntentState.settling
    pub payout : Payout
    pub payout_found : payout_by_intent id w.db.payouts ≡ some payout
    pub paid : payout.state ≡ PayoutState.succeeded
    pub others : v.db ≡ record (w.db) {
      journal_entries = v.db.journal_entries;
      postings = v.db.postings;
      payment_intents = v.db.payment_intents;
    }

  -- When the step succeeds, the payout of the intent had succeeded, the intent is not settling, and no
  -- table has changed but the ledger's and the intents'. Running the step again then names the same
  -- next step and changes nothing: neither journal entry is posted twice.
  pub apply_payout_result-replayed :
      (next : Text) (w w' : World)
      → apply_payout_result uuid_string id w ≡ (ok next, w')
      → Applied w w' × (apply_payout_result uuid_string id w' ≡ (ok next, w'))
  unfolding apply_payout_result
  apply_payout_result-replayed next w w' e =
      let (i, a, e₁, rest₁) = bind_ok (catch (get_intent id) wrap) with_intent next w w' e in
      let (there₁, same₁) =
        or_fail_ok (find_intent id w.db.payment_intents) no_rows i w a
          (catch_ok (get_intent id) wrap i w a e₁) in
      let (po, b, e₂, rest₂) =
        bind_ok (catch (get_payout_by_intent id) terminal_if_missing) (with_payout i) next w w'
          (subst (λ x. with_intent i x ≡ (ok next, w')) same₁ rest₁) in
      let (there₂, same₂) =
        or_fail_ok (payout_by_intent id w.db.payouts) no_rows po w b
          (catch_ok (get_payout_by_intent id) terminal_if_missing po w b e₂) in
      let (paid, rest₃) =
        when_paid_ok po.state (with_quote i po) next w w'
          (subst (λ x. with_payout i po x ≡ (ok next, w')) same₂ rest₂) in
      let (q, c, e₃, rest₄) =
        bind_ok (catch (get_quote i.quote_id) wrap) (book_payout uuid_string id i po) next w w'
          rest₃ in
      let (there₃, same₃) =
        or_fail_ok (find? (λ x. x.id == i.quote_id) w.db.quotes) no_rows q w c
          (catch_ok (get_quote i.quote_id) wrap q w c e₃) in
      let done =
        book_payout-Done i po q next w w' there₁
          (subst (λ x. book_payout uuid_string id i po q x ≡ (ok next, w')) same₃ rest₄) in
      let payout_there = ap (λ d. payout_by_intent id d.payouts) done.others ∙ there₂ in
      let quote_there = ap (λ d. find? (λ x. x.id == i.quote_id) d.quotes) done.others ∙ there₃ in
      (
        record {
          intent = record i { state = done.state };
          intent_found = done.found;
          not_settling = done.not_settling;
          payout = po;
          payout_found = there₂;
          paid = paid;
          others = done.others;
        },
        apply_payout_result_reads (record i { state = done.state }) po q w' done.found payout_there
              paid quote_there
            ∙ done.again,
      )
