-- ===== src/Recon/Balance.antt =====
-- The hot wallet's account after a deposit was credited.
use selatpay.Prelude.{
  ℕ, suc, ◌≡◌, refl, sym, ap, ◌∙◌, true, false, Option, none, some, List, [], ◌∷◌, ◌++◌, ◌==◌,
  Bool-cases, inl, inr, arith,
}
use selatpay.Prelude.Text.{Text, codes}
use selatpay.Prelude.Int.{ℤ, pos, ◌+ℤ◌, +ℤ_parts, eq_of_parts}
use selatpay.Db.Tables.{Uuid, Account, AccountType, Posting, JournalEntry}
use selatpay.Db.Tx.{Err, ok, World, catch, wrap}
use selatpay.Db.Chain.{bind_ok, catch_ok}
use selatpay.Ledger.Validate.{Entry, validate}
use selatpay.Ledger.Posting.{account_balance, natural, entry_by_ref, post_tx, post_with}
use selatpay.Ledger.Posting.Posted.{posted, insert_entry-posted}
use selatpay.Ledger.Posting.Net.{+ℤ_assoc, zero_left}
use selatpay.Ledger.Posting.Frame.{post_tx-BooksOnly}
use selatpay.Saga.Steps.Queries.{find_intent}
use selatpay.Saga.Steps.CreditDeposit.{credit_deposit, deposit_entry, mark_funded}
use selatpay.Saga.Steps.CreditDeposit.Marked.{mark_funded_ok}
use selatpay.Saga.Steps.CreditDeposit.Replay.{Read, credit_deposit-Read}

account_balance-append :
    (a : Account) (ps qs : List Posting)
    → account_balance a (ps ++ qs) ≡ account_balance a ps +ℤ account_balance a qs
unfolding account_balance
account_balance-append a [] qs = sym (zero_left (account_balance a qs))
account_balance-append a (p ∷ ps) qs = elim (Bool-cases (p.account_id == a.id)) [
  | inl hit ↦
      rw (hit, account_balance-append a ps qs)
        (+ℤ_assoc (natural a.kind p.direction p.amount) (account_balance a ps)
          (account_balance a qs))
  | inr miss ↦ rw (miss, account_balance-append a ps qs) refl
]

zero_right : (a : ℤ) → a +ℤ pos 0 ≡ a
zero_right a = eq_of_parts (a +ℤ pos 0) a (omega (arith, +ℤ_parts a (pos 0)))

-- A post under a reference that is new adds the entry's postings.
post_tx-posted :
    (e : Entry) (w v : World) (j : JournalEntry)
    → entry_by_ref e.external_ref w.db.journal_entries ≡ none
    → post_tx e w ≡ (ok j, v)
    → v.db.postings ≡ w.db.postings ++ posted w.next_id (suc w.next_id) e.lines
unfolding post_tx post_with
post_tx-posted e w v j new p = go (validate e) refl
  where
    go :
        (c : Option Err)
        → validate e ≡ c
        → v.db.postings ≡ w.db.postings ++ posted w.next_id (suc w.next_id) e.lines
    go (some x) valid = let no = rw valid at p in absurd (cc)
    go none valid = (insert_entry-posted e w v j (rw (valid, new) at p)).0

module _ (uuid_string : Uuid → Text) (id : Uuid) where
  -- The account of the hot wallet gains what the chain saw.
  deposit_balance :
      (w : World) (x : Read uuid_string id w) (i n : ℕ)
      → x.hot_wallet.kind ≡ AccountType.asset
      → (x.user_funds.id == x.hot_wallet.id) ≡ false
      → account_balance x.hot_wallet
          (posted i n (deposit_entry uuid_string id x.deposit x.hot_wallet x.user_funds).lines)
        ≡ x.deposit.amount
  unfolding account_balance posted deposit_entry natural
  deposit_balance w x i n asset apart =
      let self : (x.hot_wallet.id == x.hot_wallet.id) ≡ true = ground arith in
      rw (self, apart, asset) (zero_right x.deposit.amount)

  -- What a deposit that is credited for the first time leaves of the books.
  pub credit_deposit-balance :
      (w w' : World) (x : Read uuid_string id w) (next : Text)
      → entry_by_ref (codes "credit_deposit:" ++ uuid_string id) w.db.journal_entries ≡ none
      → credit_deposit uuid_string id w ≡ (ok next, w')
      → x.hot_wallet.kind ≡ AccountType.asset
      → (x.user_funds.id == x.hot_wallet.id) ≡ false
      → (account_balance x.hot_wallet w'.db.postings
          ≡ account_balance x.hot_wallet w.db.postings +ℤ x.deposit.amount)
        × (w'.db.accounts ≡ w.db.accounts)
  unfolding deposit_entry
  credit_deposit-balance w w' x next new e asset apart =
      let entry = deposit_entry uuid_string id x.deposit x.hot_wallet x.user_funds in
      let (j, v, first, second) =
        bind_ok (catch (post_tx entry) wrap) (λ _. mark_funded id x.intent) next w w'
          (sym (credit_deposit-Read uuid_string id w x) ∙ e) in
      let p = catch_ok (post_tx entry) wrap j w v first in
      let books = post_tx-BooksOnly entry w v j p in
      let m =
        mark_funded_ok id x.intent next v w'
          (ap (λ d. find_intent id d.payment_intents) books ∙ x.intent_found) second in
      let added = post_tx-posted entry w v j new p in
      (
        ap (λ d. account_balance x.hot_wallet d.postings) m.others
            ∙ ap (account_balance x.hot_wallet) added
            ∙ account_balance-append x.hot_wallet w.db.postings
                (posted w.next_id (suc w.next_id) entry.lines)
            ∙ ap (λ z. account_balance x.hot_wallet w.db.postings +ℤ z)
                (deposit_balance w x w.next_id (suc w.next_id) asset apart),
        ap (λ d. d.accounts) m.others ∙ ap (λ d. d.accounts) books,
      )
