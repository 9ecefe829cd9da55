-- ===== src/Recon/Credited.antt =====
-- A walk after a deposit was credited.
use selatpay.Prelude.{
  ◌≡◌, refl, sym, ap, ◌∙◌, true, false, ◌&&◌, Option, none, some, ◌++◌, ◌==◌, Bool-cases, inl, inr,
  find?, arith,
}
use selatpay.Prelude.Text.{Text, codes, text_eq}
use selatpay.Prelude.Int.{ℤ, pos, ◌+ℤ◌, ◌-ℤ◌, wrap64, fits_int64, +ℤ_parts, -ℤ_parts, eq_of_parts}
use selatpay.Prelude.Decimal.{format_int}
use selatpay.Chain.Parser.{PublicKey}
use selatpay.Db.Tables.{Uuid, Account, AccountType}
use selatpay.Db.Tx.{Result, ok, err, World, Db}
use selatpay.Ledger.Posting.{account_balance, entry_by_ref}
use selatpay.Ledger.Posting.Atomic.{eq_of_ok}
use selatpay.Saga.Steps.Names.{account_hot_wallet_usdc, currency_usdc}
use selatpay.Saga.Steps.CreditDeposit.{credit_deposit}
use selatpay.Saga.Steps.CreditDeposit.Marked.{find_account}
use selatpay.Saga.Steps.CreditDeposit.Replay.{Read}
use selatpay.Webhook.Hex.{InInt64, parse_int-format_int}
use selatpay.Recon.{
  Report, Walker, fetch_on_chain_balance, account_balance_by_code, status_of, report_of, compared,
  walk,
}
use selatpay.Recon.Balance.{credit_deposit-balance}

-- Both sides of a difference moved by one amount.
shifted : (a b z : ℤ) → a +ℤ z -ℤ (b +ℤ z) ≡ a -ℤ b
shifted a b z =
    eq_of_parts (a +ℤ z -ℤ (b +ℤ z)) (a -ℤ b)
      (omega (arith, +ℤ_parts a z, +ℤ_parts b z, -ℤ_parts (a +ℤ z) (b +ℤ z), -ℤ_parts a b))

module _ (uuid_string : Uuid → Text) (id : Uuid) where
  module _ (walker : Walker) where
    -- What a walk that returns a report went through.
    record Walked (r : Report) (db : Db) : Type 0 where
      ledger_read :
          account_balance_by_code false account_hot_wallet_usdc currency_usdc db
          ≡ ok r.ledger_amount
      told : r ≡ report_of walker r.on_chain_amount r.ledger_amount

    walk_ok :
        (before : PublicKey → Result (Option Text)) (r : Report) (db : Db)
        → walk walker before false db ≡ ok r
        → Walked r db
    unfolding walk
    walk_ok before r db e =
        go (fetch_on_chain_balance (before walker.hot_wallet_ata))
          (account_balance_by_code false account_hot_wallet_usdc currency_usdc db) refl e
      where
        go :
            (c l : Result ℤ)
            → account_balance_by_code false account_hot_wallet_usdc currency_usdc db ≡ l
            → compared walker c l ≡ ok r
            → Walked r db
        go (err x) l h e = absurd (cc)
        go (ok c) (err x) h e = absurd (cc)
        go (ok c) (ok l) h e =
            let same : report_of walker c l ≡ r = eq_of_ok e in
            record {
              ledger_read = h ∙ ap (λ x. ok x.ledger_amount) same;
              told = sym same ∙ ap (λ x. report_of walker x.on_chain_amount x.ledger_amount) same;
            }

    InInt64-fits : (z : ℤ) → InInt64 z → fits_int64 z ≡ true
    InInt64-fits (pos n) h = ground arith
    InInt64-fits (ℤ.negsuc n) h = ground arith

    balance_of_row :
        (a : Account) (db : Db) (l : ℤ)
        → find_account account_hot_wallet_usdc currency_usdc db ≡ some a
        → account_balance_by_code false account_hot_wallet_usdc currency_usdc db ≡ ok l
        → account_balance a db.postings ≡ l
    unfolding account_balance_by_code
    balance_of_row a db l found e = elim (Bool-cases (fits_int64 (account_balance a db.postings))) [
      | inl fits ↦ eq_of_ok (rw (found, fits) at e)
      | inr wide ↦ let no = rw (found, wide) at e in absurd (cc)
    ]

    balance_row_ok :
        (a : Account) (db : Db) (l : ℤ)
        → find_account account_hot_wallet_usdc currency_usdc db ≡ some a
        → account_balance a db.postings ≡ l
        → InInt64 l
        → account_balance_by_code false account_hot_wallet_usdc currency_usdc db ≡ ok l
    unfolding account_balance_by_code
    balance_row_ok a db l found sum fits = rw (found, sum, InInt64-fits l fits) refl

    -- When the node reports that the hot wallet has gained a finalized deposit, and the step has
    -- credited that deposit for the first time, a walk whose query does not fail reports what the
    -- walk before it reported, with both amounts raised by the deposit: the difference and the
    -- status are the same. The raised amounts are int64, and the hot wallet's account is an asset
    -- other than the account of user funds.
    pub walk-credit_deposit :
        (before after : PublicKey → Result (Option Text)) (next : Text) (r : Report) (w w' : World)
        (x : Read uuid_string id w)
        → x.hot_wallet.kind ≡ AccountType.asset
        → (x.user_funds.id == x.hot_wallet.id) ≡ false
        → entry_by_ref (codes "credit_deposit:" ++ uuid_string id) w.db.journal_entries ≡ none
        → credit_deposit uuid_string id w ≡ (ok next, w')
        → walk walker before false w.db ≡ ok r
        → after walker.hot_wallet_ata
          ≡ ok (some (format_int (r.on_chain_amount +ℤ x.deposit.amount)))
        → InInt64 (r.on_chain_amount +ℤ x.deposit.amount)
        → InInt64 (r.ledger_amount +ℤ x.deposit.amount)
        → walk walker after false w'.db
          ≡ ok (record r {
            on_chain_amount = r.on_chain_amount +ℤ x.deposit.amount;
            ledger_amount = r.ledger_amount +ℤ x.deposit.amount;
          })
    unfolding walk fetch_on_chain_balance
    walk-credit_deposit before after next r w w' x asset apart new e walks seen fits fits' =
        let z = x.deposit.amount in
        let c = r.on_chain_amount +ℤ z in
        let l = r.ledger_amount +ℤ z in
        let walked = walk_ok before r w.db walks in
        let (sum, accounts) = credit_deposit-balance uuid_string id w w' x next new e asset apart in
        let was =
          balance_of_row x.hot_wallet w.db r.ledger_amount x.hot_wallet_found walked.ledger_read in
        let now =
          balance_row_ok x.hot_wallet w'.db l
            (ap
                (λ rows.
                  find?
                    (λ a.
                      text_eq a.code account_hot_wallet_usdc && text_eq a.currency currency_usdc)
                    rows)
                accounts
              ∙ x.hot_wallet_found)
            (sum ∙ ap (λ b. b +ℤ z) was) fits' in
        let differing : ℤ → Report = λ d. record {
          hot_wallet_ata = walker.hot_wallet_ata;
          mint = walker.mint;
          on_chain_amount = c;
          ledger_amount = l;
          difference = wrap64 d;
          status = status_of (wrap64 d);
        } in
        rw (seen, parse_int-format_int c fits, now)
          (ap (λ d. ok (differing d)) (shifted r.on_chain_amount r.ledger_amount z)
            ∙ ap {A = Report} (λ q. ok (record q { on_chain_amount = c; ledger_amount = l }))
                (sym walked.told))
