-- ===== src/Recon/Agrees.antt =====
-- What the status of a report says.
use selatpay.Prelude.{
  ◌≡◌, ◌↔◌, refl, sym, ap, ◌∙◌, subst, Bool, true, false, Option, none, some, List, Bool-cases, inl,
  inr, arith,
}
use selatpay.Prelude.Text.{Text, codes}
use selatpay.Prelude.Int.{
  ℤ, pos, negsuc, ◌-ℤ◌, wrap64, to_bits, of_bits, is_zero, fits_int64, wrap64_pos, -ℤ_parts,
  eq_of_parts,
}
use selatpay.Chain.Parser.{PublicKey}
use selatpay.Db.Tables.{Account, Posting}
use selatpay.Db.Tx.{Result, ok, err, Db}
use selatpay.Ledger.Posting.{account_balance}
use selatpay.Ledger.Posting.Atomic.{eq_of_ok}
use selatpay.Saga.Steps.Names.{account_hot_wallet_usdc, currency_usdc}
use selatpay.Webhook.Hex.{InInt64, parse_int, parse_int-InInt64}
use selatpay.Recon.{
  Report, Walker, parsed_amount, fetch_on_chain_balance, balance_row, account_balance_by_code,
  status_of, compared, walk,
}

wrapped_apart : (a b : ℤ) → InInt64 a → InInt64 b → wrap64 (a -ℤ b) ≡ pos 0 → a ≡ b
unfolding wrap64 of_bits to_bits ◌-ℤ◌
wrapped_apart a b h k e = ground arith

fits-InInt64 : (z : ℤ) → fits_int64 z ≡ true → InInt64 z
fits-InInt64 (pos n) h = ground arith
fits-InInt64 (negsuc n) h = ground arith

zero_of : (z : ℤ) → is_zero z ≡ true → z ≡ pos 0
zero_of (pos n) h = eq_of_parts (pos n) (pos 0) (ground arith)
zero_of (negsuc n) h = absurd (cc)

status-agrees :
    (a b : ℤ) → InInt64 a → InInt64 b → (status_of (wrap64 (a -ℤ b)) ≡ codes "ok") ↔ (a ≡ b)
status-agrees a b h k = (
  λ e. elim (Bool-cases (is_zero (wrap64 (a -ℤ b)))) [
    | inl none_left ↦ wrapped_apart a b h k (zero_of (wrap64 (a -ℤ b)) none_left)
    | inr some_left ↦ let no = rw some_left at e in absurd (cc)
  ],
  λ same.
      let none_left : a -ℤ b ≡ pos 0 =
        ap (λ x. a -ℤ x) (sym same) ∙ eq_of_parts (a -ℤ a) (pos 0) (omega (arith, -ℤ_parts a a)) in
      ap (λ z. status_of (wrap64 z)) none_left ∙ ap status_of (wrap64_pos 0 (omega arith)),
)

parsed-InInt64 :
    (o : Option ℤ) (z : ℤ) → parsed_amount o ≡ ok z → ((x : ℤ) → o ≡ some x → InInt64 x) → InInt64 z
parsed-InInt64 none z e h = absurd (cc)
parsed-InInt64 (some x) z e h = subst InInt64 (eq_of_ok e) (h x refl)

fetched-InInt64 : (o : Result (Option Text)) (z : ℤ) → fetch_on_chain_balance o ≡ ok z → InInt64 z
unfolding fetch_on_chain_balance
fetched-InInt64 (err x) z e = absurd (cc)
fetched-InInt64 (ok none) z e = absurd (cc)
fetched-InInt64 (ok (some s)) z e = parsed-InInt64 (parse_int s) z e (parse_int-InInt64 s)

row-InInt64 : (ps : List Posting) (o : Option Account) (z : ℤ) → balance_row ps o ≡ ok z → InInt64 z
row-InInt64 ps none z e = absurd (cc)
row-InInt64 ps (some a) z e = elim (Bool-cases (fits_int64 (account_balance a ps))) [
  | inl fits ↦ subst InInt64 (eq_of_ok (rw fits at e)) (fits-InInt64 (account_balance a ps) fits)
  | inr wide ↦ let no = rw wide at e in absurd (cc)
]

balance-InInt64 :
    (fails : Bool) (code currency : Text) (db : Db) (z : ℤ)
    → account_balance_by_code fails code currency db ≡ ok z
    → InInt64 z
unfolding account_balance_by_code
balance-InInt64 true code currency db z e = absurd (cc)
balance-InInt64 false code currency db z e = row-InInt64 db.postings _ z e

-- A walk that returns a report says ok exactly if the amount on the chain is the ledger's balance,
-- whatever the wrap-around of their difference.
pub walk-agrees :
    (walker : Walker) (token_balance : PublicKey → Result (Option Text)) (fails : Bool) (db : Db)
    (r : Report)
    → walk walker token_balance fails db ≡ ok r
    → (r.status ≡ codes "ok") ↔ (r.on_chain_amount ≡ r.ledger_amount)
unfolding walk
walk-agrees walker token_balance fails db r e =
    go (fetch_on_chain_balance (token_balance walker.hot_wallet_ata))
      (account_balance_by_code fails account_hot_wallet_usdc currency_usdc db) refl refl e
  where
    go :
        (c l : Result ℤ)
        → fetch_on_chain_balance (token_balance walker.hot_wallet_ata) ≡ c
        → account_balance_by_code fails account_hot_wallet_usdc currency_usdc db ≡ l
        → compared walker c l ≡ ok r
        → (r.status ≡ codes "ok") ↔ (r.on_chain_amount ≡ r.ledger_amount)
    go (err x) l f g h = absurd (cc)
    go (ok c) (err x) f g h = absurd (cc)
    go (ok c) (ok l) f g h =
        subst (λ q. (q.status ≡ codes "ok") ↔ (q.on_chain_amount ≡ q.ledger_amount)) (eq_of_ok h)
          (status-agrees c l (fetched-InInt64 (token_balance walker.hot_wallet_ata) c f)
            (balance-InInt64 fails account_hot_wallet_usdc currency_usdc db l g))
