-- ===== src/Saga/Steps/ApplyPayoutResult/Entries.antt =====
-- The journal entry of a payout (`postPayoutDisbursedIDR` of internal/saga/steps/apply_payout_result.go)
-- against the ledger's validation.
use selatpay.Prelude.{
  ℕ, zero, ap, sym, subst, List, ◌%◌, lt→ltb, suc, ◌+◌, ◌≤◌, ◌<◌, ◌≡◌, refl, inl, inr, true, false,
  none, [], ◌∷◌, if◌then◌else◌, arith, All,
}
use selatpay.Prelude.Text.{Text, is_blank, blank_from-marked}
use selatpay.Prelude.Int.{pos, max_int64, word}
use selatpay.Db.Tables.{Uuid, Account, Payout}
use selatpay.Ledger.Validate.{validate, Line}
use selatpay.Ledger.Validate.Balanced.{IsInt64, IsPostable, debits, credits}
use selatpay.Ledger.Validate.Complete.{validate_iff}
use selatpay.Saga.Steps.Names.{currency_idr}
use selatpay.Saga.Steps.ApplyPayoutResult.{line, disbursed_lines, disbursed_entry}

module _ (uuid_string : Uuid → Text) (intent_id : Uuid) (po : Payout)
    (expense cash_out revenue : Account) where
  -- The spread's line is there exactly if the spread is not zero.
  with_spread :
      (mid paid spread : ℕ)
      → disbursed_lines uuid_string (pos mid) (pos paid) (pos (suc spread)) expense cash_out revenue
        ≡ line expense (pos mid) currency_idr true
          ∷ line cash_out (pos paid) currency_idr false
          ∷ line revenue (pos (suc spread)) currency_idr false
          ∷ []
  unfolding disbursed_lines
  with_spread mid paid spread =
      ap
        (λ b.
          line expense (pos mid) currency_idr true
          ∷ line cash_out (pos paid) currency_idr false
          ∷ (if b then line revenue (pos (suc spread)) currency_idr false ∷ [] else []))
        (lt→ltb 0 (suc spread + 0) (omega arith))

  -- What the entry's validation asks of its lines.
  abbrev Accepted : List Line → Type 0
  Accepted ls =
      All (λ l. IsInt64 l.amount) ls
      × All IsPostable ls
      × ((c : Text) → debits c ls % word ≡ credits c ls % word)

  lines-Accepted :
      (mid paid spread : ℕ)
      → 0 < paid
      → mid ≡ paid + spread
      → mid ≤ max_int64
      → Accepted
          (disbursed_lines uuid_string (pos mid) (pos paid) (pos spread) expense cash_out revenue)
  unfolding disbursed_lines debits credits is_blank
  lines-Accepted mid paid zero h e range = (
    (omega arith, (omega arith, tt)),
    (
      record { positive = omega arith; currency_given = refl; directed = inl refl },
      (record { positive = omega arith; currency_given = refl; directed = inr refl }, tt),
    ),
    λ c. ground arith,
  )
  lines-Accepted mid paid (suc spread) h e range =
      subst Accepted (sym (with_spread mid paid spread)) (
        (omega arith, (omega arith, (omega arith, tt))),
        (
          record { positive = omega arith; currency_given = refl; directed = inl refl },
          (
            record { positive = omega arith; currency_given = refl; directed = inr refl },
            (record { positive = omega arith; currency_given = refl; directed = inr refl }, tt),
          ),
        ),
        λ c. ground arith,
      )

  -- The entry of a payout is accepted by the ledger's validation, with a spread or without one, where a
  -- positive amount was paid and the mid value, an int64, is that amount and the spread.
  pub disbursed_entry-accepted :
      (mid paid spread : ℕ)
      → 0 < paid
      → mid ≡ paid + spread
      → mid ≤ max_int64
      → validate (
          disbursed_entry uuid_string intent_id
            (pos mid)
            (pos paid)
            (pos spread)
            po
            expense
            cash_out
            revenue)
        ≡ none
  unfolding disbursed_entry disbursed_lines is_blank
  disbursed_entry-accepted mid paid spread h e range =
      let (int64s, postable, balanced) = lines-Accepted mid paid spread h e range in
      (validate_iff
          (disbursed_entry uuid_string intent_id (pos mid) (pos paid) (pos spread) po expense
            cash_out revenue)
          int64s).1
        (record {
          named = (blank_from-marked (uuid_string intent_id), refl);
          some_line = λ q. cc;
          postable = postable;
          balanced = balanced;
        })
