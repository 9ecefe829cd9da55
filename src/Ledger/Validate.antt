-- ===== src/Ledger/Validate.antt =====
-- `Validate` of internal/ledger/validate.go, and the entry and line types of types.go.
pub mod Balanced
pub mod Complete
use selatpay.Prelude.{
  ℕ, ◌+◌, ◌-◌, ◌%◌, Bool, true, false, ◌&&◌, Option, none, some, List, [], ◌∷◌, ◌==◌, if◌then◌else◌,
}
use selatpay.Prelude.Text.{Text, text_eq, is_blank}
use selatpay.Prelude.Int.{ℤ, pos, leb_ℤ, word, to_bits}
use selatpay.Db.Tables.{Uuid, Direction, debit, credit, other}
use selatpay.Db.Tx.{
  Err, Result, ok, err, no_lines, non_positive_amount, unbalanced, invalid_direction,
  empty_currency, empty_external_ref, empty_kind,
}

pub record Line : Type 0 where
  pub account_id : Uuid
  pub amount : ℤ
  pub currency : Text
  pub direction : Direction

pub record Entry : Type 0 where
  pub external_ref : Text
  pub kind : Text
  pub description : Text
  pub intent_id : Option Uuid
  pub lines : List Line

-- `map[string]int64`; a sum is the pattern of an int64, and a missing key reads as 0.
abbrev pub Sums : Type 0
Sums = List (Text × ℕ)

unfoldable pub sum_of : Text → Sums → ℕ
sum_of c [] = 0
sum_of c ((k, v) ∷ m) = if text_eq k c then v else sum_of c m

unfoldable pub set_sum : Text → ℕ → Sums → Sums
set_sum c v [] = (c, v) ∷ []
set_sum c v ((k, u) ∷ m) = if text_eq k c then (k, v) ∷ m else (k, u) ∷ set_sum c v m

unfoldable pub all_zero : Sums → Bool
all_zero [] = true
all_zero ((_, v) ∷ m) = v == 0 && all_zero m

-- `sums[c] += amount` and `sums[c] -= amount`, in int64.
unfoldable pub tally : Direction → Text → ℕ → Sums → Result Sums
tally debit c n m = ok (set_sum c ((sum_of c m + n) % word) m)
tally credit c n m = ok (set_sum c ((sum_of c m + (word - n % word)) % word) m)
tally (other _) c n m = err invalid_direction

-- The loop body of `Validate`.
unfoldable pub check_line : Line → Sums → Result Sums
unfolding tally to_bits
check_line l m =
    if leb_ℤ l.amount (pos 0)
    then err non_positive_amount
    else if is_blank l.currency
    then err empty_currency
    else tally l.direction l.currency (to_bits l.amount) m

unfoldable pub check_lines : List Line → Sums → Result Sums
check_lines [] m = ok m
check_lines (l ∷ ls) m = elim (check_line l m) [ ok m' ↦ check_lines ls m' | err e ↦ err e ]

check_sums : Result Sums → Option Err
check_sums (ok m) = if all_zero m then none else some unbalanced
check_sums (err e) = some e

check_body : List Line → Option Err
unfolding check_sums
check_body [] = some no_lines
check_body (l ∷ ls) = check_sums (check_lines (l ∷ ls) [])

-- `none` is a nil error.
unfoldable pub validate : Entry → Option Err
unfolding check_body
validate e =
    if is_blank e.external_ref
    then some empty_external_ref
    else if is_blank e.kind
    then some empty_kind
    else check_body e.lines
