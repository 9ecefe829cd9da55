-- ===== src/Ledger/Validate/Complete.antt =====
-- `Validate` of internal/ledger/validate.go accepts every entry that may be posted.
use selatpay.Prelude.{
  ℕ, ◌+◌, ◌-◌, ◌%◌, ◌<◌, ◌≡◌, refl, sym, ◌∙◌, ap, ◌⊎◌, inl, inr, true, false, none, List, [], ◌∷◌,
  arith, All, Bool-cases, ◌↔◌,
}
use selatpay.Prelude.Text.{Text, text_eq, text_eq_iff, text_eq_refl}
use selatpay.Prelude.Int.{ℤ, pos, negsuc, pos_part, word, leb_ℤ, to_bits}
use selatpay.Db.Tables.{Direction, debit, credit, other}
use selatpay.Db.Tx.{ok}
use selatpay.Ledger.Validate.{
  Line, Entry, Sums, sum_of, set_sum, all_zero, tally, check_line, check_lines, check_body,
  check_sums, validate,
}
use selatpay.Ledger.Validate.Balanced.{
  IsInt64, IsPostable, IsBalanced, debits, credits, check_lines_sound, validate-IsBalanced,
}

-- A key that the map has no entry for.
abbrev Absent : Text → Sums → Type 0
Absent k m = All (λ e. text_eq e.0 k ≡ false) m

-- One entry to a key, each a pattern of 64 bits.
IsMap : Sums → Type 0
IsMap [] = Unit {0}
IsMap ((k, v) ∷ m) = Absent k m × (v < word) × IsMap m

sum_of-Absent : (k : Text) (m : Sums) → Absent k m → sum_of k m ≡ 0
unfolding sum_of
sum_of-Absent k [] h = refl
sum_of-Absent k ((j, v) ∷ m) h = rw h.0 (sum_of-Absent k m h.1)

set_sum-Absent :
    (c k : Text) (v : ℕ) (m : Sums) → text_eq c k ≡ false → Absent k m → Absent k (set_sum c v m)
unfolding set_sum
set_sum-Absent c k v [] d h = (d, tt)
set_sum-Absent c k v ((j, u) ∷ m) d h = elim (Bool-cases (text_eq j c)) [
  | inl same ↦ rw same h
  | inr other_key ↦ rw other_key (h.0, set_sum-Absent c k v m d h.1)
]

set_sum-IsMap : (c : Text) (v : ℕ) (m : Sums) → v < word → IsMap m → IsMap (set_sum c v m)
unfolding set_sum IsMap
set_sum-IsMap c v [] small h = (tt, small, tt)
set_sum-IsMap c v ((j, u) ∷ m) small h = elim (Bool-cases (text_eq j c)) [
  | inl same ↦ rw same (h.0, small, h.2)
  | inr other_key ↦
      let turned : text_eq c j ≡ false = ground (arith, text_eq_iff c j, text_eq_iff j c) in
      rw other_key (set_sum-Absent c j v m turned h.0, h.1, set_sum-IsMap c v m small h.2)
]

-- A map whose every sum is zero has only zero entries.
all_zero-sums : (m : Sums) → IsMap m → ((c : Text) → sum_of c m ≡ 0) → all_zero m ≡ true
unfolding all_zero sum_of IsMap
all_zero-sums [] h zero_sums = refl
all_zero-sums ((k, v) ∷ m) h zero_sums =
    let at_key : sum_of k ((k, v) ∷ m) ≡ 0 = zero_sums k in
    let head : v ≡ 0 = rw (text_eq_refl k) at at_key in
    let tail : all_zero m ≡ true = all_zero-sums m h.2 (λ c. elim (Bool-cases (text_eq k c)) [
      | inl same ↦ ap (λ j. sum_of j m) (sym ((text_eq_iff k c).0 same)) ∙ sum_of-Absent k m h.0
      | inr apart ↦ let at_key : sum_of c ((k, v) ∷ m) ≡ 0 = zero_sums c in rw apart at at_key
    ]) in
    ground arith

tally-IsMap :
    (d : Direction) (c : Text) (n : ℕ) (m : Sums)
    → (d ≡ debit) ⊎ (d ≡ credit)
    → IsMap m
    → (m' : Sums) × (tally d c n m ≡ ok m') × IsMap m'
unfolding tally
tally-IsMap debit c n m directed h = (
  set_sum c ((sum_of c m + n) % word) m,
  refl,
  set_sum-IsMap c ((sum_of c m + n) % word) m (omega arith) h,
)
tally-IsMap credit c n m directed h = (
  set_sum c ((sum_of c m + (word - n % word)) % word) m,
  refl,
  set_sum-IsMap c ((sum_of c m + (word - n % word)) % word) m (omega arith) h,
)
tally-IsMap (other t) c n m directed h = absurd (elim directed [ inl e ↦ cc | inr e ↦ cc ])

not_negative : (a : ℤ) → 0 < pos_part a → leb_ℤ a (pos 0) ≡ false
not_negative (pos n) h = ground arith
not_negative (negsuc n) h = absurd (omega arith)

to_bits_exact : (a : ℤ) → IsInt64 a → 0 < pos_part a → to_bits a ≡ pos_part a
unfolding to_bits
to_bits_exact (pos n) range h = omega arith
to_bits_exact (negsuc n) range h = absurd (omega arith)

check_line-passes :
    (l : Line) (m : Sums)
    → IsInt64 l.amount
    → IsPostable l
    → check_line l m ≡ tally l.direction l.currency (pos_part l.amount) m
unfolding check_line
check_line-passes l m range p =
    let positive : leb_ℤ l.amount (pos 0) ≡ false = not_negative l.amount p.positive in
    rw (positive, p.currency_given)
      (ap (λ n. tally l.direction l.currency n m) (to_bits_exact l.amount range p.positive))

run :
    (l : Line) (ls : List Line) (m m1 m' : Sums)
    → check_line l m ≡ ok m1
    → check_lines ls m1 ≡ ok m'
    → check_lines (l ∷ ls) m ≡ ok m'
unfolding check_lines
run l ls m m1 m' step rest = rw (check_lines, step) rest

-- The loop runs through lines that are all postable.
check_lines-passes :
    (ls : List Line) (m : Sums)
    → All (λ l. IsInt64 l.amount) ls
    → All IsPostable ls
    → IsMap m
    → (m' : Sums) × (check_lines ls m ≡ ok m') × IsMap m'
unfolding check_lines
check_lines-passes [] m range p h = (m, refl, h)
check_lines-passes (l ∷ ls) m (range, ranges) (p, ps) h =
    let (m1, step, h1) = tally-IsMap l.direction l.currency (pos_part l.amount) m p.directed h in
    let (m', rest, h') = check_lines-passes ls m1 ranges ps h1 in
    (m', run l ls m m1 m' (check_line-passes l m range p ∙ step) rest, h')

body_passes :
    (ls : List Line) (m : Sums)
    → ¬ (ls ≡ [])
    → check_lines ls [] ≡ ok m
    → all_zero m ≡ true
    → check_body ls ≡ none
unfolding check_body check_sums
body_passes [] m given run zero_sums = absurd (given refl)
body_passes (l ∷ ls) m given run zero_sums = rw (run, zero_sums)

no_difference :
    (s d k : ℕ) → s < word → (s + k) % word ≡ (0 + d) % word → d % word ≡ k % word → s ≡ 0
no_difference s d k small h e = omega arith

sum_of-lt-word : (c : Text) (m : Sums) → IsMap m → sum_of c m < word
unfolding sum_of IsMap
sum_of-lt-word c [] h = omega arith
sum_of-lt-word c ((k, v) ∷ m) h = ground (arith, sum_of-lt-word c m h.2)

IsBalanced-accepted :
    (e : Entry) → All (λ l. IsInt64 l.amount) e.lines → IsBalanced e → validate e ≡ none
unfolding validate sum_of IsMap
IsBalanced-accepted e range b =
    let (m, run, is_map) = check_lines-passes e.lines [] range b.postable tt in
    let (_, sums) = check_lines_sound e.lines [] m range run in
    let zero_sums : (c : Text) → sum_of c m ≡ 0 = λ c.
      no_difference (sum_of c m) (debits c e.lines) (credits c e.lines) (sum_of-lt-word c m is_map)
        (sums c) (b.balanced c) in
    rw (b.named.0, b.named.1)
      (body_passes e.lines m b.some_line run (all_zero-sums m is_map zero_sums))

-- For an entry of int64 amounts, `Validate` returns no error exactly if the entry may be posted: it has
-- a reference, a kind and a line, every line is postable, and in each currency debits and credits
-- agree modulo 2^64.
pub validate_iff :
    (e : Entry) → All (λ l. IsInt64 l.amount) e.lines → (validate e ≡ none) ↔ IsBalanced e
validate_iff e range = (validate-IsBalanced e range, IsBalanced-accepted e range)
