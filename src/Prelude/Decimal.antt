-- ===== src/Prelude/Decimal.antt =====
-- `strconv.FormatUint`, `strconv.FormatInt` and `strconv.ParseUint`, in base 10.
use selatpay.Prelude.Tests.{ltb, leb, if◌then◌else◌, Bool-cases, le→leb, ltb→lt, lt→ltb}
use selatpay.Prelude.Lists.{length, replicate, All}
use selatpay.Prelude.Text.{Text}
use selatpay.Prelude.Int.{ℤ, pos, negsuc, word}
use Prim.Native.Nat.{ℕ, zero, suc, ◌+◌, ◌-◌, ◌*◌, ◌/◌, ◌%◌, ◌^◌, ◌≤◌, ◌<◌}
use mathlib.Core.Path.{◌≡◌, refl}
use mathlib.Core.Logic.{inl, inr}
use mathlib.Core.Bool.{Bool, true, ◌&&◌}
use mathlib.Core.Option.{Option, none, some}
use mathlib.Core.List.{[], ◌∷◌, ◌++◌}
use native.Mathlib.Nat.{pow-succ'}
use native.Mathlib.Omega.{arith}

-- Least significant digit first, each put in front of those below it; the fuel is above `n`.
format_from : ℕ → ℕ → Text → Text
format_from zero n acc = acc
format_from (suc f) n acc =
    let d : Text = (b'0' + n % 10) ∷ acc in
    let rest = format_from f (n / 10) d in if ltb n 10 then d else rest

unfoldable pub format_uint : ℕ → Text
unfolding format_from
format_uint n = format_from (suc n) n []

unfoldable pub format_int : ℤ → Text
unfolding format_uint
format_int (pos n) = format_uint n
format_int (negsuc n) = b'-' ∷ format_uint (suc n)

abbrev pub is_digit : ℕ → Bool
is_digit c = leb b'0' c && leb c b'9'

-- The value of a run of digits behind an accumulator; `none` at any other byte.
unfoldable pub parse_digits : ℕ → Text → Option ℕ
parse_digits acc [] = some acc
parse_digits acc (c ∷ s) =
    let rest = parse_digits (acc * 10 + (c - b'0')) s in if is_digit c then rest else none

abbrev in_uint64 : Option ℕ → Option ℕ
in_uint64 none = none
in_uint64 (some n) = if ltb n word then some n else none

-- `none` stands for either error of ParseUint: bad syntax, or out of range.
unfoldable pub parse_uint : Text → Option ℕ
unfolding parse_digits
parse_uint [] = none
parse_uint (c ∷ s) = in_uint64 (parse_digits 0 (c ∷ s))

parse_digits-digit :
    (acc d : ℕ) (s : Text)
    → d < 10
    → parse_digits acc ((b'0' + d) ∷ s) ≡ parse_digits (acc * 10 + d) s
unfolding parse_digits
parse_digits-digit acc d s h =
    let e : b'0' + d - b'0' ≡ d = omega arith in
    rw (le→leb b'0' (b'0' + d) (omega arith), le→leb (b'0' + d) b'9' (omega arith), e) refl

parse_digits-format_from :
    (f n : ℕ) (acc : Text) → n < f → parse_digits 0 (format_from f n acc) ≡ parse_digits n acc
unfolding format_from
parse_digits-format_from zero n acc h = elim h [ ]
parse_digits-format_from (suc f) n acc h = elim (Bool-cases (ltb n 10)) [
  | inl small ↦
      let e : 0 * 10 + n % 10 ≡ n = omega (arith, ltb→lt n 10 small) in
      rw (small, parse_digits-digit 0 (n % 10) acc (omega arith), e) refl
  | inr large ↦
      let down : n / 10 < f = ground arith in
      let e : n / 10 * 10 + n % 10 ≡ n = omega arith in
      rw
        (
          large,
          parse_digits-format_from f (n / 10) ((b'0' + n % 10) ∷ acc) down,
          parse_digits-digit (n / 10) (n % 10) acc (omega arith),
          e,
        )
        refl
]

-- Every byte of a printed number is a digit, and there is at least one.
abbrev pub IsDigits : Text → Type 0
IsDigits = All (λ c. is_digit c ≡ true)

digit_of_mod : (n : ℕ) → is_digit (b'0' + n % 10) ≡ true
digit_of_mod n =
    rw (le→leb b'0' (b'0' + n % 10) (omega arith), le→leb (b'0' + n % 10) b'9' (omega arith)) refl

format_from-IsDigits : (f n : ℕ) (acc : Text) → IsDigits acc → IsDigits (format_from f n acc)
unfolding format_from
format_from-IsDigits zero n acc h = h
format_from-IsDigits (suc f) n acc h = elim (Bool-cases (ltb n 10)) [
  | inl small ↦ rw small (digit_of_mod n, h)
  | inr large ↦
      rw large (format_from-IsDigits f (n / 10) ((b'0' + n % 10) ∷ acc) (digit_of_mod n, h))
]

length-format_from : (f n : ℕ) (acc : Text) → length acc ≤ length (format_from f n acc)
unfolding format_from
length-format_from zero n acc = omega arith
length-format_from (suc f) n acc = elim (Bool-cases (ltb n 10)) [
  | inl small ↦ rw small (omega arith)
  | inr large ↦ rw large (omega (arith, length-format_from f (n / 10) ((b'0' + n % 10) ∷ acc)))
]

pub format_uint-IsDigits : (n : ℕ) → IsDigits (format_uint n)
unfolding format_uint
format_uint-IsDigits n = format_from-IsDigits (suc n) n [] tt

pub length-format_uint_pos : (n : ℕ) → 0 < length (format_uint n)
unfolding format_uint
length-format_uint_pos n = elim (Bool-cases (ltb n 10)) [
  | inl small ↦ rw small (omega arith)
  | inr large ↦ rw large (omega (arith, length-format_from n (n / 10) ((b'0' + n % 10) ∷ [])))
]

-- A printed number reads back as itself.
pub parse_digits-format_uint : (n : ℕ) → parse_digits 0 (format_uint n) ≡ some n
unfolding format_uint parse_digits
parse_digits-format_uint n = parse_digits-format_from (suc n) n [] (omega arith)

-- `ParseUint` on a text that is not empty is the value of its digits, if that fits.
pub parse_uint-some :
    (s : Text) (n : ℕ) → 0 < length s → parse_digits 0 s ≡ some n → n < word → parse_uint s ≡ some n
unfolding parse_uint
parse_uint-some [] n h e lt = elim h [ ]
parse_uint-some (c ∷ s) n h e lt = rw e (rw (lt→ltb n word lt) refl)

pub parse_uint-format_uint : (n : ℕ) → n < word → parse_uint (format_uint n) ≡ some n
parse_uint-format_uint n h =
    parse_uint-some (format_uint n) n (length-format_uint_pos n) (parse_digits-format_uint n) h

-- What a digit string stands for, with more digits behind it.
pub parse_digits-zeros :
    (k : ℕ) (s : Text) → parse_digits 0 (replicate k b'0' ++ s) ≡ parse_digits 0 s
unfolding parse_digits
parse_digits-zeros zero s = refl
parse_digits-zeros (suc k) s = parse_digits-zeros k s

length-format_from_le :
    (d f n : ℕ) (acc : Text) → n < 10 ^ suc d → length (format_from f n acc) ≤ suc d + length acc
unfolding format_from
length-format_from_le d zero n acc h = omega arith
length-format_from_le zero (suc f) n acc h = rw (lt→ltb n 10 (omega arith)) (omega arith)
length-format_from_le (suc d) (suc f) n acc h = elim (Bool-cases (ltb n 10)) [
  | inl small ↦ rw small (omega arith)
  | inr large ↦
      let h' : n < 10 * 10 ^ suc d = rw (pow-succ' 10 (suc d)) at h in
      rw large
        (omega (arith, length-format_from_le d f (n / 10) ((b'0' + n % 10) ∷ acc) (omega arith)))
]

-- A number below 10^(d + 1) has at most d + 1 digits.
pub length-format_uint_le : (d n : ℕ) → n < 10 ^ suc d → length (format_uint n) ≤ suc d
unfolding format_uint
length-format_uint_le d n h = omega (arith, length-format_from_le d (suc n) n [] h)
