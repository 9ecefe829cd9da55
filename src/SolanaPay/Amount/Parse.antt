-- ===== src/SolanaPay/Amount/Parse.antt =====
-- How `ParseAmount` (internal/solanapay/url.go) reads a whole part, a dot and a fraction.
use native.Mathlib.Nat.{pow-succ', mod-eq_of_lt, le-div_iff_mul-le, div-add-mod, mul_comm}
use selatpay.Prelude.{
  ℕ, zero, suc, ◌+◌, ◌-◌, ◌*◌, ◌/◌, ◌%◌, ◌^◌, ◌≤◌, ◌<◌, ◌≡◌, refl, ap, ◌∙◌, inl, inr, true, false,
  ◌&&◌, Option, none, some, [], ◌∷◌, ◌++◌, ltb, ◌==◌, if◌then◌else◌, length, replicate,
  length-append, length-replicate, arith, Bool-cases, ==→eq, lt→ltb, le→not_ltb, holds_under,
  holds_under_lem,
}
use selatpay.Prelude.Text.{Text}
use selatpay.Prelude.Int.{word}
use selatpay.Prelude.Decimal.{
  format_uint, parse_uint, IsDigits, format_uint-IsDigits, length-format_uint_pos,
  parse_digits-format_uint, parse_uint-some, parse_uint-format_uint, parse_digits-zeros,
  length-format_uint_le,
}
use selatpay.SolanaPay.Amount.{
  pow10, pad_left, pad_right, trim_right, ok, parse_parts, has_exponent, split_dot, parse_amount,
}

-- Up to 10^19 the multiplier does not wrap.
pow10_table : holds_under (λ n. pow10 n == 10 ^ n && ltb (10 ^ n) word) 20 ≡ true
unfolding holds_under pow10
pow10_table = refl

pub pow10_exact : (n : ℕ) → n < 20 → (pow10 n ≡ 10 ^ n) × (10 ^ n < word)
pow10_exact n h =
    let t = holds_under_lem (λ n. pow10 n == 10 ^ n && ltb (10 ^ n) word) 20 n h pow10_table in
    ground arith

pub pow10_pos : (n : ℕ) → 0 < 10 ^ n
pow10_pos zero = omega arith
pow10_pos (suc n) = rw (pow-succ' 10 n) (omega (arith, pow10_pos n))

has_exponent-digits : (s : Text) → IsDigits s → has_exponent s ≡ false
unfolding has_exponent
has_exponent-digits [] h = refl
has_exponent-digits (c ∷ s) h = ground (arith, has_exponent-digits s)

has_exponent-append :
    (s t : Text) → IsDigits s → has_exponent t ≡ false → has_exponent (s ++ t) ≡ false
unfolding has_exponent
has_exponent-append [] t h e = e
has_exponent-append (c ∷ s) t h e = ground (arith, has_exponent-append s t)

split_dot-digits : (s : Text) → IsDigits s → split_dot s ≡ (s, none)
unfolding split_dot
split_dot-digits [] h = refl
split_dot-digits (c ∷ s) h = ground (arith, split_dot-digits s)

split_dot-append : (s t : Text) → IsDigits s → split_dot (s ++ b'.' ∷ t) ≡ (s, some t)
unfolding split_dot
split_dot-append [] t h = refl
split_dot-append (c ∷ s) t h = ground (arith, split_dot-append s t)

-- What `TrimRight` takes off, padding puts back.
pub trim_right-pad :
    (s : Text) → trim_right s ++ replicate (length s - length (trim_right s)) b'0' ≡ s
unfolding trim_right
trim_right-pad [] = refl
trim_right-pad (c ∷ s) = go (trim_right s) (trim_right-pad s)
  where
    go :
        (t : Text)
        → t ++ replicate (length s - length t) b'0' ≡ s
        → let u : Text = elim t [ [] ↦ if c == b'0' then [] else c ∷ [] | d ∷ r ↦ c ∷ d ∷ r ] in
          u ++ replicate (suc (length s) - length u) b'0' ≡ c ∷ s
    go [] e =
        let z : length s - 0 ≡ length s = omega arith in
        let z' : suc (length s) - 0 ≡ suc (length s) = omega arith in
        let z'' : suc (length s) - 1 ≡ length s = omega arith in
        let e' : replicate (length s) b'0' ≡ s = rw z at e in
        elim (Bool-cases (c == b'0')) [
          | inl zero_digit ↦ rw (zero_digit, z', e', ==→eq c b'0' zero_digit) refl
          | inr other ↦ rw (other, z'', e') refl
        ]
    go (d ∷ r) e =
        let z : suc (length s) - suc (suc (length r)) ≡ length s - suc (length r) = omega arith in
        rw z (ap (λ t. c ∷ t) e)

pub length-trim_right : (s : Text) → length (trim_right s) ≤ length s
unfolding trim_right
length-trim_right [] = omega arith
length-trim_right (c ∷ s) = ground (arith, length-trim_right s)

pub trim_right-IsDigits : (s : Text) → IsDigits s → IsDigits (trim_right s)
unfolding trim_right
trim_right-IsDigits [] h = tt
trim_right-IsDigits (c ∷ s) h = ground (arith, trim_right-IsDigits s)

pub length-pad_left : (d : ℕ) (s : Text) → length s ≤ d → length (pad_left d s) ≡ d
unfolding pad_left
length-pad_left d s h = omega (
  arith,
  length-append (replicate (d - length s) b'0') s,
  length-replicate {A = ℕ} (d - length s) b'0',
)

pub IsDigits-append : (s t : Text) → IsDigits s → IsDigits t → IsDigits (s ++ t)
IsDigits-append [] t h k = k
IsDigits-append (c ∷ s) t h k = (h.0, IsDigits-append s t h.1 k)

pub IsDigits-replicate : (n : ℕ) → IsDigits (replicate n b'0')
IsDigits-replicate zero = tt
IsDigits-replicate (suc n) = (refl, IsDigits-replicate n)

-- A text that is not empty and has no exponent is read by its two parts.
parse_amount-parts :
    (s w : Text) (frac : Option Text) (d : ℕ)
    → 0 < length s
    → has_exponent s ≡ false
    → split_dot s ≡ (w, frac)
    → parse_amount s d ≡ parse_parts d (parse_uint w) frac
unfolding parse_amount
parse_amount-parts [] w frac d h e p = elim h [ ]
parse_amount-parts (c ∷ s) w frac d h e p = rw e (rw p refl)

pub div-mod-sum : (n p : ℕ) → n / p * p + n % p ≡ n
div-mod-sum n p = omega (arith, div-add-mod n p, mul_comm (n / p) p)

module _ (whole d : ℕ) (d_bound : d < 20) (fits : whole * 10 ^ d < word) where
  not_overflow : ltb ((word - 1) / 10 ^ d) whole ≡ false
  not_overflow =
      le→not_ltb whole ((word - 1) / 10 ^ d)
        ((le-div_iff_mul-le {k = 10 ^ d} {x = whole} {y = word - 1} (pow10_pos d)).1 (omega arith))

  -- With no fraction the result is the whole part, scaled.
  parse_parts-whole : parse_parts d (some whole) none ≡ ok (whole * 10 ^ d)
  unfolding parse_parts
  parse_parts-whole =
      let small : whole * 10 ^ d % word ≡ whole * 10 ^ d = mod-eq_of_lt fits in
      rw ((pow10_exact d d_bound).0, lt→ltb 0 (10 ^ d) (pow10_pos d), not_overflow, small) refl

  -- With a fraction of at most `d` digits, its padded value is added in uint64.
  parse_parts-frac :
      (t : Text) (f : ℕ)
      → length t ≤ d
      → parse_uint (pad_right d t) ≡ some f
      → parse_parts d (some whole) (some t) ≡ ok ((whole * 10 ^ d + f) % word)
  unfolding parse_parts
  parse_parts-frac t f short e =
      let small : whole * 10 ^ d % word ≡ whole * 10 ^ d = mod-eq_of_lt fits in
      rw
        (
          (pow10_exact d d_bound).0,
          lt→ltb 0 (10 ^ d) (pow10_pos d),
          not_overflow,
          small,
          le→not_ltb (length t) d short,
          e,
        )
        refl

-- `d` digits that are printed with leading zeros read back.
pub parse_uint-pad_left :
    (d f : ℕ) → f < 10 ^ suc d → f < word → parse_uint (pad_left (suc d) (format_uint f)) ≡ some f
parse_uint-pad_left d f h lt =
    let short = length-format_uint_le d f h in
    parse_uint-some (pad_left (suc d) (format_uint f)) f
      (rw (length-pad_left (suc d) (format_uint f) short) (omega arith))
      (unfold pad_left in
        parse_digits-zeros (suc d - length (format_uint f)) (format_uint f)
        ∙ parse_digits-format_uint f)
      lt

le_of_scaled : (n p : ℕ) → 0 < p → n * p < word → n < word
le_of_scaled n p h lt = grind arith

-- A whole part, a dot and a fraction are read as one uint64 sum.
pub parse_amount-frac :
    (whole d f : ℕ) (t : Text)
    → d < 20
    → whole * 10 ^ d < word
    → IsDigits t
    → length t ≤ d
    → parse_uint (pad_right d t) ≡ some f
    → parse_amount (format_uint whole ++ b'.' ∷ t) d ≡ ok ((whole * 10 ^ d + f) % word)
unfolding has_exponent
parse_amount-frac whole d f t d_bound fits digits short e =
    let w = format_uint whole in
    let wd = format_uint-IsDigits whole in
    let whole_bound : whole < word = le_of_scaled whole (10 ^ d) (pow10_pos d) fits in
    parse_amount-parts (w ++ b'.' ∷ t) w (some t) d (omega (arith, length-append w (b'.' ∷ t)))
      (has_exponent-append w (b'.' ∷ t) wd (has_exponent-digits t digits)) (split_dot-append w t wd)
    ∙ rw (parse_uint-format_uint whole whole_bound)
        (parse_parts-frac whole d d_bound fits t f short e)

pub parse_amount-whole :
    (whole d : ℕ)
    → d < 20
    → whole * 10 ^ d < word
    → parse_amount (format_uint whole) d ≡ ok (whole * 10 ^ d)
parse_amount-whole whole d d_bound fits =
    let w = format_uint whole in
    let wd = format_uint-IsDigits whole in
    let whole_bound : whole < word = le_of_scaled whole (10 ^ d) (pow10_pos d) fits in
    parse_amount-parts w w none d (length-format_uint_pos whole) (has_exponent-digits w wd)
      (split_dot-digits w wd)
    ∙ rw (parse_uint-format_uint whole whole_bound) (parse_parts-whole whole d d_bound fits)
