-- ===== src/Webhook/Hex.antt =====
-- `hex.EncodeToString` and `hex.DecodeString`, and `strconv.ParseInt` in base 10.
use selatpay.Prelude.{
  Bool-cases, inl, inr, subst, eq_of_some, ℕ, zero, suc, ◌+◌, ◌-◌, ◌*◌, ◌/◌, ◌%◌, ◌≤◌, ◌<◌, ◌≡◌,
  refl, ap, ◌∙◌, Bool, true, false, ◌&&◌, Option, none, some, [], ◌∷◌, arith, ltb, leb, ◌==◌,
  le→leb, if◌then◌else◌, All, holds_under, holds_under_lem, ==→eq, length,
}
use selatpay.Prelude.Text.{Text}
use selatpay.Prelude.Int.{ℤ, pos, negsuc, max_int64}
use selatpay.Prelude.Decimal.{
  format_uint, format_int, parse_uint, parse_uint-format_uint, format_uint-IsDigits,
  length-format_uint_pos, is_digit,
}

abbrev pub hex_digit : ℕ → ℕ
hex_digit n = if ltb n 10 then b'0' + n else b'a' + (n - 10)

unfoldable pub hex_encode : Text → Text
hex_encode [] = []
hex_encode (b ∷ bs) = hex_digit (b / 16) ∷ hex_digit (b % 16) ∷ hex_encode bs

-- Both cases of the letters are read.
abbrev pub from_hex : ℕ → Option ℕ
from_hex c =
    if leb b'0' c && leb c b'9'
    then some (c - b'0')
    else if leb b'a' c && leb c b'f'
    then some (c - b'a' + 10)
    else if leb b'A' c && leb c b'F'
    then some (c - b'A' + 10)
    else none

abbrev joined : Option ℕ → Option ℕ → Option Text → Option Text
joined (some h) (some l) (some bs) = some ((16 * h + l) ∷ bs)
joined _ _ _ = none

-- `none` is a digit that is none, or an odd length.
unfoldable pub hex_decode : Text → Option Text
hex_decode [] = some []
hex_decode (c ∷ []) = none
hex_decode (c ∷ d ∷ s) = joined (from_hex c) (from_hex d) (hex_decode s)

abbrev not_negative : Option ℕ → Option ℤ
not_negative none = none
not_negative (some n) = if leb n max_int64 then some (pos n) else none

abbrev negated : Option ℕ → Option ℤ
negated none = none
negated (some zero) = some (pos 0)
negated (some (suc n)) = if leb n max_int64 then some (negsuc n) else none

-- `none` is either error of ParseInt: bad syntax, or out of range.
unfoldable pub parse_int : Text → Option ℤ
parse_int [] = none
parse_int (c ∷ s) =
    if c == b'-'
    then negated (parse_uint s)
    else if c == b'+'
    then not_negative (parse_uint s)
    else not_negative (parse_uint (c ∷ s))

abbrev reads_back : ℕ → Bool
reads_back n = elim (from_hex (hex_digit n)) [ none ↦ false | some m ↦ m == n ]

digits_read_back : holds_under reads_back 16 ≡ true
unfolding holds_under
digits_read_back = refl

from_hex-hex_digit : (n : ℕ) → n < 16 → from_hex (hex_digit n) ≡ some n
from_hex-hex_digit n h =
    go (from_hex (hex_digit n)) refl (holds_under_lem reads_back 16 n h digits_read_back)
  where
    go :
        (o : Option ℕ)
        → from_hex (hex_digit n) ≡ o
        → (elim o [ none ↦ false | some m ↦ m == n ]) ≡ true
        → from_hex (hex_digit n) ≡ some n
    go none e t = absurd (cc)
    go (some m) e t = e ∙ ap (λ k. some k) (==→eq m n t)

abbrev pub AreBytes : Text → Type 0
AreBytes = All (λ b. b < 256)

pub hex_decode-hex_encode : (bs : Text) → AreBytes bs → hex_decode (hex_encode bs) ≡ some bs
unfolding hex_decode hex_encode
hex_decode-hex_encode [] h = refl
hex_decode-hex_encode (b ∷ bs) (small, h) =
    rw
      (
        from_hex-hex_digit (b / 16) (omega arith),
        from_hex-hex_digit (b % 16) (omega arith),
        hex_decode-hex_encode bs h,
      )
      (ap (λ k. some (k ∷ bs)) (omega arith))

-- What holds of every digit of an encoding.
pub hex_encode-All :
    (test : ℕ → Bool)
    → holds_under (λ n. test (hex_digit n)) 16 ≡ true
    → (bs : Text) → AreBytes bs
    → All (λ c. test c ≡ true) (hex_encode bs)
unfolding hex_encode
hex_encode-All test run [] h = tt
hex_encode-All test run (b ∷ bs) (small, h) = (
  holds_under_lem (λ n. test (hex_digit n)) 16 (b / 16) (omega arith) run,
  (
    holds_under_lem (λ n. test (hex_digit n)) 16 (b % 16) (omega arith) run,
    hex_encode-All test run bs h,
  ),
)

-- The two cases of a printed integer that fits an int64.
abbrev pub InInt64 : ℤ → Type 0
InInt64 (pos n) = n ≤ max_int64
InInt64 (negsuc n) = n ≤ max_int64

parse_int-digits :
    (s : Text)
    → 0 < length s
    → All (λ c. is_digit c ≡ true) s
    → parse_int s ≡ not_negative (parse_uint s)
unfolding parse_int
parse_int-digits [] l h = elim l [ ]
parse_int-digits (c ∷ s) l (digit, h) = ground arith

parse_int-minus : (s : Text) → parse_int (b'-' ∷ s) ≡ negated (parse_uint s)
unfolding parse_int
parse_int-minus s = refl

not_negative_small :
    (n : ℕ) (o : Option ℕ) → n ≤ max_int64 → o ≡ some n → not_negative o ≡ some (pos n)
not_negative_small n o h e = rw (e, le→leb n max_int64 h)

negated_small :
    (n : ℕ) (o : Option ℕ) → n ≤ max_int64 → o ≡ some (suc n) → negated o ≡ some (negsuc n)
negated_small n o h e = rw (e, le→leb n max_int64 h)

-- A printed int64 reads back as itself.
pub parse_int-format_int : (z : ℤ) → InInt64 z → parse_int (format_int z) ≡ some z
unfolding format_int
parse_int-format_int (pos n) h =
    parse_int-digits (format_uint n) (length-format_uint_pos n) (format_uint-IsDigits n)
    ∙ not_negative_small n (parse_uint (format_uint n)) h (parse_uint-format_uint n (omega arith))
parse_int-format_int (negsuc n) h =
    parse_int-minus (format_uint (suc n))
    ∙ negated_small n (parse_uint (format_uint (suc n))) h
        (parse_uint-format_uint (suc n) (omega arith))

not_negative-InInt64 : (o : Option ℕ) (z : ℤ) → not_negative o ≡ some z → InInt64 z
not_negative-InInt64 none z e = absurd (cc)
not_negative-InInt64 (some n) z e = elim (Bool-cases (leb n max_int64)) [
  | inl fits ↦ subst InInt64 (eq_of_some (rw fits at e)) (ground arith)
  | inr wide ↦ let no = rw wide at e in absurd (cc)
]

negated-InInt64 : (o : Option ℕ) (z : ℤ) → negated o ≡ some z → InInt64 z
negated-InInt64 none z e = absurd (cc)
negated-InInt64 (some zero) z e = subst InInt64 (eq_of_some e) (omega arith)
negated-InInt64 (some (suc n)) z e = elim (Bool-cases (leb n max_int64)) [
  | inl fits ↦ subst InInt64 (eq_of_some (rw fits at e)) (ground arith)
  | inr wide ↦ let no = rw wide at e in absurd (cc)
]

-- What is read is an int64.
pub parse_int-InInt64 : (s : Text) (z : ℤ) → parse_int s ≡ some z → InInt64 z
unfolding parse_int
parse_int-InInt64 [] z e = absurd (cc)
parse_int-InInt64 (c ∷ s) z e = elim (Bool-cases (c == b'-')) [
  | inl minus ↦ negated-InInt64 (parse_uint s) z (rw minus at e)
  | inr digit ↦ elim (Bool-cases (c == b'+')) [
    | inl plus ↦ not_negative-InInt64 (parse_uint s) z (rw (digit, plus) at e)
    | inr plain ↦ not_negative-InInt64 (parse_uint (c ∷ s)) z (rw (digit, plain) at e)
  ]
]
