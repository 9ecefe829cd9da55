-- ===== src/SolanaPay/Amount/RoundTrip.antt =====
-- `ParseAmount` inverts `FormatAmount` (internal/solanapay/url.go).
use native.Mathlib.Nat.{mod-eq_of_lt, mod-lt}
use selatpay.Prelude.{
  ℕ, zero, suc, ◌+◌, ◌-◌, ◌*◌, ◌/◌, ◌%◌, ◌^◌, ◌≤◌, ◌<◌, ◌≡◌, refl, ap, ◌∙◌, inl, inr, false, some,
  ◌∷◌, ◌++◌, ◌==◌, length, replicate, arith, Bool-cases, ==→eq,
}
use selatpay.Prelude.Text.{Text}
use selatpay.Prelude.Int.{word}
use selatpay.Prelude.Decimal.{format_uint, IsDigits, format_uint-IsDigits, length-format_uint_le}
use selatpay.SolanaPay.Amount.{
  pow10, pad_left, pad_right, trim_right, format_amount, ok, parse_amount,
}
use mathlib.Core.List.{append-nil}
use selatpay.SolanaPay.Amount.Parse.{
  pow10_exact, pow10_pos, trim_right-pad, length-trim_right, trim_right-IsDigits, length-pad_left,
  IsDigits-append, IsDigits-replicate, div-mod-sum, parse_uint-pad_left, parse_amount-frac,
  parse_amount-whole,
}

-- The fraction that `FormatAmount` prints, padded again by `ParseAmount`.
pad_right-trim_right : (d : ℕ) (s : Text) → length s ≡ d → pad_right d (trim_right s) ≡ s
unfolding pad_right
pad_right-trim_right d s e = rw (← e) (trim_right-pad s)

pad_left-IsDigits : (d f : ℕ) → IsDigits (pad_left d (format_uint f))
unfolding pad_left
pad_left-IsDigits d f =
    IsDigits-append (replicate (d - length (format_uint f)) b'0') (format_uint f)
      (IsDigits-replicate (d - length (format_uint f))) (format_uint-IsDigits f)

pad_right_full : (d : ℕ) (s : Text) → length s ≡ d → pad_right d s ≡ s
unfolding pad_right
pad_right_full d s e = let z : d - length s ≡ 0 = omega arith in rw z (append-nil s)

-- What `FormatAmount` prints of an amount with the parts `whole` and `frac`.
module _ (raw d : ℕ) (d_bound : suc d < 20) where
  multiplier_nonzero : (pow10 (suc d) == 0) ≡ false
  multiplier_nonzero = rw (pow10_exact (suc d) d_bound).0 (ground (arith, pow10_pos (suc d)))

  decimals_nonzero : (suc d == 0) ≡ false
  decimals_nonzero = ground arith

  format_amount-whole :
      raw % 10 ^ suc d ≡ 0 → format_amount raw (suc d) ≡ some (format_uint (raw / 10 ^ suc d))
  unfolding format_amount
  format_amount-whole z =
      rw (decimals_nonzero, multiplier_nonzero, (pow10_exact (suc d) d_bound).0, z) refl

  format_amount-frac :
      (raw % 10 ^ suc d == 0) ≡ false
      → format_amount raw (suc d)
        ≡ some (
            format_uint (raw / 10 ^ suc d)
            ++ b'.' ∷ trim_right (pad_left (suc d) (format_uint (raw % 10 ^ suc d))))
  unfolding format_amount
  format_amount-frac z =
      rw (decimals_nonzero, multiplier_nonzero, (pow10_exact (suc d) d_bound).0, z) refl

-- With 1 to 19 decimals every uint64 amount is printed, and the text reads back as the amount.
format_parse_suc :
    (raw d : ℕ)
    → raw < word
    → suc d < 20
    → (s : Text) × (format_amount raw (suc d) ≡ some s) × (parse_amount s (suc d) ≡ ok raw)
format_parse_suc raw d fits d_bound =
    let p : ℕ = 10 ^ suc d in
    let p_pos : 0 < 10 ^ suc d = pow10_pos (suc d) in
    let whole : ℕ = raw / 10 ^ suc d in
    let f : ℕ = raw % 10 ^ suc d in
    let sum : whole * 10 ^ suc d + f ≡ raw = div-mod-sum raw (10 ^ suc d) in
    let whole_fits : whole * 10 ^ suc d < word = omega arith in
    let f_small : f < 10 ^ suc d = mod-lt raw p_pos in
    let padded = pad_left (suc d) (format_uint f) in
    let full = length-pad_left (suc d) (format_uint f) (length-format_uint_le d f f_small) in
    elim (Bool-cases (f == 0)) [
      | inl z ↦ (
        format_uint whole,
        format_amount-whole raw d d_bound (==→eq f 0 z),
        parse_amount-whole whole (suc d) d_bound whole_fits ∙ ap ok (omega (arith, ==→eq f 0 z)),
      )
      | inr nz ↦ (
        format_uint whole ++ b'.' ∷ trim_right padded,
        format_amount-frac raw d d_bound nz,
        parse_amount-frac whole (suc d) f (trim_right padded) d_bound whole_fits
              (trim_right-IsDigits padded (pad_left-IsDigits (suc d) f))
              (omega (arith, length-trim_right padded, full))
              (rw (pad_right-trim_right (suc d) padded full)
                (parse_uint-pad_left d f f_small (omega arith)))
            ∙ ap ok (rw sum (mod-eq_of_lt fits)),
      )
    ]

format_parse_zero :
    (raw : ℕ)
    → raw < word
    → (s : Text) × (format_amount raw 0 ≡ some s) × (parse_amount s 0 ≡ ok raw)
unfolding format_amount
format_parse_zero raw fits = (
  format_uint raw,
  refl,
  parse_amount-whole raw 0 (omega arith) (omega arith) ∙ ap ok (omega arith),
)

-- Every uint64 amount, at up to 19 decimals, is printed by `FormatAmount`, and `ParseAmount` reads
-- the text back as the same amount.
pub parse_amount-format_amount :
    (raw decimals : ℕ)
    → raw < word
    → decimals < 20
    → (s : Text) × (format_amount raw decimals ≡ some s) × (parse_amount s decimals ≡ ok raw)
parse_amount-format_amount raw zero fits d_bound = format_parse_zero raw fits
parse_amount-format_amount raw (suc d) fits d_bound = format_parse_suc raw d fits d_bound

-- The overflow check of `ParseAmount` looks at the whole part alone: at 1 to 19 decimals, where
-- the whole part still fits in a uint64 and the sum with the fraction does not, the amount read is
-- short by 2^64.
pub parse_amount_wraps :
    (whole d f : ℕ)
    → suc d < 20
    → whole * 10 ^ suc d < word
    → f < 10 ^ suc d
    → word ≤ whole * 10 ^ suc d + f
    → parse_amount (format_uint whole ++ b'.' ∷ pad_left (suc d) (format_uint f)) (suc d)
      ≡ ok (whole * 10 ^ suc d + f - word)
parse_amount_wraps whole d f d_bound fits f_small over =
    let padded = pad_left (suc d) (format_uint f) in
    let full = length-pad_left (suc d) (format_uint f) (length-format_uint_le d f f_small) in
    let f_fits : f < word = omega (arith, (pow10_exact (suc d) d_bound).1) in
    parse_amount-frac whole (suc d) f padded d_bound fits (pad_left-IsDigits (suc d) f)
      (rw full (omega arith))
      (rw (pad_right_full (suc d) padded full) (parse_uint-pad_left d f f_small f_fits))
    ∙ ap ok (omega arith)
