-- ===== src/Tests/Money.antt =====
-- Amounts, prices and backoff windows at concrete inputs.
use selatpay.Prelude.{
  ℕ, ◌+◌, ◌-◌, ◌*◌, ◌≤◌, ◌<◌, ◌≡◌, ◌≢◌, ◌⊎◌, refl, ◌++◌, ◌∷◌, ◌^◌, ◌%◌, some, arith,
}
use selatpay.Prelude.Text.{Text}
use selatpay.Prelude.Int.{◌*ℤ◌, ◌-ℤ◌, quo, pos, word}
use selatpay.Prelude.Decimal.{format_uint}
use selatpay.SolanaPay.Amount.{Parsed, format_amount, parse_amount, pad_left}
use selatpay.SolanaPay.Amount.RoundTrip.{parse_amount-format_amount, parse_amount_wraps}
use selatpay.Quoter.{Quoted, quote_amount}
use selatpay.Quoter.Price.{price, quote_amount_unscaled}
use selatpay.Quoter.Spread.{compute_mid_idr-no_spread, quote_amount_rescaled}
use selatpay.Saga.Steps.Mid.{compute_mid_idr}

parse_amount-format_amount_example :
    (s : Text) × (format_amount 12500000 6 ≡ some s) × (parse_amount s 6 ≡ Parsed.ok 12500000)
parse_amount-format_amount_example =
    parse_amount-format_amount 12500000 6 (omega arith) (omega arith)

parse_amount_wraps_example :
    parse_amount (format_uint 18446744073709 ++ b'.' ∷ pad_left 6 (format_uint 999999)) 6
    ≡ Parsed.ok (18446744073709 * 10 ^ 6 + 999999 - word)
parse_amount_wraps_example =
    parse_amount_wraps 18446744073709 5 999999 (omega arith) (omega arith) (omega arith)
      (omega arith)

quote_amount_unscaled_example :
    quote_amount (pos 160000) (record { num = pos 16000; scale = pos 0 }) (pos 100)
    ≡ price (160000 * 1000000 * 10000) (16000 * (10000 - 100))
quote_amount_unscaled_example =
    quote_amount_unscaled 160000 16000 100 (omega arith) (omega arith) (omega arith)

quoted_without_spread :
    quote_amount (pos 100000) (record { num = pos 16300; scale = pos 0 }) (pos 0)
    ≡ Quoted.ok (pos 6134969)
unfolding quote_amount ◌*ℤ◌ ◌-ℤ◌ quo
quoted_without_spread = refl

compute_mid_idr-no_spread_example :
    (mid : ℕ) × (compute_mid_idr (pos 6134969) (pos 16300) (pos 0) ≡ pos mid)
    × (((100000 * 1000000 % 16300 ≢ 0) × (mid < 100000))
        ⊎ ((100000 * 1000000 % 16300 ≡ 0) × (mid ≡ 100000)))
compute_mid_idr-no_spread_example =
    compute_mid_idr-no_spread 100000 16300 6134969 (omega arith) (omega arith) (omega arith)
      quoted_without_spread

quoted_with_spread :
    quote_amount (pos 100000) (record { num = pos 16300; scale = pos 0 }) (pos 100)
    ≡ Quoted.ok (pos 6196938)
unfolding quote_amount ◌*ℤ◌ ◌-ℤ◌ quo
quoted_with_spread = refl

quoted_at_scale :
    quote_amount (pos 100000) (record { num = pos (16300 * 10 ^ 2); scale = pos 2 }) (pos 100)
    ≡ Quoted.ok (pos 619)
unfolding quote_amount ◌*ℤ◌ ◌-ℤ◌ quo
quoted_at_scale = refl

quote_amount_rescaled_example : 619 * 100 ≤ 6196938
quote_amount_rescaled_example =
    quote_amount_rescaled 100000 16300 100 1 619 6196938 (omega arith) (omega arith) (omega arith)
      (omega arith) quoted_at_scale quoted_with_spread
