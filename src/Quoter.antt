-- ===== src/Quoter.antt =====
-- internal/quoter: the price of a rupiah amount in USDC minor units. An int64, int32 or int16 is an
-- integer; `big.Int` is exact, so only `pow10`, which multiplies in int64, can wrap.
pub mod Price
pub mod Spread
pub mod Issue
use selatpay.Prelude.{ℕ, zero, suc, ◌*◌, ◌%◌, ◌||◌, if◌then◌else◌}
use selatpay.Prelude.Int.{
  ℤ, pos, negsuc, ltb_ℤ, leb_ℤ, ◌-ℤ◌, ◌*ℤ◌, quo, is_zero, fits_int64, word, of_bits,
}

-- A rate is documented as `num / 10^scale` units of quote currency for one of base.
pub record Rate : Type 0 where
  pub num : ℤ
  pub scale : ℤ

pub data QuoteErr : Type 0 where
  amount_non_positive invalid_rate invalid_spread overflows_int64 rounds_to_zero : QuoteErr

pub data Quoted : Type 0 where
  ok : ℤ → Quoted
  err : QuoteErr → Quoted

-- The loop of `pow10`, on the rounds left: `r *= 10` on the pattern of an int64.
pow10_loop : ℕ → ℕ → ℕ
pow10_loop zero r = r
pow10_loop (suc n) r = pow10_loop n (r * 10 % word)

-- A loop to a negative bound makes no round.
unfoldable pub pow10 : ℤ → ℤ
unfolding pow10_loop of_bits
pow10 (pos n) = of_bits (pow10_loop n 1)
pow10 (negsuc n) = pos 1

-- The last part of `QuoteAmount`: the quotient has to fit and to be positive.
unfoldable pub narrow : ℤ → Quoted
narrow out =
    if fits_int64 out
    then if leb_ℤ out (pos 0) then err rounds_to_zero else ok out
    else err overflows_int64

-- The effective rate's numerator.
unfoldable pub effective_rate : Rate → ℤ → ℤ
unfolding pow10
effective_rate rate spread_bps =
    let eff = rate.num *ℤ (pos 10000 -ℤ spread_bps) in
    if ltb_ℤ (pos 0) rate.scale then eff *ℤ pow10 rate.scale else eff

unfoldable pub quote_amount : ℤ → Rate → ℤ → Quoted
unfolding effective_rate narrow
quote_amount amount_idr rate spread_bps =
    if leb_ℤ amount_idr (pos 0)
    then err amount_non_positive
    else if leb_ℤ rate.num (pos 0)
    then err invalid_rate
    else if ltb_ℤ spread_bps (pos 0) || ltb_ℤ (pos 10000) spread_bps
    then err invalid_spread
    else let num = amount_idr *ℤ pos 1000000 *ℤ pos 10000 in
      let eff = effective_rate rate spread_bps in
      if is_zero eff then err invalid_rate else narrow (quo num eff)
