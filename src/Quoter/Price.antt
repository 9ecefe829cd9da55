-- ===== src/Quoter/Price.antt =====
-- The price that `QuoteAmount` computes, as one floor division.
use selatpay.Prelude.{
  ℕ, zero, suc, ◌+◌, ◌-◌, ◌*◌, ◌/◌, ◌^◌, ◌≤◌, ◌<◌, ◌≡◌, refl, ap, lt→ltb, Bool, true, false, ◌==◌,
  arith, if◌then◌else◌, leb, holds_under, holds_under_lem, ==→eq,
}
use native.Mathlib.Nat.{mul-pos, pow-succ'}
use selatpay.Prelude.Int.{ℤ, pos, negsuc, max_int64, *ℤ_pos, -ℤ_pos, quo, ◌-ℤ◌, ◌*ℤ◌}
use selatpay.Quoter.{
  Quoted, ok, err, rounds_to_zero, overflows_int64, pow10, effective_rate, quote_amount,
}

-- A floor division that has to give a positive int64.
abbrev pub price : ℕ → ℕ → Quoted
price num eff =
    if leb (num / eff) max_int64
    then if leb (num / eff) 0 then err rounds_to_zero else ok (pos (num / eff))
    else err overflows_int64

-- On valid inputs the price is one floor division by the effective rate.
quote_amount-eq-price :
    (amount num spread e : ℕ) (scale : ℤ)
    → 0 < amount
    → 0 < num
    → spread ≤ 10000
    → effective_rate (record { num = pos num; scale = scale }) (pos spread) ≡ pos e
    → 0 < e
    → quote_amount (pos amount) (record { num = pos num; scale = scale }) (pos spread)
      ≡ price (amount * 1000000 * 10000) e
unfolding quote_amount quo
quote_amount-eq-price amount num spread e scale a n s eff e_pos =
    rw (eff, *ℤ_pos amount 1000000, *ℤ_pos (amount * 1000000) 10000) (ground arith)

pub pow_pos : (k : ℕ) → 0 < 10 ^ suc k
pow_pos zero = omega arith
pow_pos (suc k) = rw (pow-succ' 10 (suc k)) (omega (arith, pow_pos k))

module _ (num spread : ℕ) (s : spread ≤ 10000) where
  eff_base : pos num *ℤ (pos 10000 -ℤ pos spread) ≡ pos (num * (10000 - spread))
  eff_base = rw (-ℤ_pos 10000 spread s) (*ℤ_pos num (10000 - spread))

  effective_rate-unscaled :
      effective_rate (record { num = pos num; scale = pos 0 }) (pos spread)
      ≡ pos (num * (10000 - spread))
  unfolding effective_rate
  effective_rate-unscaled = rw eff_base refl

pow10_value : ℕ → ℤ → Bool
pow10_value n (pos v) = v == 10 ^ n
pow10_value n (negsuc v) = false

-- Up to the greatest scale that the quotes table admits, 10^18, the power does not wrap.
pow10_table : holds_under (λ n. pow10_value n (pow10 (pos n))) 19 ≡ true
unfolding holds_under pow10_value pow10
pow10_table = refl

pow10_of_value : (n : ℕ) (z : ℤ) → pow10_value n z ≡ true → z ≡ pos (10 ^ n)
unfolding pow10_value
pow10_of_value n (pos v) h = ap pos (==→eq v (10 ^ n) h)
pow10_of_value n (negsuc v) h = cc

pub pow10_exact : (n : ℕ) → n ≤ 18 → pow10 (pos n) ≡ pos (10 ^ n)
pow10_exact n h =
    pow10_of_value n (pow10 (pos n))
      (holds_under_lem (λ k. pow10_value k (pow10 (pos k))) 19 n (omega arith) pow10_table)

effective_rate-scaled :
    (num spread k : ℕ)
    → spread ≤ 10000
    → suc k ≤ 18
    → effective_rate (record { num = pos num; scale = pos (suc k) }) (pos spread)
      ≡ pos (num * (10000 - spread) * 10 ^ suc k)
unfolding effective_rate
effective_rate-scaled num spread k s h =
    rw (eff_base num spread s, pow10_exact (suc k) h)
      (rw (lt→ltb (0 + 0) (suc k + 0) (omega arith)) (*ℤ_pos (num * (10000 - spread)) (10 ^ suc k)))

-- Valid inputs at scale 0 are priced as `amount * 10^10 / (num * (10000 - spread))`, rounded down;
-- the price is refused only if it is zero or no int64.
pub quote_amount_unscaled :
    (amount num spread : ℕ)
    → 0 < amount
    → 0 < num
    → spread < 10000
    → quote_amount (pos amount) (record { num = pos num; scale = pos 0 }) (pos spread)
      ≡ price (amount * 1000000 * 10000) (num * (10000 - spread))
quote_amount_unscaled amount num spread a n s =
    let gap : 0 < 10000 - spread = omega arith in
    quote_amount-eq-price amount num spread (num * (10000 - spread)) (pos 0) a n (omega arith)
      (effective_rate-unscaled num spread (omega arith)) (mul-pos n gap)

-- Valid inputs at scale 1 to 18 are priced with a divisor that grows by 10^scale: `amount * 10^10
-- / (num * (10000 - spread) * 10^scale)`, rounded down; the price is refused only if it is zero or
-- no int64.
pub quote_amount_scaled :
    (amount num spread k : ℕ)
    → 0 < amount
    → 0 < num
    → spread < 10000
    → suc k ≤ 18
    → quote_amount (pos amount) (record { num = pos num; scale = pos (suc k) }) (pos spread)
      ≡ price (amount * 1000000 * 10000) (num * (10000 - spread) * 10 ^ suc k)
quote_amount_scaled amount num spread k a n s h =
    let gap : 0 < 10000 - spread = omega arith in
    quote_amount-eq-price amount num spread (num * (10000 - spread) * 10 ^ suc k) (pos (suc k)) a n
      (omega arith) (effective_rate-scaled num spread k (omega arith) h)
      (mul-pos (mul-pos n gap) (pow_pos k))
