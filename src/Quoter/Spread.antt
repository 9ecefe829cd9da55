-- ===== src/Quoter/Spread.antt =====
-- The quoted price against the mid-rate value that `apply_payout_result` derives from it.
use native.Mathlib.Nat.{
  mul-pos, div-mul-le_self, lt-div-mul-add, le_of_mul-le-mul_right, mul-add-mod_self_right,
  mod-eq_of_lt, pow-succ', mul-le-mul_left, lt_of_mul-lt-mul_right,
}
use selatpay.Prelude.{
  ℕ, zero, suc, ◌+◌, ◌-◌, ◌*◌, ◌/◌, ◌%◌, ◌^◌, ◌≤◌, ◌<◌, ◌≡◌, ◌≢◌, sym, ◌∙◌, ap, arith, ◌⊎◌, inl,
  inr, ◌==◌, ==→eq, Bool-cases,
}
use selatpay.Prelude.Int.{pos, max_int64}
use selatpay.Quoter.{ok, quote_amount}
use selatpay.Quoter.Price.{price, pow_pos, quote_amount_unscaled, quote_amount_scaled}
use selatpay.Saga.Steps.Mid.{compute_mid_idr}

-- A price that is given is the floor of the division.
price_floor :
    (num eff v : ℕ)
    → 0 < eff
    → price num eff ≡ ok (pos v)
    → (v ≡ num / eff) × (v * eff ≤ num) × (num < v * eff + eff)
price_floor num eff v h e =
    let q : v ≡ num / eff = ground arith in
    (q, rw q (div-mul-le_self num eff), rw q (lt-div-mul-add h))

-- At scale 0 and within int64 the mid value is `usdc * num / 10^6`, rounded down.
compute_mid_idr_lem :
    (v num : ℕ)
    → v * num / 1000000 ≤ max_int64
    → compute_mid_idr (pos v) (pos num) (pos 0) ≡ pos (v * num / 1000000)
unfolding compute_mid_idr
compute_mid_idr_lem v num h = ground arith

-- What is left of a number above a multiple is its remainder.
mod_above : (m n v : ℕ) → 0 < n → v * n ≤ m → m < v * n + n → m % n ≡ m - v * n
mod_above m n v h low high =
    let e : m ≡ v * n + (m - v * n) = omega arith in
    let small : m - v * n < n = omega arith in
    ap (λ t. t % n) e ∙ mul-add-mod_self_right v n (m - v * n) ∙ mod-eq_of_lt small

-- The divisor is `gap` basis points of the rate, and `gap + spread` is all of them.
covers :
    (gap spread amount num v : ℕ)
    → 0 < gap
    → gap + spread ≡ 10000
    → num * gap ≤ amount * spread * 1000000
    → amount * 1000000 * 10000 < v * (num * gap) + num * gap
    → amount * 1000000 ≤ v * num
covers gap spread amount num v g full worth high =
    let split : amount * 1000000 * 10000 ≡ amount * 1000000 * gap + amount * spread * 1000000 =
      omega (arith, ap (λ t. amount * t) full) in
    let cross : amount * 1000000 * gap ≤ v * num * gap = omega arith in
    le_of_mul-le-mul_right cross g

-- At scale 0 and without a spread, for a positive rate and a positive int64 amount that is priced,
-- the mid value of the quoted USDC is below the amount where the rate does not divide the amount
-- in USDC minor units, and is the amount where it does.
pub compute_mid_idr-no_spread :
    (amount num v : ℕ)
    → 0 < amount
    → amount ≤ max_int64
    → 0 < num
    → quote_amount (pos amount) (record { num = pos num; scale = pos 0 }) (pos 0) ≡ ok (pos v)
    → (mid : ℕ) × (compute_mid_idr (pos v) (pos num) (pos 0) ≡ pos mid)
      × (((amount * 1000000 % num ≢ 0) × (mid < amount))
          ⊎ ((amount * 1000000 % num ≡ 0) × (mid ≡ amount)))
compute_mid_idr-no_spread amount num v a_pos a_fits n_pos q =
    let p = sym (quote_amount_unscaled amount num 0 a_pos n_pos (omega arith)) ∙ q in
    let (e, low, high) =
      price_floor (amount * 1000000 * 10000) (num * (10000 - 0)) v (omega arith) p in
    let below : v * num ≤ amount * 1000000 = omega arith in
    let above : amount * 1000000 < v * num + num = omega arith in
    let r = mod_above (amount * 1000000) num v n_pos below above in
    (
      v * num / 1000000,
      compute_mid_idr_lem v num (omega arith),
      elim (Bool-cases (amount * 1000000 % num == 0)) [
        | inl exact ↦
            let none_left = ==→eq (amount * 1000000 % num) 0 exact in inr (none_left, omega arith)
        | inr inexact ↦
            let some_left : amount * 1000000 % num ≢ 0 = ground arith in
            inl (some_left, omega arith)
      ],
    )

-- At scale 0, a spread that is worth at least one USDC minor unit at the mid rate covers both
-- roundings: where the amount is priced and its mid value fits an int64, that mid value is at
-- least the amount.
pub compute_mid_idr-covers :
    (amount num spread v : ℕ)
    → 0 < amount
    → 0 < num
    → spread < 10000
    → num * (10000 - spread) ≤ amount * spread * 1000000
    → v * num / 1000000 ≤ max_int64
    → quote_amount (pos amount) (record { num = pos num; scale = pos 0 }) (pos spread) ≡ ok (pos v)
    → (mid : ℕ) × (compute_mid_idr (pos v) (pos num) (pos 0) ≡ pos mid) × (amount ≤ mid)
compute_mid_idr-covers amount num spread v a_pos n_pos s_bound worth fits q =
    let p = sym (quote_amount_unscaled amount num spread a_pos n_pos s_bound) ∙ q in
    let gap : 0 < 10000 - spread = omega arith in
    let (e, low, high) =
      price_floor (amount * 1000000 * 10000) (num * (10000 - spread)) v (mul-pos n_pos gap) p in
    let enough : amount * 1000000 ≤ v * num =
      covers (10000 - spread) spread amount num v gap (omega arith) worth high in
    (v * num / 1000000, compute_mid_idr_lem v num fits, omega arith)

pow_ge_ten : (k : ℕ) → 10 ≤ 10 ^ suc k
pow_ge_ten zero = omega arith
pow_ge_ten (suc k) = rw (pow-succ' 10 (suc k)) (omega (arith, pow_ge_ten k))

-- `10^k` twice over the divisor makes the price at least 100 times smaller.
rescale :
    (c eff p v w : ℕ) → 10 ≤ p → v * (eff * p * p) ≤ c → c < w * eff + eff → 0 < eff → v * 100 ≤ w
rescale c eff p v w big low high e_pos =
    let hundred : 100 ≤ p * p = grind arith in
    let a : v * 100 * eff ≤ v * (eff * p * p) = omega (arith, mul-le-mul_left (v * eff) hundred) in
    let b : v * 100 * eff < (w + 1) * eff = omega arith in
    omega (arith, lt_of_mul-lt-mul_right eff b)

-- The rates `num` at scale 0 and `num * 10^k` at scale k are the same rational, but the quoter
-- multiplies its divisor by `10^k` a second time: where both are priced, the price at scale k is at
-- most a hundredth of the other.
pub quote_amount_rescaled :
    (amount num spread k v w : ℕ)
    → 0 < amount
    → 0 < num
    → spread < 10000
    → suc k ≤ 18
    → quote_amount
        (pos amount)
        (record { num = pos (num * 10 ^ suc k); scale = pos (suc k) })
        (pos spread)
      ≡ ok (pos v)
    → quote_amount (pos amount) (record { num = pos num; scale = pos 0 }) (pos spread) ≡ ok (pos w)
    → v * 100 ≤ w
quote_amount_rescaled amount num spread k v w a_pos n_pos s k_le qv qw =
    let gap : 0 < 10000 - spread = omega arith in
    let p_pos : 0 < 10 ^ suc k = pow_pos k in
    let pv =
      sym
        (quote_amount_scaled amount (num * 10 ^ suc k) spread k a_pos (mul-pos n_pos p_pos) s k_le)
      ∙ qv in
    let pw = sym (quote_amount_unscaled amount num spread a_pos n_pos s) ∙ qw in
    let fv =
      price_floor (amount * 1000000 * 10000) (num * 10 ^ suc k * (10000 - spread) * 10 ^ suc k) v
        (mul-pos (mul-pos (mul-pos n_pos p_pos) gap) p_pos) pv in
    let fw =
      price_floor (amount * 1000000 * 10000) (num * (10000 - spread)) w (mul-pos n_pos gap) pw in
    rescale (amount * 1000000 * 10000) (num * (10000 - spread)) (10 ^ suc k) v w (pow_ge_ten k)
      (omega arith) fw.2 (mul-pos n_pos gap)
