-- ===== src/Saga/Backoff/Bounds.antt =====
-- The retry window of the saga's backoff.
use native.Mathlib.Nat.{pow-succ', mul-le-mul_left}
use selatpay.Prelude.{
  ℕ, zero, suc, ◌+◌, ◌*◌, ◌^◌, ◌≤◌, ◌<◌, ◌≡◌, ◌∙◌, ap, arith, inl, inr, Bool-cases, ltb, ltb→lt,
  ge_of_not_ltb, lt→not_leb, min,
}
use selatpay.Prelude.Int.{ℤ, pos, ◌≤ℤ◌, ◌+ℤ◌, wrap64, wrap64_pos}
use selatpay.Saga.Backoff.{doubling, clamp, window, delay}

-- Below 2^62 doubling does not wrap.
double_exact : (c : ℕ) → c < 2 ^ 62 → wrap64 (pos c +ℤ pos c) ≡ pos (c + c)
double_exact c h =
    let e : pos c +ℤ pos c ≡ pos (c + c) = unfold ◌+ℤ◌ in ground arith in
    rw e (wrap64_pos (c + c) (omega arith))

two_pow_pos : (n : ℕ) → 1 ≤ 2 ^ n
two_pow_pos zero = omega arith
two_pow_pos (suc n) = rw (pow-succ' 2 n) (omega (arith, two_pow_pos n))

clamp_pos : (c m : ℕ) → clamp (pos c) (pos m) ≡ pos (min c m)
unfolding clamp
clamp_pos c m = elim (Bool-cases (ltb (m + 0) (c + 0))) [
  | inl above ↦ rw above (ap pos (omega (arith, ltb→lt (m + 0) (c + 0) above)))
  | inr within ↦ rw within (ap pos (omega (arith, ge_of_not_ltb (m + 0) (c + 0) within)))
]

-- The loop stops at the cap, and up to there it is a power of two.
clamp-doubling :
    (n c m : ℕ)
    → 0 < c
    → m ≤ 2 ^ 62
    → clamp (doubling n (pos c) (pos m)) (pos m) ≡ pos (min (c * 2 ^ n) m)
unfolding doubling
clamp-doubling zero c m h k = clamp_pos c m ∙ ap pos (omega arith)
clamp-doubling (suc n) c m h k = elim (Bool-cases (ltb (c + 0) (m + 0))) [
  | inl below ↦
      let small : c < 2 ^ 62 = omega (arith, ltb→lt (c + 0) (m + 0) below) in
      let shift : (c + c) * 2 ^ n ≡ c * 2 ^ suc n = rw (pow-succ' 2 n) (omega arith) in
      rw (below, double_exact c small)
        (clamp-doubling n (c + c) m (omega arith) k ∙ ap (λ t. pos (min t m)) shift)
  | inr reached ↦
      let grown : c * 1 ≤ c * 2 ^ suc n = mul-le-mul_left c (two_pow_pos (suc n)) in
      rw reached (clamp_pos c m ∙ ap pos (omega (arith, ge_of_not_ltb (c + 0) (m + 0) reached)))
]

-- The window of attempt n is `min (base * 2^n) max`: with a positive base and a cap of at most
-- 2^62 ns (146 years) the doubling never wraps.
pub window_lem :
    (n base max : ℕ)
    → 0 < base
    → max ≤ 2 ^ 62
    → window (record { base = pos base; max = pos max }) (pos n) ≡ pos (min (base * 2 ^ n) max)
unfolding window
window_lem n base max h k = clamp-doubling n base max h k

-- For a positive base and cap, the cap at most 2^62 ns, a delay is at least 0 and below the
-- window, given that `rand.Int64N(n)` draws from [0, n).
pub delay-lt-window :
    (jitter : ℤ → ℤ)
    → ((n : ℕ) → 0 < n → (pos 0 ≤ℤ jitter (pos n)) × (jitter (pos n) +ℤ pos 1 ≤ℤ pos n))
    → (n base max : ℕ) → 0 < base
    → 0 < max
    → max ≤ 2 ^ 62
    → let d = delay jitter (record { base = pos base; max = pos max }) (pos n) in
      (pos 0 ≤ℤ d) × (d +ℤ pos 1 ≤ℤ pos (min (base * 2 ^ n) max))
unfolding delay
delay-lt-window jitter draw n base max h m k =
    let grown : base * 1 ≤ base * 2 ^ n = mul-le-mul_left base (two_pow_pos n) in
    let wide : 0 < min (base * 2 ^ n) max = omega arith in
    rw (window_lem n base max h k, lt→not_leb (0 + 0) (min (base * 2 ^ n) max + 0) (omega arith))
      (draw (min (base * 2 ^ n) max) wide)
