-- ===== src/Saga/Backoff.antt =====
-- internal/saga/backoff.go. A duration is an int64 of nanoseconds; `rand.Int64N` is a parameter.
pub mod Bounds
use selatpay.Prelude.{ℕ, zero, suc, ◌*◌, Bool, ◌||◌, if◌then◌else◌}
use selatpay.Prelude.Int.{ℤ, pos, negsuc, ltb_ℤ, leb_ℤ, ◌+ℤ◌, wrap64}

pub record Backoff : Type 0 where
  pub base : ℤ
  pub max : ℤ

abbrev pub millisecond : ℕ
millisecond = 1000000

abbrev pub minute : ℕ
minute = 60000000000

unfoldable pub new_backoff : ℤ → ℤ → Backoff
new_backoff base max =
    let base' = if leb_ℤ base (pos 0) then pos (500 * millisecond) else base in
    record {
      base = base';
      max = if leb_ℤ max (pos 0) || ltb_ℤ max base' then pos (5 * minute) else max;
    }

-- The doubling loop, on the rounds left: `candidate *= 2` in int64.
unfoldable pub doubling : ℕ → ℤ → ℤ → ℤ
doubling zero candidate max = candidate
doubling (suc n) candidate max =
    let rest = doubling n (wrap64 (candidate +ℤ candidate)) max in
    if ltb_ℤ candidate max then rest else candidate

unfoldable pub clamp : ℤ → ℤ → ℤ
clamp candidate max = if ltb_ℤ max candidate then max else candidate

abbrev rounds : ℤ → ℕ
rounds (pos n) = n
rounds (negsuc n) = 0

-- The window that the jitter is drawn from.
unfoldable pub window : Backoff → ℤ → ℤ
unfolding clamp
window b attempt = clamp (doubling (rounds attempt) b.base b.max) b.max

unfoldable pub draw_below : (ℤ → ℤ) → ℤ → ℤ
draw_below jitter candidate = if leb_ℤ candidate (pos 0) then pos 0 else jitter candidate

-- `Delay`, with the draw `jitter n` for `rand.Int64N(n)`.
unfoldable pub delay : (ℤ → ℤ) → Backoff → ℤ → ℤ
unfolding draw_below
delay jitter b attempt = draw_below jitter (window b attempt)
