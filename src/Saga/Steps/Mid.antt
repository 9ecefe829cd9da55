-- ===== src/Saga/Steps/Mid.antt =====
-- `computeMidIDR` of internal/saga/steps/apply_payout_result.go.
use selatpay.Prelude.{ℕ, ◌^◌, if◌then◌else◌}
use selatpay.Prelude.Int.{ℤ, pos, negsuc, ◌+ℤ◌, ◌*ℤ◌, quo, fits_int64}

-- `big.Int.Exp(10, y, nil)`: 1 for an exponent that is not positive.
unfoldable pub exp10 : ℤ → ℕ
exp10 (pos n) = 10 ^ n
exp10 (negsuc n) = 1

-- A value outside int64 becomes 0.
unfoldable pub compute_mid_idr : ℤ → ℤ → ℤ → ℤ
unfolding exp10 ◌+ℤ◌ ◌*ℤ◌ quo
compute_mid_idr quoted_amount_usdc rate_num rate_scale =
    let out = quo (quoted_amount_usdc *ℤ rate_num) (pos (exp10 (pos 6 +ℤ rate_scale))) in
    if fits_int64 out then out else pos 0
