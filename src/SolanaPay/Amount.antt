-- ===== src/SolanaPay/Amount.antt =====
-- internal/solanapay/url.go: `FormatAmount`, `ParseAmount` and `pow10`. A uint64 is a number below
-- 2^64, a uint8 one below 256, and a string the list of its bytes.
pub mod Parse
pub mod RoundTrip
use selatpay.Prelude.{
  ℕ, zero, suc, ◌+◌, ◌-◌, ◌*◌, ◌/◌, ◌%◌, Bool, true, false, ◌&&◌, ◌||◌, Option, none, some, List,
  [], ◌∷◌, ◌++◌, ltb, ◌==◌, if◌then◌else◌, length, replicate,
}
use selatpay.Prelude.Text.{Text}
use selatpay.Prelude.Int.{word}
use selatpay.Prelude.Decimal.{format_uint, parse_uint}

-- The loop of `pow10`, on the rounds that are left: `r *= 10` in uint64.
pow10_loop : ℕ → ℕ → ℕ
pow10_loop zero r = r
pow10_loop (suc n) r = pow10_loop n (r * 10 % word)

unfoldable pub pow10 : ℕ → ℕ
unfolding pow10_loop
pow10 n = pow10_loop n 1

-- `fmt.Sprintf("%0*d", width, n)`.
unfoldable pub pad_left : ℕ → Text → Text
pad_left width s = replicate (width - length s) b'0' ++ s

-- `strings.TrimRight(s, "0")`.
unfoldable pub trim_right : Text → Text
trim_right [] = []
trim_right (c ∷ s) = elim (trim_right s) [
  | [] ↦ if c == b'0' then [] else c ∷ []
  | d ∷ t ↦ c ∷ d ∷ t
]

-- `/` and `%` by zero panic in Go: `none`.
unfoldable pub format_amount : ℕ → ℕ → Option Text
unfolding pad_left trim_right pow10
format_amount raw decimals =
    if decimals == 0
    then some (format_uint raw)
    else let divisor = pow10 decimals in
      if divisor == 0
      then none
      else let whole = raw / divisor in
        let frac = raw % divisor in
        if frac == 0
        then some (format_uint whole)
        else some (format_uint whole ++ b'.' ∷ trim_right (pad_left decimals (format_uint frac)))

pub data AmountErr : Type 0 where
  empty_amount exponential bad_whole overflow frac_too_long bad_frac : AmountErr

pub data Parsed : Type 0 where
  ok : ℕ → Parsed
  err : AmountErr → Parsed

-- `strings.ContainsAny(s, "eE")`.
unfoldable pub has_exponent : Text → Bool
has_exponent [] = false
has_exponent (c ∷ s) = (c == b'e' || c == b'E') || has_exponent s

-- `strings.SplitN(s, ".", 2)`: the part before the first dot, and what is behind it if there is one.
unfoldable pub split_dot : Text → Text × Option Text
split_dot [] = ([], none)
split_dot (c ∷ s) =
    let (before, after) = split_dot s in if c == b'.' then ([], some s) else (c ∷ before, after)

-- The right-padding loop: `for len(frac) < int(decimals) { frac += "0" }`.
unfoldable pub pad_right : ℕ → Text → Text
pad_right width s = s ++ replicate (width - length s) b'0'

add_frac : ℕ → Option ℕ → Parsed
add_frac result none = err bad_frac
add_frac result (some f) = ok ((result + f) % word)

parse_frac : ℕ → ℕ → Option Text → Parsed
unfolding add_frac pad_right
parse_frac decimals result none = ok result
parse_frac decimals result (some frac) =
    if ltb decimals (length frac)
    then err frac_too_long
    else add_frac result (parse_uint (pad_right decimals frac))

parse_parts : ℕ → Option ℕ → Option Text → Parsed
unfolding parse_frac pow10
parse_parts decimals none frac = err bad_whole
parse_parts decimals (some whole) frac =
    let multiplier = pow10 decimals in
    if ltb 0 multiplier && ltb ((word - 1) / multiplier) whole
    then err overflow
    else parse_frac decimals (whole * multiplier % word) frac

unfoldable pub parse_amount : Text → ℕ → Parsed
unfolding parse_parts has_exponent split_dot
parse_amount [] decimals = err empty_amount
parse_amount (c ∷ s) decimals =
    if has_exponent (c ∷ s)
    then err exponential
    else let (whole, frac) = split_dot (c ∷ s) in parse_parts decimals (parse_uint whole) frac
