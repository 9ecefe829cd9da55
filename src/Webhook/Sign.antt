-- ===== src/Webhook/Sign.antt =====
-- `Sign` and `Verify` of internal/webhook/sign.go. HMAC-SHA256 and the text of a duration are
-- parameters. A time is a number of nanoseconds since 1970.
pub mod RoundTrip
pub mod Accepts
pub mod Tamper
use selatpay.Prelude.{
  ℕ, ◌+◌, ◌-◌, ◌^◌, Bool, true, false, Option, none, some, List, [], ◌∷◌, ◌++◌, if◌then◌else◌, not,
}
use selatpay.Prelude.Text.{Text, codes, text_eq}
use selatpay.Prelude.Decimal.{format_int}
use selatpay.Prelude.Int.{ℤ, pos, negsuc, max_int64, ltb_ℤ, ◌+ℤ◌, ◌-ℤ◌, ◌*ℤ◌, wrap64}
use selatpay.Db.Tx.{Err, Result, ok, err, message}
use selatpay.Webhook.Hex.{hex_encode}
use selatpay.Webhook.Header.{signature_scheme, parse_signature_header}

abbrev pub empty_secret : Err
empty_secret = message (codes "webhook: signing secret is empty")

-- `timestamp.body`.
unfoldable pub signed_bytes : ℤ → Text → Text
signed_bytes ts body = format_int ts ++ b'.' ∷ body

-- "t=<unix>,v1=<hex>".
unfoldable pub header_value : ℤ → Text → Text
unfolding signature_scheme
header_value ts mac =
    codes "t=" ++ (format_int ts ++ b',' ∷ (signature_scheme ++ b'=' ∷ hex_encode mac))

-- The seconds between year 1 and 1970, which `time.Unix` adds in int64.
abbrev pub epoch_offset : ℕ
epoch_offset = 62135596800

abbrev pub nanoseconds : ℕ
nanoseconds = 1000000000

unfoldable pub unix_time : ℤ → ℤ
unix_time ts = (wrap64 (ts +ℤ pos epoch_offset) -ℤ pos epoch_offset) *ℤ pos nanoseconds

-- `Time.Sub` stops at the ends of int64.
unfoldable pub sub_time : ℤ → ℤ → ℤ
sub_time t u =
    let d = t -ℤ u in
    if ltb_ℤ (pos max_int64) d
    then pos max_int64
    else if ltb_ℤ d (negsuc max_int64)
    then negsuc max_int64
    else d

-- `if age < 0 { age = -age }`, in int64.
unfoldable pub absolute : ℤ → ℤ
absolute age = if ltb_ℤ age (pos 0) then wrap64 (pos 0 -ℤ age) else age

unfoldable pub signature_age : ℤ → ℤ → ℤ
unfolding unix_time sub_time absolute
signature_age now ts = absolute (sub_time now (unix_time ts))

abbrev pub too_old : ℤ → ℤ → ℤ → Bool
too_old now ts tolerance =
    if ltb_ℤ (pos 0) tolerance then ltb_ℤ tolerance (signature_age now ts) else false

module _ (hmac_sha256 : Text → Text → Text) where
  unfoldable pub sign : Text → Text → ℤ → Result Text
  unfolding header_value signed_bytes
  sign [] body ts = err empty_secret
  sign (k ∷ secret) body ts = ok (header_value ts (hmac_sha256 (k ∷ secret) (signed_bytes ts body)))

  module _ (duration_string : ℤ → Text) where
    abbrev outside : ℤ → Err
    outside tolerance = message (
        codes "webhook: signature timestamp outside "
        ++ (duration_string tolerance ++ codes " tolerance"))

    abbrev pub checked : Text → Text → ℤ → ℤ → Result (ℤ × Text) → Result (Unit {0})
    checked secret body now tolerance (err e) = err e
    checked secret body now tolerance (ok (ts, mac)) =
        if too_old now ts tolerance
        then err (outside tolerance)
        else if not (text_eq mac (hmac_sha256 secret (signed_bytes ts body)))
        then err (message (codes "webhook: signature mismatch"))
        else ok tt

    unfoldable pub verify : Text → Text → Text → ℤ → ℤ → Result (Unit {0})
    unfolding signature_age signed_bytes parse_signature_header
    verify [] body header now tolerance = err empty_secret
    verify (k ∷ secret) body header now tolerance =
        checked (k ∷ secret) body now tolerance (parse_signature_header header)
