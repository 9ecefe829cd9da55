-- ===== src/Auth.antt =====
-- internal/auth: the middleware of hmac.go and the key store of pgstore.go. HMAC-SHA256, SHA-256 and
-- `time.Parse` are parameters. A time is a number of nanoseconds since 1970.
pub mod Bound
use selatpay.Prelude.{
  ℕ, ◌*◌, Bool, true, false, ◌&&◌, ◌||◌, not, Option, none, some, List, [], ◌∷◌, ◌++◌, ◌==◌,
  if◌then◌else◌, find?,
}
use selatpay.Prelude.Text.{Text, codes, text_eq, is_empty}
use selatpay.Prelude.Int.{ℤ, pos, ltb_ℤ, ◌-ℤ◌, wrap64}
use selatpay.Db.Tables.{Uuid, Merchant}
use selatpay.Db.Tx.{Result, ok, err, message, wrap, unavailable}
use selatpay.Webhook.Hex.{hex_encode, hex_decode, parse_int}
use selatpay.Webhook.Sign.{unix_time, sub_time}

-- A row of api_keys.
pub record ApiKey : Type 0 where
  pub id : Uuid
  pub merchant_id : Uuid
  pub key_id : Text
  pub secret_hash : Text
  pub revoked_at : Option ℕ

-- What the middleware reads of a request: a header that is missing is empty, and `body` is none
-- where reading it fails.
pub record Request : Type 0 where
  pub key_id : Text
  pub timestamp : Text
  pub signature : Text
  pub method : Text
  pub path : Text
  pub body : Option Text

-- An error answer with its status, code and message, or the call of the handler with the merchant and
-- the key of the context and the body that was read.
pub data Answer : Type 0 where
  refused : ℕ → Text → Text → Answer
  passed : Uuid → Text → Text → Answer

-- Five minutes.
abbrev pub max_clock_skew : ℕ
max_clock_skew = 5 * 60 * 1000000000

abbrev is_live : Option ℕ → Bool
is_live none = true
is_live (some at) = false

abbrev has_merchant : Uuid → List Merchant → Bool
has_merchant id [] = false
has_merchant id (m ∷ ms) = (m.id == id) || has_merchant id ms

-- The WHERE clause and the JOIN of GetActiveAPIKeyByKeyID.
abbrev is_active : List Merchant → Text → ApiKey → Bool
is_active merchants key_id k =
    text_eq k.key_id key_id && (is_live k.revoked_at && has_merchant k.merchant_id merchants)

abbrev resolved : Option ApiKey → Result (Uuid × Text)
resolved none = err (message (codes "auth: unknown or revoked key id"))
resolved (some k) = ok (k.merchant_id, k.secret_hash)

-- `PGKeyStore.Lookup`, and whether the database fails.
unfoldable pub lookup : Bool → List Merchant → List ApiKey → Text → Result (Uuid × Text)
lookup fails merchants keys key_id =
    if fails then err (wrap unavailable) else resolved (find? (is_active merchants key_id) keys)

unfoldable pub abs_duration : ℤ → ℤ
abs_duration d = if ltb_ℤ d (pos 0) then wrap64 (pos 0 -ℤ d) else d

abbrev from_unix : Option ℤ → Option ℤ
from_unix none = none
from_unix (some secs) = some (unix_time secs)

abbrev or_unix : Text → Option ℤ → Option ℤ
or_unix raw none = from_unix (parse_int raw)
or_unix raw (some t) = some t

unfoldable pub parse_timestamp : (Text → Option ℤ) → Text → Option ℤ
unfolding parse_int unix_time
parse_timestamp parse_rfc3339 raw = or_unix raw (parse_rfc3339 raw)

module _ (hmac_sha256 : Text → Text → Text) (sha256 : Text → Text) where
  -- The text that is signed.
  unfoldable pub canonical : Text → Text → Text → Text → Text
  unfolding hex_encode
  canonical method path timestamp body =
      timestamp ++ 10 ∷ (method ++ 10 ∷ (path ++ 10 ∷ hex_encode (sha256 body)))

  unfoldable pub sign : Text → Text → Text → Text → Text → Text
  unfolding canonical
  sign secret method path timestamp body = hmac_sha256 secret (canonical method path timestamp body)

  abbrev matches : Text → Option Text → Bool
  matches expected none = false
  matches expected (some provided) = text_eq expected provided

  module _ (parse_rfc3339 : Text → Option ℤ) (store : Text → Result (Uuid × Text)) (now : ℤ) where
    abbrev pub with_key : Request → Text → Result (Uuid × Text) → Answer
    with_key req body (err e) =
        refused 401 (codes "unknown_key") (codes "auth: unknown or revoked key id")
    with_key req body (ok (merchant_id, secret)) =
        if matches (sign secret req.method req.path req.timestamp body) (hex_decode req.signature)
        then passed merchant_id req.key_id body
        else refused 401 (codes "bad_signature") (codes "auth: signature does not match request")

    abbrev pub with_body : Request → Option Text → Answer
    with_body req none = refused 400 (codes "bad_body") (codes "auth: failed to read request body")
    with_body req (some body) = with_key req body (store req.key_id)

    abbrev bad_timestamp : Answer
    bad_timestamp =
        refused 401 (codes "bad_timestamp")
          (codes "auth: timestamp unparseable or outside allowed clock skew")

    abbrev pub with_time : Request → Option ℤ → Answer
    with_time req none = bad_timestamp
    with_time req (some ts) =
        if ltb_ℤ (pos max_clock_skew) (abs_duration (sub_time now ts))
        then bad_timestamp
        else with_body req req.body

    -- `Middleware`.
    unfoldable pub authenticate : Request → Answer
    unfolding sign hex_decode parse_timestamp sub_time abs_duration
    authenticate req =
        if is_empty req.key_id || (is_empty req.timestamp || is_empty req.signature)
        then refused 401 (codes "missing_credentials") (codes "auth: missing required HMAC headers")
        else with_time req (parse_timestamp parse_rfc3339 req.timestamp)
