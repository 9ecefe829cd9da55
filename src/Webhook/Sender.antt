-- ===== src/Webhook/Sender.antt =====
-- `Send` of internal/webhook/sender.go. The HTTP exchange, `uuid.Parse` and the URL check of
-- `http.NewRequest` are parameters. The headers of a request are a map with canonical keys.
pub mod Signed
use selatpay.Prelude.{
  ℕ, ◌+◌, ◌-◌, Bool, true, false, ◌&&◌, ◌||◌, not, Option, none, some, List, [], ◌∷◌, ◌++◌, ◌==◌,
  leb, ltb, if◌then◌else◌, find?,
}
use selatpay.Prelude.Text.{Text, codes, text_eq, is_empty}
use selatpay.Prelude.Decimal.{format_uint}
use selatpay.Prelude.Int.{ℤ}
use selatpay.Db.Tables.{Uuid, Merchant}
use selatpay.Db.Tx.{Err, Result, ok, err, unavailable, message, wrap}
use selatpay.Outbox.Dispatcher.{Message}
use selatpay.Webhook.Sign.{sign}

abbrev pub Headers : Type 0
Headers = List (Text × Text)

unfoldable pub get_header : Text → Headers → Text
get_header key [] = []
get_header key ((k, v) ∷ headers) = if text_eq k key then v else get_header key headers

abbrev is_letter : ℕ → Bool
is_letter c = (leb b'a' c && leb c b'z') || (leb b'A' c && leb c b'Z')

-- The bytes of a token: letters, digits and !#$%&'*+-.^_`|~.
abbrev is_token : ℕ → Bool
is_token c =
    is_letter c
    || ((leb b'0' c && leb c b'9')
        || ((c == 33)
            || ((leb 35 c && leb c 39)
                || ((leb 42 c && leb c 43)
                    || ((leb 45 c && leb c 46)
                        || ((leb 94 c && leb c 96) || ((c == 124) || (c == 126))))))))

all_tokens : Text → Bool
all_tokens [] = true
all_tokens (c ∷ s) = is_token c && all_tokens s

abbrev upper_byte : ℕ → ℕ
upper_byte c = if leb b'a' c && leb c b'z' then c - 32 else c

abbrev lower_byte : ℕ → ℕ
lower_byte c = if leb b'A' c && leb c b'Z' then c + 32 else c

-- `up` says whether the next letter begins a word.
capitalized : Bool → Text → Text
capitalized up [] = []
capitalized up (c ∷ s) = (if up then upper_byte c else lower_byte c) ∷ capitalized (c == b'-') s

-- `http.CanonicalHeaderKey`: a key that is no token stays as it is.
unfoldable pub canonical : Text → Text
unfolding all_tokens capitalized
canonical key = if all_tokens key then capitalized true key else key

unfoldable pub put : Text → Text → Headers → Headers
put key v [] = (key, v) ∷ []
put key v ((k, u) ∷ headers) =
    if text_eq k key then (k, v) ∷ headers else (k, u) ∷ put key v headers

-- `req.Header.Set`.
unfoldable pub set_header : Text → Text → Headers → Headers
unfolding put canonical
set_header key v headers = put (canonical key) v headers

unfoldable pub merchant_header : Text
merchant_header = codes "X-Selatpay-Merchant"

unfoldable pub signature_header : Text
signature_header = codes "Selatpay-Signature"

-- The producer's headers, but the one that names the merchant.
unfoldable pub forward : Headers → Headers → Headers
unfolding merchant_header set_header
forward [] headers = headers
forward ((k, v) ∷ more) headers =
    forward more (if text_eq k merchant_header then headers else set_header k v headers)

unfoldable pub request_headers : Text → Headers → Headers
unfolding set_header signature_header forward
request_headers signature headers = forward headers (
    set_header signature_header signature
      (set_header (codes "Content-Type") (codes "application/json") []))

pub record Request : Type 0 where
  pub url : Text
  pub headers : Headers
  pub body : Text

pub data Response : Type 0 where
  failed : Err → Response
  status : ℕ → Response

-- The request that went out, if one did, and the error, if there is one.
abbrev pub Delivery : Type 0
Delivery = Option Request × Option Err

abbrev pub dropped : Delivery
dropped = (none, none)

abbrev pub verdict : Response → Option Err
verdict (failed e) = some (wrap e)
verdict (status code) =
    if leb 200 code && ltb code 300
    then none
    else some (message (codes "webhook: receiver responded " ++ format_uint code))

module _ (hmac_sha256 : Text → Text → Text) (uuid_parse : Text → Option Uuid)
    (valid_url : Text → Bool) (exchange : Request → Response) (clock : ℤ) where
  abbrev pub post : Request → Delivery
  post req =
      if valid_url req.url
      then (some req, verdict (exchange req))
      else (none, some (wrap (message (codes "webhook: build request"))))

  abbrev pub posted : Text → Message → Result Text → Delivery
  posted url msg (err e) = (none, some (wrap e))
  posted url msg (ok signature) =
      post
        (record { url = url; headers = request_headers signature msg.headers; body = msg.payload })

  -- A merchant without a URL or a secret is skipped.
  abbrev pub configured : Message → Option Text → Text → Delivery
  configured msg none secret = dropped
  configured msg (some []) secret = dropped
  configured msg (some url) [] = dropped
  configured msg (some url) secret = posted url msg (sign hmac_sha256 secret msg.payload clock)

  -- GetMerchantWebhookConfig; no row is skipped, any other error is retried.
  abbrev pub with_merchant : Bool → Message → Option Merchant → Delivery
  with_merchant lookup_fails msg found =
      if lookup_fails
      then (none, some (wrap unavailable))
      else elim found [ none ↦ dropped | some m ↦ configured msg m.webhook_url m.webhook_secret ]

  abbrev pub with_id : Bool → List Merchant → Message → Option Uuid → Delivery
  with_id lookup_fails merchants msg none = dropped
  with_id lookup_fails merchants msg (some id) =
      with_merchant lookup_fails msg (find? (λ m. m.id == id) merchants)

  unfoldable pub send : Bool → List Merchant → Message → Delivery
  unfolding get_header merchant_header request_headers
  send lookup_fails merchants msg =
      let raw = get_header merchant_header msg.headers in
      if is_empty raw then dropped else with_id lookup_fails merchants msg (uuid_parse raw)
