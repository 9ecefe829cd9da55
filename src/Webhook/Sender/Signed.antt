-- ===== src/Webhook/Sender/Signed.antt =====
-- The signature of the requests that are sent.
use selatpay.Prelude.{
  ◌<◌, ◌≡◌, refl, sym, ap, ◌∙◌, Bool, true, false, Option, none, some, List, [], ◌∷◌, ◌==◌,
  if◌then◌else◌, find?, All, length, inl, inr, Bool-cases, eq_of_some,
}
use selatpay.Prelude.Text.{Text, codes, text_eq, text_eq_refl, text_eq_sound, is_empty}
use selatpay.Prelude.Int.{ℤ}
use selatpay.Db.Tables.{Uuid, Merchant}
use selatpay.Db.Tx.{Err, Result, ok, err}
use selatpay.Outbox.Dispatcher.{Message}
use selatpay.Webhook.Hex.{AreBytes, InInt64}
use selatpay.Webhook.Sign.{too_old, sign, verify}
use selatpay.Webhook.Sign.RoundTrip.{verify-sign}
use selatpay.Webhook.Sender.{
  Headers, get_header, canonical, put, set_header, merchant_header, signature_header, forward,
  request_headers, Request, Response, posted, configured, with_merchant, with_id, send,
}

get_header-put : (key v : Text) (headers : Headers) → get_header key (put key v headers) ≡ v
unfolding get_header put
get_header-put key v [] = rw (text_eq_refl key)
get_header-put key v ((k, u) ∷ headers) = elim (Bool-cases (text_eq k key)) [
  | inl same ↦ rw (same, same) refl
  | inr other ↦ rw (other, other) (get_header-put key v headers)
]

get_header-put_other :
    (key k v : Text) (headers : Headers)
    → text_eq k key ≡ false
    → get_header key (put k v headers) ≡ get_header key headers
unfolding get_header put
get_header-put_other key k v [] other = rw other
get_header-put_other key k v ((j, u) ∷ headers) other = elim (Bool-cases (text_eq j k)) [
  | inl same ↦
      let apart : text_eq j key ≡ false =
        ap (λ x. text_eq x key) (text_eq_sound j k same) ∙ other in
      rw (same, apart) refl
  | inr apart ↦
      rw apart (
        ap (λ rest. if text_eq j key then u else rest) (get_header-put_other key k v headers other))
]

-- No producer header becomes the signature's.
abbrev pub LeavesSignature : Headers → Type 0
LeavesSignature = All (λ h. text_eq (canonical h.0) signature_header ≡ false)

get_header-forward :
    (more headers : Headers)
    → LeavesSignature more
    → get_header signature_header (forward more headers) ≡ get_header signature_header headers
unfolding forward set_header
get_header-forward [] headers h = refl
get_header-forward ((k, v) ∷ more) headers (other, h) =
    elim (Bool-cases (text_eq k merchant_header)) [
      | inl internal ↦ rw internal (get_header-forward more headers h)
      | inr outward ↦ rw outward (
          get_header-forward more (put (canonical k) v headers) h
          ∙ get_header-put_other signature_header (canonical k) v headers other)
    ]

canonical-signature_header : canonical signature_header ≡ signature_header
unfolding canonical signature_header
canonical-signature_header = refl

get_header-set_header :
    (v : Text) (headers : Headers)
    → get_header signature_header (set_header signature_header v headers) ≡ v
unfolding set_header
get_header-set_header v headers =
    ap (λ k. get_header signature_header (put k v headers)) canonical-signature_header
    ∙ get_header-put signature_header v headers

get_header-request_headers :
    (signature : Text) (headers : Headers)
    → LeavesSignature headers
    → get_header signature_header (request_headers signature headers) ≡ signature
unfolding request_headers
get_header-request_headers signature headers h =
    let first = set_header (codes "Content-Type") (codes "application/json") [] in
    get_header-forward headers (set_header signature_header signature first) h
    ∙ get_header-set_header signature first

module _ (hmac_sha256 : Text → Text → Text) (uuid_parse : Text → Option Uuid)
    (valid_url : Text → Bool) (exchange : Request → Response) (clock : ℤ) where
  -- The request carries the payload to `url`, and its signature is the one that `secret` makes.
  abbrev pub SignedBy : Message → Option Text → Text → Request → Type 0
  SignedBy msg url secret req =
      (url ≡ some req.url)
      × (req.body ≡ msg.payload)
      × (sign hmac_sha256 secret msg.payload clock ≡ ok (get_header signature_header req.headers))

  posted-SignedBy :
      (msg : Message) (url : Text) (res : Result Text) (req : Request) (e : Option Err)
      → LeavesSignature msg.headers
      → posted hmac_sha256 uuid_parse valid_url exchange clock url msg res ≡ (some req, e)
      → (url ≡ req.url)
        × (req.body ≡ msg.payload)
        × (res ≡ ok (get_header signature_header req.headers))
  posted-SignedBy msg url (err x) req e h went = absurd (cc)
  posted-SignedBy msg url (ok signature) req e h went = elim (Bool-cases (valid_url url)) [
    | inl good ↦
        let sent : Request = record {
          url = url;
          headers = request_headers signature msg.headers;
          body = msg.payload;
        } in
        let same : sent ≡ req = eq_of_some (ap (λ d. d.0) (rw good at went)) in
        (
          ap (λ r. r.url) same,
          sym (ap (λ r. r.body) same),
          ap ok (
              sym (get_header-request_headers signature msg.headers h)
              ∙ ap (λ r. get_header signature_header r.headers) same),
        )
    | inr bad ↦ let none_went = rw bad at went in absurd (cc)
  ]

  configured-SignedBy :
      (msg : Message) (url : Option Text) (secret : Text) (req : Request) (e : Option Err)
      → LeavesSignature msg.headers
      → configured hmac_sha256 uuid_parse valid_url exchange clock msg url secret ≡ (some req, e)
      → SignedBy msg url secret req
  configured-SignedBy msg none secret req e h went = absurd (cc)
  configured-SignedBy msg (some []) secret req e h went = absurd (cc)
  configured-SignedBy msg (some (c ∷ url)) [] req e h went = absurd (cc)
  configured-SignedBy msg (some (c ∷ url)) (k ∷ secret) req e h went =
      let (to, carried, signed) =
        posted-SignedBy msg (c ∷ url) (sign hmac_sha256 (k ∷ secret) msg.payload clock) req e h
          went in
      (ap (λ u. some u) to, carried, signed)

  -- Where a request goes: to the merchant whom the message names, signed with that merchant's secret.
  abbrev pub Addressed : List Merchant → Message → Request → Merchant → Type 0
  Addressed merchants msg req m =
      (id : Uuid) × (uuid_parse (get_header merchant_header msg.headers) ≡ some id)
      × (find? (λ x. x.id == id) merchants ≡ some m)
      × SignedBy msg m.webhook_url m.webhook_secret req

  with_merchant-SignedBy :
      (lookup_fails : Bool) (msg : Message) (found : Option Merchant) (req : Request)
      (e : Option Err)
      → LeavesSignature msg.headers
      → with_merchant hmac_sha256 uuid_parse valid_url exchange clock lookup_fails msg found
        ≡ (some req, e)
      → (m : Merchant) × (found ≡ some m) × SignedBy msg m.webhook_url m.webhook_secret req
  with_merchant-SignedBy true msg found req e h went = absurd (cc)
  with_merchant-SignedBy false msg none req e h went = absurd (cc)
  with_merchant-SignedBy false msg (some m) req e h went =
      (m, refl, configured-SignedBy msg m.webhook_url m.webhook_secret req e h went)

  with_id-Addressed :
      (lookup_fails : Bool) (merchants : List Merchant) (msg : Message) (o : Option Uuid)
      (req : Request) (e : Option Err)
      → uuid_parse (get_header merchant_header msg.headers) ≡ o
      → LeavesSignature msg.headers
      → with_id hmac_sha256 uuid_parse valid_url exchange clock lookup_fails merchants msg o
        ≡ (some req, e)
      → (m : Merchant) × Addressed merchants msg req m
  with_id-Addressed lookup_fails merchants msg none req e named h went = absurd (cc)
  with_id-Addressed lookup_fails merchants msg (some id) req e named h went =
      let (m, found, signed) =
        with_merchant-SignedBy lookup_fails msg (find? (λ x. x.id == id) merchants) req e h went in
      (m, (id, named, found, signed))

  send-Addressed :
      (lookup_fails : Bool) (merchants : List Merchant) (msg : Message) (req : Request)
      (e : Option Err)
      → LeavesSignature msg.headers
      → send hmac_sha256 uuid_parse valid_url exchange clock lookup_fails merchants msg
        ≡ (some req, e)
      → (m : Merchant) × Addressed merchants msg req m
  unfolding send
  send-Addressed lookup_fails merchants msg req e h went =
      let raw = get_header merchant_header msg.headers in
      elim (Bool-cases (is_empty raw)) [
        | inl missing ↦ let nothing = rw missing at went in absurd (cc)
        | inr given ↦
            with_id-Addressed lookup_fails merchants msg (uuid_parse raw) req e refl h
              (rw given at went)
      ]

  -- Every request that goes out, whatever the receiver answers, goes to the URL of the merchant whom
  -- the message names, carries its payload, and is accepted by Verify under that merchant's secret as
  -- long as its timestamp is not outside the tolerance, given that no producer header is named like
  -- the signature's and that a MAC is a text of bytes that is not empty.
  pub send-verifies :
      (duration_string : ℤ → Text)
      → ((key text : Text) → 0 < length (hmac_sha256 key text))
      → ((key text : Text) → AreBytes (hmac_sha256 key text))
      → (lookup_fails : Bool) (merchants : List Merchant) (msg : Message) (req : Request)
        (e : Option Err) (now tolerance : ℤ)
      → LeavesSignature msg.headers
      → send hmac_sha256 uuid_parse valid_url exchange clock lookup_fails merchants msg
        ≡ (some req, e)
      → InInt64 clock
      → too_old now clock tolerance ≡ false
      → (m : Merchant) × Addressed merchants msg req m
        × (verify hmac_sha256 duration_string m.webhook_secret req.body
              (get_header signature_header req.headers)
              now
              tolerance
            ≡ ok tt)
  send-verifies duration_string given bytes lookup_fails merchants msg req e now tolerance h went
        small fresh =
      let (m, (id, named, found, (to, carried, signed))) =
        send-Addressed lookup_fails merchants msg req e h went in
      (
        m,
        (id, named, found, (to, carried, signed)),
        ap
              (λ b.
                verify hmac_sha256 duration_string m.webhook_secret b
                  (get_header signature_header req.headers) now tolerance)
              carried
            ∙ verify-sign hmac_sha256 duration_string given bytes m.webhook_secret msg.payload
                (get_header signature_header req.headers) clock now tolerance signed small fresh,
      )
