-- ===== src/Auth/Bound.antt =====
-- A signature that passes is bound to one request.
use selatpay.Prelude.{
  ◌≡◌, refl, sym, ap, ◌∙◌, Option, none, some, [], ◌∷◌, ◌++◌, inl, inr, ◌||◌, arith, Bool-cases,
  length, length-append, cancel_prefix, eq_of_some,
}
use selatpay.Prelude.Text.{Text, text_eq, text_eq_sound, is_empty}
use selatpay.Prelude.Lines.{IsLine, split_line}
use selatpay.Prelude.Int.{ℤ, pos, ltb_ℤ}
use selatpay.Db.Tables.{Uuid}
use selatpay.Db.Tx.{Result, ok, err}
use selatpay.Webhook.Hex.{hex_encode, hex_decode, AreBytes, hex_decode-hex_encode}
use selatpay.Webhook.Sign.{sub_time}
use selatpay.Auth.{
  Request, passed, max_clock_skew, abs_duration, parse_timestamp, canonical, sign, with_key,
  with_body, with_time, authenticate,
}

length-hex_encode :
    (s t : Text) → length s ≡ length t → length (hex_encode s) ≡ length (hex_encode t)
unfolding hex_encode
length-hex_encode [] [] h = refl
length-hex_encode [] (b ∷ t) h = absurd (omega arith)
length-hex_encode (a ∷ s) [] h = absurd (omega arith)
length-hex_encode (a ∷ s) (b ∷ t) h = omega (arith, length-hex_encode s t (omega arith))

hex_encode-injective : (s t : Text) → AreBytes s → AreBytes t → hex_encode s ≡ hex_encode t → s ≡ t
hex_encode-injective s t hs ht e =
    eq_of_some (sym (hex_decode-hex_encode s hs) ∙ ap hex_decode e ∙ hex_decode-hex_encode t ht)

module _ (hmac_sha256 : Text → Text → Text) (sha256 : Text → Text) where
  canonical-injective :
      ((s t : Text) → length (sha256 s) ≡ length (sha256 t))
      → ((s : Text) → AreBytes (sha256 s))
      → (a b : Request) (s t : Text) → IsLine a.timestamp
      → IsLine b.timestamp
      → IsLine a.method
      → IsLine b.method
      → canonical hmac_sha256 sha256 a.method a.path a.timestamp s
        ≡ canonical hmac_sha256 sha256 b.method b.path b.timestamp t
      → (a.timestamp ≡ b.timestamp)
        × (a.method ≡ b.method)
        × (a.path ≡ b.path)
        × (sha256 s ≡ sha256 t)
  unfolding canonical
  canonical-injective width bytes a b s t ta tb ma mb e =
      let hs = hex_encode (sha256 s) in
      let ht = hex_encode (sha256 t) in
      let l : length hs ≡ length ht = length-hex_encode (sha256 s) (sha256 t) (width s t) in
      let (times, e') =
        split_line a.timestamp b.timestamp (a.method ++ 10 ∷ (a.path ++ 10 ∷ hs))
          (b.method ++ 10 ∷ (b.path ++ 10 ∷ ht)) ta tb e in
      let (methods, e'') =
        split_line a.method b.method (a.path ++ 10 ∷ hs) (b.path ++ 10 ∷ ht) ma mb e' in
      let total = ap length e'' in
      let la = length-append a.path (10 ∷ hs) in
      let lb = length-append b.path (10 ∷ ht) in
      let lp : length a.path ≡ length b.path = omega arith in
      let (paths, hashes) = cancel_prefix a.path b.path (10 ∷ hs) (10 ∷ ht) lp e'' in
      let hexes : hs ≡ ht = cc in
      (times, methods, paths, hex_encode-injective (sha256 s) (sha256 t) (bytes s) (bytes t) hexes)

  module _ (parse_rfc3339 : Text → Option ℤ) (store : Text → Result (Uuid × Text)) where
    -- What the store and the signature of a request say when it passes as `m` with a body.
    record Signed (req : Request) (m : Uuid) (body : Text) : Type 0 where
      secret : Text
      resolved : store req.key_id ≡ ok (m, secret)
      decoded :
          hex_decode req.signature
          ≡ some (sign hmac_sha256 sha256 secret req.method req.path req.timestamp body)

    with_key-Signed :
        (now : ℤ) (req : Request) (body b k : Text) (m : Uuid) (found : Result (Uuid × Text))
        (mac : Option Text)
        → store req.key_id ≡ found
        → hex_decode req.signature ≡ mac
        → with_key hmac_sha256 sha256 parse_rfc3339 store now req body found ≡ passed m k b
        → Signed req m b
    with_key-Signed now req body b k m (err e) mac h d pass = absurd (cc)
    with_key-Signed now req body b k m (ok (n, secret)) none h d pass =
        let refused_it = rw d at pass in absurd (cc)
    with_key-Signed now req body b k m (ok (n, secret)) (some mac) h d pass =
        let expected = sign hmac_sha256 sha256 secret req.method req.path req.timestamp body in
        elim (Bool-cases (text_eq expected mac)) [
          | inl same ↦
              let through : passed n req.key_id body ≡ passed m k b = rw (d, same) at pass in
              let merchant : n ≡ m = cc in
              let read : body ≡ b = cc in
              let right = text_eq_sound expected mac same in
              record {
                secret = secret;
                resolved = rw merchant at h;
                decoded = rw read at (d ∙ ap (λ x. some x) (sym right));
              }
          | inr other ↦ let refused_it = rw (d, other) at pass in absurd (cc)
        ]

    with_body-Signed :
        (now : ℤ) (req : Request) (o : Option Text) (m : Uuid) (k b : Text)
        → with_body hmac_sha256 sha256 parse_rfc3339 store now req o ≡ passed m k b
        → Signed req m b
    with_body-Signed now req none m k b pass = absurd (cc)
    with_body-Signed now req (some body) m k b pass =
        with_key-Signed now req body b k m (store req.key_id) (hex_decode req.signature) refl refl
          pass

    with_time-Signed :
        (now : ℤ) (req : Request) (o : Option ℤ) (m : Uuid) (k b : Text)
        → with_time hmac_sha256 sha256 parse_rfc3339 store now req o ≡ passed m k b
        → Signed req m b
    with_time-Signed now req none m k b pass = absurd (cc)
    with_time-Signed now req (some ts) m k b pass =
        elim (Bool-cases (ltb_ℤ (pos max_clock_skew) (abs_duration (sub_time now ts)))) [
          | inl old ↦ let refused_it = rw old at pass in absurd (cc)
          | inr fresh ↦ with_body-Signed now req req.body m k b (rw fresh at pass)
        ]

    authenticate-Signed :
        (now : ℤ) (req : Request) (m : Uuid) (k b : Text)
        → authenticate hmac_sha256 sha256 parse_rfc3339 store now req ≡ passed m k b
        → Signed req m b
    unfolding authenticate
    authenticate-Signed now req m k b pass =
        elim (Bool-cases
          (is_empty req.key_id || (is_empty req.timestamp || is_empty req.signature))) [
            | inl missing ↦ let refused_it = rw missing at pass in absurd (cc)
            | inr given ↦
                with_time-Signed now req (parse_timestamp parse_rfc3339 req.timestamp) m k b
                  (rw given at pass)
          ]

    -- Two requests that one key store lets pass under one key and one signature, at whatever times,
    -- are one request: they have one merchant, timestamp, method and path, and bodies of one hash,
    -- given that hashes are bytes of one length, that the MACs of two texts differ, and that
    -- timestamps and methods have no line break.
    pub authenticate-bound :
        ((s t : Text) → length (sha256 s) ≡ length (sha256 t))
        → ((s : Text) → AreBytes (sha256 s))
        → ((key s t : Text) → hmac_sha256 key s ≡ hmac_sha256 key t → s ≡ t)
        → (now now' : ℤ) (req req' : Request) (m m' : Uuid) (k k' body body' : Text)
        → IsLine req.timestamp
        → IsLine req'.timestamp
        → IsLine req.method
        → IsLine req'.method
        → req.key_id ≡ req'.key_id
        → req.signature ≡ req'.signature
        → authenticate hmac_sha256 sha256 parse_rfc3339 store now req ≡ passed m k body
        → authenticate hmac_sha256 sha256 parse_rfc3339 store now' req' ≡ passed m' k' body'
        → (m ≡ m')
          × ((req.timestamp ≡ req'.timestamp)
              × (req.method ≡ req'.method)
              × (req.path ≡ req'.path)
              × (sha256 body ≡ sha256 body'))
    unfolding sign
    authenticate-bound width bytes apart now now' req req' m m' k k' body body' l l' n n' keys
          signatures pass pass' =
        let a = authenticate-Signed now req m k body pass in
        let b = authenticate-Signed now' req' m' k' body' pass' in
        let first = a.resolved in
        let second : store req.key_id ≡ ok (m', b.secret) = ap store keys ∙ b.resolved in
        let merchants : m ≡ m' = cc in
        let secrets : a.secret ≡ b.secret = cc in
        let one = canonical hmac_sha256 sha256 req.method req.path req.timestamp body in
        let two = canonical hmac_sha256 sha256 req'.method req'.path req'.timestamp body' in
        let macs : hmac_sha256 a.secret one ≡ hmac_sha256 b.secret two =
          eq_of_some (sym a.decoded ∙ ap hex_decode signatures ∙ b.decoded) in
        let here : hmac_sha256 a.secret one ≡ hmac_sha256 a.secret two =
          macs ∙ ap (λ s. hmac_sha256 s two) (sym secrets) in
        (
          merchants,
          canonical-injective width bytes req req' body body' l l' n n'
              (apart a.secret one two here),
        )
