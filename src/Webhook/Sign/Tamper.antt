-- ===== src/Webhook/Sign/Tamper.antt =====
-- What a signature of a webhook binds.
use selatpay.Prelude.{
  ℕ, suc, ◌≡◌, refl, sym, ap, ◌∙◌, true, false, [], ◌∷◌, ◌++◌, arith, All, All-map, ◌==◌, ◌<◌,
  length,
}
use selatpay.Prelude.Text.{Text}
use selatpay.Prelude.Int.{ℤ, pos, negsuc}
use selatpay.Prelude.Decimal.{format_uint, format_int, format_uint-IsDigits, is_digit}
use selatpay.Prelude.Lines.{format_int-injective}
use selatpay.Db.Tx.{Result, ok}
use selatpay.Webhook.Header.{parse_signature_header}
use selatpay.Webhook.Sign.{signed_bytes, verify}
use selatpay.Webhook.Sign.Accepts.{verify-checked, checked-Acceptable}

-- A text without a dot.
Dotless : Text → Type 0
Dotless = All (λ c. (c == b'.') ≡ false)

split_dot :
    (s t x y : Text) → Dotless s → Dotless t → s ++ b'.' ∷ x ≡ t ++ b'.' ∷ y → (s ≡ t) × (x ≡ y)
unfolding Dotless
split_dot [] [] x y hs ht e = (cc, cc)
split_dot [] (d ∷ t) x y hs (h, ht) e = let k : b'.' ≡ d = cc in absurd (ground arith)
split_dot (c ∷ s) [] x y (h, hs) ht e = let k : c ≡ b'.' = cc in absurd (ground arith)
split_dot (c ∷ s) (d ∷ t) x y (h, hs) (h', ht) e =
    let (p, q) = split_dot s t x y hs ht (cc) in (cc, q)

format_uint-Dotless : (n : ℕ) → Dotless (format_uint n)
unfolding Dotless
format_uint-Dotless n =
    All-map (λ c. is_digit c ≡ true) (λ c. (c == b'.') ≡ false) (format_uint n)
      (λ c digit. ground arith) (format_uint-IsDigits n)

format_int-Dotless : (z : ℤ) → Dotless (format_int z)
unfolding format_int Dotless
format_int-Dotless (pos n) = format_uint-Dotless n
format_int-Dotless (negsuc n) = (refl, format_uint-Dotless (suc n))

-- The text that is signed tells the timestamp and the body, whatever bytes the body has.
signed_bytes-injective :
    (t u : ℤ) (x y : Text) → signed_bytes t x ≡ signed_bytes u y → (t ≡ u) × (x ≡ y)
unfolding signed_bytes
signed_bytes-injective t u x y e =
    let (same, rest) =
      split_dot (format_int t) (format_int u) x y (format_int-Dotless t) (format_int-Dotless u) e in
    (format_int-injective t u same, rest)

module _ (hmac_sha256 : Text → Text → Text) (duration_string : ℤ → Text) (secret : Text) where
  not_empty :
      (s body header : Text) (now tolerance : ℤ)
      → verify hmac_sha256 duration_string s body header now tolerance ≡ ok tt
      → 0 < length s
  unfolding verify
  not_empty [] body header now tolerance h = absurd (cc)
  not_empty (k ∷ s) body header now tolerance h = omega arith

  -- The MAC of a header that was accepted is that of its timestamp and the body.
  verify-mac :
      (body header mac : Text) (ts now tolerance : ℤ)
      → parse_signature_header header ≡ ok (ts, mac)
      → verify hmac_sha256 duration_string secret body header now tolerance ≡ ok tt
      → mac ≡ hmac_sha256 secret (signed_bytes ts body)
  verify-mac body header mac ts now tolerance parsed h =
      let given = not_empty secret body header now tolerance h in
      let e = verify-checked hmac_sha256 duration_string secret body header now tolerance given in
      let (ts', own, _) =
        checked-Acceptable hmac_sha256 duration_string secret body now tolerance
          (parse_signature_header header) (sym e ∙ h) in
      let own_mac = hmac_sha256 secret (signed_bytes ts' body) in
      let shown : Result (ℤ × Text) = ok (ts, mac) in
      let read : shown ≡ ok (ts', own_mac) = sym parsed ∙ own in
      let same_ts : ts ≡ ts' = cc in
      let same_mac : mac ≡ hmac_sha256 secret (signed_bytes ts' body) = cc in
      same_mac ∙ ap (λ t. hmac_sha256 secret (signed_bytes t body)) (sym same_ts)

  -- Under one secret, two deliveries that Verify accepts, at whatever times and tolerances, with
  -- headers that carry the same MAC have one timestamp and one body: neither can be changed without
  -- a new MAC, given that the MACs of two texts differ.
  pub verify-tamper_free :
      ((key s t : Text) → hmac_sha256 key s ≡ hmac_sha256 key t → s ≡ t)
      → (body body' header header' mac : Text) (ts ts' now now' tolerance tolerance' : ℤ)
      → parse_signature_header header ≡ ok (ts, mac)
      → parse_signature_header header' ≡ ok (ts', mac)
      → verify hmac_sha256 duration_string secret body header now tolerance ≡ ok tt
      → verify hmac_sha256 duration_string secret body' header' now' tolerance' ≡ ok tt
      → (ts ≡ ts') × (body ≡ body')
  verify-tamper_free apart body body' header header' mac ts ts' now now' tolerance tolerance' p p' h
        h' =
      signed_bytes-injective ts ts' body body' (
        apart secret (signed_bytes ts body) (signed_bytes ts' body') (
          sym (verify-mac body header mac ts now tolerance p h)
          ∙ verify-mac body' header' mac ts' now' tolerance' p' h'))
