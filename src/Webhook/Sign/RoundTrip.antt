-- ===== src/Webhook/Sign/RoundTrip.antt =====
-- A signed header reads back, and is accepted.
use selatpay.Prelude.{
  ℕ, suc, ◌<◌, ◌≡◌, refl, ap, ◌∙◌, Bool, true, false, ◌&&◌, not, none, some, List, [], ◌∷◌, ◌++◌,
  arith, ◌==◌, All, All-map, length, holds_under,
}
use selatpay.Prelude.Text.{Text, codes, text_eq, text_eq_refl}
use selatpay.Prelude.Decimal.{format_uint, format_int, format_uint-IsDigits, is_digit}
use selatpay.Prelude.Int.{ℤ, pos, negsuc}
use selatpay.Db.Tx.{ok}
use selatpay.Webhook.Hex.{
  hex_encode, hex_decode-hex_encode, hex_encode-All, AreBytes, InInt64, parse_int-format_int,
  hex_digit,
}
use selatpay.Webhook.Header.{
  split_on, is_blank_byte, trim_start, trim_end, trim_space, cut_at, Fields, signature_scheme,
  take_field, then_parts, take_parts, finish, parse_signature_header,
}
use selatpay.Webhook.Sign.{signed_bytes, header_value, too_old, sign, checked, verify}

-- No comma and no blank.
abbrev is_plain : ℕ → Bool
is_plain c = not (c == b',') && not (is_blank_byte c)

abbrev IsPlain : Text → Type 0
IsPlain = All (λ c. is_plain c ≡ true)

split_on-plain : (s : Text) → IsPlain s → split_on b',' s ≡ s ∷ []
unfolding split_on
split_on-plain [] h = refl
split_on-plain (c ∷ s) (plain, h) =
    let apart : (c == b',') ≡ false = ground arith in rw (apart, split_on-plain s h)

split_on-append : (s t : Text) → IsPlain s → split_on b',' (s ++ b',' ∷ t) ≡ s ∷ split_on b',' t
unfolding split_on
split_on-append [] t h = refl
split_on-append (c ∷ s) t (plain, h) =
    let apart : (c == b',') ≡ false = ground arith in rw (apart, split_on-append s t h)

trim_end-plain : (s : Text) → IsPlain s → trim_end s ≡ s
unfolding trim_end
trim_end-plain [] h = refl
trim_end-plain (c ∷ s) (plain, h) =
    let apart : is_blank_byte c ≡ false = ground arith in rw (apart, trim_end-plain s h)

trim_space-plain : (s : Text) → IsPlain s → trim_space s ≡ s
unfolding trim_space trim_start
trim_space-plain [] h = trim_end-plain [] h
trim_space-plain (c ∷ s) (plain, h) =
    let apart : is_blank_byte c ≡ false = ground arith in
    rw apart (trim_end-plain (c ∷ s) (plain, h))

plain_digit : (c : ℕ) → is_digit c ≡ true → is_plain c ≡ true
plain_digit c h = ground arith

format_uint-IsPlain : (n : ℕ) → IsPlain (format_uint n)
format_uint-IsPlain n =
    All-map (λ c. is_digit c ≡ true) (λ c. is_plain c ≡ true) (format_uint n) plain_digit
      (format_uint-IsDigits n)

format_int-IsPlain : (z : ℤ) → IsPlain (format_int z)
unfolding format_int
format_int-IsPlain (pos n) = format_uint-IsPlain n
format_int-IsPlain (negsuc n) = (refl, format_uint-IsPlain (suc n))

digits_plain : holds_under (λ n. is_plain (hex_digit n)) 16 ≡ true
unfolding holds_under
digits_plain = refl

hex_encode-IsPlain : (bs : Text) → AreBytes bs → IsPlain (hex_encode bs)
hex_encode-IsPlain bs h = hex_encode-All is_plain digits_plain bs h

-- The two parts of the header.
abbrev ts_part : ℤ → Text
ts_part ts = codes "t=" ++ format_int ts

abbrev mac_part : Text → Text
mac_part mac = codes "v1=" ++ hex_encode mac

take_field-ts :
    (f : Fields) (ts : ℤ)
    → InInt64 ts
    → take_field f (cut_at b'=' (ts_part ts)) ≡ ok (record f { ts = some ts })
unfolding take_field cut_at text_eq
take_field-ts f ts h = rw (parse_int-format_int ts h)

take_field-mac :
    (f : Fields) (mac : Text)
    → take_field f (cut_at b'=' (mac_part mac)) ≡ ok (record f { mac_hex = hex_encode mac })
unfolding take_field cut_at text_eq signature_scheme
take_field-mac f mac = refl

finish-mac :
    (ts : ℤ) (mac : Text)
    → 0 < length mac
    → AreBytes mac
    → finish (ok (record { ts = some ts; mac_hex = hex_encode mac })) ≡ ok (ts, mac)
unfolding hex_encode
finish-mac ts [] l h = elim l [ ]
finish-mac ts (b ∷ mac) l h = rw (hex_decode-hex_encode (b ∷ mac) h)

split_on-header_value :
    (ts : ℤ) (mac : Text)
    → AreBytes mac
    → split_on b',' (header_value ts mac) ≡ ts_part ts ∷ mac_part mac ∷ []
unfolding header_value signature_scheme
split_on-header_value ts mac h =
    split_on-append (ts_part ts) (mac_part mac) (refl, (refl, format_int-IsPlain ts))
    ∙ ap (λ l. ts_part ts ∷ l)
        (split_on-plain (mac_part mac) (refl, (refl, (refl, hex_encode-IsPlain mac h))))

take_parts-plain :
    (f : Fields) (part : Text) (parts : List Text)
    → IsPlain part
    → take_parts (part ∷ parts) f ≡ then_parts (take_parts parts) (take_field f (cut_at b'=' part))
unfolding take_parts
take_parts-plain f part parts h = rw (trim_space-plain part h)

take_parts-header :
    (ts : ℤ) (mac : Text)
    → InInt64 ts
    → AreBytes mac
    → take_parts (ts_part ts ∷ mac_part mac ∷ []) (record { ts = none; mac_hex = [] })
      ≡ ok (record { ts = some ts; mac_hex = hex_encode mac })
unfolding take_parts
take_parts-header ts mac small h =
    take_parts-plain (record { ts = none; mac_hex = [] }) (ts_part ts) (mac_part mac ∷ [])
      (refl, (refl, format_int-IsPlain ts))
    ∙ ap (then_parts (take_parts (mac_part mac ∷ [])))
        (take_field-ts (record { ts = none; mac_hex = [] }) ts small)
    ∙ take_parts-plain (record { ts = some ts; mac_hex = [] }) (mac_part mac) []
        (refl, (refl, (refl, hex_encode-IsPlain mac h)))
    ∙ ap (then_parts (take_parts [])) (take_field-mac (record { ts = some ts; mac_hex = [] }) mac)

pub parse_signature_header-header_value :
    (ts : ℤ) (mac : Text)
    → InInt64 ts
    → 0 < length mac
    → AreBytes mac
    → parse_signature_header (header_value ts mac) ≡ ok (ts, mac)
unfolding parse_signature_header header_value
parse_signature_header-header_value ts mac small l h =
    ap (λ ps. finish (take_parts ps (record { ts = none; mac_hex = [] })))
      (split_on-header_value ts mac h)
    ∙ ap finish (take_parts-header ts mac small h)
    ∙ finish-mac ts mac l h

module _ (hmac_sha256 : Text → Text → Text) (duration_string : ℤ → Text)
    (mac_given : (key text : Text) → 0 < length (hmac_sha256 key text))
    (mac_bytes : (key text : Text) → AreBytes (hmac_sha256 key text)) where
  checked-own :
      (secret body : Text) (ts now tolerance : ℤ)
      → too_old now ts tolerance ≡ false
      → checked hmac_sha256 duration_string secret body now tolerance
          (ok (ts, hmac_sha256 secret (signed_bytes ts body)))
        ≡ ok tt
  checked-own secret body ts now tolerance fresh =
      rw (fresh, text_eq_refl (hmac_sha256 secret (signed_bytes ts body)))

  -- The header that Sign makes for a body at an int64 timestamp is accepted by Verify with the same
  -- secret and body, at every time at which the timestamp is not outside the tolerance, given that a
  -- MAC is a text of bytes that is not empty.
  pub verify-sign :
      (secret body header : Text) (ts now tolerance : ℤ)
      → sign hmac_sha256 secret body ts ≡ ok header
      → InInt64 ts
      → too_old now ts tolerance ≡ false
      → verify hmac_sha256 duration_string secret body header now tolerance ≡ ok tt
  unfolding sign verify
  verify-sign [] body header ts now tolerance signed small fresh = absurd (cc)
  verify-sign (k ∷ key) body header ts now tolerance signed small fresh =
      let secret = k ∷ key in
      let mac = hmac_sha256 secret (signed_bytes ts body) in
      let same : header ≡ header_value ts mac = cc in
      ap
        (λ x.
          checked hmac_sha256 duration_string secret body now tolerance (parse_signature_header x))
        same
      ∙ ap (checked hmac_sha256 duration_string secret body now tolerance) (
          parse_signature_header-header_value ts mac small (mac_given secret (signed_bytes ts body))
            (mac_bytes secret (signed_bytes ts body)))
      ∙ checked-own secret body ts now tolerance fresh
