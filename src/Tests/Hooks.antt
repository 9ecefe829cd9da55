-- ===== src/Tests/Hooks.antt =====
-- Signatures of a webhook, and its delivery.
use selatpay.Prelude.{◌≡◌, refl, true, false, none, some, [], ◌∷◌, arith, find?}
use selatpay.Prelude.Text.{Text, codes, text_eq}
use selatpay.Prelude.Decimal.{format_int}
use selatpay.Prelude.Int.{ℤ, pos, wrap64, of_bits, to_bits, ◌+ℤ◌, ◌-ℤ◌, ◌*ℤ◌}
use selatpay.Db.Tables.{Merchant}
use selatpay.Db.Tx.{ok}
use selatpay.Outbox.Dispatcher.{Message}
use selatpay.Webhook.Header.{parse_signature_header}
use selatpay.Webhook.Sign.{
  sign, signed_bytes, verify, header_value, too_old, signature_age, unix_time, sub_time, absolute,
}
use selatpay.Webhook.Sign.RoundTrip.{parse_signature_header-header_value}
use selatpay.Webhook.Sign.Accepts.{verify_iff, verify-sign_far_ahead}
use selatpay.Webhook.Sign.Tamper.{verify-tamper_free}
use selatpay.Webhook.Hex.{AreBytes}
use selatpay.Webhook.Sender.{
  get_header, signature_header, merchant_header, Request, status, Delivery, send, request_headers,
  forward, set_header, canonical, put,
}
use selatpay.Webhook.Sender.Signed.{Addressed, send-verifies}

-- A MAC of one byte stands for HMAC-SHA256.
abbrev mac : Text → Text → Text
mac key text = 171 ∷ []

abbrev shown : ℤ → Text
shown z = codes "5m0s"

abbrev signed : ℤ → Text
signed ts = header_value ts (171 ∷ [])

fresh : too_old (pos 1700000100000000000) (pos 1700000000) (pos 300000000000) ≡ false
unfolding signature_age unix_time sub_time absolute wrap64 of_bits to_bits ◌+ℤ◌ ◌-ℤ◌ ◌*ℤ◌
fresh = refl

-- A MAC that is its text. The header is read a second time, a minute later.
abbrev plain : Text → Text → Text
plain key text = text

abbrev accepted_header : Text
accepted_header = header_value (pos 1700000000) (codes "1700000000.{}")

text_bytes : AreBytes (codes "1700000000.{}")
text_bytes = (
  omega arith,
  (
    omega arith,
    (
      omega arith,
      (
        omega arith,
        (
          omega arith,
          (
            omega arith,
            (
              omega arith,
              (
                omega arith,
                (omega arith, (omega arith, (omega arith, (omega arith, (omega arith, tt))))),
              ),
            ),
          ),
        ),
      ),
    ),
  ),
)

header-parsed : parse_signature_header accepted_header ≡ ok (pos 1700000000, codes "1700000000.{}")
unfolding signed_bytes format_int
header-parsed =
    parse_signature_header-header_value (pos 1700000000) (codes "1700000000.{}") (omega arith)
      (omega arith) text_bytes

header-accepted :
    verify plain shown
      (codes "s")
      (codes "{}")
      accepted_header
      (pos 1700000100000000000)
      (pos 300000000000)
    ≡ ok tt
unfolding signed_bytes format_int
header-accepted =
    (verify_iff plain shown (codes "s") (codes "{}") (pos 1700000100000000000) (pos 300000000000)
        accepted_header (omega arith)).1
      (pos 1700000000, header-parsed, fresh)

verify-tamper_free_example : (pos 1700000000 ≡ pos 1700000000) × (codes "{}" ≡ codes "{}")
verify-tamper_free_example =
    verify-tamper_free plain shown (codes "s") (λ key s t e. e) (codes "{}") (codes "{}")
      accepted_header accepted_header (codes "1700000000.{}") (pos 1700000000) (pos 1700000000)
      (pos 1700000100000000000) (pos 1700000100000000000) (pos 300000000000) (pos 300000000000)
      header-parsed header-parsed header-accepted header-accepted

-- The year 2603, verified in 2001.
verify-sign_far_ahead_example :
    verify mac shown
      (codes "s")
      (codes "{}")
      (signed (pos 20000000000))
      (pos 1000000000000000000)
      (pos 300000000000)
    ≡ ok tt
unfolding sign
verify-sign_far_ahead_example =
    verify-sign_far_ahead mac shown (λ key text. omega arith) (λ key text. (omega arith, tt))
      (codes "s") (codes "{}") (signed (pos 20000000000)) 20000000000 1000000000000000000
      300000000000 refl (omega arith) (omega arith)

abbrev shop : Merchant
shop = record {
  id = 5;
  bank_code = none;
  bank_account_number = none;
  bank_account_name = none;
  webhook_url = some (codes "https://shop/hook");
  webhook_secret = codes "s";
}

abbrev event : Message
event = record {
  id = 1;
  topic = codes "events";
  aggregate_id = none;
  payload = codes "{}";
  headers = (codes "X-Selatpay-Merchant", codes "five") ∷ (codes "x-event", codes "paid") ∷ [];
  attempts = 0;
}

abbrev hook_request : Request
hook_request = record {
  url = codes "https://shop/hook";
  headers =
      (codes "Content-Type", codes "application/json")
      ∷ (codes "Selatpay-Signature", signed (pos 1700000000))
      ∷ (codes "X-Event", codes "paid")
      ∷ [];
  body = codes "{}";
}

abbrev delivery : Delivery
delivery =
    send mac (λ s. some 5) (λ url. true) (λ req. status 200) (pos 1700000000) false (shop ∷ [])
      event

delivered : delivery ≡ (some hook_request, none)
unfolding send get_header merchant_header find? sign request_headers forward set_header canonical
    put signature_header text_eq
delivered = refl

send-verifies_example :
    (m : Merchant) × Addressed mac
      (λ s. some 5)
      (λ url. true)
      (λ req. status 200)
      (pos 1700000000)
      (shop ∷ [])
      event
      hook_request
      m
    × (verify mac shown m.webhook_secret
          (codes "{}")
          (get_header signature_header hook_request.headers)
          (pos 1700000100000000000)
          (pos 300000000000)
        ≡ ok tt)
unfolding canonical text_eq signature_header
send-verifies_example =
    send-verifies mac (λ s. some 5) (λ url. true) (λ req. status 200) (pos 1700000000) shown
      (λ key text. omega arith) (λ key text. (omega arith, tt)) false (shop ∷ []) event hook_request
      none (pos 1700000100000000000) (pos 300000000000) (refl, (refl, tt)) delivered (omega arith)
      fresh
