-- ===== src/Tests/Access.antt =====
-- One signature, and two requests that pass with it.
use selatpay.Prelude.{false, ◌%◌, ◌≡◌, refl, some, none, Option, [], ◌∷◌, arith, length, find?}
use selatpay.Prelude.Text.{Text, codes, text_eq}
use selatpay.Prelude.Int.{ℤ, pos, wrap64, of_bits, to_bits, ◌+ℤ◌, ◌-ℤ◌, ◌*ℤ◌}
use selatpay.Prelude.Decimal.{parse_uint}
use selatpay.Db.Tables.{Merchant, Uuid}
use selatpay.Db.Tx.{Result}
use selatpay.Webhook.Hex.{hex_encode, hex_decode, parse_int}
use selatpay.Webhook.Sign.{unix_time, sub_time}
use selatpay.Auth.{
  Request, ApiKey, passed, canonical, sign, lookup, abs_duration, parse_timestamp, authenticate,
}
use selatpay.Auth.Bound.{authenticate-bound}

-- A text stands for its own MAC, and the length of a body for its hash.
abbrev mac : Text → Text → Text
mac key text = text

abbrev hash : Text → Text
hash s = length s % 256 ∷ []

abbrev rfc3339 : Text → Option ℤ
rfc3339 raw = none

abbrev shop : Merchant
shop = record {
  id = 4;
  bank_code = none;
  bank_account_number = none;
  bank_account_name = none;
  webhook_url = none;
  webhook_secret = [];
}

abbrev api_key : ApiKey
api_key = record {
  id = 9;
  merchant_id = 4;
  key_id = codes "k1";
  secret_hash = codes "s";
  revoked_at = none;
}

abbrev store : Text → Result (Uuid × Text)
store = lookup false (shop ∷ []) (api_key ∷ [])

abbrev pay : Text → Request
pay body = record {
  key_id = codes "k1";
  timestamp = codes "1700000000";
  signature =
      hex_encode (canonical mac hash (codes "POST") (codes "/v1") (codes "1700000000") body);
  method = codes "POST";
  path = codes "/v1";
  body = some body;
}

pay-passes :
    authenticate mac hash rfc3339 store (pos 1700000100000000000) (pay (codes "{}"))
    ≡ passed 4 (codes "k1") (codes "{}")
unfolding authenticate canonical sign lookup abs_duration parse_timestamp hex_encode hex_decode
    parse_int parse_uint unix_time sub_time text_eq find? wrap64 of_bits to_bits ◌+ℤ◌ ◌-ℤ◌ ◌*ℤ◌
pay-passes = refl

pay-passes_later :
    authenticate mac hash rfc3339 store (pos 1700000200000000000) (pay (codes "[]"))
    ≡ passed 4 (codes "k1") (codes "[]")
unfolding authenticate canonical sign lookup abs_duration parse_timestamp hex_encode hex_decode
    parse_int parse_uint unix_time sub_time text_eq find? wrap64 of_bits to_bits ◌+ℤ◌ ◌-ℤ◌ ◌*ℤ◌
pay-passes_later = refl

one_signature : (pay (codes "{}")).signature ≡ (pay (codes "[]")).signature
unfolding canonical
one_signature = refl

authenticate-bound_example :
    (api_key.merchant_id ≡ shop.id)
    × ((codes "1700000000" ≡ codes "1700000000")
        × (codes "POST" ≡ codes "POST")
        × (codes "/v1" ≡ codes "/v1")
        × (hash (codes "{}") ≡ hash (codes "[]")))
authenticate-bound_example =
    authenticate-bound mac hash rfc3339 store (λ s t. refl) (λ s. (omega arith, tt))
      (λ key s t e. e) (pos 1700000100000000000) (pos 1700000200000000000) (pay (codes "{}"))
      (pay (codes "[]")) 4 4 (codes "k1") (codes "k1") (codes "{}") (codes "[]")
      (refl, (refl, (refl, (refl, (refl, (refl, (refl, (refl, (refl, (refl, tt))))))))))
      (refl, (refl, (refl, (refl, (refl, (refl, (refl, (refl, (refl, (refl, tt))))))))))
      (refl, (refl, (refl, (refl, tt)))) (refl, (refl, (refl, (refl, tt)))) refl one_signature
      pay-passes pay-passes_later
