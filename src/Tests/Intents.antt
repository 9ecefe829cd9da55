-- ===== src/Tests/Intents.antt =====
-- One merchant's intent: its URL, and the requests that make it and ask for it.
use selatpay.Prelude.{
  ℕ, ◌≡◌, refl, sym, ap, ◌∙◌, false, none, some, Option, [], ◌∷◌, ◌++◌, arith, find?, eq_of_some,
}
use selatpay.Prelude.Text.{Text, codes, text_eq, is_blank}
use selatpay.Prelude.Int.{pos, to_bits, ◌*ℤ◌, ◌-ℤ◌, quo}
use selatpay.Prelude.Decimal.{format_uint, format_int}
use selatpay.Chain.Parser.{PublicKey}
use selatpay.Db.Tables.{PaymentIntent, IntentState}
use selatpay.Db.Tx.{Result, ok, World}
use selatpay.Ledger.Posting.Atomic.{eq_of_ok}
use selatpay.SolanaPay.Amount.{Parsed, format_amount, parse_amount}
use selatpay.SolanaPay.Url.{
  UrlParams, ParsedUrl, Codec, add_references, query_values, build_url, parse_url,
}
use selatpay.SolanaPay.Url.Query.{Values, get_values, set, add, change}
use selatpay.SolanaPay.Url.RoundTrip.{ReadsKeys, ReadsUrl}
use selatpay.Api.View.{Config, build_pay_url, pay_params}
use selatpay.Api.View.PayUrl.{build_pay_url-asks}
use selatpay.Quoter.{quote_amount}
use selatpay.Quoter.Issue.{issue, sign_quote, create_quote, quote_admitted, unsigned, quote_lines}
use selatpay.Api.View.{ApiIntent, with_url, intent_to_api, format_rate}
use selatpay.Api.Handlers.{
  CreateRequest, Faults, shown, validate_create_request, find_by_ref, find_quote, insert_intent,
  create_payment_intent, get_payment_intent,
}
use selatpay.Api.Handlers.Held.{intent_in}
use selatpay.Api.Handlers.Repeats.{Call, serve, serve_all, create_payment_intent-repeats}
use selatpay.Api.Handlers.Isolated.{own_world, get_payment_intent-isolated}
use selatpay.Tests.Quotes.{mac, quoter, provider}
use selatpay.Tests.Payouts.{intent}
use selatpay.Tests.Books.{books}

-- The text of a key is one byte, and every URL is the one of the intent below.
abbrev first_byte : Text → Option PublicKey
first_byte [] = none
first_byte (c ∷ s) = some c

abbrev values : Values
values =
    (codes "amount", codes "6.196938" ∷ [])
    ∷ (codes "spl-token", (2 ∷ []) ∷ [])
    ∷ (codes "reference", (5 ∷ []) ∷ [])
    ∷ (codes "label", codes "Toko" ∷ [])
    ∷ (codes "message", codes "Order order-1" ∷ [])
    ∷ []

abbrev url : ParsedUrl
url = record { scheme = codes "solana"; opaque = 1 ∷ []; query = values }

abbrev codec : Codec
codec = record {
  key_string = λ k. k ∷ [];
  key_from = first_byte;
  encode = λ q. [];
  url_string = λ scheme opaque query. scheme ++ b':' ∷ (opaque ++ b'?' ∷ query);
  url_parse = λ s. some url;
}

abbrev cfg : Config
cfg = record {
  hot_wallet_pubkey = 1;
  usdc_mint = 2;
  usdc_decimals = 6;
  solana_pay_label = codes "Toko";
  solana_pay_message = [];
}

abbrev order : PaymentIntent
order = record intent { reference_pubkey = some (5 ∷ []) }

abbrev params : UrlParams
params = pay_params codec cfg order 5 (codes "6.196938")

params-values : query_values codec params ≡ ok values
unfolding query_values add_references set add change text_eq
params-values = refl

reads_keys : ReadsKeys codec
reads_keys = record { key_read = λ k. refl; key_given = λ k. omega arith }

reads_url : (q : Values) → query_values codec params ≡ ok q → ReadsUrl codec 1 q
reads_url q e = record {
  url = url;
  url_read = refl;
  url_given = omega arith;
  scheme_read = refl;
  opaque_read = refl;
  values_read = λ name. ap (get_values name) (eq_of_ok (sym params-values ∙ e));
}

abbrev pay_url : Text
pay_url = codes "solana:" ++ 1 ∷ b'?' ∷ []

amount-printed : format_amount 6196938 6 ≡ some (codes "6.196938")
unfolding format_amount format_uint
amount-printed = refl

amount_of : (amount : Text) → format_amount 6196938 6 ≡ some amount → codes "6.196938" ≡ amount
amount_of amount e = eq_of_some (sym amount-printed ∙ e)

build_pay_url-asks_example :
    (s : Text) × (amount : Text) × (build_pay_url codec cfg order ≡ some (ok s))
    × (parse_url codec s ≡ ok (pay_params codec cfg order 5 amount))
    × (parse_amount amount 6 ≡ Parsed.ok 6196938)
build_pay_url-asks_example =
    build_pay_url-asks codec reads_keys cfg order 5 6196938 refl refl (omega arith) (omega arith)
      (omega arith) (omega arith) (omega arith)
      (λ amount q printed e. reads_url q (
        ap (λ t. query_values codec (pay_params codec cfg order 5 t)) (amount_of amount printed)
        ∙ e))

-- Requests of the merchant: one that makes an intent, and later ones of the same reference.
abbrev healthy : Faults
healthy = record {
  lookup_fails = false;
  quote_fails = false;
  store_fails = false;
  insert_fails = false;
}

abbrev find_ata : PublicKey → PublicKey → Result PublicKey
find_ata wallet mint = ok 6

abbrev ask : ℕ → CreateRequest
ask amount = record { external_ref = codes "order-1"; amount_idr = pos amount }

abbrev call : ℕ → Call codec cfg mac quoter provider find_ata
call amount = record {
  merchant = some 3;
  body = some (ask amount);
  faults = healthy;
  allocated = ok (record { pubkey = 5; secret_enc = codes "s" });
}

abbrev shown_intent : ApiIntent
shown_intent = record {
  id = 102;
  merchant_id = 3;
  external_ref = codes "order-1";
  amount_idr = pos 100000;
  quoted_amount_usdc = pos 6196938;
  state = IntentState.pending;
  reference_pubkey = some (5 ∷ []);
  recipient_ata = some (6 ∷ []);
  quote = record {
    id = 101;
    pair = codes "USDC/IDR";
    rate = codes "16300";
    spread_bps = pos 100;
    expires_at = 60000001000;
  };
  created_at = 1000;
  solana_pay_url = some pay_url;
}

intent-made :
    intent_in (serve codec cfg mac quoter provider find_ata (call 100000) books).0
    ≡ some shown_intent
unfolding create_payment_intent validate_create_request find_by_ref find_quote insert_intent issue
    intent_to_api build_pay_url with_url format_amount build_url query_values add_references set add
    change text_eq is_blank find? quote_amount sign_quote create_quote quote_admitted unsigned
    quote_lines ◌*ℤ◌ ◌-ℤ◌ quo to_bits format_rate format_int
intent-made = refl

request-valid : validate_create_request (ask 900000) ≡ none
unfolding validate_create_request is_blank
request-valid = refl

create_payment_intent-repeats_example :
    let after =
      serve_all codec cfg mac quoter provider find_ata
        (call 1 ∷ [])
        (serve codec cfg mac quoter provider find_ata (call 100000) books).1 in
    serve codec cfg mac quoter provider find_ata (call 900000) after ≡ (shown shown_intent, after)
create_payment_intent-repeats_example =
    create_payment_intent-repeats codec cfg mac quoter provider find_ata 3 (call 100000)
      (call 900000) (ask 100000) (ask 900000) (call 1 ∷ []) shown_intent books refl refl refl refl
      refl request-valid refl refl intent-made

-- Two merchants with an intent each.
abbrev shared : World
shared = record books {
  db = record (books.db) {
    payment_intents = order ∷ record order { id = 8; merchant_id = 4 } ∷ [];
  };
}

get_payment_intent-isolated_example :
    get_payment_intent codec cfg healthy (some 3) 8 shared
    ≡ get_payment_intent codec cfg healthy (some 3) 8 (own_world 3 shared)
unfolding find?
get_payment_intent-isolated_example =
    get_payment_intent-isolated codec cfg healthy 3 8 shared (refl, (refl, tt))
