-- ===== src/Api/View.antt =====
-- How a handler shows an intent: `intentToAPI`, `buildPayURL` and `formatRate` of
-- internal/api/handlers.go. Base58, net/url and the text of an error are parameters or left out.
pub mod PayUrl
use selatpay.Prelude.{
  ℕ, ◌+◌, ◌-◌, Option, none, some, List, [], ◌∷◌, ◌++◌, leb, if◌then◌else◌, length, take, drop,
  replicate,
}
use selatpay.Prelude.Text.{Text, codes}
use selatpay.Prelude.Int.{ℤ, pos, pos_part, leb_ℤ, to_bits}
use selatpay.Prelude.Decimal.{format_int}
use selatpay.Chain.Parser.{PublicKey}
use selatpay.Db.Tables.{Uuid, PaymentIntent, IntentState, Quote}
use selatpay.Db.Tx.{Err, Result, ok, err}
use selatpay.SolanaPay.Amount.{format_amount}
use selatpay.SolanaPay.Url.{UrlParams, Codec, build_url}

-- `Handlers`, less its pool and its allocator.
pub record Config : Type 0 where
  pub hot_wallet_pubkey : PublicKey
  pub usdc_mint : PublicKey
  pub usdc_decimals : ℕ
  pub solana_pay_label : Text
  pub solana_pay_message : Text

pub record ApiQuote : Type 0 where
  pub id : Uuid
  pub pair : Text
  pub rate : Text
  pub spread_bps : ℤ
  pub expires_at : ℕ

pub record ApiIntent : Type 0 where
  pub id : Uuid
  pub merchant_id : Uuid
  pub external_ref : Text
  pub amount_idr : ℤ
  pub quoted_amount_usdc : ℤ
  pub state : IntentState
  pub reference_pubkey : Option Text
  pub recipient_ata : Option Text
  pub quote : ApiQuote
  pub created_at : ℕ
  pub solana_pay_url : Option Text

-- A scale below zero is printed like none.
unfoldable pub format_rate : ℤ → ℤ → Text
format_rate num scale =
    let str = format_int num in
    let width = pos_part scale in
    if leb_ℤ scale (pos 0)
    then str
    else if leb (length str) width
    then codes "0." ++ (replicate (width - length str) b'0' ++ str)
    else take (length str - width) str ++ b'.' ∷ drop (length str - width) str

-- An empty message is the order's.
abbrev pub message_of : Text → Text → Text
message_of [] external_ref = codes "Order " ++ external_ref
message_of (c ∷ s) external_ref = c ∷ s

module _ (codec : Codec) (cfg : Config) where
  abbrev pub pay_params : PaymentIntent → PublicKey → Text → UrlParams
  pay_params p reference amount = record {
    recipient = cfg.hot_wallet_pubkey;
    spl_token = some cfg.usdc_mint;
    amount = amount;
    references = reference ∷ [];
    label = cfg.solana_pay_label;
    message = message_of cfg.solana_pay_message p.external_ref;
    memo = [];
  }

  abbrev pub url_of_amount : PaymentIntent → PublicKey → Option Text → Option (Result Text)
  url_of_amount p reference none = none
  url_of_amount p reference (some amount) = some (build_url codec (pay_params p reference amount))

  abbrev pub url_of_key : PaymentIntent → Option PublicKey → Option (Result Text)
  url_of_key p none = some (err (Err.message []))
  url_of_key p (some reference) =
      url_of_amount p reference (format_amount (to_bits p.quoted_amount_usdc) cfg.usdc_decimals)

  abbrev pub url_of_text : PaymentIntent → Option Text → Option (Result Text)
  url_of_text p none = some (ok [])
  url_of_text p (some []) = some (ok [])
  url_of_text p (some (c ∷ s)) = url_of_key p (codec.key_from (c ∷ s))

  -- `buildPayURL`; `none` is the panic of FormatAmount at 64 decimals and more.
  unfoldable pub build_pay_url : PaymentIntent → Option (Result Text)
  unfolding format_amount build_url to_bits
  build_pay_url p = url_of_text p p.reference_pubkey

  -- An error and an empty URL are not shown.
  abbrev pub shown_url : Result Text → Option Text
  shown_url (err e) = none
  shown_url (ok []) = none
  shown_url (ok (c ∷ s)) = some (c ∷ s)

  unfoldable pub with_url : PaymentIntent → Quote → Option (Result Text) → Option ApiIntent
  unfolding format_rate
  with_url p q none = none
  with_url p q (some url) = some (record {
    id = p.id;
    merchant_id = p.merchant_id;
    external_ref = p.external_ref;
    amount_idr = p.amount_idr;
    quoted_amount_usdc = p.quoted_amount_usdc;
    state = p.state;
    reference_pubkey = p.reference_pubkey;
    recipient_ata = p.recipient_ata;
    created_at = p.created_at;
    quote = record {
      id = q.id;
      pair = q.pair;
      rate = format_rate q.rate_num q.rate_scale;
      spread_bps = q.spread_bps;
      expires_at = q.expires_at;
    };
    solana_pay_url = shown_url url;
  })

  -- `intentToAPI`.
  unfoldable pub intent_to_api : PaymentIntent → Quote → Option ApiIntent
  unfolding build_pay_url with_url
  intent_to_api p q = with_url p q (build_pay_url p)
