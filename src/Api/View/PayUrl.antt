-- ===== src/Api/View/PayUrl.antt =====
-- What the URL of an intent asks the payer for.
use selatpay.Prelude.{
  ℕ, ◌<◌, ◌≤◌, ◌≡◌, ◌≢◌, refl, ap, ◌∙◌, false, some, [], ◌∷◌, ◌==◌, length, arith,
}
use selatpay.Prelude.Text.{Text, codes}
use selatpay.Prelude.Int.{pos, max_int64, to_bits}
use selatpay.Chain.Parser.{PublicKey}
use selatpay.Db.Tables.{PaymentIntent}
use selatpay.Db.Tx.{ok}
use selatpay.SolanaPay.Amount.{Parsed, format_amount, parse_amount}
use selatpay.SolanaPay.Amount.RoundTrip.{parse_amount-format_amount}
use selatpay.SolanaPay.Url.{
  UrlParams, Codec, build_url, query_values, add_references, with_texts, set_given, amount_name,
  token_name, reference_name, parse_url,
}
use selatpay.SolanaPay.Url.Query.{Values, set, add}
use selatpay.SolanaPay.Url.RoundTrip.{ReadsKeys, ReadsUrl, parse_url-build_url}
use selatpay.Api.View.{Config, build_pay_url, pay_params, url_of_text, url_of_key, url_of_amount}

ne→not_eq : (k : ℕ) → k ≢ 0 → (k == 0) ≡ false
ne→not_eq k h = ground arith

module _ (codec : Codec) (keys : ReadsKeys codec) (cfg : Config) where
  abbrev values_of : UrlParams → PublicKey → PublicKey → Values
  values_of p mint r = with_texts codec p (
      add reference_name (codec.key_string r)
        (set token_name (codec.key_string mint) (set_given amount_name p.amount [])))

  query_values-ok :
      (p : UrlParams) (mint r : PublicKey)
      → p.spl_token ≡ some mint
      → mint ≢ 0
      → p.references ≡ r ∷ []
      → r ≢ 0
      → query_values codec p ≡ ok (values_of p mint r)
  unfolding query_values add_references
  query_values-ok p mint r token mint_given refs r_given =
      rw (token, ne→not_eq mint mint_given, refs, ne→not_eq r r_given) refl

  -- Parameters of keys that are not zero make a URL.
  build_url-ok :
      (p : UrlParams) (mint r : PublicKey)
      → p.recipient ≢ 0
      → p.spl_token ≡ some mint
      → mint ≢ 0
      → p.references ≡ r ∷ []
      → r ≢ 0
      → build_url codec p
        ≡ ok (
            codec.url_string
              (codes "solana")
              (codec.key_string p.recipient)
              (codec.encode (values_of p mint r)))
  unfolding build_url
  build_url-ok p mint r given token mint_given refs r_given =
      rw (ne→not_eq p.recipient given, query_values-ok p mint r token mint_given refs r_given) refl

  url_of_text-given :
      (p : PaymentIntent) (s : Text)
      → 0 < length s
      → url_of_text codec cfg p (some s) ≡ url_of_key codec cfg p (codec.key_from s)
  url_of_text-given p [] h = absurd (omega arith)
  url_of_text-given p (c ∷ s) h = refl

  -- Where an intent has a reference key and an int64 price, the mint has fewer than 20 decimals and
  -- no key of the URL is zero, its URL is built, and ParseURL reads it as a transfer of the mint to
  -- the hot wallet with that one reference, of an amount that ParseAmount reads as the intent's
  -- price in minor units, given that base58 and net/url read back what they write.
  pub build_pay_url-asks :
      (p : PaymentIntent) (reference : PublicKey) (price : ℕ)
      → p.reference_pubkey ≡ some (codec.key_string reference)
      → p.quoted_amount_usdc ≡ pos price
      → price ≤ max_int64
      → cfg.usdc_decimals < 20
      → cfg.hot_wallet_pubkey ≢ 0
      → cfg.usdc_mint ≢ 0
      → reference ≢ 0
      → ((amount : Text) (q : Values)
          → format_amount price cfg.usdc_decimals ≡ some amount
          → query_values codec (pay_params codec cfg p reference amount) ≡ ok q
          → ReadsUrl codec cfg.hot_wallet_pubkey q)
      → (s : Text) × (amount : Text) × (build_pay_url codec cfg p ≡ some (ok s))
        × (parse_url codec s ≡ ok (pay_params codec cfg p reference amount))
        × (parse_amount amount cfg.usdc_decimals ≡ Parsed.ok price)
  unfolding build_pay_url to_bits
  build_pay_url-asks p reference price known priced fits decimals hot mint ref reads =
      let (amount, printed, read) =
        parse_amount-format_amount price cfg.usdc_decimals (omega arith) decimals in
      let params = pay_params codec cfg p reference amount in
      let built = build_url-ok params cfg.usdc_mint reference hot refl mint refl ref in
      let s =
        codec.url_string (codes "solana") (codec.key_string cfg.hot_wallet_pubkey)
          (codec.encode (values_of params cfg.usdc_mint reference)) in
      let bits : to_bits p.quoted_amount_usdc ≡ price = ap to_bits priced ∙ omega arith in
      (
        s,
        amount,
        ap (url_of_text codec cfg p) known
            ∙ url_of_text-given p (codec.key_string reference) (keys.key_given reference)
            ∙ ap (url_of_key codec cfg p) (keys.key_read reference)
            ∙ ap (λ n. url_of_amount codec cfg p reference (format_amount n cfg.usdc_decimals)) bits
            ∙ ap (url_of_amount codec cfg p reference) printed
            ∙ ap some built,
        parse_url-build_url codec keys params s (λ q. reads amount q printed) built,
        read,
      )
