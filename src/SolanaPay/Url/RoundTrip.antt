-- ===== src/SolanaPay/Url/RoundTrip.antt =====
-- `ParseURL` reads back what `BuildURL` writes.
use selatpay.Prelude.{
  ◌≡◌, refl, sym, ap, ◌∙◌, true, false, Option, none, some, List, [], ◌∷◌, ◌==◌, map, inl, inr,
  Bool-cases, length, ◌<◌, arith,
}
use selatpay.Prelude.Text.{Text, codes, text_eq, text_eq_refl, is_empty}
use selatpay.Chain.Parser.{PublicKey}
use selatpay.Db.Tx.{Result, ok, err}
use selatpay.Ledger.Posting.Atomic.{eq_of_ok}
use selatpay.SolanaPay.Url.Query.{Values, get_values, first_of, get}
use selatpay.SolanaPay.Url.{
  UrlParams, ParsedUrl, Codec, amount_name, label_name, message_name, memo_name, token_name,
  reference_name, with_values, query_values, build_url, parse_references, token_of, with_recipient,
  parsed, parse_url,
}
use selatpay.SolanaPay.Url.Carried.{first_of-listed, token_values, Carries, query_values-Carries}

-- What the code relies on: a key's text is not empty and is read back as the key.
pub record ReadsKeys (codec : Codec) : Type 0 where
  pub key_read : (k : PublicKey) → codec.key_from (codec.key_string k) ≡ some k
  pub key_given : (k : PublicKey) → 0 < length (codec.key_string k)

-- `url.Parse` reads the URL of a key and a query as that scheme, that key, and a query of the same
-- values.
pub record ReadsUrl (codec : Codec) (k : PublicKey) (q : Values) : Type 0 where
  pub url : ParsedUrl
  pub url_read :
      codec.url_parse (codec.url_string (codes "solana") (codec.key_string k) (codec.encode q))
      ≡ some url
  pub url_given :
      0 < length (codec.url_string (codes "solana") (codec.key_string k) (codec.encode q))
  pub scheme_read : url.scheme ≡ codes "solana"
  pub opaque_read : url.opaque ≡ codec.key_string k
  pub values_read : (name : Text) → get_values name url.query ≡ get_values name q

not_empty : (s : Text) → 0 < length s → is_empty s ≡ false
not_empty [] h = absurd (omega arith)
not_empty (c ∷ s) h = refl

module _ (codec : Codec) (keys : ReadsKeys codec) where
  parse_references-map :
      (rs : List PublicKey) → parse_references codec (map codec.key_string rs) ≡ ok rs
  unfolding parse_references
  parse_references-map [] = refl
  parse_references-map (r ∷ rs) = rw (keys.key_read r, parse_references-map rs) refl

  token_of-some :
      (s : Text) (k : PublicKey)
      → 0 < length s
      → codec.key_from s ≡ some k
      → token_of codec s ≡ ok (some k)
  token_of-some [] k h e = absurd (omega arith)
  token_of-some (c ∷ s) k h e = rw (token_of, e) refl

  token_of-values : (o : Option PublicKey) → token_of codec (first_of (token_values codec o)) ≡ ok o
  token_of-values none = refl
  token_of-values (some k) =
      token_of-some (codec.key_string k) k (keys.key_given k) (keys.key_read k)

  with_recipient-Carries :
      (p : UrlParams) (q u : Values)
      → Carries codec p q
      → ((name : Text) → get_values name u ≡ get_values name q)
      → with_recipient codec u (ok p.recipient) ≡ ok p
  unfolding get
  with_recipient-Carries p q u c same =
      rw
        (
          same token_name ∙ c.token_there,
          same reference_name ∙ c.references_there,
          token_of-values p.spl_token,
          parse_references-map p.references,
          same amount_name ∙ c.amount_there,
          same label_name ∙ c.label_there,
          same message_name ∙ c.message_there,
          same memo_name ∙ c.memo_there,
          first_of-listed p.amount,
          first_of-listed p.label,
          first_of-listed p.message,
          first_of-listed p.memo,
        )
        refl

  parsed-url :
      (p : UrlParams) (q : Values)
      → Carries codec p q
      → (r : ReadsUrl codec p.recipient q) → parsed codec (some r.url) ≡ ok p
  parsed-url p q c r =
      let scheme : text_eq r.url.scheme (codes "solana") ≡ true =
        ap (λ s. text_eq s (codes "solana")) r.scheme_read ∙ text_eq_refl (codes "solana") in
      let opaque : is_empty r.url.opaque ≡ false =
        ap is_empty r.opaque_read
        ∙ not_empty (codec.key_string p.recipient) (keys.key_given p.recipient) in
      let key : codec.key_from r.url.opaque ≡ some p.recipient =
        ap codec.key_from r.opaque_read ∙ keys.key_read p.recipient in
      rw (scheme, opaque, key) (with_recipient-Carries p q r.url.query c r.values_read)

  parse_url-parsed :
      (s : Text) (u : ParsedUrl)
      → 0 < length s
      → codec.url_parse s ≡ some u
      → parse_url codec s ≡ parsed codec (some u)
  unfolding parse_url
  parse_url-parsed [] u h e = absurd (omega arith)
  parse_url-parsed (c ∷ s) u h e = ap (parsed codec) e

  -- Every URL that BuildURL returns is parsed by ParseURL as the parameters that it was built from,
  -- given that the text of a key reads back as the key and is not empty, and that url.Parse reads the
  -- URL of a query with the values that the query has.
  pub parse_url-build_url :
      (p : UrlParams) (s : Text)
      → ((q : Values) → query_values codec p ≡ ok q → ReadsUrl codec p.recipient q)
      → build_url codec p ≡ ok s
      → parse_url codec s ≡ ok p
  unfolding build_url
  parse_url-build_url p s reads e = elim (Bool-cases (p.recipient == 0)) [
    | inl zero_key ↦ let bad = rw zero_key at e in absurd (cc)
    | inr good ↦ go (query_values codec p) refl (rw good at e)
  ]
    where
      go :
          (r : Result Values)
          → query_values codec p ≡ r
          → with_values
              (λ q.
                ok (
                  codec.url_string
                    (codes "solana")
                    (codec.key_string p.recipient)
                    (codec.encode q)))
              r
            ≡ ok s
          → parse_url codec s ≡ ok p
      go (err x) h e = absurd (cc)
      go (ok q) h e =
          let r = reads q h in
          let built =
            codec.url_string (codes "solana") (codec.key_string p.recipient) (codec.encode q) in
          ap (parse_url codec) (sym (eq_of_ok e))
          ∙ parse_url-parsed built r.url r.url_given r.url_read
          ∙ parsed-url p q (query_values-Carries codec p q h) r
