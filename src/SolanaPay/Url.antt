-- ===== src/SolanaPay/Url.antt =====
-- `BuildURL` and `ParseURL` of internal/solanapay/url.go. A public key is its value; base58 and
-- net/url are parameters.
pub mod Query
pub mod Carried
pub mod RoundTrip
use selatpay.Prelude.{ℕ, Option, none, some, List, [], ◌∷◌, ◌++◌, ◌==◌, not, if◌then◌else◌}
use selatpay.Prelude.Text.{Text, codes, text_eq, is_empty}
use selatpay.Chain.Parser.{PublicKey}
use selatpay.Db.Tx.{Err, Result, ok, err, message, wrap}
use selatpay.SolanaPay.Url.Query.{Values, get_values, get, set, add}

pub record UrlParams : Type 0 where
  pub recipient : PublicKey
  pub spl_token : Option PublicKey
  pub amount : Text
  pub references : List PublicKey
  pub label : Text
  pub message : Text
  pub memo : Text

-- What `url.Parse` says of a URL: its scheme, its opaque part and its query.
pub record ParsedUrl : Type 0 where
  pub scheme : Text
  pub opaque : Text
  pub query : Values

-- `PublicKey.String`, `PublicKeyFromBase58`, `Values.Encode`, `URL.String` of a scheme, an opaque part
-- and a raw query, and `url.Parse`.
pub record Codec : Type 0 where
  pub key_string : PublicKey → Text
  pub key_from : Text → Option PublicKey
  pub encode : Values → Text
  pub url_string : Text → Text → Text → Text
  pub url_parse : Text → Option ParsedUrl

abbrev pub invalid_url : Err
invalid_url = Err.message (codes "solanapay: invalid transfer-request URL")

abbrev pub amount_name : Text
amount_name = codes "amount"

abbrev pub label_name : Text
label_name = codes "label"

abbrev pub message_name : Text
message_name = codes "message"

abbrev pub memo_name : Text
memo_name = codes "memo"

abbrev pub token_name : Text
token_name = codes "spl-token"

abbrev pub reference_name : Text
reference_name = codes "reference"

-- A text that is empty is left out.
abbrev pub set_given : Text → Text → Values → Values
set_given name [] vs = vs
set_given name (c ∷ v) vs = set name (c ∷ v) vs

abbrev pub with_values : {A : Type 0} → (Values → Result A) → Result Values → Result A
with_values k (err e) = err e
with_values k (ok vs) = k vs

module _ (codec : Codec) where
  abbrev pub set_token : Option PublicKey → Values → Result Values
  set_token none vs = ok vs
  set_token (some mint) vs =
      if mint == 0
      then err (Err.message (codes "solanapay: spl-token mint is zero"))
      else ok (set token_name (codec.key_string mint) vs)

  -- The loop over the references.
  unfoldable pub add_references : List PublicKey → Values → Result Values
  unfolding add
  add_references [] vs = ok vs
  add_references (r ∷ rs) vs =
      let rest = add_references rs (add reference_name (codec.key_string r) vs) in
      if r == 0 then err (Err.message (codes "solanapay: reference public key is zero")) else rest

  -- The last three parameters.
  abbrev pub with_texts : UrlParams → Values → Values
  with_texts p vs =
      set_given memo_name p.memo
        (set_given message_name p.message (set_given label_name p.label vs))

  unfoldable pub query_values : UrlParams → Result Values
  unfolding set add_references
  query_values p =
      with_values (λ vs. with_values (λ us. ok (with_texts p us)) (add_references p.references vs))
        (set_token p.spl_token (set_given amount_name p.amount []))

  unfoldable pub build_url : UrlParams → Result Text
  unfolding query_values
  build_url p =
      if p.recipient == 0
      then err (Err.message (codes "solanapay: recipient public key is required"))
      else with_values
          (λ vs.
            ok (codec.url_string (codes "solana") (codec.key_string p.recipient) (codec.encode vs)))
          (query_values p)

  -- The key that a text must stand for.
  abbrev pub key_or_invalid : Option PublicKey → Result PublicKey
  key_or_invalid none = err (wrap invalid_url)
  key_or_invalid (some k) = ok k

  abbrev pub onto : Result PublicKey → Result (List PublicKey) → Result (List PublicKey)
  onto (err e) rest = err e
  onto (ok k) (err e) = err e
  onto (ok k) (ok ks) = ok (k ∷ ks)

  unfoldable pub parse_references : List Text → Result (List PublicKey)
  parse_references [] = ok []
  parse_references (s ∷ ss) = onto (key_or_invalid (codec.key_from s)) (parse_references ss)

  abbrev pub token_of : Text → Result (Option PublicKey)
  token_of [] = ok none
  token_of (c ∷ s) = elim (key_or_invalid (codec.key_from (c ∷ s))) [
    | err e ↦ err e
    | ok k ↦ ok (some k)
  ]

  abbrev pub params_of :
      PublicKey → Values → Result (Option PublicKey) → Result (List PublicKey) → Result UrlParams
  params_of recipient q (err e) refs = err e
  params_of recipient q (ok token) (err e) = err e
  params_of recipient q (ok token) (ok refs) = ok (record {
    recipient = recipient;
    spl_token = token;
    amount = get amount_name q;
    references = refs;
    label = get label_name q;
    message = get message_name q;
    memo = get memo_name q;
  })

  abbrev pub with_recipient : Values → Result PublicKey → Result UrlParams
  with_recipient q (err e) = err e
  with_recipient q (ok recipient) =
      params_of recipient q (token_of (get token_name q))
        (parse_references (get_values reference_name q))

  abbrev pub parsed : Option ParsedUrl → Result UrlParams
  parsed none = err (wrap invalid_url)
  parsed (some u) =
      if not (text_eq u.scheme (codes "solana"))
      then err (wrap invalid_url)
      else if is_empty u.opaque
      then err (wrap invalid_url)
      else with_recipient u.query (key_or_invalid (codec.key_from u.opaque))

  unfoldable pub parse_url : Text → Result UrlParams
  unfolding parse_references get
  parse_url [] = err invalid_url
  parse_url (c ∷ s) = parsed (codec.url_parse (c ∷ s))
