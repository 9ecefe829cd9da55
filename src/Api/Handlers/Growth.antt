-- ===== src/Api/Handlers/Growth.antt =====
-- A request to create an intent keeps the intents and the quotes that there are.
use selatpay.Prelude.{
  suc, ◌≡◌, refl, Bool, true, false, ◌&&◌, ◌||◌, Option, none, some, List, ◌++◌, inl, inr,
  Bool-cases, find?, find?-append, is_some,
}
use selatpay.Prelude.Text.{Text}
use selatpay.Prelude.Int.{ℤ, pos, leb_ℤ, ltb_ℤ}
use selatpay.Chain.Parser.{PublicKey}
use selatpay.Db.Tables.{Uuid, PaymentIntent, Quote}
use selatpay.Db.Tx.{Err, Result, ok, err, World}
use selatpay.Quoter.{Rate, Quoted, quote_amount}
use selatpay.Quoter.Issue.{
  SignedQuote, Quoter, Issued, issued, refused, no_rate, not_stored, create_quote, quote_admitted,
  stored, persisted, issue_priced, issue_at, issue,
}
use selatpay.SolanaPay.Url.{Codec}
use selatpay.Api.View.{Config}
use selatpay.Api.Handlers.{
  CreateRequest, Reference, Faults, validate_create_request, find_by_ref, insert_intent, inserted,
  with_ata, with_issued, looked_up, validated, create_payment_intent, queried, pair_usdc_idr,
}

-- Whatever row a search finds, it finds later.
module _ {A : Type 0} where
  abbrev pub Extends : List A → List A → Type 0
  Extends xs ys = (p : A → Bool) (x : A) → find? p xs ≡ some x → find? p ys ≡ some x

  Extends-append : (xs ys : List A) → Extends xs (xs ++ ys)
  Extends-append xs ys p x e = rw (find?-append p xs ys, e) refl

-- The intents and the quotes that a world keeps.
abbrev pub Later : World → World → Type 0
Later w v = Extends w.db.payment_intents v.db.payment_intents × Extends w.db.quotes v.db.quotes

pub Later-refl : (w : World) → Later w w
Later-refl w = (λ p x e. e, λ p x e. e)

pub Later-trans : (u v w : World) → Later u v → Later v w → Later u w
Later-trans u v w h k = (λ p x e. k.0 p x (h.0 p x e), λ p x e. k.1 p x (h.1 p x e))

create_quote-Later :
    (fails : Bool) (q : SignedQuote) (w : World) → Later w (create_quote fails q w).1
unfolding create_quote
create_quote-Later true q w = Later-refl w
create_quote-Later false q w = elim (Bool-cases (quote_admitted q.rate q.spread_bps)) [
  | inl good ↦ rw (create_quote, good) (λ p x e. e, Extends-append w.db.quotes _)
  | inr bad ↦ rw (create_quote, bad) (Later-refl w)
]

insert_intent-Later :
    (fails : Bool) (i : PaymentIntent) (w : World) → Later w (insert_intent fails i w).1
unfolding insert_intent
insert_intent-Later true i w = Later-refl w
insert_intent-Later false i w =
    elim (Bool-cases (ltb_ℤ (pos 0) i.amount_idr && ltb_ℤ (pos 0) i.quoted_amount_usdc)) [
      | inr bad ↦ rw (insert_intent, bad) (Later-refl w)
      | inl good ↦
          elim (Bool-cases
            (is_some (find_by_ref i.merchant_id i.external_ref w.db.payment_intents))) [
              | inl clash ↦ rw (insert_intent, good, clash) (Later-refl w)
              | inr new ↦
                  rw (insert_intent, good, new) (Extends-append w.db.payment_intents _, λ p x e. e)
            ]
    ]

module _ (hmac_sha256 : Text → Text → Text) (quoter : Quoter) where
  stored-world :
      (q : SignedQuote) (x : Result Quote × World) → (stored hmac_sha256 quoter q x).1 ≡ x.1
  stored-world q (ok row, w) = refl
  stored-world q (err e, w) = refl

  persisted-Later :
      (fails : Bool) (q : SignedQuote) (w : World)
      → Later w (persisted hmac_sha256 quoter fails q w).1
  persisted-Later fails q w = elim (Bool-cases quoter.stores) [
    | inl pool ↦ rw (pool, stored-world q (create_quote fails q w)) (create_quote-Later fails q w)
    | inr none_there ↦ rw none_there (Later-refl w)
  ]

  issue_priced-Later :
      (fails : Bool) (pair : Text) (amount : ℤ) (rate : Rate) (price : Quoted) (w : World)
      → Later w (issue_priced hmac_sha256 quoter fails pair amount rate price w).1
  issue_priced-Later fails pair amount rate (Quoted.err e) w = Later-refl w
  issue_priced-Later fails pair amount rate (Quoted.ok usdc) w =
      persisted-Later fails _ (record w { next_id = suc w.next_id })

  issue_at-Later :
      (fails : Bool) (pair : Text) (amount : ℤ) (r : Result Rate) (w : World)
      → Later w (issue_at hmac_sha256 quoter fails pair amount r w).1
  issue_at-Later fails pair amount (err e) w = Later-refl w
  issue_at-Later fails pair amount (ok rate) w = elim (Bool-cases (leb_ℤ rate.num (pos 0))) [
    | inl bad ↦ rw bad (Later-refl w)
    | inr good ↦
        rw good
          (issue_priced-Later fails pair amount rate (quote_amount amount rate quoter.spread_bps) w)
  ]

  issue-Later :
      (fails : Bool) (provider : Text → Result Rate) (pair : Text) (amount : ℤ) (w : World)
      → Later w (issue hmac_sha256 quoter fails provider pair amount w).1
  unfolding issue
  issue-Later fails provider pair amount w = elim (Bool-cases (leb_ℤ amount (pos 0))) [
    | inl none_asked ↦ rw (issue, none_asked) (Later-refl w)
    | inr asked ↦
        elim (Bool-cases (ltb_ℤ quoter.spread_bps (pos 0) || ltb_ℤ (pos 10000) quoter.spread_bps)) [
          | inl wide ↦ rw (issue, asked, wide) (Later-refl w)
          | inr fine ↦ rw (issue, asked, fine) (issue_at-Later fails pair amount (provider pair) w)
        ]
  ]

  module _ (codec : Codec) (cfg : Config) (provider : Text → Result Rate)
      (find_ata : PublicKey → PublicKey → Result PublicKey) (faults : Faults)
      (allocated : Result Reference) where
    inserted-world :
        (x : Result PaymentIntent × World)
        → (inserted codec cfg hmac_sha256 quoter provider find_ata faults allocated x).1 ≡ x.1
    inserted-world (ok i, w) = refl
    inserted-world (err e, w) = refl

    with_ata-Later :
        (m : Uuid) (body : CreateRequest) (qt : SignedQuote) (ref : Reference)
        (ata : Result PublicKey) (w : World)
        → Later w
            (with_ata codec cfg hmac_sha256 quoter provider find_ata faults allocated m body qt ref
              ata w).1
    with_ata-Later m body qt ref (err e) w = Later-refl w
    with_ata-Later m body qt ref (ok ata) w =
        rw (inserted-world (insert_intent faults.insert_fails _ w))
          (insert_intent-Later faults.insert_fails _ w)

    with_issued-Later :
        (m : Uuid) (body : CreateRequest) (r : Result Reference) (x : Issued × World)
        → allocated ≡ r
        → Later x.1
            (with_issued codec cfg hmac_sha256 quoter provider find_ata faults allocated m body x).1
    with_issued-Later m body (err e) (issued qt, w) a = rw a (Later-refl w)
    with_issued-Later m body (ok ref) (issued qt, w) a =
        rw a (with_ata-Later m body qt ref (find_ata cfg.hot_wallet_pubkey cfg.usdc_mint) w)
    with_issued-Later m body r (refused e, w) a = Later-refl w
    with_issued-Later m body r (no_rate e, w) a = Later-refl w
    with_issued-Later m body r (not_stored e, w) a = Later-refl w

    looked_up-Later :
        (m : Uuid) (body : CreateRequest) (o : Option PaymentIntent) (w : World)
        → Later w
            (looked_up codec cfg hmac_sha256 quoter provider find_ata faults allocated m body
              (queried faults.lookup_fails o)
              w).1
    looked_up-Later m body o w = elim (Bool-cases faults.lookup_fails) [
      | inl down ↦ rw down (Later-refl w)
      | inr up ↦ rw up (found o)
    ]
      where
        found :
            (o : Option PaymentIntent)
            → Later w
                (looked_up codec cfg hmac_sha256 quoter provider find_ata faults allocated m body
                  (queried false o)
                  w).1
        found (some i) = Later-refl w
        found none =
            let x =
              issue hmac_sha256 quoter faults.store_fails provider pair_usdc_idr body.amount_idr
                w in
            Later-trans w x.1
              (with_issued codec cfg hmac_sha256 quoter provider find_ata faults allocated m body
                x).1
              (issue-Later faults.store_fails provider pair_usdc_idr body.amount_idr w)
              (with_issued-Later m body allocated x refl)

    -- A request keeps what there is, whatever becomes of it.
    pub create_payment_intent-Later :
        (m : Option Uuid) (body : Option CreateRequest) (w : World)
        → Later w
            (create_payment_intent codec cfg hmac_sha256 quoter provider find_ata faults allocated m
              body w).1
    unfolding create_payment_intent
    create_payment_intent-Later none body w = Later-refl w
    create_payment_intent-Later (some m) none w = Later-refl w
    create_payment_intent-Later (some m) (some body) w = go (validate_create_request body)
      where
        go :
            (v : Option Err)
            → Later w
                (validated codec cfg hmac_sha256 quoter provider find_ata faults allocated m body v
                  w).1
        go (some e) = Later-refl w
        go none = looked_up-Later m body (find_by_ref m body.external_ref w.db.payment_intents) w
