-- ===== src/Api/Handlers/Repeats.antt =====
-- A request to create an intent whose reference is taken.
use selatpay.Prelude.{◌≡◌, refl, sym, subst, Bool, true, false, Option, none, some, List, [], ◌∷◌}
use selatpay.Prelude.Text.{Text}
use selatpay.Chain.Parser.{PublicKey}
use selatpay.Db.Tables.{Uuid, PaymentIntent}
use selatpay.Db.Tx.{Err, Result, ok, err, World}
use selatpay.Quoter.{Rate}
use selatpay.Quoter.Issue.{Quoter, Issued, issued, refused, no_rate, not_stored, issue}
use selatpay.SolanaPay.Url.{Codec}
use selatpay.Api.View.{Config, ApiIntent}
use selatpay.Api.Handlers.{
  CreateRequest, Reference, Response, created, shown, Faults, validate_create_request, find_by_ref,
  insert_intent, inserted, with_issued, looked_up, validated, create_payment_intent, queried,
  pair_usdc_idr,
}
use selatpay.Api.Handlers.Growth.{create_payment_intent-Later}
use selatpay.Api.Handlers.Held.{
  intent_in, insert_intent-found, Holds, Holds-Later, with_quote-Holds,
}

module _ (codec : Codec) (cfg : Config) where
  module _ (hmac_sha256 : Text → Text → Text) (quoter : Quoter) (provider : Text → Result Rate)
      (find_ata : PublicKey → PublicKey → Result PublicKey) where
    module _ (faults : Faults) (allocated : Result Reference) where
      inserted-Holds :
          (i : PaymentIntent) (a : ApiIntent) (w : World)
          → let x =
              inserted codec cfg hmac_sha256 quoter provider find_ata faults allocated
                (insert_intent faults.insert_fails i w) in
            intent_in x.0 ≡ some a → Holds codec cfg i.merchant_id i.external_ref a x.1
      inserted-Holds i a w e =
          go (insert_intent faults.insert_fails i w).0 (insert_intent faults.insert_fails i w).1
            refl
        where
          go :
              (r : Result PaymentIntent) (v : World)
              → insert_intent faults.insert_fails i w ≡ (r, v)
              → Holds codec cfg i.merchant_id i.external_ref a
                  (inserted codec cfg hmac_sha256 quoter provider find_ata faults allocated
                    (insert_intent faults.insert_fails i w)).1
          go (err x) v h = let no = rw h at e in absurd (cc)
          go (ok row) v h = rw h (
              with_quote-Holds codec cfg created i.merchant_id i.external_ref row faults.quote_fails
                a v (λ b. refl) (insert_intent-found faults.insert_fails i row w v h) (rw h at e))

      with_issued-Holds :
          (m : Uuid) (body : CreateRequest) (a : ApiIntent) (x : Issued × World)
          (r : Result Reference) (ata : Result PublicKey)
          → allocated ≡ r
          → find_ata cfg.hot_wallet_pubkey cfg.usdc_mint ≡ ata
          → let y =
              with_issued codec cfg hmac_sha256 quoter provider find_ata faults allocated m body
                x in
            intent_in y.0 ≡ some a → Holds codec cfg m body.external_ref a y.1
      with_issued-Holds m body a (issued qt, w) (err x) ata h k e =
          let no = rw h at e in absurd (cc)
      with_issued-Holds m body a (issued qt, w) (ok ref) (err x) h k e =
          let no = rw (h, k) at e in absurd (cc)
      with_issued-Holds m body a (issued qt, w) (ok ref) (ok ata) h k e =
          rw (h, k) (inserted-Holds _ a w (rw (h, k) at e))
      with_issued-Holds m body a (refused x, w) r ata h k e = absurd (cc)
      with_issued-Holds m body a (no_rate x, w) r ata h k e = absurd (cc)
      with_issued-Holds m body a (not_stored x, w) r ata h k e = absurd (cc)

      looked_up-Holds :
          (m : Uuid) (body : CreateRequest) (a : ApiIntent) (fails : Bool)
          (o : Option PaymentIntent) (w : World)
          → find_by_ref m body.external_ref w.db.payment_intents ≡ o
          → let y =
              looked_up codec cfg hmac_sha256 quoter provider find_ata faults allocated m body
                (queried fails o)
                w in
            intent_in y.0 ≡ some a → Holds codec cfg m body.external_ref a y.1
      looked_up-Holds m body a true o w h e = absurd (cc)
      looked_up-Holds m body a false none w h e =
          with_issued-Holds m body a
            (issue hmac_sha256 quoter faults.store_fails provider pair_usdc_idr body.amount_idr w)
            allocated (find_ata cfg.hot_wallet_pubkey cfg.usdc_mint) refl refl e
      looked_up-Holds m body a false (some i) w h e =
          with_quote-Holds codec cfg shown m body.external_ref i faults.quote_fails a w (λ b. refl)
            h e

      create_payment_intent-Holds :
          (m : Uuid) (body : CreateRequest) (a : ApiIntent) (w : World)
          → let y =
              create_payment_intent codec cfg hmac_sha256 quoter provider find_ata faults allocated
                (some m)
                (some body)
                w in
            intent_in y.0 ≡ some a → Holds codec cfg m body.external_ref a y.1
      unfolding create_payment_intent
      create_payment_intent-Holds m body a w e = go (validate_create_request body) e
        where
          go :
              (v : Option Err)
              → let y =
                  validated codec cfg hmac_sha256 quoter provider find_ata faults allocated m body v
                    w in
                intent_in y.0 ≡ some a → Holds codec cfg m body.external_ref a y.1
          go (some x) e = absurd (cc)
          go none e =
              looked_up-Holds m body a faults.lookup_fails
                (find_by_ref m body.external_ref w.db.payment_intents) w refl e

      create_payment_intent-shown :
          (m : Uuid) (body : CreateRequest) (a : ApiIntent) (w : World)
          → faults.lookup_fails ≡ false
          → faults.quote_fails ≡ false
          → validate_create_request body ≡ none
          → Holds codec cfg m body.external_ref a w
          → create_payment_intent codec cfg hmac_sha256 quoter provider find_ata faults allocated
              (some m)
              (some body)
              w
            ≡ (shown a, w)
      unfolding create_payment_intent
      create_payment_intent-shown m body a w up up' valid h =
          rw (valid, up, h.intent_found, up', h.quote_found, h.shown_so) refl

    -- A request, with what may fail and what is allocated for it.
    pub record Call : Type 0 where
      pub merchant : Option Uuid
      pub body : Option CreateRequest
      pub faults : Faults
      pub allocated : Result Reference

    abbrev pub serve : Call → World → Response × World
    serve c w =
        create_payment_intent codec cfg hmac_sha256 quoter provider find_ata c.faults c.allocated
          c.merchant c.body w

    unfoldable pub serve_all : List Call → World → World
    serve_all [] w = w
    serve_all (c ∷ cs) w = serve_all cs (serve c w).1

    serve_all-Holds :
        (cs : List Call) (m : Uuid) (ref : Text) (a : ApiIntent) (w : World)
        → Holds codec cfg m ref a w
        → Holds codec cfg m ref a (serve_all cs w)
    unfolding serve_all
    serve_all-Holds [] m ref a w h = h
    serve_all-Holds (c ∷ cs) m ref a w h = serve_all-Holds cs m ref a (serve c w).1 (
        Holds-Later codec cfg m ref a w (serve c w).1
          (create_payment_intent-Later hmac_sha256 quoter codec cfg provider find_ata c.faults
            c.allocated c.merchant c.body w)
          h)

    -- Once a request of a merchant is answered with an intent, and whatever other requests to create
    -- intents are served after it, every valid request of the merchant with the same external
    -- reference, whatever its amount, is answered 200 with that intent and changes nothing, given that
    -- its queries do not fail.
    pub create_payment_intent-repeats :
        (m : Uuid) (first later : Call) (body body' : CreateRequest) (others : List Call)
        (a : ApiIntent) (w : World)
        → first.merchant ≡ some m
        → first.body ≡ some body
        → later.merchant ≡ some m
        → later.body ≡ some body'
        → body'.external_ref ≡ body.external_ref
        → validate_create_request body' ≡ none
        → later.faults.lookup_fails ≡ false
        → later.faults.quote_fails ≡ false
        → intent_in (serve first w).0 ≡ some a
        → let after = serve_all others (serve first w).1 in serve later after ≡ (shown a, after)
    create_payment_intent-repeats m first later body body' others a w fm fb lm lb same valid up up'
          e =
        let start : Holds codec cfg m body.external_ref a (serve first w).1 =
          rw (fm, fb)
            (create_payment_intent-Holds first.faults first.allocated m body a w
              (rw (fm, fb) at e)) in
        let after = serve_all others (serve first w).1 in
        let held = serve_all-Holds others m body.external_ref a (serve first w).1 start in
        rw (lm, lb)
          (create_payment_intent-shown later.faults later.allocated m body' a after up up' valid
            (subst (λ s. Holds codec cfg m s a after) (sym same) held))
