-- ===== src/Idempotency/Middleware/Replays.antt =====
-- What a repeated key is answered.
use selatpay.Prelude.{
  ◌≡◌, refl, ap, ◌∙◌, true, false, ◌||◌, not, Option, none, some, List, [], ◌∷◌, ◌++◌, leb, inl,
  inr, if◌then◌else◌, Bool-cases,
}
use selatpay.Prelude.Text.{Text, codes, text_eq, is_empty}
use selatpay.Db.Tables.{Uuid}
use selatpay.Idempotency.Store.{
  Record, Lookup, found, not_found, Rows, find_record, inserted, pg_get, pg_put, pg_store,
  find_record-last, find_record-pg_put,
}
use selatpay.Idempotency.CachedStore.Session.{working}
use selatpay.Idempotency.Middleware.{
  Request, Write, new_writer, capture, is_mutating, Served, replay, handled, conflict, new_record,
  looked_up, with_body, with_merchant, serve,
}

module _ (hash_request : Text → Text) (resolver : Request → Option Uuid) where
  -- A request that the middleware looks at: of this merchant, under this key, with this body.
  pub record Keyed (merchant_id : Uuid) (key body : Text) (req : Request) : Type 0 where
    pub mutating : is_mutating req.method ≡ true
    pub key_given : is_empty req.idempotency_key ≡ false
    pub key_same : req.idempotency_key ≡ key
    pub resolved : resolver req ≡ some merchant_id
    pub body_read : req.body ≡ some body

  abbrev pub serve_pg : List Write → Request → Rows → Served × Rows
  serve_pg = serve (pg_store working) hash_request resolver

  module _ (m : Uuid) (key body : Text) (next : List Write) (req : Request)
      (k : Keyed m key body req) (rows : Rows) where
    serve-Keyed :
        serve_pg next req rows
        ≡ looked_up
            (pg_store working)
            hash_request
            resolver
            next
            m
            key
            (hash_request body)
            (pg_get working m key rows)
    unfolding serve pg_store
    serve-Keyed =
        let store = pg_store working in
        rw (k.mutating, k.key_given)
          (ap (λ o. with_merchant store hash_request resolver next req o rows) k.resolved
            ∙ ap (λ i. with_body store hash_request resolver next m i req.body rows) k.key_same
            ∙ ap (λ b. with_body store hash_request resolver next m key b rows) k.body_read)

    serve-found :
        (r : Record)
        → find_record m key rows ≡ some r
        → serve_pg next req rows ≡ (
            if text_eq r.request_hash (hash_request body)
            then (replay r, rows)
            else (conflict, rows))
    unfolding pg_get
    serve-found r e = serve-Keyed ∙ rw e refl

    serve-first :
        find_record m key rows ≡ none
        → leb 500 (capture next new_writer).status ≡ false
        → is_empty (capture next new_writer).buf ≡ false
        → serve_pg next req rows ≡ (
          handled (capture next new_writer),
          rows ++ new_record m key (hash_request body) (capture next new_writer) ∷ [],
        )
    unfolding pg_get pg_put pg_store
    serve-first e fine given =
        serve-Keyed
        ∙ rw (e, fine, given)
            (ap
              (λ o. (
                handled (capture next new_writer),
                (inserted working (new_record m key (hash_request body) (capture next new_writer)) o
                    rows).1,
              ))
              e)

  -- Other requests in between, each with the writes of its own handler.
  abbrev pub serve_all : List (List Write × Request) → Rows → Rows
  serve_all [] rows = rows
  serve_all ((next, req) ∷ reqs) rows = serve_all reqs (serve_pg next req rows).1

  module _ (m : Uuid) (key : Text) (old : Record) (rows : Rows)
      (e : find_record m key rows ≡ some old) where
    abbrev Keeps : Served × Rows → Type 0
    Keeps res = find_record m key res.1 ≡ some old

    looked_up-kept :
        (next : List Write) (n : Uuid) (k hash : Text) (l : Lookup)
        → Keeps (looked_up (pg_store working) hash_request resolver next n k hash (l, rows))
    unfolding pg_store
    looked_up-kept next n k hash (found r) = elim (Bool-cases (text_eq r.request_hash hash)) [
      | inl same ↦ rw same e
      | inr other ↦ rw other e
    ]
    looked_up-kept next n k hash (Lookup.failed x) = e
    looked_up-kept next n k hash not_found =
        let c = capture next new_writer in
        elim (Bool-cases (leb 500 c.status)) [
          | inl bad ↦ rw bad e
          | inr fine ↦ rw fine (find_record-pg_put working m key (new_record n k hash c) old rows e)
        ]

    with_body-kept :
        (next : List Write) (n : Uuid) (k : Text) (b : Option Text)
        → Keeps (with_body (pg_store working) hash_request resolver next n k b rows)
    unfolding pg_store pg_get
    with_body-kept next n k none = e
    with_body-kept next n k (some body) =
        looked_up-kept next n k (hash_request body) (pg_get working n k rows).0

    with_merchant-kept :
        (next : List Write) (req : Request) (o : Option Uuid)
        → Keeps (with_merchant (pg_store working) hash_request resolver next req o rows)
    with_merchant-kept next req none = e
    with_merchant-kept next req (some n) = with_body-kept next n req.idempotency_key req.body

    serve-kept : (next : List Write) (req : Request) → Keeps (serve_pg next req rows)
    unfolding serve
    serve-kept next req =
        elim (Bool-cases (not (is_mutating req.method) || is_empty req.idempotency_key)) [
          | inl plain ↦ rw plain e
          | inr keyed ↦ rw keyed (with_merchant-kept next req (resolver req))
        ]

  serve_all-kept :
      (m : Uuid) (key : Text) (old : Record) (reqs : List (List Write × Request)) (rows : Rows)
      → find_record m key rows ≡ some old
      → find_record m key (serve_all reqs rows) ≡ some old
  serve_all-kept m key old [] rows e = e
  serve_all-kept m key old ((next, req) ∷ reqs) rows e =
      serve_all-kept m key old reqs (serve_pg next req rows).1
        (serve-kept m key old rows e next req)

  module _ (m : Uuid) (key body body' : Text) (req req' : Request) (k : Keyed m key body req)
      (k' : Keyed m key body' req') (next next' : List Write) where
    -- While the database answers: a mutating request under a new key, whose body is read and whose
    -- handler writes a body and makes no server error, is answered by the handler; and every later
    -- mutating request of the merchant under that key, its body read too, whatever requests came in between and whatever its own handler would write, leaves the store as it is
    -- and does not run its handler: it gets the first answer's status and body as a replay if its
    -- body has the first one's hash, and 409 if not.
    pub serve-replayed :
        (others : List (List Write × Request)) (rows : Rows)
        → find_record m key rows ≡ none
        → leb 500 (capture next new_writer).status ≡ false
        → is_empty (capture next new_writer).buf ≡ false
        → let c = capture next new_writer in
          let (first, rows') = serve_pg next req rows in
          let later = serve_all others rows' in
          (first ≡ record { status = c.status; replayed = false; body = c.buf; ran = true })
          × (serve_pg next' req' later ≡ (
              if text_eq (hash_request body) (hash_request body')
              then (record { status = c.status; replayed = true; body = c.buf; ran = false }, later)
              else (
                record {
                  status = 409;
                  replayed = false;
                  body = codes "idempotency key reused with a different request body" ++ 10 ∷ [];
                  ran = false;
                },
                later,
              )))
    serve-replayed others rows new fine given =
        let c = capture next new_writer in
        let r = new_record m key (hash_request body) c in
        let kept = serve_all-kept m key r others (rows ++ r ∷ []) (find_record-last r rows new) in
        rw (serve-first m key body next req k rows new fine given)
          (refl, serve-found m key body' next' req' k' (serve_all others (rows ++ r ∷ [])) r kept)
