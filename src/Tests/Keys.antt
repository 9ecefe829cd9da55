-- ===== src/Tests/Keys.antt =====
-- A payment intent that is created twice under one Idempotency-Key.
use selatpay.Prelude.{◌≡◌, refl, true, false, Bool, some, List, [], ◌∷◌, find?}
use selatpay.Prelude.Text.{Text, codes, text_eq}
use selatpay.Idempotency.Store.{Record, Rows, find_record}
use selatpay.Idempotency.CachedStore.{RedisFaults}
use selatpay.Idempotency.CachedStore.Session.{
  Op, get, put, expire, answers_of_store, answers_of_cached,
}
use selatpay.Idempotency.CachedStore.Refines.{cached_store-refines}
use selatpay.Idempotency.Middleware.{
  Request, Write, write_header, write, capture, new_writer, handled, replay, conflict, is_mutating,
}
use selatpay.Idempotency.Middleware.Replays.{Keyed, serve_pg, serve_all, serve-replayed}

abbrev stored : Record
stored = record {
  merchant_id = 3;
  key = codes "k1";
  request_hash = codes "h";
  status_code = 201;
  response_body = codes "{}";
}

abbrev redis : Bool → RedisFaults
redis down = record { read_fails = down; write_fails = down }

abbrev ops : List Op
ops =
    get (redis false) 3 (codes "k1")
    ∷ put (redis false) stored
    ∷ get (redis false) 3 (codes "k1")
    ∷ get (redis true) 3 (codes "k1")
    ∷ expire (λ k. false)
    ∷ get (redis false) 3 (codes "k1")
    ∷ []

-- A UUID's text, one byte long.
cached_store-refines_example :
    answers_of_cached (λ id. id ∷ []) ops ([], []) ≡ answers_of_store ops []
cached_store-refines_example =
    cached_store-refines (λ id. id ∷ []) (λ a b. refl) (λ a b e. cc) ops []

abbrev request : Text → Request
request body = record { method = codes "POST"; idempotency_key = codes "k1"; body = some body }

abbrev creates : List Write
creates = write_header 201 ∷ write (codes "{}") ∷ []

keyed : (body : Text) → Keyed (λ b. b) (λ req. some 3) 3 (codes "k1") body (request body)
unfolding is_mutating text_eq
keyed body = record {
  mutating = refl;
  key_given = refl;
  key_same = refl;
  resolved = refl;
  body_read = refl;
}

abbrev created : Record
created = record {
  merchant_id = 3;
  key = codes "k1";
  request_hash = codes "{1}";
  status_code = 201;
  response_body = codes "{}";
}

-- Another key is used in between.
abbrev others : List (List Write × Request)
others = (creates, record (request (codes "{2}")) { idempotency_key = codes "k2" }) ∷ []

abbrev after_first : Rows
after_first = (serve_pg (λ b. b) (λ req. some 3) creates (request (codes "{1}")) []).1

serve-replayed_example :
    ((serve_pg (λ b. b) (λ req. some 3) creates (request (codes "{1}")) []).0
      ≡ handled (capture creates new_writer))
    × (serve_pg
          (λ b. b)
          (λ req. some 3)
          []
          (request (codes "{1}"))
          (serve_all (λ b. b) (λ req. some 3) others after_first)
        ≡ (replay created, serve_all (λ b. b) (λ req. some 3) others after_first))
unfolding capture find_record find? text_eq
serve-replayed_example =
    serve-replayed (λ b. b) (λ req. some 3) 3 (codes "k1") (codes "{1}") (codes "{1}")
      (request (codes "{1}")) (request (codes "{1}")) (keyed (codes "{1}")) (keyed (codes "{1}"))
      creates [] others [] refl refl refl

-- The same key with another body, which the handler would have answered.
other_body :
    serve_pg
      (λ b. b)
      (λ req. some 3)
      creates
      (request (codes "{2}"))
      (serve_all (λ b. b) (λ req. some 3) others after_first)
    ≡ (conflict, serve_all (λ b. b) (λ req. some 3) others after_first)
unfolding capture find_record find? text_eq
other_body =
    (serve-replayed (λ b. b) (λ req. some 3) 3 (codes "k1") (codes "{1}") (codes "{2}")
      (request (codes "{1}")) (request (codes "{2}")) (keyed (codes "{1}")) (keyed (codes "{2}"))
      creates creates others [] refl refl refl).1
