-- ===== src/Idempotency/Middleware.antt =====
-- internal/idempotency/middleware.go. The hash of a body (SHA-256), the resolver of the merchant and
-- the wrapped handler are parameters; a handler is the list of the writes that it makes.
pub mod Replays
use selatpay.Prelude.{
  ℕ, Bool, true, false, ◌&&◌, ◌||◌, not, Option, none, some, List, [], ◌∷◌, ◌++◌, leb,
  if◌then◌else◌,
}
use selatpay.Prelude.Text.{Text, codes, text_eq, is_empty}
use selatpay.Db.Tables.{Uuid}
use selatpay.Db.Tx.{Err}
use selatpay.Idempotency.Store.{Record, Lookup, found, not_found, Stored, Store}

-- What the middleware reads of a request: `body` is none where reading it fails.
pub record Request : Type 0 where
  pub method : Text
  pub idempotency_key : Text
  pub body : Option Text

pub data Write : Type 0 where
  write_header : ℕ → Write
  write : Text → Write

-- `captureWriter`.
pub record CaptureWriter : Type 0 where
  pub status : ℕ
  pub wrote_header : Bool
  pub buf : Text

abbrev pub new_writer : CaptureWriter
new_writer = record { status = 200; wrote_header = false; buf = [] }

-- The first header that is written counts.
abbrev pub header_written : ℕ → CaptureWriter → CaptureWriter
header_written status c =
    if c.wrote_header then c else record c { status = status; wrote_header = true }

-- Bytes that are written before a header write the header 200.
abbrev pub bytes_written : Text → CaptureWriter → CaptureWriter
bytes_written p c = let c' = header_written 200 c in record c' { buf = c'.buf ++ p }

unfoldable pub capture : List Write → CaptureWriter → CaptureWriter
capture [] c = c
capture (write_header status ∷ ws) c = capture ws (header_written status c)
capture (write p ∷ ws) c = capture ws (bytes_written p c)

unfoldable pub is_mutating : Text → Bool
is_mutating method =
    text_eq method (codes "POST")
    || (text_eq method (codes "PUT")
        || (text_eq method (codes "PATCH") || text_eq method (codes "DELETE")))

-- What the client gets, and whether the handler ran.
pub record Served : Type 0 where
  pub status : ℕ
  pub replayed : Bool
  pub body : Text
  pub ran : Bool

-- `http.Error` ends its text with a newline.
abbrev pub refused : ℕ → Text → Served
refused status text = record {
  status = status;
  replayed = false;
  body = text ++ 10 ∷ [];
  ran = false;
}

abbrev pub replay : Record → Served
replay r = record { status = r.status_code; replayed = true; body = r.response_body; ran = false }

abbrev pub handled : CaptureWriter → Served
handled c = record { status = c.status; replayed = false; body = c.buf; ran = true }

abbrev pub conflict : Served
conflict = refused 409 (codes "idempotency key reused with a different request body")

abbrev pub new_record : Uuid → Text → Text → CaptureWriter → Record
new_record merchant_id key hash c = record {
  merchant_id = merchant_id;
  key = key;
  request_hash = hash;
  status_code = c.status;
  response_body = c.buf;
}

module _ {S : Type 0} (store : Store S) (hash_request : Text → Text)
    (resolver : Request → Option Uuid) where
  -- A server error is not stored; what the store says to the rest is not read by the client.
  abbrev pub captured : Uuid → Text → Text → CaptureWriter → S → Served × S
  captured merchant_id key hash c s =
      if leb 500 c.status
      then (handled c, s)
      else (handled c, (store.put (new_record merchant_id key hash c) s).1)

  abbrev pub looked_up : List Write → Uuid → Text → Text → Lookup × S → Served × S
  looked_up next merchant_id key hash (found r, s) =
      if text_eq r.request_hash hash then (replay r, s) else (conflict, s)
  looked_up next merchant_id key hash (not_found, s) =
      captured merchant_id key hash (capture next new_writer) s
  looked_up next merchant_id key hash (Lookup.failed e, s) =
      (refused 500 (codes "idempotency lookup failed"), s)

  abbrev pub with_body : List Write → Uuid → Text → Option Text → S → Served × S
  with_body next merchant_id key none s = (refused 400 (codes "read body"), s)
  with_body next merchant_id key (some body) s =
      looked_up next merchant_id key (hash_request body) (store.get merchant_id key s)

  abbrev pub with_merchant : List Write → Request → Option Uuid → S → Served × S
  with_merchant next req none s = (refused 401 (codes "unauthenticated"), s)
  with_merchant next req (some merchant_id) s =
      with_body next merchant_id req.idempotency_key req.body s

  -- `Handler`, around the writes that `next` makes for this request.
  unfoldable pub serve : List Write → Request → S → Served × S
  unfolding is_mutating capture
  serve next req s =
      if not (is_mutating req.method) || is_empty req.idempotency_key
      then (handled (capture next new_writer), s)
      else with_merchant next req (resolver req) s
