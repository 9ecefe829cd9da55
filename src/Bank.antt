-- ===== src/Bank.antt =====
-- cmd/mockidrbank/main.go: the bank's handler of payouts, its cache of answers by idempotency key, and
-- the two critical sections of its mutex. JSON in both directions and the text of a UUID are
-- parameters; UUIDs are handed out in order.
pub mod Once
pub mod Race
pub mod Rail
use selatpay.Prelude.{
  ℕ, suc, ◌^◌, Bool, true, false, not, Option, none, some, List, [], ◌∷◌, ◌++◌, if◌then◌else◌, take,
}
use selatpay.Prelude.Text.{Text, codes, text_eq, is_empty}
use selatpay.Prelude.Int.{ℤ, pos}
use selatpay.Prelude.Decimal.{format_int}

pub record BankRequest : Type 0 where
  pub intent_id : Text
  pub payout_id : Text
  pub amount_idr : ℤ
  pub bank_code : Text
  pub account_number : Text
  pub account_name : Text
  pub memo : Text

pub record BankResponse : Type 0 where
  pub reference : Text
  pub status : Text
  pub message : Text

-- What can be read, or the text of the error.
pub data Readable (A : Type 0) : Type 0 where
  good : A → Readable A
  bad : Text → Readable A

pub record HttpRequest : Type 0 where
  pub method : Text
  pub idempotency_key : Text
  pub fail : Text
  pub body : Readable Text

pub record Response : Type 0 where
  pub status_code : ℕ
  pub body : Text

abbrev pub Cache : Type 0
Cache = List (Text × Response)

pub record Server : Type 0 where
  pub cache : Cache
  pub next_uuid : ℕ

-- The last answer that was stored under a key.
unfoldable pub lookup : Text → Cache → Option Response
lookup key [] = none
lookup key ((k, v) ∷ cache) = if text_eq k key then some v else lookup key cache

-- `http.Error` ends its text with a newline.
abbrev pub http_error : ℕ → Text → Response
http_error status text = record { status_code = status; body = text ++ 10 ∷ [] }

-- Where a request stands between the two critical sections.
pub data Phase : Type 0 where
  waiting missed : Phase
  answered : Response → Phase

abbrev pub found : Option Response → Phase
found none = missed
found (some r) = answered r

-- The guards, and the lookup under the mutex.
unfoldable pub look : HttpRequest → Server → Phase
unfolding lookup
look r s =
    if not (text_eq r.method (codes "POST"))
    then answered (http_error 405 (codes "method not allowed"))
    else if is_empty r.idempotency_key
    then answered (http_error 400 (codes "X-Idempotency-Key header required"))
    else found (lookup r.idempotency_key s.cache)

abbrev pub empty_request : BankRequest
empty_request = record {
  intent_id = [];
  payout_id = [];
  amount_idr = pos 0;
  bank_code = [];
  account_number = [];
  account_name = [];
  memo = [];
}

abbrev pub retryable : BankResponse
retryable = record {
  reference = [];
  status = codes "retryable";
  message = codes "downstream temporarily unavailable";
}

abbrev pub rejected : BankResponse
rejected = record { reference = []; status = codes "rejected"; message = codes "account closed" }

module _ (uuid_string : ℕ → Text) (marshal : BankResponse → Text)
    (unmarshal : Text → Readable BankRequest) where
  abbrev pub succeeded : BankRequest → ℕ → BankResponse
  succeeded req id = record {
    reference = codes "MIDR-" ++ uuid_string id;
    status = codes "succeeded";
    message =
        codes "paid " ++ (format_int req.amount_idr ++ (codes " IDR to " ++ req.account_number));
  }

  -- `decide`: a success takes a UUID.
  unfoldable pub decide : Text → BankRequest → ℕ → (ℕ × BankResponse) × ℕ
  decide fail req id =
      if text_eq fail (codes "retry")
      then ((503, retryable), id)
      else if text_eq fail (codes "permanent")
      then ((422, rejected), id)
      else ((200, succeeded req id), suc id)

  -- The body, of which at most 2^20 bytes are read; an empty one is the empty request.
  abbrev pub decoded : Text → Readable BankRequest
  decoded [] = good empty_request
  decoded (c ∷ s) = unmarshal (c ∷ s)

  -- The answer is stored under the mutex, and written.
  abbrev pub decided : HttpRequest → Readable BankRequest → Server → Response × Server
  decided r (bad e) s = (http_error 400 (codes "decode body: " ++ e), s)
  decided r (good req) s =
      let ((status, payload), id) = decide r.fail req s.next_uuid in
      let answer : Response = record { status_code = status; body = marshal payload } in
      (answer, record { cache = (r.idempotency_key, answer) ∷ s.cache; next_uuid = id })

  abbrev pub finished : HttpRequest → Readable Text → Server → Response × Server
  finished r (bad e) s = (http_error 400 (codes "read body: " ++ e), s)
  finished r (good body) s = decided r (decoded (take (2 ^ 20) body)) s

  -- The handler behind a lookup that missed.
  unfoldable pub finish : HttpRequest → Server → Response × Server
  unfolding decide
  finish r s = finished r r.body s

  abbrev pub continued : HttpRequest → Server → Phase → Response × Server
  continued r s (answered a) = (a, s)
  continued r s missed = finish r s
  continued r s waiting = finish r s

  -- `handlePayouts`, where nothing comes between.
  unfoldable pub handle_payouts : HttpRequest → Server → Response × Server
  unfolding look finish
  handle_payouts r s = continued r s (look r s)
