-- ===== src/Payout/MockBank.antt =====
-- internal/payout/rails/mock_idr_bank.go. The HTTP exchange and the JSON decoder are parameters.
pub mod Outcomes
use selatpay.Prelude.{
  ℕ, Bool, true, false, ◌&&◌, ◌||◌, List, [], ◌∷◌, ◌++◌, leb, ltb, ◌==◌, ◌^◌, take, if◌then◌else◌,
}
use selatpay.Prelude.Text.{Text, codes, is_empty}
use selatpay.Prelude.Decimal.{format_uint}
use selatpay.Db.Tx.{Result, ok, SubmitRequest}
use selatpay.Payout.Rail.{success, retry, permanent, SubmitResult, Rail}

abbrev pub mock_idr_bank_name : Text
mock_idr_bank_name = codes "mock_idr_bank"

-- How the exchange of `client.Do` and `io.ReadAll` ended; at most 2^20 bytes of a response are read.
pub data Exchange : Type 0 where
  transport_error : Text → Exchange
  read_error : Text → Exchange
  response : ℕ → Text → Exchange

-- What `json.Unmarshal` leaves in `submitResponse`; both fields are empty after an error.
pub record Parsed : Type 0 where
  pub reference : Text
  pub message : Text

unfoldable pub pick_message : Text → Text → ℕ → Text
pick_message (c ∷ s) raw status = c ∷ s
pick_message [] (c ∷ raw) status = format_uint status ++ (codes ": " ++ (c ∷ raw))
pick_message [] [] status = codes "status " ++ format_uint status

-- The `switch` on the status code.
unfoldable pub classify : ℕ → Parsed → Text → SubmitResult
classify status parsed raw =
    if leb 200 status && ltb status 300
    then record { outcome = success; rail_reference = parsed.reference; message = parsed.message }
    else if status == 422 || status == 400
    then record {
      outcome = permanent;
      rail_reference = [];
      message = pick_message parsed.message raw status;
    }
    else if leb 500 status
    then record {
      outcome = retry;
      rail_reference = [];
      message = pick_message parsed.message raw status;
    }
    else record {
      outcome = permanent;
      rail_reference = [];
      message = pick_message parsed.message raw status;
    }

module _ (exchange : List SubmitRequest → SubmitRequest → Exchange) (parse : Text → Parsed) where
  answer : Exchange → SubmitResult
  answer (transport_error m) = record { outcome = retry; rail_reference = []; message = m }
  answer (read_error m) = record {
    outcome = retry;
    rail_reference = [];
    message = codes "read body: " ++ m;
  }
  answer (response status raw) = let body = take (2 ^ 20) raw in classify status (parse body) body

  -- `Submit`, after the request is built.
  unfoldable pub submit : List SubmitRequest → SubmitRequest → Result SubmitResult
  unfolding answer classify
  submit sent req = ok (answer (exchange sent req))

  unfoldable pub mock_idr_bank : Rail
  unfolding submit
  mock_idr_bank = record { name = mock_idr_bank_name; submit = submit }

-- `Validate`.
unfoldable pub validate_url : Text → Bool
validate_url base_url = if is_empty base_url then false else true
