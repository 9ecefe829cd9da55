-- ===== src/Payout/MockBank/Outcomes.antt =====
-- The outcomes of `Submit` in internal/payout/rails/mock_idr_bank.go.
use selatpay.Prelude.{ℕ, ◌≡◌, refl, ◌&&◌, List, leb, ltb, ◌^◌, take, if◌then◌else◌, arith}
use selatpay.Prelude.Text.{Text}
use selatpay.Db.Tx.{ok, SubmitRequest}
use selatpay.Payout.Rail.{Outcome, success, retry, permanent, SubmitResult}
use selatpay.Payout.MockBank.{
  Exchange, transport_error, read_error, response, Parsed, classify, answer, submit,
}

-- The outcome by the HTTP exchange: paid on a 2xx, to be tried again when no whole answer came or the
-- bank failed, rejected otherwise.
abbrev pub expected : Exchange → Outcome
expected (transport_error m) = retry
expected (read_error m) = retry
expected (response status raw) =
    if leb 500 status
    then retry
    else if leb 200 status && ltb status 300
    then success
    else permanent

classify-expected :
    (status : ℕ) (parsed : Parsed) (raw : Text)
    → (classify status parsed raw).outcome ≡ expected (response status raw)
unfolding classify
classify-expected status parsed raw = ground arith

-- `Submit` never returns an error, and its outcome is decided by the exchange alone, whatever the body
-- decodes to.
pub submit_lem :
    (exchange : List SubmitRequest → SubmitRequest → Exchange) (parse : Text → Parsed)
    (sent : List SubmitRequest) (req : SubmitRequest)
    → (result : SubmitResult) × (submit exchange parse sent req ≡ ok result)
      × (result.outcome ≡ expected (exchange sent req))
unfolding submit
submit_lem exchange parse sent req =
    (answer exchange parse (exchange sent req), refl, go (exchange sent req))
  where
    go : (x : Exchange) → (answer exchange parse x).outcome ≡ expected x
    go (transport_error m) = refl
    go (read_error m) = refl
    go (response status raw) =
        let body = take (2 ^ 20) raw in classify-expected status (parse body) body
