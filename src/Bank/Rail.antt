-- ===== src/Bank/Rail.antt =====
-- The bank rail of internal/payout/rails/mock_idr_bank.go against this bank.
use selatpay.Prelude.{ℕ, ◌^◌, ◌≡◌, refl, ap, ◌∙◌, false, some, List, [], ◌∷◌, ◌++◌, map, take}
use mathlib.Core.List.{map-append}
use selatpay.Prelude.Text.{Text, codes, text_eq, is_empty}
use selatpay.Db.Tx.{SubmitRequest}
use selatpay.Payout.MockBank.{Exchange, response, Parsed, submit}
use selatpay.Bank.{BankRequest, BankResponse, Readable, good, HttpRequest, Server, decoded, lookup}
use selatpay.Bank.Once.{IsPayout, serve, serve_all, serve-cached, serve-stored, serve_all-keeps}

-- The request that `Submit` builds; its URL has no query.
abbrev pub http_request : (SubmitRequest → Text) → SubmitRequest → HttpRequest
http_request marshal_body req = record {
  method = codes "POST";
  idempotency_key = req.idempotency;
  fail = [];
  body = good (marshal_body req);
}

module _ (uuid_string : ℕ → Text) (marshal : BankResponse → Text)
    (unmarshal : Text → Readable BankRequest) (marshal_body : SubmitRequest → Text)
    (start : Server) where
  -- The bank that has served the requests sent so far.
  abbrev pub bank_after : List SubmitRequest → Server
  bank_after sent =
      serve_all uuid_string marshal unmarshal (map (http_request marshal_body) sent) start

  -- An exchange that always gets through.
  abbrev pub exchange : List SubmitRequest → SubmitRequest → Exchange
  exchange sent req =
      let a =
        (serve uuid_string marshal unmarshal (http_request marshal_body req) (bank_after sent)).0 in
      response a.status_code a.body

  serve_all-append :
      (xs ys : List HttpRequest) (s : Server)
      → serve_all uuid_string marshal unmarshal (xs ++ ys) s
        ≡ serve_all uuid_string marshal unmarshal ys (serve_all uuid_string marshal unmarshal xs s)
  unfolding serve_all
  serve_all-append [] ys s = refl
  serve_all-append (x ∷ xs) ys s =
      serve_all-append xs ys (serve uuid_string marshal unmarshal x s).1

  -- While requests get through one by one, a request that is submitted again under its key, which
  -- is not empty, whatever it asks for now and whatever was submitted in between, has the outcome
  -- that it had at first, given that the bank reads what was submitted at first.
  pub submit-once :
      (parse : Text → Parsed) (sent others : List SubmitRequest) (req req' : SubmitRequest)
      (read : BankRequest)
      → is_empty req.idempotency ≡ false
      → req'.idempotency ≡ req.idempotency
      → decoded uuid_string marshal unmarshal (take (2 ^ 20) (marshal_body req)) ≡ good read
      → submit exchange parse (sent ++ req ∷ others) req' ≡ submit exchange parse sent req
  unfolding submit serve_all text_eq
  submit-once parse sent others req req' read keyed same reads =
      let r = http_request marshal_body req in
      let s = bank_after sent in
      let answer = (serve uuid_string marshal unmarshal r s).0 in
      let pays : IsPayout r = (refl, keyed) in
      let stored : lookup req.idempotency (serve uuid_string marshal unmarshal r s).1.cache
          ≡ some answer =
        serve-stored uuid_string marshal unmarshal r (marshal_body req) read s pays refl reads in
      let after = bank_after (sent ++ req ∷ others) in
      let kept : lookup req.idempotency after.cache ≡ some answer =
        ap (λ l. lookup req.idempotency (serve_all uuid_string marshal unmarshal l start).cache)
          (map-append (http_request marshal_body) sent (req ∷ others))
        ∙ ap (λ x. lookup req.idempotency x.cache)
            (serve_all-append (map (http_request marshal_body) sent)
              (map (http_request marshal_body) (req ∷ others)) start)
        ∙ serve_all-keeps uuid_string marshal unmarshal (map (http_request marshal_body) others)
            req.idempotency answer (serve uuid_string marshal unmarshal r s).1 stored in
      let cached =
        serve-cached uuid_string marshal unmarshal (http_request marshal_body req') answer after
          (refl, ap is_empty same ∙ keyed) (ap (λ k. lookup k after.cache) same ∙ kept) in
      ap (λ x. submit (λ _ _. response x.0.status_code x.0.body) parse [] req) cached
