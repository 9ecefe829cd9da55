-- ===== src/Tests/Transfers.antt =====
-- A bank that is asked for one payout twice.
use selatpay.Prelude.{ℕ, ◌≡◌, refl, true, false, none, [], ◌∷◌, ◌++◌}
use selatpay.Prelude.Text.{Text, codes, text_eq}
use selatpay.Prelude.Int.{pos}
use selatpay.Db.Tx.{SubmitRequest}
use selatpay.Payout.MockBank.{Parsed, submit}
use selatpay.Bank.{BankRequest, BankResponse, Readable, good, HttpRequest, Server, lookup}
use selatpay.Bank.Race.{Pays, PaidTwice, PaidOnce, after, one_key-two_references}
use selatpay.Bank.Rail.{exchange, submit-once}

-- The text of a UUID is one byte, an answer's JSON its reference, and every body asks for one payout.
abbrev uuid_string : ℕ → Text
uuid_string n = n ∷ []

abbrev marshal : BankResponse → Text
marshal r = r.reference

abbrev asked : BankRequest
asked = record {
  intent_id = codes "7";
  payout_id = codes "8";
  amount_idr = pos 100000;
  bank_code = codes "014";
  account_number = codes "123";
  account_name = codes "Toko";
  memo = [];
}

abbrev unmarshal : Text → Readable BankRequest
unmarshal s = good asked

abbrev bank : Server
bank = record { cache = []; next_uuid = 40 }

abbrev transfer : HttpRequest
transfer = record {
  method = codes "POST";
  idempotency_key = codes "k";
  fail = [];
  body = good (codes "{}");
}

transfer-Pays : Pays uuid_string marshal unmarshal transfer transfer transfer
unfolding text_eq
transfer-Pays = record {
  is_payout = (refl, refl);
  not_retry = refl;
  not_permanent = refl;
  body = codes "{}";
  request = asked;
  reads = refl;
  decodes = refl;
}

no_answer : lookup transfer.idempotency_key bank.cache ≡ none
unfolding lookup
no_answer = refl

one_byte : (m n : ℕ) → uuid_string m ≡ uuid_string n → m ≡ n
one_byte m n e = cc

one_key-two_references_example :
    PaidTwice uuid_string marshal unmarshal transfer transfer
      (after uuid_string marshal unmarshal transfer transfer (true, false, false, true) bank)
    × PaidOnce uuid_string marshal unmarshal transfer transfer
        (after uuid_string marshal unmarshal transfer transfer (true, true, false, false) bank)
one_key-two_references_example =
    one_key-two_references uuid_string marshal unmarshal transfer transfer one_byte transfer-Pays
      transfer-Pays refl bank no_answer true false

abbrev request : SubmitRequest
request = record {
  payout_id = 8;
  intent_id = 7;
  amount_idr = pos 100000;
  bank_code = codes "014";
  account_number = codes "123";
  account_name = codes "Toko";
  memo = [];
  idempotency = codes "k";
}

-- Another amount under the same key.
abbrev more : SubmitRequest
more = record request { amount_idr = pos 900000 }

abbrev marshal_body : SubmitRequest → Text
marshal_body r = codes "{}"

abbrev parse : Text → Parsed
parse s = record { reference = s; message = [] }

submit-once_example :
    submit
      (exchange uuid_string marshal unmarshal marshal_body bank)
      parse
      ([] ++ request ∷ request ∷ [])
      more
    ≡ submit (exchange uuid_string marshal unmarshal marshal_body bank) parse [] request
submit-once_example =
    submit-once uuid_string marshal unmarshal marshal_body bank parse [] (request ∷ []) request more
      asked refl refl refl
