-- ===== src/Api/Handlers.antt =====
-- `CreatePaymentIntent` and `GetPaymentIntent` of internal/api/handlers.go, over the queries of
-- internal/db/sqlc/payment_intents.sql.go. The merchant of the context and the decoded body are
-- given; the new reference and the address of the token account are parameters. The statements run
-- one by one, in no transaction.
pub mod Growth
pub mod Held
pub mod Repeats
pub mod Isolated
use selatpay.Prelude.{
  ℕ, suc, Bool, true, false, ◌&&◌, ◌||◌, not, Option, none, some, List, [], ◌∷◌, ◌++◌, ◌==◌, ltb,
  if◌then◌else◌, find?, is_some, length,
}
use selatpay.Prelude.Text.{Text, codes, text_eq, is_blank}
use selatpay.Prelude.Int.{ℤ, pos, leb_ℤ, ltb_ℤ}
use selatpay.Chain.Parser.{PublicKey}
use selatpay.Db.Tables.{Uuid, PaymentIntent, IntentState, Quote}
use selatpay.Db.Tx.{
  Err, Result, ok, err, no_rows, unavailable, unique_violation, check_violation, wrap, World, Tx,
  pure, or_fail, gets, guard, fresh_id, modify, ◌>>=◌, ◌>>◌,
}
use selatpay.Quoter.{Rate}
use selatpay.Quoter.Issue.{SignedQuote, Quoter, Issued, issued, refused, no_rate, not_stored, issue}
use selatpay.SolanaPay.Url.{Codec}
use selatpay.Saga.Steps.Queries.{find_intent}
use selatpay.Api.View.{Config, ApiIntent, intent_to_api}

pub record CreateRequest : Type 0 where
  pub external_ref : Text
  pub amount_idr : ℤ

-- `Reference` of internal/solanapay/reference.go.
pub record Reference : Type 0 where
  pub pubkey : PublicKey
  pub secret_enc : Text

-- The answers: an intent with 201 or 200, an error with its status, its code and what it says, or a
-- panic.
pub data Response : Type 0 where
  created shown : ApiIntent → Response
  error : ℕ → Text → Err → Response
  panicked : Response

-- The database calls of a request that may fail for a reason outside the model.
pub record Faults : Type 0 where
  pub lookup_fails : Bool
  pub quote_fails : Bool
  pub store_fails : Bool
  pub insert_fails : Bool

-- `validateCreateRequest`.
unfoldable pub validate_create_request : CreateRequest → Option Err
validate_create_request r =
    if is_blank r.external_ref
    then some (Err.message (codes "external_ref is required"))
    else if ltb 128 (length r.external_ref)
    then some (Err.message (codes "external_ref exceeds 128 characters"))
    else if leb_ℤ r.amount_idr (pos 0)
    then some (Err.message (codes "amount_idr must be positive"))
    else none

-- A query that may fail.
abbrev pub queried : {A : Type 0} → Bool → Option A → Result A
queried true o = err unavailable
queried false none = err no_rows
queried false (some a) = ok a

abbrev pub has_ref : Uuid → Text → PaymentIntent → Bool
has_ref merchant_id ref i = (i.merchant_id == merchant_id) && text_eq i.external_ref ref

-- GetPaymentIntentByMerchantRef.
unfoldable pub find_by_ref : Uuid → Text → List PaymentIntent → Option PaymentIntent
find_by_ref merchant_id ref = find? (has_ref merchant_id ref)

unfoldable pub find_quote : Uuid → List Quote → Option Quote
find_quote id = find? (λ q. q.id == id)

-- CreatePaymentIntent, under the unique key (merchant_id, external_ref) and the column checks.
unfoldable pub insert_intent : Bool → PaymentIntent → Tx PaymentIntent
unfolding find_by_ref
insert_intent fails i = do
  guard (not fails) unavailable
  guard (ltb_ℤ (pos 0) i.amount_idr && ltb_ℤ (pos 0) i.quoted_amount_usdc) check_violation
  clash ← gets (λ db. is_some (find_by_ref i.merchant_id i.external_ref db.payment_intents))
  guard (not clash) unique_violation
  id ← fresh_id
  now ← (λ w. (ok w.now, w))
  let row : PaymentIntent = record i { id = id; created_at = now }
  modify (λ db. record db { payment_intents = db.payment_intents ++ row ∷ [] })
  pure row

abbrev pub pair_usdc_idr : Text
pair_usdc_idr = codes "USDC/IDR"

abbrev pub answered : (ApiIntent → Response) → Option ApiIntent → Response
answered f none = panicked
answered f (some a) = f a

abbrev pub internal : Text → Err → Response
internal code e = error 500 code e

-- What a refused or failed `Issue` says is left out.
abbrev pub quote_failed : Response
quote_failed = internal (codes "quote_failed") (Err.message [])

abbrev unauthenticated : Response
unauthenticated = error 401 (codes "unauthenticated") (Err.message (codes "no merchant on context"))

abbrev pub not_found_answer : Response
not_found_answer = error 404 (codes "not_found") (Err.message (codes "payment intent not found"))

module _ (codec : Codec) (cfg : Config) where
  -- The intent with its quote.
  abbrev pub with_quote : (ApiIntent → Response) → PaymentIntent → Result Quote → Response
  with_quote f i (err e) = internal (codes "fetch_quote") e
  with_quote f i (ok q) = answered f (intent_to_api codec cfg i q)

  module _ (hmac_sha256 : Text → Text → Text) (quoter : Quoter) (provider : Text → Result Rate)
      (find_ata : PublicKey → PublicKey → Result PublicKey) (faults : Faults)
      (allocated : Result Reference) where
    abbrev pub inserted : Result PaymentIntent × World → Response × World
    inserted (err e, w) = (internal (codes "create_intent") e, w)
    inserted (ok i, w) =
        (with_quote created i (queried faults.quote_fails (find_quote i.quote_id w.db.quotes)), w)

    abbrev pub new_intent :
        Uuid → CreateRequest → SignedQuote → Reference → PublicKey → PaymentIntent
    new_intent merchant_id body qt ref ata = record {
      id = 0;
      merchant_id = merchant_id;
      external_ref = body.external_ref;
      amount_idr = body.amount_idr;
      quoted_amount_usdc = qt.amount_usdc;
      quote_id = qt.id;
      reference_pubkey = some (codec.key_string ref.pubkey);
      reference_secret_enc = some ref.secret_enc;
      recipient_ata = some (codec.key_string ata);
      state = IntentState.pending;
      created_at = 0;
    }

    abbrev pub with_ata :
        Uuid → CreateRequest → SignedQuote → Reference → Result PublicKey → World → Response × World
    with_ata merchant_id body qt ref (err e) w = (internal (codes "derive_ata") e, w)
    with_ata merchant_id body qt ref (ok ata) w =
        inserted (insert_intent faults.insert_fails (new_intent merchant_id body qt ref ata) w)

    abbrev pub with_reference :
        Uuid → CreateRequest → SignedQuote → Result Reference → World → Response × World
    with_reference merchant_id body qt (err e) w = (internal (codes "allocate_reference") e, w)
    with_reference merchant_id body qt (ok ref) w =
        with_ata merchant_id body qt ref (find_ata cfg.hot_wallet_pubkey cfg.usdc_mint) w

    abbrev pub with_issued : Uuid → CreateRequest → Issued × World → Response × World
    with_issued merchant_id body (issued qt, w) = with_reference merchant_id body qt allocated w
    with_issued merchant_id body (refused e, w) = (quote_failed, w)
    with_issued merchant_id body (no_rate e, w) = (quote_failed, w)
    with_issued merchant_id body (not_stored e, w) = (quote_failed, w)

    -- An intent of the reference is answered as it is.
    abbrev pub looked_up : Uuid → CreateRequest → Result PaymentIntent → World → Response × World
    looked_up merchant_id body (ok i) w =
        (with_quote shown i (queried faults.quote_fails (find_quote i.quote_id w.db.quotes)), w)
    looked_up merchant_id body (err no_rows) w =
        with_issued merchant_id body
          (issue hmac_sha256 quoter faults.store_fails provider pair_usdc_idr body.amount_idr w)
    looked_up merchant_id body (err e) w = (internal (codes "lookup") e, w)

    abbrev pub validated : Uuid → CreateRequest → Option Err → World → Response × World
    validated merchant_id body (some e) w = (error 400 (codes "invalid_request") e, w)
    validated merchant_id body none w =
        looked_up merchant_id body
          (queried faults.lookup_fails
            (find_by_ref merchant_id body.external_ref w.db.payment_intents))
          w

    abbrev pub with_body : Uuid → Option CreateRequest → World → Response × World
    with_body merchant_id none w = (error 400 (codes "invalid_json") (Err.message []), w)
    with_body merchant_id (some body) w =
        validated merchant_id body (validate_create_request body) w

    -- `CreatePaymentIntent`.
    unfoldable pub create_payment_intent :
        Option Uuid → Option CreateRequest → World → Response × World
    unfolding validate_create_request find_by_ref find_quote insert_intent issue intent_to_api
    create_payment_intent none body w = (unauthenticated, w)
    create_payment_intent (some merchant_id) body w = with_body merchant_id body w

  module _ (faults : Faults) where
    abbrev pub fetched : Uuid → Result PaymentIntent → List Quote → Response
    fetched merchant_id (err no_rows) quotes = not_found_answer
    fetched merchant_id (err e) quotes = internal (codes "fetch_intent") e
    fetched merchant_id (ok i) quotes =
        if not (i.merchant_id == merchant_id)
        then not_found_answer
        else with_quote shown i (queried faults.quote_fails (find_quote i.quote_id quotes))

    -- `GetPaymentIntent`.
    unfoldable pub get_payment_intent : Option Uuid → Uuid → World → Response
    unfolding find_intent find_quote intent_to_api
    get_payment_intent none id w = unauthenticated
    get_payment_intent (some merchant_id) id w =
        fetched merchant_id (queried faults.lookup_fails (find_intent id w.db.payment_intents))
          w.db.quotes
