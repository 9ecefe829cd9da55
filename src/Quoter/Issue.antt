-- ===== src/Quoter/Issue.antt =====
-- `Issue`, `Verify` and `New` of internal/quoter/quoter.go, with the insert of
-- internal/db/sqlc/quotes.sql.go. HMAC-SHA256 and the provider of rates are parameters. A time is a
-- number of nanoseconds since 1970; the clock stands still during a call.
pub mod Signed
pub mod Bound
use selatpay.Prelude.{
  ℕ, suc, ◌+◌, ◌*◌, ◌/◌, Bool, true, false, ◌&&◌, ◌||◌, not, Option, none, some, List, [], ◌∷◌,
  ◌++◌, leb, if◌then◌else◌,
}
use selatpay.Prelude.Text.{Text, codes, text_eq}
use selatpay.Prelude.Int.{ℤ, pos, pos_part, ltb_ℤ, leb_ℤ}
use selatpay.Prelude.Decimal.{format_int, format_uint}
use selatpay.Db.Tables.{Uuid, Quote}
use selatpay.Db.Tx.{
  Err, Result, ok, err, check_violation, unavailable, wrap, World, Tx, pure, guard, fresh_id,
  modify, ◌>>=◌, ◌>>◌,
}
use selatpay.Quoter.{
  Rate, QuoteErr, amount_non_positive, invalid_rate, invalid_spread, Quoted, quote_amount,
}

-- `Quote` of internal/quoter/types.go.
pub record SignedQuote : Type 0 where
  pub id : Uuid
  pub pair : Text
  pub rate : Rate
  pub spread_bps : ℤ
  pub expires_at : ℕ
  pub signature : Text
  pub amount_idr : ℤ
  pub amount_usdc : ℤ

-- `stores` says whether there is a pool.
pub record Quoter : Type 0 where
  pub signing_key : Text
  pub ttl : ℕ
  pub spread_bps : ℤ
  pub stores : Bool

abbrev pub second : ℕ
second = 1000000000

-- `New`: a time to live that is not positive is a minute.
unfoldable pub new_quoter : Text → ℤ → ℤ → Bool → Quoter
new_quoter key ttl spread stores = record {
  signing_key = key;
  ttl = if leb_ℤ ttl (pos 0) then 60 * second else pos_part ttl;
  spread_bps = spread;
  stores = stores;
}

pub data Issued : Type 0 where
  issued : SignedQuote → Issued
  refused : QuoteErr → Issued
  no_rate not_stored : Err → Issued

pub data VerifyErr : Type 0 where
  bad_signature quote_expired : VerifyErr

-- The text that is signed: a line for each term, the expiry in seconds.
unfoldable pub quote_lines : SignedQuote → Text
quote_lines q =
    codes "v1"
    ++ 10
      ∷ (q.pair
          ++ 10
            ∷ (format_int q.rate.num
                ++ 10
                  ∷ (format_int q.rate.scale
                      ++ 10
                        ∷ (format_int q.spread_bps
                            ++ 10
                              ∷ (format_int q.amount_idr
                                  ++ 10
                                    ∷ (format_int q.amount_usdc
                                        ++ 10 ∷ format_uint (q.expires_at / second)))))))

-- The column checks of the table quotes.
unfoldable pub quote_admitted : Rate → ℤ → Bool
quote_admitted rate spread =
    ltb_ℤ (pos 0) rate.num
    && (leb_ℤ (pos 0) rate.scale
        && (leb_ℤ rate.scale (pos 18) && (leb_ℤ (pos 0) spread && leb_ℤ spread (pos 10000))))

-- CreateQuote. A timestamptz keeps microseconds.
unfoldable pub create_quote : Bool → SignedQuote → Tx Quote
unfolding quote_admitted
create_quote fails q = do
  guard (not fails) unavailable
  guard (quote_admitted q.rate q.spread_bps) check_violation
  id ← fresh_id
  let row : Quote = record {
    id = id;
    pair = q.pair;
    rate_num = q.rate.num;
    rate_scale = q.rate.scale;
    spread_bps = q.spread_bps;
    expires_at = q.expires_at / 1000 * 1000;
    signature = q.signature;
  }
  modify (λ db. record db { quotes = db.quotes ++ row ∷ [] })
  pure row

module _ (hmac_sha256 : Text → Text → Text) where
  unfoldable pub sign_quote : Text → SignedQuote → Text
  unfolding quote_lines
  sign_quote key q = hmac_sha256 key (quote_lines q)

  module _ (quoter : Quoter) where
    -- `Verify`.
    unfoldable pub verify : ℕ → SignedQuote → Option VerifyErr
    unfolding sign_quote
    verify now q =
        if not (text_eq (sign_quote quoter.signing_key q) q.signature)
        then some bad_signature
        else if leb q.expires_at now
        then some quote_expired
        else none

    -- The id of the row that was stored takes the place of the first.
    abbrev pub stored : SignedQuote → Result Quote × World → Issued × World
    stored q (ok row, w) = (issued (record q { id = row.id }), w)
    stored q (err e, w) = (not_stored (wrap e), w)

    abbrev pub persisted : Bool → SignedQuote → World → Issued × World
    persisted fails q w = if quoter.stores then stored q (create_quote fails q w) else (issued q, w)

    unfoldable pub unsigned : Text → ℤ → Rate → ℤ → World → SignedQuote
    unsigned pair amount_idr rate amount_usdc w = record {
      id = w.next_id;
      pair = pair;
      rate = rate;
      spread_bps = quoter.spread_bps;
      expires_at = w.now + quoter.ttl;
      signature = [];
      amount_idr = amount_idr;
      amount_usdc = amount_usdc;
    }

    abbrev pub signed : SignedQuote → SignedQuote
    signed q = record q { signature = sign_quote quoter.signing_key q }

    abbrev pub issue_priced : Bool → Text → ℤ → Rate → Quoted → World → Issued × World
    issue_priced fails pair amount_idr rate (Quoted.err e) w = (refused e, w)
    issue_priced fails pair amount_idr rate (Quoted.ok amount_usdc) w =
        persisted fails (signed (unsigned pair amount_idr rate amount_usdc w))
          (record w { next_id = suc w.next_id })

    abbrev pub issue_at : Bool → Text → ℤ → Result Rate → World → Issued × World
    issue_at fails pair amount_idr (err e) w = (no_rate (wrap e), w)
    issue_at fails pair amount_idr (ok rate) w =
        if leb_ℤ rate.num (pos 0)
        then (refused invalid_rate, w)
        else issue_priced fails pair amount_idr rate
            (quote_amount amount_idr rate quoter.spread_bps) w

    -- `Issue`, whether the insert fails, and the provider.
    unfoldable pub issue : Bool → (Text → Result Rate) → Text → ℤ → World → Issued × World
    unfolding sign_quote create_quote unsigned
    issue fails provider pair amount_idr w =
        if leb_ℤ amount_idr (pos 0)
        then (refused amount_non_positive, w)
        else if ltb_ℤ quoter.spread_bps (pos 0) || ltb_ℤ (pos 10000) quoter.spread_bps
        then (refused invalid_spread, w)
        else issue_at fails pair amount_idr (provider pair) w
