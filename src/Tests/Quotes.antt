-- ===== src/Tests/Quotes.antt =====
-- A quote that is issued, stored and verified.
use selatpay.Prelude.{◌≡◌, refl, true, false, none, [], ◌∷◌}
use selatpay.Prelude.Text.{Text, codes, text_eq}
use selatpay.Prelude.Int.{pos, ◌*ℤ◌, ◌-ℤ◌, quo}
use selatpay.Prelude.Decimal.{format_int}
use selatpay.Db.Tx.{Result, ok, World}
use selatpay.Quoter.{Rate, quote_amount}
use selatpay.Quoter.Issue.{
  SignedQuote, Quoter, issued, quote_lines, quote_admitted, create_quote, sign_quote, verify,
  unsigned, issue,
}
use selatpay.Quoter.Issue.Signed.{row_of, Honored, issue-verifies}
use selatpay.Quoter.Issue.Bound.{SameTerms, verify-bound}
use selatpay.Tests.Books.{books}

-- A text stands for its own MAC.
abbrev pub mac : Text → Text → Text
mac key text = text

abbrev pub quoter : Quoter
quoter = record { signing_key = codes "k"; ttl = 60000000000; spread_bps = pos 100; stores = true }

abbrev pub provider : Text → Result Rate
provider pair = ok (record { num = pos 16300; scale = pos 0 })

abbrev unsigned_quote : SignedQuote
unsigned_quote = record {
  id = 101;
  pair = codes "P";
  rate = record { num = pos 16300; scale = pos 0 };
  spread_bps = pos 100;
  expires_at = 60000001000;
  signature = [];
  amount_idr = pos 100000;
  amount_usdc = pos 6196938;
}

abbrev quote : SignedQuote
quote = record unsigned_quote { signature = quote_lines unsigned_quote }

abbrev after : World
after = record books { db = record (books.db) { quotes = row_of quote ∷ [] }; next_id = 102 }

quote-issued :
    issue mac quoter false provider (codes "P") (pos 100000) books ≡ (issued quote, after)
unfolding issue quote_amount sign_quote create_quote quote_admitted unsigned quote_lines ◌*ℤ◌ ◌-ℤ◌
    quo
quote-issued = refl

issue-verifies_example :
    Honored mac quoter false provider (codes "P") (pos 100000) quote books after
issue-verifies_example =
    issue-verifies mac quoter false provider (codes "P") (pos 100000) quote books after quote-issued

-- Another quote of the same terms, which expires within the same second.
abbrev sibling : SignedQuote
sibling = record quote { id = 9; expires_at = 60000001999 }

quote-honored : verify mac quoter 5 quote ≡ none
unfolding verify sign_quote quote_lines text_eq format_int
quote-honored = refl

sibling-honored : verify mac quoter 7 sibling ≡ none
unfolding verify sign_quote quote_lines text_eq format_int
sibling-honored = refl

verify-bound_example : SameTerms quote sibling
verify-bound_example =
    verify-bound mac quoter (λ key s t e. e) 5 7 quote sibling (refl, tt) (refl, tt) refl
      quote-honored sibling-honored
