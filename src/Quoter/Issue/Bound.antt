-- ===== src/Quoter/Issue/Bound.antt =====
-- What a signature of a quote binds.
use selatpay.Prelude.{ℕ, ◌/◌, ◌≡◌, sym, ◌∙◌, none, inl, inr, Bool-cases}
use selatpay.Prelude.Text.{Text, text_eq, text_eq_sound}
use selatpay.Prelude.Lines.{IsLine, split_line, split_int, format_uint-injective}
use selatpay.Quoter.Issue.{SignedQuote, Quoter, second, quote_lines, sign_quote, verify}

-- The terms of a quote: what is signed of it.
pub record SameTerms (p q : SignedQuote) : Type 0 where
  pub pairs : p.pair ≡ q.pair
  pub nums : p.rate.num ≡ q.rate.num
  pub scales : p.rate.scale ≡ q.rate.scale
  pub spreads : p.spread_bps ≡ q.spread_bps
  pub rupiahs : p.amount_idr ≡ q.amount_idr
  pub dollars : p.amount_usdc ≡ q.amount_usdc
  pub expiries : p.expires_at / second ≡ q.expires_at / second

quote_lines-injective :
    (p q : SignedQuote)
    → IsLine p.pair
    → IsLine q.pair
    → quote_lines p ≡ quote_lines q
    → SameTerms p q
unfolding quote_lines
quote_lines-injective p q lp lq e =
    let (pairs, e₁) = split_line p.pair q.pair _ _ lp lq (cc) in
    let (nums, e₂) = split_int p.rate.num q.rate.num _ _ e₁ in
    let (scales, e₃) = split_int p.rate.scale q.rate.scale _ _ e₂ in
    let (spreads, e₄) = split_int p.spread_bps q.spread_bps _ _ e₃ in
    let (rupiahs, e₅) = split_int p.amount_idr q.amount_idr _ _ e₄ in
    let (dollars, e₆) = split_int p.amount_usdc q.amount_usdc _ _ e₅ in
    record {
      pairs = pairs;
      nums = nums;
      scales = scales;
      spreads = spreads;
      rupiahs = rupiahs;
      dollars = dollars;
      expiries = format_uint-injective (p.expires_at / second) (q.expires_at / second) e₆;
    }

module _ (hmac_sha256 : Text → Text → Text) (quoter : Quoter) where
  verify-signature :
      (now : ℕ) (q : SignedQuote)
      → verify hmac_sha256 quoter now q ≡ none
      → sign_quote hmac_sha256 quoter.signing_key q ≡ q.signature
  unfolding verify
  verify-signature now q e =
      elim (Bool-cases (text_eq (sign_quote hmac_sha256 quoter.signing_key q) q.signature)) [
        | inl same ↦ text_eq_sound (sign_quote hmac_sha256 quoter.signing_key q) q.signature same
        | inr other ↦ let bad = rw other at e in absurd (cc)
      ]

  -- Two quotes that Verify accepts with one signature, at whatever times, have one pair, rate,
  -- spread, both amounts and expiry in seconds, given that the MACs of two texts differ and that a
  -- pair has no line break.
  pub verify-bound :
      ((key s t : Text) → hmac_sha256 key s ≡ hmac_sha256 key t → s ≡ t)
      → (now now' : ℕ) (p q : SignedQuote) → IsLine p.pair
      → IsLine q.pair
      → p.signature ≡ q.signature
      → verify hmac_sha256 quoter now p ≡ none
      → verify hmac_sha256 quoter now' q ≡ none
      → SameTerms p q
  unfolding sign_quote
  verify-bound apart now now' p q lp lq same hp hq = quote_lines-injective p q lp lq (
      apart quoter.signing_key (quote_lines p) (quote_lines q)
        (verify-signature now p hp ∙ same ∙ sym (verify-signature now' q hq)))
