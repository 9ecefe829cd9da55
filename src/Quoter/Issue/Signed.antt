-- ===== src/Quoter/Issue/Signed.antt =====
-- What `Issue` returns, and what `Verify` says to it.
use selatpay.Prelude.{
  ℕ, ◌+◌, ◌*◌, ◌/◌, suc, ◌≡◌, refl, sym, ap, ◌∙◌, subst, Bool, true, ◌||◌, some, none, [], ◌∷◌,
  ◌++◌, leb, if◌then◌else◌, Bool-cases, inl, inr,
}
use selatpay.Prelude.Text.{Text, text_eq_refl}
use selatpay.Prelude.Int.{ℤ, pos, leb_ℤ, ltb_ℤ}
use selatpay.Db.Tables.{Quote}
use selatpay.Db.Tx.{Result, ok, err, Db, World}
use selatpay.Ledger.Posting.Atomic.{err-ne-ok, eq_of_ok}
use selatpay.Quoter.{Rate, Quoted, quote_amount}
use selatpay.Quoter.Issue.{
  SignedQuote, Quoter, issued, quote_expired, create_quote, quote_admitted, quote_lines, sign_quote,
  verify, stored, persisted, unsigned, signed, issue_priced, issue_at, issue,
}

eq_of_issued : {p q : SignedQuote} → issued p ≡ issued q → p ≡ q
eq_of_issued e = cc

-- The row of a quote; its times have microseconds.
abbrev pub row_of : SignedQuote → Quote
row_of q = record {
  id = q.id;
  pair = q.pair;
  rate_num = q.rate.num;
  rate_scale = q.rate.scale;
  spread_bps = q.spread_bps;
  expires_at = q.expires_at / 1000 * 1000;
  signature = q.signature;
}

abbrev with_row : SignedQuote → Db → Db
with_row q db = record db { quotes = db.quotes ++ row_of q ∷ [] }

create_quote_lem :
    (fails : Bool) (q : SignedQuote) (row : Quote) (w w' : World)
    → create_quote fails q w ≡ (ok row, w')
    → (row ≡ row_of (record q { id = row.id })) × (w'.db ≡ with_row (record q { id = row.id }) w.db)
unfolding create_quote
create_quote_lem fails q row w w' e = elim (Bool-cases fails) [
  | inl down ↦ absurd (err-ne-ok (ap (λ t. t.0) (rw down at e)))
  | inr up ↦ elim (Bool-cases (quote_admitted q.rate q.spread_bps)) [
    | inl good ↦
        let done = rw (up, good) at e in
        let same = eq_of_ok (ap (λ t. t.0) done) in
        subst
          (λ k.
            (row ≡ row_of (record q { id = k })) × (w'.db ≡ with_row (record q { id = k }) w.db))
          (ap (λ x. x.id) same) (sym same, sym (ap (λ t. t.1.db) done))
    | inr bad ↦ absurd (err-ne-ok (ap (λ t. t.0) (rw (up, bad) at e)))
  ]
]

module _ (hmac_sha256 : Text → Text → Text) (quoter : Quoter) where
  -- What a world holds behind a quote that was issued.
  abbrev pub Kept : SignedQuote → World → World → Type 0
  Kept q w w' = w'.db ≡ (if quoter.stores then with_row q w.db else w.db)

  persisted_lem :
      (fails : Bool) (q p : SignedQuote) (w w' : World)
      → persisted hmac_sha256 quoter fails q w ≡ (issued p, w')
      → (p ≡ record q { id = p.id }) × Kept p w w'
  persisted_lem fails q p w w' e = elim (Bool-cases quoter.stores) [
    | inl yes_pool ↦
        go (create_quote fails q w).0 (create_quote fails q w).1 refl yes_pool (rw yes_pool at e)
    | inr no_pool ↦
        let done = rw no_pool at e in
        let same = eq_of_issued (ap (λ t. t.0) done) in
        rw no_pool (
          subst (λ k. p ≡ record q { id = k }) (ap (λ x. x.id) same) (sym same),
          sym (ap (λ t. t.1.db) done),
        )
  ]
    where
      go :
          (r : Result Quote) (v : World)
          → create_quote fails q w ≡ (r, v)
          → quoter.stores ≡ true
          → stored hmac_sha256 quoter q (create_quote fails q w) ≡ (issued p, w')
          → (p ≡ record q { id = p.id }) × Kept p w w'
      go (err x) v c pool h = let bad = rw c at h in absurd (cc)
      go (ok row) v c pool h =
          let done = rw c at h in
          let same : record q { id = row.id } ≡ p = eq_of_issued (ap (λ t. t.0) done) in
          let ids : row.id ≡ p.id = ap (λ x. x.id) same in
          let (at, kept) = create_quote_lem fails q row w v c in
          rw pool (
            subst (λ k. p ≡ record q { id = k }) ids (sym same),
            sym (ap (λ t. t.1.db) done) ∙ kept ∙ ap (λ x. with_row x w.db) same,
          )

  verify-signed :
      (u q : SignedQuote) (now : ℕ)
      → q ≡ record (signed hmac_sha256 quoter u) { id = q.id }
      → verify hmac_sha256 quoter now q
        ≡ (if leb u.expires_at now then some quote_expired else none)
  unfolding verify sign_quote quote_lines
  verify-signed u q now same = rw (same, text_eq_refl (sign_quote hmac_sha256 quoter.signing_key u))

  -- The terms of a quote, and what the table holds of it.
  pub record IsIssued (provider : Text → Result Rate) (pair : Text) (amount_idr : ℤ)
      (q : SignedQuote) (w w' : World) : Type 0 where
    pub pair_kept : q.pair ≡ pair
    pub amount_kept : q.amount_idr ≡ amount_idr
    pub rate_given : provider pair ≡ ok q.rate
    pub priced : quote_amount amount_idr q.rate quoter.spread_bps ≡ Quoted.ok q.amount_usdc
    pub spread_kept : q.spread_bps ≡ quoter.spread_bps
    pub expiry : q.expires_at ≡ w.now + quoter.ttl
    pub stored_row : Kept q w w'

  module _ (fails : Bool) (provider : Text → Result Rate) (pair : Text) (amount_idr : ℤ)
      (q : SignedQuote) (w w' : World) where
    -- Issued, and accepted until the time to live is over.
    abbrev pub Honored : Type 0
    Honored =
        IsIssued provider pair amount_idr q w w'
        × ((now : ℕ)
            → verify hmac_sha256 quoter now q
              ≡ (if leb (w.now + quoter.ttl) now then some quote_expired else none))

    issue_priced-Honored :
        (rate : Rate) (price : Quoted)
        → provider pair ≡ ok rate
        → quote_amount amount_idr rate quoter.spread_bps ≡ price
        → issue_priced hmac_sha256 quoter fails pair amount_idr rate price w ≡ (issued q, w')
        → Honored
    unfolding unsigned
    issue_priced-Honored rate (Quoted.err x) given price e = absurd (cc)
    issue_priced-Honored rate (Quoted.ok usdc) given price e =
        let u = unsigned hmac_sha256 quoter pair amount_idr rate usdc w in
        let (same, kept) =
          persisted_lem fails (signed hmac_sha256 quoter u) q (record w { next_id = suc w.next_id })
            w' e in
        (
          record {
            pair_kept = ap (λ x. x.pair) same;
            amount_kept = ap (λ x. x.amount_idr) same;
            rate_given = given ∙ ap (λ x. ok x.rate) (sym same);
            priced =
                ap (λ x. quote_amount amount_idr x.rate quoter.spread_bps) same
                ∙ price
                ∙ ap (λ x. Quoted.ok x.amount_usdc) (sym same);
            spread_kept = ap (λ x. x.spread_bps) same;
            expiry = ap (λ x. x.expires_at) same;
            stored_row = kept;
          },
          λ now. verify-signed u q now same,
        )

    issue_at-Honored :
        (r : Result Rate)
        → provider pair ≡ r
        → issue_at hmac_sha256 quoter fails pair amount_idr r w ≡ (issued q, w')
        → Honored
    issue_at-Honored (err x) given e = absurd (cc)
    issue_at-Honored (ok rate) given e = elim (Bool-cases (leb_ℤ rate.num (pos 0))) [
      | inl bad ↦ let no = rw bad at e in absurd (cc)
      | inr good ↦
          issue_priced-Honored rate (quote_amount amount_idr rate quoter.spread_bps) given refl
            (rw good at e)
    ]

    -- A quote that Issue returns has the asked pair and amount, the provider's rate, the price of
    -- QuoteAmount at that rate and the quoter's spread, and expires when the time to live is over. Its
    -- row, where there is a pool, is the one that is put in the table, and nothing else changes there.
    -- Verify accepts it until it expires, and from then on says that it is expired.
    pub issue-verifies :
        issue hmac_sha256 quoter fails provider pair amount_idr w ≡ (issued q, w') → Honored
    unfolding issue
    issue-verifies e = elim (Bool-cases (leb_ℤ amount_idr (pos 0))) [
      | inl none_asked ↦ let no = rw none_asked at e in absurd (cc)
      | inr asked ↦
          elim (Bool-cases
            (ltb_ℤ quoter.spread_bps (pos 0) || ltb_ℤ (pos 10000) quoter.spread_bps)) [
              | inl wide ↦ let no = rw (asked, wide) at e in absurd (cc)
              | inr fine ↦ issue_at-Honored (provider pair) refl (rw (asked, fine) at e)
            ]
    ]
