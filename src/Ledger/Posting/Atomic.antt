-- ===== src/Ledger/Posting/Atomic.antt =====
-- What a transaction leaves behind, by the outcome of its body.
use selatpay.Prelude.{◌≡◌, refl, sym, ◌∙◌, ap, true, false, Bool-cases, inl, inr}
use selatpay.Db.Tx.{Err, Result, ok, err, World, Tx, wrap, check_violation}
use selatpay.Ledger.Posting.{run_tx, entries_balanced}

module _ {A : Type 0} where
  pub run_tx_ok :
      (m : Tx A) (w w' : World) (a : A)
      → m w ≡ (ok a, w')
      → entries_balanced w'.db.postings w'.db.postings ≡ true
      → run_tx m w ≡ (ok a, w')
  unfolding run_tx
  run_tx_ok m w w' a e b = rw (run_tx, e, b)

  pub run_tx_err :
      (m : Tx A) (w w' : World) (e : Err)
      → m w ≡ (err e, w')
      → run_tx m w ≡ (err e, record w' { db = w.db })
  unfolding run_tx
  run_tx_err m w w' e p = rw (run_tx, p)

  run_tx_unbalanced :
      (m : Tx A) (w w' : World) (a : A)
      → m w ≡ (ok a, w')
      → entries_balanced w'.db.postings w'.db.postings ≡ false
      → run_tx m w ≡ (err (wrap check_violation), record w' { db = w.db })
  unfolding run_tx
  run_tx_unbalanced m w w' a e b = rw (run_tx, e, b)

  pub eq_of_ok : {x y : A} → ok x ≡ ok y → x ≡ y
  eq_of_ok e = cc

  pub err-ne-ok : {x : Err} {a : A} → ¬ (err x ≡ ok a)
  err-ne-ok e = cc

  -- A transaction that ends in an error leaves every table as it was.
  pub run_tx-rolls_back :
      (m : Tx A) (w w' : World) (e : Err) → run_tx m w ≡ (err e, w') → w'.db ≡ w.db
  run_tx-rolls_back m w w' e p = go (m w).0 (m w).1 refl
    where
      go : (r : Result A) (v : World) → m w ≡ (r, v) → w'.db ≡ w.db
      go (err x) v q = ap (λ t. t.1.db) (sym p ∙ run_tx_err m w v x q)
      go (ok a) v q = elim (Bool-cases (entries_balanced v.db.postings v.db.postings)) [
        | inl b ↦ absurd (err-ne-ok (ap (λ t. t.0) (sym p ∙ run_tx_ok m w v a q b)))
        | inr b ↦ ap (λ t. t.1.db) (sym p ∙ run_tx_unbalanced m w v a q b)
      ]

  -- A transaction that returns a value commits all that its body did, and every entry balances.
  pub run_tx-commits :
      (m : Tx A) (w w' : World) (a : A)
      → run_tx m w ≡ (ok a, w')
      → (m w ≡ (ok a, w')) × (entries_balanced w'.db.postings w'.db.postings ≡ true)
  run_tx-commits m w w' a p = go (m w).0 (m w).1 refl
    where
      go :
          (r : Result A) (v : World)
          → m w ≡ (r, v)
          → (m w ≡ (ok a, w')) × (entries_balanced w'.db.postings w'.db.postings ≡ true)
      go (err x) v q = absurd (err-ne-ok (ap (λ t. t.0) (sym (run_tx_err m w v x q) ∙ p)))
      go (ok b) v q = elim (Bool-cases (entries_balanced v.db.postings v.db.postings)) [
        | inl c ↦
            let same = sym (run_tx_ok m w v b q c) ∙ p in
            (q ∙ same, sym (ap (λ t. entries_balanced t.1.db.postings t.1.db.postings) same) ∙ c)
        | inr c ↦ absurd (err-ne-ok (ap (λ t. t.0) (sym (run_tx_unbalanced m w v b q c) ∙ p)))
      ]
