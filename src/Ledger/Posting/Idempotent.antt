-- ===== src/Ledger/Posting/Idempotent.antt =====
-- Posting an entry again (`postWith` of internal/ledger/ledger.go).
use selatpay.Prelude.{
  suc, ◌≡◌, refl, sym, ◌∙◌, ap, inl, inr, Option, none, some, List, [], ◌∷◌, ◌++◌, Bool-cases,
  find?-last, find?-append,
}
use selatpay.Prelude.Text.{Text, text_eq, text_eq_refl}
use selatpay.Db.Tables.{Uuid, JournalEntry}
use selatpay.Db.Tx.{Err, Result, ok, err, World}
use selatpay.Ledger.Validate.{Line, Entry, validate}
use selatpay.Ledger.Posting.{
  entry_by_ref, account_by_id, posting_admitted, create_journal_entry, insert_posting,
  insert_postings, insert_entry, post_found, post_checked, post_with, post_tx, nullable,
}
use selatpay.Ledger.Posting.Atomic.{err-ne-ok, eq_of_ok}

insert_posting-keeps :
    (id : Uuid) (l : Line) (w v : World) (u : Unit {0})
    → insert_posting id l w ≡ (ok u, v)
    → v.db.journal_entries ≡ w.db.journal_entries
unfolding insert_posting
insert_posting-keeps id l w v u e =
    elim (Bool-cases (posting_admitted l (account_by_id l.account_id w.db.accounts))) [
      | inl takes ↦ ap (λ t. t.1.db.journal_entries) (sym (rw (insert_posting, takes) at e))
      | inr refuses ↦ absurd (err-ne-ok (ap (λ t. t.0) (rw (insert_posting, refuses) at e)))
    ]

insert_postings-keeps :
    (id : Uuid) (ls : List Line) (w v : World) (u : Unit {0})
    → insert_postings id ls w ≡ (ok u, v)
    → v.db.journal_entries ≡ w.db.journal_entries
unfolding insert_postings
insert_postings-keeps id [] w v u e = ap (λ t. t.1.db.journal_entries) (sym e)
insert_postings-keeps id (l ∷ ls) w v u e =
    go (insert_posting id l w) refl (λ w' p. insert_postings-keeps id ls w' v u p)
  where
    go :
        (x : Result (Unit {0}) × World)
        → insert_posting id l w ≡ x
        → ((w' : World)
            → insert_postings id ls w' ≡ (ok u, v)
            → v.db.journal_entries ≡ w'.db.journal_entries)
        → v.db.journal_entries ≡ w.db.journal_entries
    go (err a, w') q rest = absurd (err-ne-ok (ap (λ t. t.0) (rw q at e)))
    go (ok a, w') q rest = rest w' (rw q at e) ∙ insert_posting-keeps id l w w' a q

module _ (e : Entry) (w : World) where
  abbrev row : JournalEntry
  row = record {
    id = w.next_id;
    external_ref = e.external_ref;
    kind = e.kind;
    description = nullable e.description;
    intent_id = e.intent_id;
  }

  abbrev created : World
  created = record w {
    db = record (w.db) { journal_entries = w.db.journal_entries ++ row ∷ [] };
    next_id = suc w.next_id;
  }

  create_journal_entry-appends :
      entry_by_ref e.external_ref w.db.journal_entries ≡ none
      → create_journal_entry e.external_ref e.kind (nullable e.description) e.intent_id w
        ≡ (ok row, created)
  unfolding create_journal_entry nullable
  create_journal_entry-appends missing = rw (create_journal_entry, missing)

  -- An entry that is new is found by its reference once it is inserted.
  insert_entry-found :
      (w' : World) (j : JournalEntry)
      → entry_by_ref e.external_ref w.db.journal_entries ≡ none
      → insert_entry e w ≡ (ok j, w')
      → entry_by_ref e.external_ref w'.db.journal_entries ≡ some j
  unfolding entry_by_ref insert_entry
  insert_entry-found w' j missing p = go (insert_postings row.id e.lines created) refl
    where
      go :
          (x : Result (Unit {0}) × World)
          → insert_postings row.id e.lines created ≡ x
          → entry_by_ref e.external_ref w'.db.journal_entries ≡ some j
      go (err a, v) q = absurd (
          err-ne-ok
            (ap (λ t. t.0) (rw (insert_entry, create_journal_entry-appends missing, q) at p)))
      go (ok a, v) q =
          let done = rw (insert_entry, create_journal_entry-appends missing, q) at p in
          ap (entry_by_ref e.external_ref) (
            sym (ap (λ t. t.1.db.journal_entries) done)
            ∙ insert_postings-keeps row.id e.lines created v a q)
          ∙ find?-last (λ k. text_eq k.external_ref e.external_ref) w.db.journal_entries row missing
              (text_eq_refl e.external_ref)
          ∙ ap some (eq_of_ok (ap (λ t. t.0) done))

  -- It comes behind the entries that were there.
  insert_entry-appends :
      (w' : World) (j : JournalEntry)
      → entry_by_ref e.external_ref w.db.journal_entries ≡ none
      → insert_entry e w ≡ (ok j, w')
      → w'.db.journal_entries ≡ w.db.journal_entries ++ row ∷ []
  unfolding insert_entry
  insert_entry-appends w' j missing p = go (insert_postings row.id e.lines created) refl
    where
      go :
          (x : Result (Unit {0}) × World)
          → insert_postings row.id e.lines created ≡ x
          → w'.db.journal_entries ≡ w.db.journal_entries ++ row ∷ []
      go (err a, v) q = absurd (
          err-ne-ok
            (ap (λ t. t.0) (rw (insert_entry, create_journal_entry-appends missing, q) at p)))
      go (ok a, v) q =
          let done = rw (insert_entry, create_journal_entry-appends missing, q) at p in
          sym (ap (λ t. t.1.db.journal_entries) done)
          ∙ insert_postings-keeps row.id e.lines created v a q

-- A reference that is recorded posts nothing more: the entry that it names is returned.
post_with-recorded :
    (e : Entry) (w : World) (j : JournalEntry)
    → entry_by_ref e.external_ref w.db.journal_entries ≡ some j
    → post_with e w ≡ (ok j, w)
unfolding post_with
post_with-recorded e w j found = ap (λ o. post_found e o w) found

-- An entry that was posted is valid, and recorded under its reference.
pub post_tx-found :
    (e : Entry) (w w' : World) (j : JournalEntry)
    → post_tx e w ≡ (ok j, w')
    → (validate e ≡ none) × (entry_by_ref e.external_ref w'.db.journal_entries ≡ some j)
unfolding post_tx
post_tx-found e w w' j p =
    go (validate e) (entry_by_ref e.external_ref w.db.journal_entries) refl p refl
  where
    go :
        (v : Option Err) (o : Option JournalEntry)
        → validate e ≡ v
        → post_checked v (post_with e) w ≡ (ok j, w')
        → entry_by_ref e.external_ref w.db.journal_entries ≡ o
        → (validate e ≡ none) × (entry_by_ref e.external_ref w'.db.journal_entries ≡ some j)
    go (some x) o valid q found = absurd (err-ne-ok (ap (λ t. t.0) q))
    go none none valid q found =
        (valid, insert_entry-found e w w' j found (sym (ap (λ o. post_found e o w) found) ∙ q))
    go none (some k) valid q found =
        let done = sym (post_with-recorded e w k found) ∙ q in
        (
          valid,
          ap (λ v. entry_by_ref e.external_ref v.db.journal_entries) (sym (ap (λ t. t.1) done))
              ∙ found
              ∙ ap some (eq_of_ok (ap (λ t. t.0) done)),
        )

-- A valid entry whose reference is recorded is answered with the record.
pub post_tx-recorded :
    (e : Entry) (w : World) (j : JournalEntry)
    → validate e ≡ none
    → entry_by_ref e.external_ref w.db.journal_entries ≡ some j
    → post_tx e w ≡ (ok j, w)
unfolding post_tx
post_tx-recorded e w j valid found =
    ap (λ o. post_checked o (post_with e) w) valid ∙ post_with-recorded e w j found

-- Posting is idempotent in the external reference: when a post has succeeded, any later entry of the
-- same reference that validates is answered with the entry recorded first and changes nothing.
pub post_tx-idempotent :
    (e f : Entry) (w w' : World) (j : JournalEntry)
    → post_tx e w ≡ (ok j, w')
    → f.external_ref ≡ e.external_ref
    → validate f ≡ none
    → post_tx f w' ≡ (ok j, w')
post_tx-idempotent e f w w' j p same valid =
    post_tx-recorded f w' j valid
      (ap (λ r. entry_by_ref r w'.db.journal_entries) same ∙ (post_tx-found e w w' j p).1)

-- A reference that was recorded stays so.
pub post_tx-keeps :
    (e : Entry) (w w' : World) (j : JournalEntry) (ref : Text) (k : JournalEntry)
    → post_tx e w ≡ (ok j, w')
    → entry_by_ref ref w.db.journal_entries ≡ some k
    → entry_by_ref ref w'.db.journal_entries ≡ some k
unfolding post_tx entry_by_ref
post_tx-keeps e w w' j ref k p there =
    go (validate e) (entry_by_ref e.external_ref w.db.journal_entries) refl p refl
  where
    go :
        (v : Option Err) (o : Option JournalEntry)
        → validate e ≡ v
        → post_checked v (post_with e) w ≡ (ok j, w')
        → entry_by_ref e.external_ref w.db.journal_entries ≡ o
        → entry_by_ref ref w'.db.journal_entries ≡ some k
    go (some x) o valid q found = absurd (err-ne-ok (ap (λ t. t.0) q))
    go none (some i) valid q found =
        let done = sym (post_with-recorded e w i found) ∙ q in
        ap (λ t. entry_by_ref ref t.1.db.journal_entries) (sym done) ∙ there
    go none none valid q found =
        ap (entry_by_ref ref)
          (insert_entry-appends e w w' j found (sym (ap (λ o. post_found e o w) found) ∙ q))
        ∙ find?-append (λ i. text_eq i.external_ref ref) w.db.journal_entries (row e w ∷ [])
        ∙ rw there refl
