-- ===== src/Ledger/Posting/Frame.antt =====
-- What posting an entry leaves alone, and what it records.
use selatpay.Prelude.{
  ◌≡◌, refl, sym, ap, ◌∙◌, subst, inl, inr, Option, none, some, List, [], ◌∷◌, Bool-cases,
}
use selatpay.Prelude.Text.{Text}
use selatpay.Db.Tables.{Uuid, JournalEntry}
use selatpay.Db.Tx.{Err, ok, Db, World, catch, wrap, ◌>>=◌}
use selatpay.Db.Chain.{bind_ok, catch_ok}
use selatpay.Ledger.Validate.{Line, Entry, validate}
use selatpay.Ledger.Posting.{
  entry_by_ref, account_by_id, posting_admitted, create_journal_entry, insert_posting,
  insert_postings, insert_entry, post_with, post_tx, nullable, created_error,
}
use selatpay.Prelude.{is_some}

-- Every table but the ledger's two is as it was.
abbrev pub BooksOnly : World → World → Type 0
BooksOnly w v =
    v.db ≡ record (w.db) { journal_entries = v.db.journal_entries; postings = v.db.postings }

pub BooksOnly-trans : (u v w : World) → BooksOnly u v → BooksOnly v w → BooksOnly u w
BooksOnly-trans u v w h k =
    k
    ∙ ap {A = Db}
        (λ d. record d { journal_entries = w.db.journal_entries; postings = w.db.postings }) h

-- A change of the books, and then one of the intents.
pub BooksOnly-intents :
    (w y v : World)
    → BooksOnly w y
    → v.db ≡ record (y.db) { payment_intents = v.db.payment_intents }
    → v.db ≡ record (w.db) {
      journal_entries = v.db.journal_entries;
      postings = v.db.postings;
      payment_intents = v.db.payment_intents;
    }
BooksOnly-intents w y v books others =
    others
    ∙ ap {A = Db} (λ d. record d { payment_intents = v.db.payment_intents }) books
    ∙ ap {A = Db}
        (λ d. record (w.db) {
          journal_entries = d.journal_entries;
          postings = d.postings;
          payment_intents = v.db.payment_intents;
        })
        (sym others)

insert_posting-BooksOnly :
    (id : Uuid) (l : Line) (w v : World) (u : Unit {0})
    → insert_posting id l w ≡ (ok u, v)
    → BooksOnly w v
unfolding insert_posting
insert_posting-BooksOnly id l w v u e =
    elim (Bool-cases (posting_admitted l (account_by_id l.account_id w.db.accounts))) [
      | inl takes ↦ subst (λ t. BooksOnly w t.1) (rw takes at e) refl
      | inr refuses ↦ let no = rw refuses at e in absurd (cc)
    ]

insert_postings-BooksOnly :
    (id : Uuid) (ls : List Line) (w v : World) (u : Unit {0})
    → insert_postings id ls w ≡ (ok u, v)
    → BooksOnly w v
unfolding insert_postings
insert_postings-BooksOnly id [] w v u e = subst (λ t. BooksOnly w t.1) e refl
insert_postings-BooksOnly id (l ∷ ls) w v u e =
    let (a, x, first, rest) =
      bind_ok (catch (insert_posting id l) wrap) (λ _. insert_postings id ls) u w v e in
    BooksOnly-trans w x v
      (insert_posting-BooksOnly id l w x a (catch_ok (insert_posting id l) wrap a w x first))
      (insert_postings-BooksOnly id ls x v u rest)

create_journal_entry-BooksOnly :
    (ref kind : Text) (desc : Option Text) (intent_id : Option Uuid) (w v : World)
    (j : JournalEntry)
    → create_journal_entry ref kind desc intent_id w ≡ (ok j, v)
    → BooksOnly w v
unfolding create_journal_entry
create_journal_entry-BooksOnly ref kind desc intent_id w v j e =
    elim (Bool-cases (is_some (entry_by_ref ref w.db.journal_entries))) [
      | inl clash ↦ let no = rw clash at e in absurd (cc)
      | inr new ↦ subst (λ t. BooksOnly w t.1) (rw new at e) refl
    ]

insert_entry-BooksOnly :
    (e : Entry) (w v : World) (j : JournalEntry) → insert_entry e w ≡ (ok j, v) → BooksOnly w v
unfolding insert_entry
insert_entry-BooksOnly e w v j p =
    let create = create_journal_entry e.external_ref e.kind (nullable e.description) e.intent_id in
    let (k, x, first, rest) =
      bind_ok (catch create created_error)
        (λ c. insert_postings c.id e.lines >>= λ _. (λ u. (ok c, u))) j w v p in
    let (a, y, second, last) =
      bind_ok (insert_postings k.id e.lines) (λ _. (λ u. (ok k, u))) j x v rest in
    BooksOnly-trans w x v
      (create_journal_entry-BooksOnly e.external_ref e.kind (nullable e.description) e.intent_id w x
        k (catch_ok create created_error k w x first))
      (subst (BooksOnly x) (ap (λ t. t.1) last)
        (insert_postings-BooksOnly k.id e.lines x y a second))

-- A post that succeeds writes to the ledger's tables alone.
pub post_tx-BooksOnly :
    (e : Entry) (w v : World) (j : JournalEntry) → post_tx e w ≡ (ok j, v) → BooksOnly w v
unfolding post_tx post_with
post_tx-BooksOnly e w v j p =
    go (validate e) (entry_by_ref e.external_ref w.db.journal_entries) refl refl
  where
    go :
        (c : Option Err) (o : Option JournalEntry)
        → validate e ≡ c
        → entry_by_ref e.external_ref w.db.journal_entries ≡ o
        → BooksOnly w v
    go (some x) o valid found = let no = rw valid at p in absurd (cc)
    go none (some k) valid found = subst (λ t. BooksOnly w t.1) (rw (valid, found) at p) refl
    go none none valid found = insert_entry-BooksOnly e w v j (rw (valid, found) at p)
