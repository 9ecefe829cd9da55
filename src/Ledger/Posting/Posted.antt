-- ===== src/Ledger/Posting/Posted.antt =====
-- The postings that an entry adds to the books.
use selatpay.Prelude.{
  ℕ, suc, ◌<◌, ◌≤◌, ◌≡◌, sym, ap, ◌∙◌, subst, inl, inr, Option, List, [], ◌∷◌, ◌++◌, All,
  Bool-cases, arith, is_some,
}
use mathlib.Core.List.{append_assoc, append-nil}
use selatpay.Prelude.Text.{Text}
use selatpay.Db.Tables.{Uuid, Posting, JournalEntry}
use selatpay.Db.Tx.{ok, World, catch, wrap, ◌>>=◌}
use selatpay.Db.Chain.{bind_ok, catch_ok}
use selatpay.Ledger.Validate.{Line, Entry}
use selatpay.Ledger.Posting.Atomic.{eq_of_ok}
use selatpay.Ledger.Posting.{
  entry_by_ref, account_by_id, posting_admitted, create_journal_entry, insert_posting,
  insert_postings, insert_entry, nullable, created_error,
}

-- The postings of an entry's lines, numbered from `n`.
unfoldable pub posted : Uuid → ℕ → List Line → List Posting
posted id n [] = []
posted id n (l ∷ ls) =
    record {
      id = n;
      journal_entry_id = id;
      account_id = l.account_id;
      amount = l.amount;
      currency = l.currency;
      direction = l.direction;
    }
    ∷ posted id (suc n) ls

insert_posting-posted :
    (id : Uuid) (l : Line) (w v : World) (u : Unit {0})
    → insert_posting id l w ≡ (ok u, v)
    → (v.db.postings ≡ w.db.postings ++ posted id w.next_id (l ∷ [])) × (v.next_id ≡ suc w.next_id)
unfolding insert_posting posted
insert_posting-posted id l w v u e =
    elim (Bool-cases (posting_admitted l (account_by_id l.account_id w.db.accounts))) [
      | inl takes ↦
          let done = rw takes at e in
          (sym (ap (λ t. t.1.db.postings) done), sym (ap (λ t. t.1.next_id) done))
      | inr refuses ↦ let no = rw refuses at e in absurd (cc)
    ]

insert_postings-posted :
    (id : Uuid) (ls : List Line) (w v : World) (u : Unit {0})
    → insert_postings id ls w ≡ (ok u, v)
    → (v.db.postings ≡ w.db.postings ++ posted id w.next_id ls) × (w.next_id ≤ v.next_id)
unfolding insert_postings posted
insert_postings-posted id [] w v u e =
    let same : w ≡ v = ap (λ t. t.1) e in
    (
      ap (λ x. x.db.postings) (sym same) ∙ sym (append-nil w.db.postings),
      subst (λ x. w.next_id ≤ x.next_id) same (omega arith),
    )
insert_postings-posted id (l ∷ ls) w v u e =
    let (a, x, first, rest) =
      bind_ok (catch (insert_posting id l) wrap) (λ _. insert_postings id ls) u w v e in
    let (one, next) =
      insert_posting-posted id l w x a (catch_ok (insert_posting id l) wrap a w x first) in
    let (more, later) = insert_postings-posted id ls x v u rest in
    (
      more
          ∙ ap (λ ps. ps ++ posted id x.next_id ls) one
          ∙ append_assoc w.db.postings (posted id w.next_id (l ∷ [])) (posted id x.next_id ls)
          ∙ ap (λ n. w.db.postings ++ (posted id w.next_id (l ∷ []) ++ posted id n ls)) next,
      omega arith,
    )

pub posted-Below :
    (id n m : ℕ) (ls : List Line) → id < m → All (λ p. p.journal_entry_id < m) (posted id n ls)
unfolding posted
posted-Below id n m [] h = tt
posted-Below id n m (l ∷ ls) h = (h, posted-Below id (suc n) m ls h)

create_journal_entry-made :
    (ref kind : Text) (desc : Option Text) (intent_id : Option Uuid) (w v : World)
    (j : JournalEntry)
    → create_journal_entry ref kind desc intent_id w ≡ (ok j, v)
    → (j.id ≡ w.next_id) × (v.next_id ≡ suc w.next_id) × (v.db.postings ≡ w.db.postings)
unfolding create_journal_entry
create_journal_entry-made ref kind desc intent_id w v j e =
    elim (Bool-cases (is_some (entry_by_ref ref w.db.journal_entries))) [
      | inl clash ↦ let no = rw clash at e in absurd (cc)
      | inr new ↦
          let done = rw new at e in
          (
            sym (ap (λ x. x.id) (eq_of_ok (ap (λ t. t.0) done))),
            sym (ap (λ t. t.1.next_id) done),
            sym (ap (λ t. t.1.db.postings) done),
          )
    ]

-- The postings of a new entry come behind the others.
pub insert_entry-posted :
    (e : Entry) (w v : World) (j : JournalEntry)
    → insert_entry e w ≡ (ok j, v)
    → (v.db.postings ≡ w.db.postings ++ posted w.next_id (suc w.next_id) e.lines)
      × (w.next_id < v.next_id)
unfolding insert_entry
insert_entry-posted e w v j p =
    let create = create_journal_entry e.external_ref e.kind (nullable e.description) e.intent_id in
    let (k, x, first, rest) =
      bind_ok (catch create created_error)
        (λ c. insert_postings c.id e.lines >>= λ _. (λ u. (ok c, u))) j w v p in
    let (a, y, second, last) =
      bind_ok (insert_postings k.id e.lines) (λ _. (λ u. (ok k, u))) j x v rest in
    let (named, next, same) =
      create_journal_entry-made e.external_ref e.kind (nullable e.description) e.intent_id w x k
        (catch_ok create created_error k w x first) in
    let (more, later) = insert_postings-posted k.id e.lines x y a second in
    let end : y ≡ v = ap (λ t. t.1) last in
    let grown : x.next_id ≤ v.next_id = subst (λ u. x.next_id ≤ u.next_id) end later in
    (
      ap (λ u. u.db.postings) (sym end)
          ∙ more
          ∙ ap (λ ps. ps ++ posted k.id x.next_id e.lines) same
          ∙ ap (λ i. w.db.postings ++ posted i x.next_id e.lines) named
          ∙ ap (λ n. w.db.postings ++ posted w.next_id n e.lines) next,
      omega arith,
    )
