-- ===== src/Ledger/Posting/DoubleEntry.antt =====
-- Books whose entries balance, and the check of them at commit.
use selatpay.Prelude.{
  suc, ◌<◌, ◌≡◌, refl, sym, ap, ◌∙◌, subst, inl, inr, true, Option, none, some, List, [], ◌∷◌, ◌==◌,
  All, All-map, Bool-cases, if◌then◌else◌, arith, All-append, ==→eq,
}
use selatpay.Prelude.Text.{Text}
use selatpay.Prelude.Int.{pos, word, ◌+ℤ◌, ◌-ℤ◌}
use selatpay.Db.Tables.{Uuid, Posting, JournalEntry}
use selatpay.Db.Tx.{Err, Result, ok, err, World, wrap, check_violation}
use selatpay.Ledger.Validate.{Entry, validate}
use selatpay.Ledger.Validate.Balanced.{
  debits, credits, IsInt64, validate-IsBalanced, validate_exact,
}
use selatpay.Ledger.Posting.{
  entry_by_ref, insert_entry, post_with, post_tx, entry_net, entries_balanced, run_tx, settle,
}
use selatpay.Ledger.Posting.Posted.{posted, posted-Below, insert_entry-posted}
use selatpay.Ledger.Posting.Net.{
  line_net, entry_net-append, entry_net-posted, entry_net-posted_other, line_net-sides, level,
  zero_left,
}

-- Books in which every posting belongs to an entry that was made, and every entry balances in every
-- currency.
pub record Balanced (w : World) : Type 0 where
  pub numbered : All (λ p. p.journal_entry_id < w.next_id) w.db.postings
  pub levelled : (c : Text) (id : Uuid) → entry_net c id w.db.postings ≡ pos 0

-- What the deferred trigger says of such books.
entries_balanced-levelled :
    (all ps : List Posting)
    → ((c : Text) (id : Uuid) → entry_net c id all ≡ pos 0)
    → entries_balanced all ps ≡ true
unfolding entries_balanced
entries_balanced-levelled all [] h = refl
entries_balanced-levelled all (p ∷ ps) h =
    rw (h p.currency p.journal_entry_id, entries_balanced-levelled all ps h) refl

-- An entry of int64 amounts that are below 2^64 on each side of a currency.
pub record IsExact (e : Entry) : Type 0 where
  pub amounts : All (λ l. IsInt64 l.amount) e.lines
  pub debits_fit : (c : Text) → debits c e.lines < word
  pub credits_fit : (c : Text) → credits c e.lines < word

line_net-zero : (e : Entry) (c : Text) → IsExact e → validate e ≡ none → line_net c e.lines ≡ pos 0
line_net-zero e c x valid =
    line_net-sides c e.lines (validate-IsBalanced e x.amounts valid).postable
    ∙ ap (λ d. pos d -ℤ pos (credits c e.lines))
        (validate_exact e c x.amounts valid (x.debits_fit c) (x.credits_fit c))
    ∙ level (credits c e.lines)

insert_entry-Balanced :
    (e : Entry) (w v : World) (j : JournalEntry)
    → Balanced w
    → ((c : Text) → line_net c e.lines ≡ pos 0)
    → insert_entry e w ≡ (ok j, v)
    → Balanced v
insert_entry-Balanced e w v j b zero p =
    let (more, later) = insert_entry-posted e w v j p in
    let made = posted w.next_id (suc w.next_id) e.lines in
    let split : (c : Text) (id : Uuid)
        → entry_net c id v.db.postings ≡ entry_net c id w.db.postings +ℤ entry_net c id made =
      λ c id. ap (entry_net c id) more ∙ entry_net-append c id w.db.postings made in
    record {
      numbered = subst (All (λ p. p.journal_entry_id < v.next_id)) (sym more) (
          All-append (λ p. p.journal_entry_id < v.next_id) w.db.postings made
            (All-map (λ p. p.journal_entry_id < w.next_id) (λ p. p.journal_entry_id < v.next_id)
              w.db.postings (λ p h. omega arith) b.numbered)
            (posted-Below w.next_id (suc w.next_id) v.next_id e.lines later));
      levelled = λ c id. elim (Bool-cases (w.next_id == id)) [
        | inr apart ↦
            split c id
            ∙ ap (λ z. z +ℤ entry_net c id made) (b.levelled c id)
            ∙ zero_left (entry_net c id made)
            ∙ entry_net-posted_other c id w.next_id (suc w.next_id) e.lines apart
        | inl same ↦
            split c id
            ∙ ap (λ z. z +ℤ entry_net c id made) (b.levelled c id)
            ∙ zero_left (entry_net c id made)
            ∙ ap (λ i. entry_net c i made) (sym (==→eq w.next_id id same))
            ∙ entry_net-posted c w.next_id (suc w.next_id) e.lines
            ∙ zero c
      ];
    }

-- In books whose entries balance, a post of an entry of int64 amounts, each side of a currency below
-- 2^64, that succeeds leaves books whose entries balance, and its transaction commits: the deferred
-- trigger passes.
pub post_tx-Balanced :
    (e : Entry) (w v : World) (j : JournalEntry)
    → Balanced w
    → IsExact e
    → post_tx e w ≡ (ok j, v)
    → Balanced v × (run_tx (post_tx e) w ≡ (ok j, v))
unfolding post_tx post_with run_tx
post_tx-Balanced e w v j b x p =
    let kept = go (validate e) (entry_by_ref e.external_ref w.db.journal_entries) refl refl in
    let passes = entries_balanced-levelled v.db.postings v.db.postings kept.levelled in
    (kept, ap (settle w) p ∙ ap (λ t. if t then (ok j, v) else refused) passes)
  where
    refused : Result JournalEntry × World
    refused = (err (wrap check_violation), record v { db = w.db })

    go :
        (c : Option Err) (o : Option JournalEntry)
        → validate e ≡ c
        → entry_by_ref e.external_ref w.db.journal_entries ≡ o
        → Balanced v
    go (some y) o valid found = let no = rw valid at p in absurd (cc)
    go none (some k) valid found = subst (λ t. Balanced t.1) (rw (valid, found) at p) b
    go none none valid found =
        insert_entry-Balanced e w v j b (λ c. line_net-zero e c x valid) (rw (valid, found) at p)
