-- ===== src/Ledger/Posting.antt =====
-- internal/ledger/ledger.go over the tables of migration 0001: the lookup-then-insert of `postWith`,
-- the posting trigger, the balance check at commit, and the balances.
pub mod Atomic
pub mod Idempotent
pub mod Frame
pub mod Posted
pub mod Net
pub mod DoubleEntry
use selatpay.Prelude.{
  ℕ, Bool, true, false, ◌&&◌, Option, none, some, List, [], ◌∷◌, ◌++◌, ◌==◌, if◌then◌else◌, find?,
  is_some, select,
}
use selatpay.Prelude.Text.{Text, codes, text_eq, is_empty}
use selatpay.Prelude.Int.{ℤ, pos, leb_ℤ, fits_int64, ◌+ℤ◌, ◌-ℤ◌, is_zero}
use selatpay.Db.Tables.{
  Uuid, Account, AccountType, asset, liability, equity, revenue, expense, Direction, debit, credit,
  other, JournalEntry, Posting,
}
use selatpay.Db.Tx.{
  Err, Result, ok, err, Db, World, Tx, pure, fail, or_fail, gets, catch, modify, fresh_id, guard,
  ◌>>=◌, ◌>>◌, no_rows, unique_violation, check_violation, account_not_found,
  duplicate_external_ref, unbalanced, wrap, message,
}
use selatpay.Ledger.Validate.{Line, Entry, validate}

-- GetJournalEntryByExternalRef.
unfoldable pub entry_by_ref : Text → List JournalEntry → Option JournalEntry
entry_by_ref ref = find? (λ j. text_eq j.external_ref ref)

-- CreateJournalEntry, under the unique constraint on external_ref.
unfoldable pub create_journal_entry : Text → Text → Option Text → Option Uuid → Tx JournalEntry
create_journal_entry ref kind desc intent_id = do
  clash ← gets (λ db. is_some (entry_by_ref ref db.journal_entries))
  guard (if clash then false else true) unique_violation
  id ← fresh_id
  let j : JournalEntry = record {
    id = id;
    external_ref = ref;
    kind = kind;
    description = desc;
    intent_id = intent_id;
  }
  modify (λ db. record db { journal_entries = db.journal_entries ++ j ∷ [] })
  pure j

unfoldable pub account_by_id : Uuid → List Account → Option Account
account_by_id id = find? (λ a. a.id == id)

-- The values of the enum `posting_direction`.
abbrev pub is_direction : Direction → Bool
is_direction debit = true
is_direction credit = true
is_direction (other _) = false

-- What the trigger `ledger_check_posting_currency` and the column checks admit.
unfoldable pub posting_admitted : Line → Option Account → Bool
posting_admitted l none = false
posting_admitted l (some a) =
    text_eq l.currency a.currency
    && ((if leb_ℤ l.amount (pos 0) then false else true) && is_direction l.direction)

-- InsertPosting.
unfoldable pub insert_posting : Uuid → Line → Tx (Unit {0})
insert_posting entry_id l = do
  acct ← gets (λ db. account_by_id l.account_id db.accounts)
  guard (posting_admitted l acct) check_violation
  id ← fresh_id
  let p : Posting = record {
    id = id;
    journal_entry_id = entry_id;
    account_id = l.account_id;
    amount = l.amount;
    currency = l.currency;
    direction = l.direction;
  }
  modify (λ db. record db { postings = db.postings ++ p ∷ [] })

unfoldable pub insert_postings : Uuid → List Line → Tx (Unit {0})
insert_postings entry_id [] = pure tt
insert_postings entry_id (l ∷ ls) = do
  catch (insert_posting entry_id l) wrap
  insert_postings entry_id ls

-- 23505 becomes ErrDuplicateExternalRef.
abbrev created_error : Err → Err
created_error unique_violation = duplicate_external_ref
created_error e = wrap e

unfoldable pub nullable : Text → Option Text
nullable [] = none
nullable (c ∷ s) = some (c ∷ s)

unfoldable pub insert_entry : Entry → Tx JournalEntry
unfolding create_journal_entry insert_postings nullable
insert_entry e = do
  created ←
      catch (create_journal_entry e.external_ref e.kind (nullable e.description) e.intent_id)
        created_error
  insert_postings created.id e.lines
  pure created

abbrev post_found : Entry → Option JournalEntry → Tx JournalEntry
post_found e (some existing) w = (ok existing, w)
post_found e none w = insert_entry e w

-- `postWith`: an entry that exists is returned as it is.
unfoldable pub post_with : Entry → Tx JournalEntry
post_with e w = post_found e (entry_by_ref e.external_ref w.db.journal_entries) w

abbrev post_checked : Option Err → Tx JournalEntry → Tx JournalEntry
post_checked (some x) m = fail x
post_checked none m = m

-- `PostTx`.
unfoldable pub post_tx : Entry → Tx JournalEntry
unfolding post_with
post_tx e = post_checked (validate e) (post_with e)

-- `GetAccountByCodeTx`.
unfoldable pub get_account_by_code_tx : Text → Text → Tx Account
get_account_by_code_tx code currency = do
  found ← gets (λ db. find? (λ a. text_eq a.code code && text_eq a.currency currency) db.accounts)
  or_fail found account_not_found

-- An amount on the debit side counts up, on the credit side down.
abbrev pub signed : Direction → ℤ → ℤ
signed debit a = a
signed credit a = pos 0 -ℤ a
signed (other _) a = pos 0 -ℤ a

-- SUM over the postings of one entry in one currency, debits less credits: a numeric, so exact.
unfoldable pub entry_net : Text → Uuid → List Posting → ℤ
entry_net c id [] = pos 0
entry_net c id (p ∷ ps) =
    if text_eq p.currency c && p.journal_entry_id == id
    then signed p.direction p.amount +ℤ entry_net c id ps
    else entry_net c id ps

-- The deferred trigger `ledger_check_entry_balanced`, for every posting at commit.
unfoldable pub entries_balanced : List Posting → List Posting → Bool
entries_balanced all [] = true
entries_balanced all (p ∷ ps) =
    is_zero (entry_net p.currency p.journal_entry_id all) && entries_balanced all ps

-- A transaction: it commits if its body returns no error and the deferred trigger passes; otherwise
-- the tables are what they were.
abbrev pub settle : {A : Type 0} → World → Result A × World → Result A × World
settle w (err e, w') = (err e, record w' { db = w.db })
settle w (ok a, w') =
    if entries_balanced w'.db.postings w'.db.postings
    then (ok a, w')
    else (err (wrap check_violation), record w' { db = w.db })

unfoldable pub run_tx : {A : Type 0} → Tx A → Tx A
run_tx m w = settle w (m w)

-- `Post`: one transaction of its own.
unfoldable pub post : Entry → Tx JournalEntry
unfolding run_tx post_with
post e = post_checked (validate e) (run_tx (post_with e))

-- The sum of `AccountBalance`: debit-normal for assets and expenses, credit-normal otherwise.
unfoldable pub natural : AccountType → Direction → ℤ → ℤ
natural asset d amount = signed d amount
natural expense d amount = signed d amount
natural liability d amount = pos 0 -ℤ signed d amount
natural equity d amount = pos 0 -ℤ signed d amount
natural revenue d amount = pos 0 -ℤ signed d amount

unfoldable pub account_balance : Account → List Posting → ℤ
account_balance a [] = pos 0
account_balance a (p ∷ ps) =
    let rest = account_balance a ps in
    if p.account_id == a.id then natural a.kind p.direction p.amount +ℤ rest else rest

-- `BalanceOf`. The sum is cast to a BIGINT.
unfoldable pub balance_of : Uuid → Tx ℤ
balance_of id = do
  a ← or_fail (← gets (λ db. account_by_id id db.accounts)) account_not_found
  sum ← gets (λ db. account_balance a db.postings)
  guard (fits_int64 sum) (wrap (message (codes "bigint out of range")))
  pure sum

-- `ListPostings`.
unfoldable pub list_postings : Uuid → Tx (List Posting)
list_postings entry_id = gets (λ db. select (λ p. p.journal_entry_id == entry_id) db.postings)
