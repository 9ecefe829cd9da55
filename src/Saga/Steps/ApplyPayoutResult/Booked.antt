-- ===== src/Saga/Steps/ApplyPayoutResult/Booked.antt =====
-- A posting of the step that is done again.
use selatpay.Prelude.{◌≡◌, ap, ◌∙◌, subst, some, find?, ◌&&◌}
use selatpay.Prelude.Text.{Text, text_eq}
use selatpay.Db.Tables.{Account, JournalEntry}
use selatpay.Db.Tx.{ok, World, Tx, pure, catch, wrap, ◌>>=◌}
use selatpay.Db.Chain.{bind_ok, bind_from, catch_ok, catch_from}
use selatpay.Ledger.Validate.{Entry}
use selatpay.Ledger.Posting.{post_tx, get_account_by_code_tx, entry_by_ref}
use selatpay.Ledger.Posting.Idempotent.{post_tx-found, post_tx-recorded, post_tx-keeps}
use selatpay.Ledger.Posting.Frame.{BooksOnly, post_tx-BooksOnly}
use selatpay.Saga.Steps.CreditDeposit.{terminal_wrap}
use selatpay.Saga.Steps.CreditDeposit.Marked.{find_account, get_account_ok, get_account_from}

-- The accounts are the same, and every reference that was recorded is so still.
pub record Later (w v : World) : Type 0 where
  pub accounts_kept : v.db.accounts ≡ w.db.accounts
  pub recorded_kept :
      (ref : Text) (k : JournalEntry)
      → entry_by_ref ref w.db.journal_entries ≡ some k
      → entry_by_ref ref v.db.journal_entries ≡ some k

pub Later-trans : (u v w : World) → Later u v → Later v w → Later u w
Later-trans u v w h k = record {
  accounts_kept = k.accounts_kept ∙ h.accounts_kept;
  recorded_kept = λ ref j there. k.recorded_kept ref j (h.recorded_kept ref j there);
}

-- What a step did to the books alone, and what it does when it is run again.
pub record Booked {A : Type 0} (m : Tx A) (a : A) (w v : World) : Type 0 where
  pub books : BooksOnly w v
  pub later : Later w v
  pub again : (x : World) → Later v x → m x ≡ (ok a, x)

pub post-Booked :
    (e : Entry) (j : JournalEntry) (w v : World)
    → catch (post_tx e) wrap w ≡ (ok j, v)
    → Booked (catch (post_tx e) wrap) j w v
post-Booked e j w v p =
    let q = catch_ok (post_tx e) wrap j w v p in
    let (valid, recorded) = post_tx-found e w v j q in
    let books = post_tx-BooksOnly e w v j q in
    record {
      books = books;
      later = record {
        accounts_kept = ap (λ d. d.accounts) books;
        recorded_kept = λ ref k there. post_tx-keeps e w v j ref k q there;
      };
      again = λ x h.
          catch_from (post_tx e) wrap j x x
            (post_tx-recorded e x j valid (h.recorded_kept e.external_ref j recorded));
    }

find_account-Later :
    (code currency : Text) (a : Account) (w v : World)
    → Later w v
    → find_account code currency w.db ≡ some a
    → find_account code currency v.db ≡ some a
find_account-Later code currency a w v h found =
    ap (find? (λ b. text_eq b.code code && text_eq b.currency currency)) h.accounts_kept ∙ found

-- A lookup of an account in front of a step that is booked.
pub account-Booked :
    {A : Type 0} (code currency : Text) (f : Account → Tx A) (a : A) (w v : World)
    → (catch (get_account_by_code_tx code currency) terminal_wrap >>= f) w ≡ (ok a, v)
    → ((c : Account) → f c w ≡ (ok a, v) → Booked (f c) a w v)
    → Booked (catch (get_account_by_code_tx code currency) terminal_wrap >>= f) a w v
account-Booked code currency f a w v e rest =
    let get = get_account_by_code_tx code currency in
    let (c, x, first, second) = bind_ok (catch get terminal_wrap) f a w v e in
    let (found, same) =
      get_account_ok code currency c w x (catch_ok get terminal_wrap c w x first) in
    let b = rest c (subst (λ y. f c y ≡ (ok a, v)) same second) in
    record {
      books = b.books;
      later = b.later;
      again = λ y h.
          bind_from (catch get terminal_wrap) f c y y (
            catch_from get terminal_wrap c y y (
              get_account_from code currency c y
                (find_account-Later code currency c w y (Later-trans w v y b.later h) found)))
          ∙ b.again y h;
    }

-- A post that ends a step.
pub posted-Booked :
    (e : Entry) (u : Unit {0}) (w v : World)
    → (catch (post_tx e) wrap >>= λ _. pure tt) w ≡ (ok u, v)
    → Booked (catch (post_tx e) wrap >>= λ _. pure tt) u w v
posted-Booked e u w v p =
    let (j, x, first, second) = bind_ok (catch (post_tx e) wrap) (λ _. pure tt) u w v p in
    let same : x ≡ v = ap (λ t. t.1) second in
    let b = post-Booked e j w v (first ∙ ap (λ y. (ok j, y)) same) in
    record {
      books = b.books;
      later = b.later;
      again = λ y h. bind_from (catch (post_tx e) wrap) (λ _. pure tt) j y y (b.again y h);
    }
