-- ===== src/Tests/Books.antt =====
-- A ledger with two accounts, and the theorems about posting to it.
use selatpay.Prelude.{◌↔◌, ◌≡◌, refl, none, some, [], ◌∷◌, arith, find?}
use selatpay.Prelude.Text.{codes, is_blank, text_eq}
use selatpay.Prelude.Int.{pos}
use selatpay.Db.Tables.{Account, AccountType, debit, credit, JournalEntry}
use selatpay.Db.Tx.{World, ok}
use selatpay.Ledger.Validate.{Entry, validate, check_line, check_lines, all_zero, set_sum, sum_of}
use selatpay.Ledger.Validate.Balanced.{IsBalanced}
use selatpay.Ledger.Validate.Complete.{validate_iff}
use selatpay.Ledger.Posting.{
  post_tx, entry_by_ref, insert_entry, insert_posting, posting_admitted, account_by_id,
}
use selatpay.Ledger.Posting.{run_tx, entry_net}
use selatpay.Ledger.Posting.DoubleEntry.{Balanced, IsExact, post_tx-Balanced}
use selatpay.Ledger.Validate.Balanced.{debits, credits}
use selatpay.Ledger.Posting.Idempotent.{post_tx-idempotent}
use selatpay.Saga.Steps.Queries.{new_payout}
use selatpay.Saga.Steps.ApplyPayoutResult.{disbursed_entry}
use selatpay.Saga.Steps.ApplyPayoutResult.Entries.{disbursed_entry-accepted}

abbrev pub wallet : Account
wallet = record {
  id = 1;
  code = codes "asset_hot_wallet_usdc";
  kind = AccountType.asset;
  currency = codes "USDC";
}

abbrev pub funds : Account
funds = record {
  id = 2;
  code = codes "liability_user_funds_usdc";
  kind = AccountType.liability;
  currency = codes "USDC";
}

abbrev pub books : World
books = record {
  db = record {
    accounts = wallet ∷ funds ∷ [];
    journal_entries = [];
    postings = [];
    payment_intents = [];
    payouts = [];
    quotes = [];
    merchants = [];
    onchain_payments = [];
    saga_runs = [];
    outbox = [];
  };
  next_id = 100;
  now = 1000;
  submitted = [];
}

abbrev deposit : Entry
deposit = record {
  external_ref = codes "chain:sig";
  kind = codes "deposit";
  description = [];
  intent_id = some 7;
  lines =
      record { account_id = 1; amount = pos 5; currency = codes "USDC"; direction = debit }
      ∷ record { account_id = 2; amount = pos 5; currency = codes "USDC"; direction = credit }
      ∷ [];
}

deposit-accepted : validate deposit ≡ none
unfolding validate check_lines is_blank check_line all_zero set_sum text_eq sum_of
deposit-accepted = refl

validate_iff_example : (validate deposit ≡ none) ↔ IsBalanced deposit
validate_iff_example = validate_iff deposit (omega arith, (omega arith, tt))

abbrev recorded : JournalEntry
recorded = record {
  id = 100;
  external_ref = codes "chain:sig";
  kind = codes "deposit";
  description = none;
  intent_id = some 7;
}

posted : World
unfolding post_tx
posted = (post_tx deposit books).1

deposit-posted : post_tx deposit books ≡ (ok recorded, posted)
unfolding post_tx posted validate is_blank check_lines check_line all_zero set_sum text_eq sum_of
    entry_by_ref find? insert_entry insert_posting posting_admitted account_by_id
deposit-posted = refl

post_tx-idempotent_example : post_tx deposit posted ≡ (ok recorded, posted)
post_tx-idempotent_example =
    post_tx-idempotent deposit deposit books posted recorded deposit-posted refl deposit-accepted

disbursed_entry-accepted_example :
    validate (
      disbursed_entry
        (λ id. id ∷ [])
        7
        (pos 101010)
        (pos 100000)
        (pos 1010)
        (new_payout 7 (codes "mock_idr_bank") (pos 100000) 9)
        wallet
        funds
        wallet)
    ≡ none
disbursed_entry-accepted_example =
    disbursed_entry-accepted (λ id. id ∷ []) 7 (new_payout 7 (codes "mock_idr_bank") (pos 100000) 9)
      wallet funds wallet 101010 100000 1010 (omega arith) (omega arith) (omega arith)

deposit-IsExact : IsExact deposit
unfolding debits credits
deposit-IsExact = record {
  amounts = (omega arith, (omega arith, tt));
  debits_fit = λ c. ground arith;
  credits_fit = λ c. ground arith;
}

books-Balanced : Balanced books
unfolding entry_net
books-Balanced = record { numbered = tt; levelled = λ c id. refl }

post_tx-Balanced_example :
    Balanced posted × (run_tx (post_tx deposit) books ≡ (ok recorded, posted))
post_tx-Balanced_example =
    post_tx-Balanced deposit books posted recorded books-Balanced deposit-IsExact deposit-posted
