-- ===== src/Tests/Credits.antt =====
-- A deposit that is credited.
use selatpay.Prelude.{◌≡◌, refl, none, some, [], ◌∷◌, ◌++◌, find?, update_where}
use selatpay.Prelude.Text.{codes, text_eq, is_blank}
use selatpay.Prelude.Int.{pos}
use selatpay.Db.Tables.{PaymentIntent, IntentState, OnchainPayment, Commitment, debit, credit}
use selatpay.Db.Tx.{ok, World}
use selatpay.Ledger.Validate.{validate, check_line, check_lines, all_zero, set_sum, sum_of}
use selatpay.Ledger.Posting.{
  post_tx, entry_by_ref, insert_entry, insert_posting, posting_admitted, account_by_id,
  get_account_by_code_tx,
}
use selatpay.Saga.Steps.Names.{step_trigger_payout}
use selatpay.Saga.Steps.Queries.{find_intent, finalized_deposit, set_intent_state}
use selatpay.Saga.Steps.CreditDeposit.{credit_deposit, deposit_entry, mark_funded}
use selatpay.Saga.Steps.CreditDeposit.Replay.{Credited, credit_deposit-replayed}
use selatpay.Tests.Books.{books}
use selatpay.Tests.Payouts.{intent, key}

abbrev pub open_intent : PaymentIntent
open_intent = record intent { state = IntentState.pending }

abbrev pub deposit : OnchainPayment
deposit = record {
  signature = codes "sig";
  slot = pos 9;
  block_time = none;
  from_ata = codes "f";
  to_ata = codes "t";
  mint = codes "m";
  amount = pos 6196938;
  reference_pubkey = none;
  commitment = Commitment.finalized;
  intent_id = some 7;
}

abbrev pub world : World
world = record books {
  db = record (books.db) { payment_intents = open_intent ∷ []; onchain_payments = deposit ∷ [] };
}

abbrev pub credited : World
credited = record world {
  db = record (world.db) {
    journal_entries =
        record {
          id = 100;
          external_ref = codes "credit_deposit:" ++ 7 ∷ [];
          kind = codes "deposit_credit";
          description = some (codes "USDC deposit finalized for intent " ++ 7 ∷ codes " (sig sig)");
          intent_id = some 7;
        }
        ∷ [];
    postings =
        record {
          id = 101;
          journal_entry_id = 100;
          account_id = 1;
          amount = pos 6196938;
          currency = codes "USDC";
          direction = debit;
        }
        ∷ record {
          id = 102;
          journal_entry_id = 100;
          account_id = 2;
          amount = pos 6196938;
          currency = codes "USDC";
          direction = credit;
        }
        ∷ [];
    payment_intents = record open_intent { state = IntentState.funded } ∷ [];
  };
  next_id = 103;
}

pub credits : credit_deposit key 7 world ≡ (ok step_trigger_payout, credited)
unfolding credit_deposit mark_funded deposit_entry get_account_by_code_tx find_intent
    finalized_deposit find? text_eq post_tx entry_by_ref insert_entry insert_posting
    posting_admitted account_by_id validate check_lines is_blank check_line all_zero set_sum sum_of
    set_intent_state update_where
credits = refl

credit_deposit-replayed_example :
    Credited key 7 world credited
    × (credit_deposit key 7 credited ≡ (ok step_trigger_payout, credited))
credit_deposit-replayed_example =
    credit_deposit-replayed key 7 step_trigger_payout world credited credits
