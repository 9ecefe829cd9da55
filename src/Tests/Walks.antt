-- ===== src/Tests/Walks.antt =====
-- A walk before and after a deposit was credited.
use selatpay.Prelude.{◌≡◌, ◌↔◌, refl, false, some, Option, arith, find?}
use selatpay.Prelude.Text.{Text, codes, text_eq}
use selatpay.Prelude.Int.{pos, ◌+ℤ◌, ◌-ℤ◌, wrap64}
use selatpay.Prelude.Decimal.{format_int, format_uint, parse_uint}
use selatpay.Chain.Parser.{PublicKey}
use selatpay.Db.Tx.{Result, ok}
use selatpay.Ledger.Posting.{account_balance, entry_by_ref}
use selatpay.Saga.Steps.Names.{step_trigger_payout}
use selatpay.Saga.Steps.Queries.{find_intent, finalized_deposit}
use selatpay.Saga.Steps.CreditDeposit.Replay.{Read}
use selatpay.Webhook.Hex.{parse_int}
use selatpay.Recon.{Report, Walker, walk}
use selatpay.Recon.Agrees.{walk-agrees}
use selatpay.Recon.Credited.{walk-credit_deposit}
use selatpay.Tests.Books.{wallet, funds}
use selatpay.Tests.Payouts.{key}
use selatpay.Tests.Credits.{open_intent, deposit, world, credited, credits}

abbrev walker : Walker
walker = record { hot_wallet_ata = 6; mint = 2 }

-- What the node says before the deposit, and behind it.
abbrev before : PublicKey → Result (Option Text)
before ata = ok (some (codes "0"))

abbrev after : PublicKey → Result (Option Text)
after ata = ok (some (codes "6196938"))

abbrev report : Report
report = record {
  hot_wallet_ata = 6;
  mint = 2;
  on_chain_amount = pos 0;
  ledger_amount = pos 0;
  difference = pos 0;
  status = codes "ok";
}

first_walk : walk walker before false world.db ≡ ok report
unfolding walk parse_int parse_uint account_balance text_eq find? wrap64 ◌-ℤ◌
first_walk = refl

walk-agrees_example : (report.status ≡ codes "ok") ↔ (report.on_chain_amount ≡ report.ledger_amount)
walk-agrees_example = walk-agrees walker before false world.db report first_walk

rows : Read key 7 world
unfolding find_intent finalized_deposit find? text_eq
rows = record {
  intent = open_intent;
  deposit = deposit;
  hot_wallet = wallet;
  user_funds = funds;
  intent_found = refl;
  deposit_found = refl;
  hot_wallet_found = refl;
  user_funds_found = refl;
}

walk-credit_deposit_example :
    walk walker after false credited.db
    ≡ ok (record report {
      on_chain_amount = report.on_chain_amount +ℤ rows.deposit.amount;
      ledger_amount = report.ledger_amount +ℤ rows.deposit.amount;
    })
unfolding rows entry_by_ref find? ◌+ℤ◌ format_int format_uint
walk-credit_deposit_example =
    walk-credit_deposit key 7 walker before after step_trigger_payout report world credited rows
      refl refl refl credits first_walk refl (omega arith) (omega arith)
