-- ===== src/Tests/Bookings.antt =====
-- A payout that is booked.
use selatpay.Prelude.{◌≡◌, refl, none, some, List, [], ◌∷◌, find?, update_where}
use selatpay.Prelude.Text.{codes, text_eq, is_blank}
use selatpay.Prelude.Int.{pos, ◌-ℤ◌, ◌*ℤ◌, quo, wrap64}
use selatpay.Prelude.Decimal.{format_int}
use selatpay.Db.Tables.{Account, AccountType, IntentState, Payout, PayoutState, Quote}
use selatpay.Db.Tx.{ok, World}
use selatpay.Ledger.Validate.{validate, check_line, check_lines, all_zero, set_sum, sum_of}
use selatpay.Ledger.Posting.{
  post_tx, entry_by_ref, insert_entry, insert_posting, posting_admitted, account_by_id,
  get_account_by_code_tx,
}
use selatpay.Saga.Steps.Names.{
  step_emit_completed, account_liability_user_funds, account_cash_out_idr,
  account_revenue_fx_spread_idr, account_expense_fx_swap_idr, account_equity_fx_settlement,
  currency_usdc, currency_idr,
}
use selatpay.Saga.Steps.Mid.{compute_mid_idr}
use selatpay.Saga.Steps.Queries.{find_intent, payout_by_intent, set_intent_state}
use selatpay.Saga.Steps.ApplyPayoutResult.{
  mark_paid_out, fx_swap_entry, post_fx_swap_usdc, disbursed_lines, disbursed_entry,
  post_payout_disbursed_idr, book_payout, apply_payout_result,
}
use selatpay.Saga.Steps.ApplyPayoutResult.Replay.{Applied, apply_payout_result-replayed}
use selatpay.Tests.Books.{books}
use selatpay.Tests.Payouts.{intent, key}

abbrev paid : Payout
paid = record {
  id = 50;
  intent_id = 7;
  rail = codes "mock_idr_bank";
  amount_idr = pos 100000;
  state = PayoutState.succeeded;
  rail_reference = some (codes "R1");
  last_error = none;
  attempts = 1;
}

abbrev quote : Quote
quote = record {
  id = 4;
  pair = codes "USDC/IDR";
  rate_num = pos 16300;
  rate_scale = pos 0;
  spread_bps = pos 100;
  expires_at = 0;
  signature = [];
}

abbrev chart : List Account
chart =
    record {
      id = 1;
      code = account_liability_user_funds;
      kind = AccountType.liability;
      currency = currency_usdc;
    }
    ∷ record {
      id = 2;
      code = account_equity_fx_settlement;
      kind = AccountType.equity;
      currency = currency_usdc;
    }
    ∷ record {
      id = 3;
      code = account_expense_fx_swap_idr;
      kind = AccountType.expense;
      currency = currency_idr;
    }
    ∷ record {
      id = 4;
      code = account_cash_out_idr;
      kind = AccountType.asset;
      currency = currency_idr;
    }
    ∷ record {
      id = 5;
      code = account_revenue_fx_spread_idr;
      kind = AccountType.revenue;
      currency = currency_idr;
    }
    ∷ []

abbrev world : World
world = record books {
  db = record (books.db) {
    accounts = chart;
    payment_intents = record intent { state = IntentState.settling } ∷ [];
    payouts = paid ∷ [];
    quotes = quote ∷ [];
  };
}

booked : World
unfolding apply_payout_result
booked = (apply_payout_result key 7 world).1

world-booked : apply_payout_result key 7 world ≡ (ok step_emit_completed, booked)
unfolding booked apply_payout_result book_payout post_fx_swap_usdc post_payout_disbursed_idr
    fx_swap_entry disbursed_entry disbursed_lines mark_paid_out compute_mid_idr wrap64 ◌-ℤ◌ ◌*ℤ◌ quo
    get_account_by_code_tx find_intent payout_by_intent find? text_eq post_tx entry_by_ref
    insert_entry insert_posting posting_admitted account_by_id validate check_lines is_blank
    check_line all_zero set_sum sum_of set_intent_state update_where format_int
world-booked = refl

apply_payout_result-replayed_example :
    Applied key 7 world booked
    × (apply_payout_result key 7 booked ≡ (ok step_emit_completed, booked))
apply_payout_result-replayed_example =
    apply_payout_result-replayed key 7 step_emit_completed world booked world-booked
