-- ===== src/Saga/Steps/Names.antt =====
-- The step names of internal/saga/steps/steps.go, and the accounts and currencies of
-- internal/ledger/chart.go.
use selatpay.Prelude.Text.{Text, codes}

abbrev pub step_credit_deposit : Text
step_credit_deposit = codes "credit_deposit"

abbrev pub step_trigger_payout : Text
step_trigger_payout = codes "trigger_payout"

abbrev pub step_apply_payout_result : Text
step_apply_payout_result = codes "apply_payout_result"

abbrev pub step_emit_completed : Text
step_emit_completed = codes "emit_completed"

abbrev pub first_step : Text
first_step = step_credit_deposit

abbrev pub account_hot_wallet_usdc : Text
account_hot_wallet_usdc = codes "asset_hot_wallet_usdc"

abbrev pub account_liability_user_funds : Text
account_liability_user_funds = codes "liability_user_funds_usdc"

abbrev pub account_cash_out_idr : Text
account_cash_out_idr = codes "asset_cash_out_idr"

abbrev pub account_revenue_fx_spread_idr : Text
account_revenue_fx_spread_idr = codes "revenue_fx_spread_idr"

abbrev pub account_expense_fx_swap_idr : Text
account_expense_fx_swap_idr = codes "expense_fx_swap_idr"

abbrev pub account_equity_fx_settlement : Text
account_equity_fx_settlement = codes "equity_fx_settlement_usdc"

abbrev pub currency_usdc : Text
currency_usdc = codes "USDC"

abbrev pub currency_idr : Text
currency_idr = codes "IDR"
