-- ===== src/Saga/Steps/ApplyPayoutResult.antt =====
-- internal/saga/steps/apply_payout_result.go.
pub mod Entries
pub mod Booked
pub mod Marked
pub mod Replay
use selatpay.Prelude.{Bool, true, false, List, [], ◌∷◌, ◌++◌, some, if◌then◌else◌}
use selatpay.Prelude.Text.{Text, codes}
use selatpay.Prelude.Int.{ℤ, pos, ltb_ℤ, ◌-ℤ◌, wrap64}
use selatpay.Prelude.Decimal.{format_int}
use selatpay.Db.Tables.{
  Uuid, Account, PaymentIntent, IntentState, Payout, PayoutState, Quote, debit, credit,
}
use selatpay.Db.Tx.{Tx, pure, fail, catch, ◌>>=◌, ◌>>◌, wrap, terminal, message}
use selatpay.Ledger.Validate.{Line, Entry}
use selatpay.Ledger.Posting.{post_tx, get_account_by_code_tx}
use selatpay.Saga.Steps.Mid.{compute_mid_idr}
use selatpay.Saga.Steps.Names.{
  step_emit_completed, account_liability_user_funds, account_cash_out_idr,
  account_revenue_fx_spread_idr, account_expense_fx_swap_idr, account_equity_fx_settlement,
  currency_usdc, currency_idr,
}
use selatpay.Saga.Steps.Queries.{
  terminal_if_missing, get_intent, update_intent_state, get_quote, get_payout_by_intent,
}
use selatpay.Saga.Steps.CreditDeposit.{terminal_wrap}

unfoldable pub mark_paid_out : Uuid → PaymentIntent → Tx Text
mark_paid_out intent_id intent = elim intent.state [
  | IntentState.settling ↦ do
    catch (update_intent_state intent_id IntentState.paid_out) wrap
    pure step_emit_completed
  | _ ↦ pure step_emit_completed
]

abbrev pub line : Account → ℤ → Text → Bool → Line
line a amount currency is_debit = record {
  account_id = a.id;
  amount = amount;
  currency = currency;
  direction = if is_debit then debit else credit;
}

module _ (uuid_string : Uuid → Text) where
  unfoldable pub fx_swap_entry : Uuid → ℤ → Payout → Account → Account → Entry
  fx_swap_entry intent_id amount_usdc po user_funds settlement = record {
    external_ref = codes "fx_swap_usdc:" ++ uuid_string intent_id;
    kind = codes "fx_swap_usdc";
    description =
        codes "USDC obligation released for intent "
        ++ (uuid_string intent_id ++ (codes " (payout " ++ (uuid_string po.id ++ codes ")")));
    intent_id = some intent_id;
    lines =
        line user_funds amount_usdc currency_usdc true
        ∷ line settlement amount_usdc currency_usdc false
        ∷ [];
  }

  -- `postFXSwapUSDC`.
  unfoldable pub post_fx_swap_usdc : Uuid → ℤ → Payout → Tx (Unit {0})
  unfolding fx_swap_entry
  post_fx_swap_usdc intent_id amount_usdc po = do
    settlement ←
        catch (get_account_by_code_tx account_equity_fx_settlement currency_usdc) terminal_wrap
    user_funds ←
        catch (get_account_by_code_tx account_liability_user_funds currency_usdc) terminal_wrap
    catch (post_tx (fx_swap_entry intent_id amount_usdc po user_funds settlement)) wrap
    pure tt

  -- The spread line is left out when the spread is zero.
  unfoldable pub disbursed_lines : ℤ → ℤ → ℤ → Account → Account → Account → List Line
  disbursed_lines mid_idr paid_idr spread_idr expense cash_out revenue =
      line expense mid_idr currency_idr true
      ∷ line cash_out paid_idr currency_idr false
      ∷ (if ltb_ℤ (pos 0) spread_idr then line revenue spread_idr currency_idr false ∷ [] else [])

  unfoldable pub disbursed_entry : Uuid → ℤ → ℤ → ℤ → Payout → Account → Account → Account → Entry
  unfolding disbursed_lines
  disbursed_entry intent_id mid_idr paid_idr spread_idr po expense cash_out revenue = record {
    external_ref = codes "payout_disbursed:" ++ uuid_string intent_id;
    kind = codes "payout_disbursed";
    description =
        codes "IDR payout "
        ++ (uuid_string po.id
            ++ (codes " for intent "
                ++ (uuid_string intent_id
                    ++ (codes " (mid="
                        ++ (format_int mid_idr
                            ++ (codes " paid="
                                ++ (format_int paid_idr
                                    ++ (codes " spread="
                                        ++ (format_int spread_idr ++ codes ")")))))))));
    intent_id = some intent_id;
    lines = disbursed_lines mid_idr paid_idr spread_idr expense cash_out revenue;
  }

  -- `postPayoutDisbursedIDR`.
  unfoldable pub post_payout_disbursed_idr : Uuid → ℤ → ℤ → ℤ → Payout → Tx (Unit {0})
  unfolding disbursed_entry
  post_payout_disbursed_idr intent_id mid_idr paid_idr spread_idr po = do
    expense ← catch (get_account_by_code_tx account_expense_fx_swap_idr currency_idr) terminal_wrap
    cash_out ← catch (get_account_by_code_tx account_cash_out_idr currency_idr) terminal_wrap
    revenue ←
        catch (get_account_by_code_tx account_revenue_fx_spread_idr currency_idr) terminal_wrap
    catch
        (post_tx
          (disbursed_entry intent_id mid_idr paid_idr spread_idr po expense cash_out revenue))
        wrap
    pure tt

  -- The postings, once the spread is known; a negative spread is terminal. int64 subtraction wraps.
  unfoldable pub book_payout : Uuid → PaymentIntent → Payout → Quote → Tx Text
  unfolding post_fx_swap_usdc post_payout_disbursed_idr mark_paid_out
  book_payout intent_id intent po quote =
      let mid_idr = compute_mid_idr intent.quoted_amount_usdc quote.rate_num quote.rate_scale in
      let spread_idr = wrap64 (mid_idr -ℤ po.amount_idr) in
      if ltb_ℤ spread_idr (pos 0) then fail (terminal (message [])) else do
        post_fx_swap_usdc intent_id intent.quoted_amount_usdc po
        post_payout_disbursed_idr intent_id mid_idr po.amount_idr spread_idr po
        mark_paid_out intent_id intent

  -- `Execute`. Only a payout that succeeded is booked.
  unfoldable pub apply_payout_result : Uuid → Tx Text
  unfolding book_payout
  apply_payout_result intent_id = do
    intent ← catch (get_intent intent_id) wrap
    po ← catch (get_payout_by_intent intent_id) terminal_if_missing
    elim po.state [
      | PayoutState.succeeded ↦ do
        quote ← catch (get_quote intent.quote_id) wrap
        book_payout intent_id intent po quote
      | _ ↦ fail (terminal (message []))
    ]
