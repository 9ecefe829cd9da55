-- ===== src/Saga/Steps/CreditDeposit.antt =====
-- internal/saga/steps/credit_deposit.go.
pub mod Marked
pub mod Replay
use selatpay.Prelude.{[], ◌∷◌, ◌++◌, some}
use selatpay.Prelude.Text.{Text, codes}
use selatpay.Db.Tables.{Uuid, Account, PaymentIntent, IntentState, OnchainPayment, debit, credit}
use selatpay.Db.Tx.{Err, Tx, pure, catch, ◌>>=◌, ◌>>◌, wrap, terminal}
use selatpay.Ledger.Validate.{Entry}
use selatpay.Ledger.Posting.{post_tx, get_account_by_code_tx}
use selatpay.Saga.Steps.Names.{
  step_trigger_payout, account_hot_wallet_usdc, account_liability_user_funds, currency_usdc,
}
use selatpay.Saga.Steps.Queries.{
  terminal_if_missing, get_intent, update_intent_state, get_finalized_deposit,
}

abbrev pub terminal_wrap : Err → Err
terminal_wrap e = terminal (wrap e)

unfoldable pub mark_funded : Uuid → PaymentIntent → Tx Text
mark_funded intent_id intent = elim intent.state [
  | IntentState.pending ↦ do
    catch (update_intent_state intent_id IntentState.funded) wrap
    pure step_trigger_payout
  | _ ↦ pure step_trigger_payout
]

module _ (uuid_string : Uuid → Text) where
  -- The journal entry of a deposit: the hot wallet against the user's funds.
  unfoldable pub deposit_entry : Uuid → OnchainPayment → Account → Account → Entry
  deposit_entry intent_id deposit hot_wallet user_funds = record {
    external_ref = codes "credit_deposit:" ++ uuid_string intent_id;
    kind = codes "deposit_credit";
    description =
        codes "USDC deposit finalized for intent "
        ++ (uuid_string intent_id ++ (codes " (sig " ++ (deposit.signature ++ codes ")")));
    intent_id = some intent_id;
    lines =
        record {
          account_id = hot_wallet.id;
          amount = deposit.amount;
          currency = currency_usdc;
          direction = debit;
        }
        ∷ record {
          account_id = user_funds.id;
          amount = deposit.amount;
          currency = currency_usdc;
          direction = credit;
        }
        ∷ [];
  }

  -- `Execute`. A missing deposit is retried; a missing intent or account is terminal.
  unfoldable pub credit_deposit : Uuid → Tx Text
  unfolding mark_funded
  credit_deposit intent_id = do
    intent ← catch (get_intent intent_id) terminal_if_missing
    deposit ← catch (get_finalized_deposit intent_id) wrap
    hot_wallet ← catch (get_account_by_code_tx account_hot_wallet_usdc currency_usdc) terminal_wrap
    user_funds ←
        catch (get_account_by_code_tx account_liability_user_funds currency_usdc) terminal_wrap
    catch (post_tx (deposit_entry intent_id deposit hot_wallet user_funds)) wrap
    mark_funded intent_id intent
