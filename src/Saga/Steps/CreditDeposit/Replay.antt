-- ===== src/Saga/Steps/CreditDeposit/Replay.antt =====
-- Running `credit_deposit` again.
use selatpay.Prelude.{◌≡◌, ◌≢◌, refl, sym, ap, ◌∙◌, subst, some, ◌++◌}
use selatpay.Prelude.Text.{Text, codes}
use selatpay.Db.Tables.{Uuid, Account, JournalEntry, PaymentIntent, IntentState, OnchainPayment}
use selatpay.Db.Tx.{ok, World, Tx, catch, ◌>>=◌, wrap, no_rows}
use selatpay.Db.Chain.{bind_ok, bind_from, catch_ok, catch_from, or_fail_ok}
use selatpay.Ledger.Posting.{post_tx, get_account_by_code_tx, entry_by_ref}
use selatpay.Ledger.Posting.Idempotent.{post_tx-found, post_tx-recorded}
use selatpay.Ledger.Posting.Frame.{BooksOnly-intents, post_tx-BooksOnly}
use selatpay.Saga.Steps.Names.{account_hot_wallet_usdc, account_liability_user_funds, currency_usdc}
use selatpay.Saga.Steps.Queries.{
  terminal_if_missing, find_intent, get_intent, finalized_deposit, get_finalized_deposit,
}
use selatpay.Saga.Steps.CreditDeposit.{terminal_wrap, mark_funded, deposit_entry, credit_deposit}
use selatpay.Saga.Steps.CreditDeposit.Marked.{
  find_account, get_account_ok, mark_funded_from, mark_funded_ok,
}

module _ (uuid_string : Uuid → Text) (id : Uuid) where
  abbrev pub posted : PaymentIntent → OnchainPayment → Account → Account → Tx Text
  posted intent deposit hot_wallet user_funds =
      catch (post_tx (deposit_entry uuid_string id deposit hot_wallet user_funds)) wrap >>= λ _.
      mark_funded id intent

  abbrev with_hot : PaymentIntent → OnchainPayment → Account → Tx Text
  with_hot intent deposit hot_wallet =
      catch (get_account_by_code_tx account_liability_user_funds currency_usdc) terminal_wrap
      >>= λ user_funds. posted intent deposit hot_wallet user_funds

  abbrev with_deposit : PaymentIntent → OnchainPayment → Tx Text
  with_deposit intent deposit =
      catch (get_account_by_code_tx account_hot_wallet_usdc currency_usdc) terminal_wrap
      >>= λ hot_wallet. with_hot intent deposit hot_wallet

  abbrev with_intent : PaymentIntent → Tx Text
  with_intent intent =
      catch (get_finalized_deposit id) wrap >>= λ deposit. with_deposit intent deposit

  -- The rows that the step reads.
  pub record Read (w : World) : Type 0 where
    pub intent : PaymentIntent
    pub deposit : OnchainPayment
    pub hot_wallet : Account
    pub user_funds : Account
    pub intent_found : find_intent id w.db.payment_intents ≡ some intent
    pub deposit_found : finalized_deposit id w.db.onchain_payments ≡ some deposit
    pub hot_wallet_found : find_account account_hot_wallet_usdc currency_usdc w.db ≡ some hot_wallet
    pub user_funds_found :
        find_account account_liability_user_funds currency_usdc w.db ≡ some user_funds

  pub credit_deposit-Read :
      (w : World) (r : Read w)
      → credit_deposit uuid_string id w ≡ posted r.intent r.deposit r.hot_wallet r.user_funds w
  unfolding credit_deposit get_account_by_code_tx
  credit_deposit-Read w r =
      rw (r.intent_found, r.deposit_found, r.hot_wallet_found, r.user_funds_found) refl

  pub credit_deposit_reads :
      (next : Text) (w w' : World) → credit_deposit uuid_string id w ≡ (ok next, w') → Read w
  unfolding credit_deposit
  credit_deposit_reads next w w' e =
      let (i, a, e₁, rest₁) =
        bind_ok (catch (get_intent id) terminal_if_missing) with_intent next w w' e in
      let (there₁, same₁) =
        or_fail_ok (find_intent id w.db.payment_intents) no_rows i w a
          (catch_ok (get_intent id) terminal_if_missing i w a e₁) in
      let (d, b, e₂, rest₂) =
        bind_ok (catch (get_finalized_deposit id) wrap) (with_deposit i) next w w'
          (subst (λ v. with_intent i v ≡ (ok next, w')) same₁ rest₁) in
      let (there₂, same₂) =
        or_fail_ok (finalized_deposit id w.db.onchain_payments) no_rows d w b
          (catch_ok (get_finalized_deposit id) wrap d w b e₂) in
      let hot = get_account_by_code_tx account_hot_wallet_usdc currency_usdc in
      let (h, c, e₃, rest₃) =
        bind_ok (catch hot terminal_wrap) (with_hot i d) next w w'
          (subst (λ v. with_deposit i d v ≡ (ok next, w')) same₂ rest₂) in
      let (there₃, same₃) =
        get_account_ok account_hot_wallet_usdc currency_usdc h w c
          (catch_ok hot terminal_wrap h w c e₃) in
      let funds = get_account_by_code_tx account_liability_user_funds currency_usdc in
      let (u, v, e₄, rest₄) =
        bind_ok (catch funds terminal_wrap) (posted i d h) next w w'
          (subst (λ v. with_hot i d h v ≡ (ok next, w')) same₃ rest₃) in
      let (there₄, same₄) =
        get_account_ok account_liability_user_funds currency_usdc u w v
          (catch_ok funds terminal_wrap u w v e₄) in
      record {
        intent = i;
        deposit = d;
        hot_wallet = h;
        user_funds = u;
        intent_found = there₁;
        deposit_found = there₂;
        hot_wallet_found = there₃;
        user_funds_found = there₄;
      }

  -- What a credited deposit leaves: the entry under the intent's reference, an intent that is not
  -- pending, and no table touched but the ledger's and the intents'.
  pub record Credited (w v : World) : Type 0 where
    pub entry : JournalEntry
    pub entry_found :
        entry_by_ref (codes "credit_deposit:" ++ uuid_string id) v.db.journal_entries ≡ some entry
    pub intent : PaymentIntent
    pub intent_found : find_intent id v.db.payment_intents ≡ some intent
    pub not_pending : intent.state ≢ IntentState.pending
    pub others : v.db ≡ record (w.db) {
      journal_entries = v.db.journal_entries;
      postings = v.db.postings;
      payment_intents = v.db.payment_intents;
    }

  -- When the step succeeds, the deposit is credited: the journal holds the entry of the intent's
  -- reference, the intent is not pending, and no other table has changed. Running the step again then
  -- names the same next step and changes nothing.
  pub credit_deposit-replayed :
      (next : Text) (w w' : World)
      → credit_deposit uuid_string id w ≡ (ok next, w')
      → Credited w w' × (credit_deposit uuid_string id w' ≡ (ok next, w'))
  unfolding deposit_entry
  credit_deposit-replayed next w w' e =
      let r = credit_deposit_reads next w w' e in
      let entry = deposit_entry uuid_string id r.deposit r.hot_wallet r.user_funds in
      let (j, x, first, second) =
        bind_ok (catch (post_tx entry) wrap) (λ _. mark_funded id r.intent) next w w'
          (sym (credit_deposit-Read w r) ∙ e) in
      let p = catch_ok (post_tx entry) wrap j w x first in
      let (valid, recorded) = post_tx-found entry w x j p in
      let books = post_tx-BooksOnly entry w x j p in
      let m =
        mark_funded_ok id r.intent next x w'
          (ap (λ d. find_intent id d.payment_intents) books ∙ r.intent_found) second in
      let entry_there =
        ap (λ d. entry_by_ref entry.external_ref d.journal_entries) m.others ∙ recorded in
      let again : Read w' = record {
        intent = m.intent;
        deposit = r.deposit;
        hot_wallet = r.hot_wallet;
        user_funds = r.user_funds;
        intent_found = m.found;
        deposit_found =
            ap (λ d. finalized_deposit id d.onchain_payments) m.others
            ∙ ap (λ d. finalized_deposit id d.onchain_payments) books
            ∙ r.deposit_found;
        hot_wallet_found =
            ap (find_account account_hot_wallet_usdc currency_usdc) m.others
            ∙ ap (find_account account_hot_wallet_usdc currency_usdc) books
            ∙ r.hot_wallet_found;
        user_funds_found =
            ap (find_account account_liability_user_funds currency_usdc) m.others
            ∙ ap (find_account account_liability_user_funds currency_usdc) books
            ∙ r.user_funds_found;
      } in
      (
        record {
          entry = j;
          entry_found = entry_there;
          intent = m.intent;
          intent_found = m.found;
          not_pending = m.not_pending;
          others = BooksOnly-intents w x w' books m.others;
        },
        credit_deposit-Read w' again
            ∙ bind_from (catch (post_tx entry) wrap) (λ _. mark_funded id m.intent) j w' w'
                (catch_from (post_tx entry) wrap j w' w'
                  (post_tx-recorded entry w' j valid entry_there))
            ∙ mark_funded_from id m.intent w' m.not_pending
            ∙ ap (λ n. (ok n, w')) (sym m.named),
      )
