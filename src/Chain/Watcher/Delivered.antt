-- ===== src/Chain/Watcher/Delivered.antt =====
-- A transfer to the hot wallet is stored, whole way from the node's answer to the table.
use selatpay.Prelude.{
  ℕ, ◌≤◌, ◌<◌, ◌≡◌, refl, ap, ◌∙◌, subst, true, false, Option, none, some, arith, ◌==◌, ==_self,
  le→not_ltb, find?-last, find?-update_where,
}
use selatpay.Prelude.Text.{Text, text_eq, text_eq_refl}
use selatpay.Prelude.Keys.{has_key}
use selatpay.Prelude.Int.{max_int64, of_bits}
use selatpay.Db.Tables.{Uuid, OnchainPayment, Commitment, processed, confirmed, finalized}
use selatpay.Db.Tx.{Result, ok, err, wrap, World, SagaRun, catch, pure, ◌>>◌, ◌>>=◌}
use selatpay.Saga.Steps.Names.{first_step}
use selatpay.Chain.Parser.{Transaction, SplTransfer}
use selatpay.Chain.Parser.Layout.{Carries, parse_spl_transfer_checked-encoded}
use selatpay.Chain.References.{References}
use selatpay.Chain.Deposits.{
  merged, signature_of, find_payment, update_payment, payment_upserted, payment_admitted,
  upsert_onchain_payment, find_run, run_enqueued, enqueue_saga_run,
}
use selatpay.Chain.Watcher.{
  Signature, CommitmentType, TransactionResult, response, RpcClient, Base58, WatcherConfig,
  DepositFaults, kind_settlement, trigger_saga, store_body, closed, store_deposit, payment_row,
  admit_transfer, examine, process_signature,
}
use selatpay.Chain.Watcher.Written.{written, merged-written, transfer_row, payment_row-transfer}
use selatpay.Chain.Watcher.Kept.{trigger_saga-payments}

abbrev pub no_faults : DepositFaults
no_faults = record {
  begin_fails = false;
  upsert_fails = false;
  enqueue_fails = false;
  commit_fails = false;
}

abbrev stored : OnchainPayment → Option OnchainPayment → OnchainPayment
stored p none = p
stored p (some old) = merged p old

eq→== : (a b : ℕ) → a ≡ b → (a == b) ≡ true
eq→== a b e = rw e (==_self b)

trigger_saga-ok :
    (c : Commitment) (i : Option Uuid) (w : World) → (trigger_saga no_faults c i w).0 ≡ ok tt
unfolding trigger_saga enqueue_saga_run
trigger_saga-ok finalized (some id) w = go (find_run id kind_settlement w.db.saga_runs)
  where
    go :
        (o : Option SagaRun)
        → ((catch (run_enqueued id kind_settlement first_step o) wrap >> pure tt) w).0 ≡ ok tt
    go none = refl
    go (some r) = refl
trigger_saga-ok finalized none w = refl
trigger_saga-ok confirmed i w = refl
trigger_saga-ok processed i w = refl

payment_upserted-ok :
    (p : OnchainPayment) (o : Option OnchainPayment) (w : World)
    → (payment_upserted p o w).0 ≡ ok (stored p o)
payment_upserted-ok p none w = refl
payment_upserted-ok p (some old) w = refl

payment_upserted-found :
    (p : OnchainPayment) (o : Option OnchainPayment) (w : World)
    → find_payment p.signature w.db.onchain_payments ≡ o
    → find_payment p.signature (payment_upserted p o w).1.db.onchain_payments ≡ some (stored p o)
unfolding find_payment update_payment merged
payment_upserted-found p none w e =
    find?-last (has_key signature_of text_eq p.signature) w.db.onchain_payments p e
      (text_eq_refl p.signature)
payment_upserted-found p (some old) w e =
    find?-update_where (has_key signature_of text_eq p.signature) (merged p) w.db.onchain_payments
      old (λ y h. h) e

-- The result is no error, and the row of a signature is `row` then.
abbrev pub Leaves : Text → OnchainPayment → Result (Unit {0}) × World → Type 0
Leaves s row res = (res.0 ≡ ok tt) × (find_payment s res.1.db.onchain_payments ≡ some row)

closed-ok :
    (w : World) (res : Result (Unit {0}) × World)
    → res.0 ≡ ok tt
    → closed no_faults w res ≡ (ok tt, res.1)
closed-ok w (ok u, w') e = refl
closed-ok w (err x, w') e = absurd (cc)

closed-Leaves :
    (s : Text) (row : OnchainPayment) (c : Commitment) (i : Option Uuid) (w w' : World)
    → find_payment s w'.db.onchain_payments ≡ some row
    → Leaves s row (closed no_faults w (trigger_saga no_faults c i w'))
closed-Leaves s row c i w w' e =
    rw (closed-ok w (trigger_saga no_faults c i w') (trigger_saga-ok c i w'))
      (refl, ap (find_payment s) (trigger_saga-payments no_faults c i w') ∙ e)

store_deposit-Leaves :
    (p : OnchainPayment) (w : World)
    → payment_admitted p ≡ true
    → Leaves p.signature
        (stored p (find_payment p.signature w.db.onchain_payments))
        (store_deposit no_faults p w)
unfolding store_deposit store_body upsert_onchain_payment
store_deposit-Leaves p w admitted =
    rw admitted (go (find_payment p.signature w.db.onchain_payments) refl)
  where
    go :
        (o : Option OnchainPayment)
        → find_payment p.signature w.db.onchain_payments ≡ o
        → Leaves p.signature (stored p o) (
            closed no_faults w (
              (do
                row ← catch (payment_upserted p o) wrap
                trigger_saga no_faults row.commitment row.intent_id)
                w))
    go none e =
        closed-Leaves p.signature p p.commitment p.intent_id w (payment_upserted p none w).1
          (payment_upserted-found p none w e)
    go (some old) e =
        let row = merged p old in
        closed-Leaves p.signature row row.commitment row.intent_id w
          (payment_upserted p (some old) w).1 (payment_upserted-found p (some old) w e)

stored_as : {p q : OnchainPayment} (o : Option OnchainPayment) → p ≡ q → stored p o ≡ written q o
stored_as none e = e
stored_as {p} {q} (some old) e = merged-written p old ∙ ap (λ x. written x (some old)) e

module _ (base58 : Base58) (cfg : WatcherConfig) (refs : References) (rpc : RpcClient)
    (sig : Signature) (c : CommitmentType) where
  -- The node answers with an executed transaction that carries a transfer of the mint to the hot
  -- wallet, of a positive int64 amount.
  pub record Delivers (t : SplTransfer) : Type 0 where
    pub answer : TransactionResult
    pub tx : Transaction
    pub answered : rpc.get_transaction sig c ≡ response (some answer)
    pub tx_decoded : answer.transaction ≡ some (ok tx)
    pub executed : answer.meta_err ≡ false
    pub carries : Carries cfg.token_program tx t
    pub to_wallet : t.dest ≡ cfg.hot_wallet_ata
    pub of_mint : t.mint ≡ cfg.mint
    pub decimals_expected : t.decimals ≡ cfg.expected_decimals
    pub amount_positive : 0 < t.amount
    pub amount_small : t.amount ≤ max_int64
    pub slot_small : answer.slot ≤ max_int64

  module _ (t : SplTransfer) (d : Delivers t) where
    abbrev delivered_row : OnchainPayment
    delivered_row = payment_row base58 cfg refs sig c d.answer d.tx t

    -- The row that the transfer makes.
    abbrev pub own_row : OnchainPayment
    own_row = transfer_row base58 refs sig c d.answer d.carries.keys t

    examine-delivered :
        examine base58 cfg refs sig c (rpc.get_transaction sig c) ≡ ok (some delivered_row)
    unfolding examine admit_transfer
    examine-delivered = rw (
      d.answered,
      d.tx_decoded,
      d.executed,
      parse_spl_transfer_checked-encoded cfg.token_program d.tx t d.carries,
      eq→== t.dest cfg.hot_wallet_ata d.to_wallet,
      eq→== t.mint cfg.mint d.of_mint,
      eq→== t.decimals cfg.expected_decimals d.decimals_expected,
      le→not_ltb t.amount max_int64 d.amount_small,
    )

    delivered_row-admitted : payment_admitted delivered_row ≡ true
    unfolding payment_row of_bits
    delivered_row-admitted = ground (arith, d.amount_positive, d.slot_small)

    stored-written : (o : Option OnchainPayment) → stored delivered_row o ≡ written own_row o
    stored-written o = stored_as o (
        payment_row-transfer base58 cfg refs sig c d.answer d.tx d.carries.keys t
          d.carries.keys_resolved d.slot_small)

    pub process_signature-delivered :
        (w : World)
        → Leaves
            (base58.signature_string sig)
            (written own_row (find_payment (base58.signature_string sig) w.db.onchain_payments))
            (process_signature base58 cfg refs rpc no_faults sig c w)
    unfolding process_signature payment_row
    process_signature-delivered w = rw examine-delivered (
        subst
          (λ row.
            Leaves (base58.signature_string sig) row (store_deposit no_faults delivered_row w))
          (stored-written (find_payment (base58.signature_string sig) w.db.onchain_payments))
          (store_deposit-Leaves delivered_row w delivered_row-admitted))
