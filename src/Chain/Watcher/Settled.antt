-- ===== src/Chain/Watcher/Settled.antt =====
-- The invariant of the tables that the watcher writes.
use selatpay.Prelude.{◌≡◌, refl, Option, none, some, inl, inr, Bool-cases}
use selatpay.Db.Tables.{Uuid, OnchainPayment, Commitment, processed, confirmed, finalized}
use selatpay.Db.Tx.{Result, ok, err, wrap, World, SagaRun, catch, pure, ◌>>◌, ◌>>=◌}
use selatpay.Saga.Steps.Names.{first_step}
use selatpay.Chain.References.{References}
use selatpay.Chain.Deposits.{
  merged, find_payment, payment_upserted, payment_admitted, upsert_onchain_payment, find_run,
  run_enqueued, enqueue_saga_run,
}
use selatpay.Chain.Watcher.{
  Signature, CommitmentType, RpcClient, Base58, WatcherConfig, DepositFaults, kind_settlement,
  trigger_saga, store_body, closed, store_deposit, store_verdict, examine, process_signature,
}
use selatpay.Chain.Watcher.Covered.{
  Settled, Pending, Pending-Settled, run_enqueued-Settled, payment_upserted-Pending,
}

-- A body that ends well leaves the invariant; one that ends in an error is rolled back.
abbrev Good : Result (Unit {0}) × World → Type 0
Good (ok u, w) = Settled w.db
Good (err e, w) = Unit

closed-Settled :
    (faults : DepositFaults) (w : World) (res : Result (Unit {0}) × World)
    → Settled w.db
    → Good res
    → Settled (closed faults w res).1.db
closed-Settled faults w (err e, w') h good = h
closed-Settled faults w (ok u, w') h good = elim (Bool-cases faults.commit_fails) [
  | inl fails ↦ rw fails h
  | inr works ↦ rw works good
]

run_enqueued-Good :
    (id : Uuid) (w : World) (o : Option SagaRun)
    → find_run id kind_settlement w.db.saga_runs ≡ o
    → Pending finalized (some id) w
    → Good ((catch (run_enqueued id kind_settlement first_step o) wrap >> pure tt) w)
run_enqueued-Good id w (some r) e p = run_enqueued-Settled id w (some r) e p
run_enqueued-Good id w none e p = run_enqueued-Settled id w none e p

trigger_saga-Good :
    (faults : DepositFaults) (c : Commitment) (i : Option Uuid) (w : World)
    → Pending c i w
    → Good (trigger_saga faults c i w)
unfolding trigger_saga enqueue_saga_run
trigger_saga-Good faults finalized (some id) w p = elim (Bool-cases faults.enqueue_fails) [
  | inl fails ↦ rw fails tt
  | inr works ↦
      rw works (run_enqueued-Good id w (find_run id kind_settlement w.db.saga_runs) refl p)
]
trigger_saga-Good faults finalized none w p = Pending-Settled p tt
trigger_saga-Good faults confirmed i w p = Pending-Settled p tt
trigger_saga-Good faults processed i w p = Pending-Settled p tt

store_body-Good :
    (faults : DepositFaults) (p : OnchainPayment) (w : World)
    → Settled w.db
    → Good (store_body faults p w)
unfolding store_body upsert_onchain_payment
store_body-Good faults p w s = elim (Bool-cases faults.upsert_fails) [
  | inl fails ↦ rw fails tt
  | inr works ↦ elim (Bool-cases (payment_admitted p)) [
    | inl admitted ↦ rw (works, admitted) (go (find_payment p.signature w.db.onchain_payments) refl)
    | inr refused ↦ rw (works, refused) tt
  ]
]
  where
    go :
        (o : Option OnchainPayment)
        → find_payment p.signature w.db.onchain_payments ≡ o
        → Good (
            (do
              row ← catch (payment_upserted p o) wrap
              trigger_saga faults row.commitment row.intent_id)
              w)
    go none e =
        let (_, w') = payment_upserted p none w in
        trigger_saga-Good faults p.commitment p.intent_id w' (payment_upserted-Pending p w none e s)
    go (some old) e =
        let row = merged p old in
        let (_, w') = payment_upserted p (some old) w in
        trigger_saga-Good faults row.commitment row.intent_id w'
          (payment_upserted-Pending p w (some old) e s)

pub store_deposit-Settled :
    (faults : DepositFaults) (p : OnchainPayment) (w : World)
    → Settled w.db
    → Settled (store_deposit faults p w).1.db
unfolding store_deposit
store_deposit-Settled faults p w s = elim (Bool-cases faults.begin_fails) [
  | inl fails ↦ rw fails s
  | inr works ↦
      rw works (closed-Settled faults w (store_body faults p w) s (store_body-Good faults p w s))
]

store_verdict-Settled :
    (faults : DepositFaults) (v : Result (Option OnchainPayment)) (w : World)
    → Settled w.db
    → Settled (store_verdict faults v w).1.db
store_verdict-Settled faults (err e) w s = s
store_verdict-Settled faults (ok none) w s = s
store_verdict-Settled faults (ok (some p)) w s = store_deposit-Settled faults p w s

module _ (base58 : Base58) (cfg : WatcherConfig) (refs : References) (rpc : RpcClient)
    (faults : DepositFaults) where
  -- Whatever the node answers and whichever database call fails, processing a signature keeps the
  -- invariant: one row to a signature, one saga to an intent and kind, and a settlement saga for
  -- every finalized deposit of an intent.
  pub process_signature-Settled :
      (sig : Signature) (c : CommitmentType) (w : World)
      → Settled w.db
      → Settled (process_signature base58 cfg refs rpc faults sig c w).1.db
  unfolding process_signature
  process_signature-Settled sig c w s =
      store_verdict-Settled faults (examine base58 cfg refs sig c (rpc.get_transaction sig c)) w s
