-- ===== src/Chain/Watcher/Kept.antt =====
-- A stored deposit is never lost: whatever happens, its row is still there, grown.
use selatpay.Prelude.{
  ◌≡◌, refl, ap, ◌∙◌, Option, none, some, List, [], ◌∷◌, inl, inr, find?-append, Bool-cases,
}
use selatpay.Prelude.Text.{Text, text_eq}
use selatpay.Prelude.Keys.{has_key, find?-update_where_cases}
use selatpay.Db.Tables.{Uuid, OnchainPayment, Commitment, processed, confirmed, finalized}
use selatpay.Db.Tx.{Result, ok, err, wrap, World, SagaRun, catch, pure, ◌>>◌, ◌>>=◌}
use selatpay.Saga.Steps.Names.{first_step}
use selatpay.Chain.References.{References}
use selatpay.Chain.Deposits.{
  merged, signature_of, find_payment, update_payment, payment_upserted, payment_admitted,
  upsert_onchain_payment, find_run, run_enqueued, enqueue_saga_run,
}
use selatpay.Chain.Watcher.{
  Signature, CommitmentType, RpcClient, Base58, WatcherConfig, DepositFaults, kind_settlement,
  trigger_saga, store_body, closed, store_deposit, store_verdict, examine, process_signature,
}
use selatpay.Chain.Watcher.Growth.{Grown, Grown-refl, merged-Grown}

-- Every row of `old` is still there, grown.
abbrev pub Later : List OnchainPayment → List OnchainPayment → Type 0
Later old new =
    (s : Text) (p : OnchainPayment)
    → find_payment s old ≡ some p
    → (q : OnchainPayment) × (find_payment s new ≡ some q) × Grown p q

pub Later-refl : (ps : List OnchainPayment) → Later ps ps
Later-refl ps s p e = (p, e, Grown-refl p)

payment_upserted-Later :
    (p : OnchainPayment) (o : Option OnchainPayment) (w : World)
    → Later w.db.onchain_payments (payment_upserted p o w).1.db.onchain_payments
unfolding find_payment update_payment merged
payment_upserted-Later p none w s q e = (
  q,
  rw (find?-append (has_key signature_of text_eq s) w.db.onchain_payments (p ∷ []), e),
  Grown-refl q,
)
payment_upserted-Later p (some old) w s q e =
    elim (find?-update_where_cases (has_key signature_of text_eq p.signature) (merged p)
      (has_key signature_of text_eq s) (λ x. refl) w.db.onchain_payments q e) [
        | inl same ↦ (q, same, Grown-refl q)
        | inr changed ↦ (merged p q, changed, merged-Grown p q)
      ]

-- The saga's row is another table's.
pub trigger_saga-payments :
    (faults : DepositFaults) (c : Commitment) (i : Option Uuid) (w : World)
    → (trigger_saga faults c i w).1.db.onchain_payments ≡ w.db.onchain_payments
unfolding trigger_saga enqueue_saga_run
trigger_saga-payments faults finalized (some id) w = elim (Bool-cases faults.enqueue_fails) [
  | inl fails ↦ rw fails refl
  | inr works ↦ rw works (go (find_run id kind_settlement w.db.saga_runs))
]
  where
    go :
        (o : Option SagaRun)
        → ((catch (run_enqueued id kind_settlement first_step o) wrap >> pure tt)
            w).1.db.onchain_payments
          ≡ w.db.onchain_payments
    go none = refl
    go (some r) = refl
trigger_saga-payments faults finalized none w = refl
trigger_saga-payments faults confirmed i w = refl
trigger_saga-payments faults processed i w = refl

Later-along : (old mid new : List OnchainPayment) → new ≡ mid → Later old mid → Later old new
Later-along old mid new e h s p found =
    let (q, there, grown) = h s p found in (q, ap (find_payment s) e ∙ there, grown)

-- The tables after the row is stored and its saga is enqueued.
abbrev after : DepositFaults → OnchainPayment → World → Option OnchainPayment → World
after faults p w o =
    ((do row ← catch (payment_upserted p o) wrap; trigger_saga faults row.commitment row.intent_id)
      w).1

store_body-Later :
    (faults : DepositFaults) (p : OnchainPayment) (w : World)
    → Later w.db.onchain_payments (store_body faults p w).1.db.onchain_payments
unfolding store_body upsert_onchain_payment
store_body-Later faults p w = elim (Bool-cases faults.upsert_fails) [
  | inl fails ↦ rw fails (Later-refl w.db.onchain_payments)
  | inr works ↦ elim (Bool-cases (payment_admitted p)) [
    | inl admitted ↦ rw (works, admitted) (go (find_payment p.signature w.db.onchain_payments))
    | inr refused ↦ rw (works, refused) (Later-refl w.db.onchain_payments)
  ]
]
  where
    go :
        (o : Option OnchainPayment)
        → Later w.db.onchain_payments (after faults p w o).db.onchain_payments
    go none =
        let w' = (payment_upserted p none w).1 in
        Later-along w.db.onchain_payments w'.db.onchain_payments
          (after faults p w none).db.onchain_payments
          (trigger_saga-payments faults p.commitment p.intent_id w')
          (payment_upserted-Later p none w)
    go (some old) =
        let row = merged p old in
        let w' = (payment_upserted p (some old) w).1 in
        Later-along w.db.onchain_payments w'.db.onchain_payments
          (after faults p w (some old)).db.onchain_payments
          (trigger_saga-payments faults row.commitment row.intent_id w')
          (payment_upserted-Later p (some old) w)

closed-Later :
    (faults : DepositFaults) (w : World) (res : Result (Unit {0}) × World)
    → Later w.db.onchain_payments res.1.db.onchain_payments
    → Later w.db.onchain_payments (closed faults w res).1.db.onchain_payments
closed-Later faults w (err e, w') h = Later-refl w.db.onchain_payments
closed-Later faults w (ok u, w') h = elim (Bool-cases faults.commit_fails) [
  | inl fails ↦ rw fails (Later-refl w.db.onchain_payments)
  | inr works ↦ rw works h
]

store_deposit-Later :
    (faults : DepositFaults) (p : OnchainPayment) (w : World)
    → Later w.db.onchain_payments (store_deposit faults p w).1.db.onchain_payments
unfolding store_deposit
store_deposit-Later faults p w = elim (Bool-cases faults.begin_fails) [
  | inl fails ↦ rw fails (Later-refl w.db.onchain_payments)
  | inr works ↦
      rw works (closed-Later faults w (store_body faults p w) (store_body-Later faults p w))
]

store_verdict-Later :
    (faults : DepositFaults) (v : Result (Option OnchainPayment)) (w : World)
    → Later w.db.onchain_payments (store_verdict faults v w).1.db.onchain_payments
store_verdict-Later faults (err e) w = Later-refl w.db.onchain_payments
store_verdict-Later faults (ok none) w = Later-refl w.db.onchain_payments
store_verdict-Later faults (ok (some p)) w = store_deposit-Later faults p w

pub process_signature-Later :
    (base58 : Base58) (cfg : WatcherConfig) (refs : References) (rpc : RpcClient)
    (faults : DepositFaults) (sig : Signature) (c : CommitmentType) (w : World)
    → Later w.db.onchain_payments
        (process_signature base58 cfg refs rpc faults sig c w).1.db.onchain_payments
unfolding process_signature
process_signature-Later base58 cfg refs rpc faults sig c w =
    store_verdict-Later faults (examine base58 cfg refs sig c (rpc.get_transaction sig c)) w
