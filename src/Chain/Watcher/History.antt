-- ===== src/Chain/Watcher/History.antt =====
-- Every history of the tables: the watcher's transactions in any order and with any faults, the
-- saga worker's updates of its rows, and changes elsewhere.
use selatpay.Prelude.{
  ℕ, ◌≡◌, refl, sym, subst, ap, Option, none, some, List, inl, inr, ◌==◌, All-map,
}
use selatpay.Prelude.Text.{Text}
use selatpay.Prelude.Keys.{has_key, Distinct-update_where, find?-update_where_cases}
use selatpay.Db.Tables.{Uuid, OnchainPayment, Commitment, processed, confirmed, finalized}
use selatpay.Db.Tx.{Err, World, SagaRun}
use selatpay.Chain.References.{References}
use selatpay.Chain.Deposits.{run_key, key_eq, find_payment, find_run}
use selatpay.Chain.Watcher.{
  Signature, CommitmentType, RpcClient, Base58, WatcherConfig, DepositFaults, kind_settlement,
  process_signature,
}
use selatpay.Chain.Watcher.Covered.{CoveredBy, Covered, Settled, key_eq_sound, key_eq_refl}
use selatpay.Chain.Watcher.Settled.{process_signature-Settled}
use selatpay.Chain.Watcher.Growth.{Grown, Grown-trans}
use selatpay.Chain.Watcher.Kept.{Later, Later-refl, process_signature-Later}
use selatpay.Saga.Claim.{leased, set_run, update_run}
use selatpay.Saga.Runner.{advanced, completed_run, retried, failed_run}

-- The updates of one saga's row: the claim's and the four outcomes'.
pub data RowChange : (SagaRun → SagaRun) → Type 0 where
  claiming : (owner : Text) (until : ℕ) → RowChange (leased owner until)
  advancing : (next : Text) (now : ℕ) → RowChange (advanced next now)
  completing : RowChange completed_run
  retrying : (at : ℕ) (cause : Err) → RowChange (retried at cause)
  failing : (cause : Err) → RowChange (failed_run cause)

pub data Step (w u : World) : Type 0 where
  deposit :
      (base58 : Base58) (cfg : WatcherConfig) (refs : References) (rpc : RpcClient)
      (faults : DepositFaults) (sig : Signature) (c : CommitmentType)
      → u ≡ (process_signature base58 cfg refs rpc faults sig c w).1
      → Step w u
  worker : (id : Uuid) (f : SagaRun → SagaRun) → RowChange f → u ≡ update_run id f w → Step w u
  elsewhere :
      u.db.onchain_payments ≡ w.db.onchain_payments → u.db.saga_runs ≡ w.db.saga_runs → Step w u

pub data Reach (w : World) : World → Type 0 where
  start : Reach w w
  then : {v u : World} → Reach w v → Step v u → Reach w u

RowChange-key : {f : SagaRun → SagaRun} → RowChange f → (r : SagaRun) → run_key (f r) ≡ run_key r
RowChange-key (claiming owner until) r = refl
RowChange-key (advancing next now) r = refl
RowChange-key completing r = refl
RowChange-key (retrying at cause) r = refl
RowChange-key (failing cause) r = refl

module _ (id : Uuid) (f : SagaRun → SagaRun) (change : RowChange f) where
  CoveredBy-set_run :
      (runs : List SagaRun) (c : Commitment) (i : Option Uuid)
      → CoveredBy runs c i
      → CoveredBy (set_run id f runs) c i
  unfolding set_run find_run
  CoveredBy-set_run runs finalized (some i) (r, e) =
      elim (find?-update_where_cases (λ x. x.id == id) f
        (has_key run_key key_eq (i, kind_settlement))
        (λ x. ap (λ k. key_eq k (i, kind_settlement)) (RowChange-key change x)) runs r e) [
          | inl same ↦ (r, same)
          | inr changed ↦ (f r, changed)
        ]
  CoveredBy-set_run runs finalized none h = tt
  CoveredBy-set_run runs confirmed i h = tt
  CoveredBy-set_run runs processed i h = tt

  update_run-Settled : (w : World) → Settled w.db → Settled (update_run id f w).db
  unfolding set_run
  update_run-Settled w s = record {
    signatures_distinct = s.signatures_distinct;
    sagas_distinct =
        Distinct-update_where run_key key_eq key_eq_sound key_eq_refl (λ r. r.id == id) f
          (RowChange-key change) w.db.saga_runs s.sagas_distinct;
    deposits_covered =
        All-map (Covered w.db.saga_runs) (Covered (set_run id f w.db.saga_runs))
          w.db.onchain_payments (λ p. CoveredBy-set_run w.db.saga_runs p.commitment p.intent_id)
          s.deposits_covered;
  }

Step-Settled : {w u : World} → Step w u → Settled w.db → Settled u.db
Step-Settled {w} (deposit base58 cfg refs rpc faults sig c e) s =
    subst (λ x. Settled x.db) (sym e)
      (process_signature-Settled base58 cfg refs rpc faults sig c w s)
Step-Settled {w} (worker id f change e) s =
    subst (λ x. Settled x.db) (sym e) (update_run-Settled id f change w s)
Step-Settled {w} {u} (elsewhere payments runs) s = record {
  signatures_distinct = rw payments s.signatures_distinct;
  sagas_distinct = rw runs s.sagas_distinct;
  deposits_covered = rw (payments, runs) s.deposits_covered;
}

-- In every history that starts where the tables are settled, whatever the node answers, whichever
-- calls fail and however the worker's updates fall between, they stay settled: one row to a
-- signature, one saga to an intent and kind, and a settlement saga for every finalized deposit of
-- an intent.
pub Reach-Settled : {w u : World} → Reach w u → Settled w.db → Settled u.db
Reach-Settled start s = s
Reach-Settled (then r step) s = Step-Settled step (Reach-Settled r s)

Step-Later : {w u : World} → Step w u → Later w.db.onchain_payments u.db.onchain_payments
Step-Later {w} (deposit base58 cfg refs rpc faults sig c e) =
    subst (λ x. Later w.db.onchain_payments x.db.onchain_payments) (sym e)
      (process_signature-Later base58 cfg refs rpc faults sig c w)
Step-Later {w} (worker id f change e) =
    subst (λ x. Later w.db.onchain_payments x.db.onchain_payments) (sym e)
      (Later-refl w.db.onchain_payments)
Step-Later {w} (elsewhere payments runs) =
    subst (λ ps. Later w.db.onchain_payments ps) (sym payments) (Later-refl w.db.onchain_payments)

-- In every history a stored deposit stays stored, with its commitment at least as high, its link to
-- an intent kept once set, and every other column as it was.
pub Reach-Grown :
    {w u : World} (s : Text) (p : OnchainPayment)
    → Reach w u
    → find_payment s w.db.onchain_payments ≡ some p
    → (q : OnchainPayment) × (find_payment s u.db.onchain_payments ≡ some q) × Grown p q
Reach-Grown s p start e = Later-refl _ s p e
Reach-Grown s p (then r step) e =
    let (q, found, grown) = Reach-Grown s p r e in
    let (q', found', grown') = Step-Later step s q found in (q', found', Grown-trans grown grown')
