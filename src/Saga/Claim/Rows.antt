-- ===== src/Saga/Claim/Rows.antt =====
-- What holds of the rows of one saga, under the updates of saga_runs.
use selatpay.Prelude.{◌≡◌, ◌≢◌, sym, ◌∙◌, List, ◌==◌, arith, All, update_where-All, ==→eq, not}
use selatpay.Prelude.Rows.{select-All}
use selatpay.Db.Tables.{Uuid}
use selatpay.Db.Tx.{World, SagaRun}
use selatpay.Saga.Claim.{Faults, set_run, unlocked}

-- Every row of a saga.
abbrev pub Rows : Uuid → (SagaRun → Type 0) → World → Type 0
Rows id P w = All (λ r. r.id ≡ id → P r) w.db.saga_runs

-- What others do between two trials leaves the rows of the saga as they were.
abbrev pub Keeps : Uuid → World → World → Type 1
Keeps id w v = (P : SagaRun → Type 0) → Rows id P w → Rows id P v

pub set_run-Rows :
    (id : Uuid) (P Q : SagaRun → Type 0) (f : SagaRun → SagaRun) (rs : List SagaRun)
    → ((r : SagaRun) → P r → Q (f r))
    → All (λ r. r.id ≡ id → P r) rs
    → All (λ r. r.id ≡ id → Q r) (set_run id f rs)
unfolding set_run
set_run-Rows id P Q f rs step =
    update_where-All (λ r. r.id ≡ id → P r) (λ r. r.id ≡ id → Q r) (λ r. r.id == id) f
      (λ r hit h _. step r (h (==→eq r.id id hit))) (λ r miss h same. absurd (ground arith)) rs

pub unlocked-Rows :
    (id : Uuid) (P : SagaRun → Type 0) (faults : Faults) (w : World)
    → Rows id P w
    → All (λ r. r.id ≡ id → P r) (unlocked faults w.db.saga_runs)
unlocked-Rows id P faults w =
    select-All (λ r. r.id ≡ id → P r) (λ r. not (faults.locked r.id)) w.db.saga_runs

-- An update of another saga.
pub set_run-Rows_other :
    (id : Uuid) (P : SagaRun → Type 0) (other : Uuid) (f : SagaRun → SagaRun) (rs : List SagaRun)
    → ((r : SagaRun) → (f r).id ≡ r.id)
    → other ≢ id
    → All (λ r. r.id ≡ id → P r) rs
    → All (λ r. r.id ≡ id → P r) (set_run other f rs)
unfolding set_run
set_run-Rows_other id P other f rs keeps apart =
    update_where-All (λ r. r.id ≡ id → P r) (λ r. r.id ≡ id → P r) (λ r. r.id == other) f
      (λ r hit h same. absurd (apart (sym (==→eq r.id other hit) ∙ sym (keeps r) ∙ same)))
      (λ r miss h. h) rs
