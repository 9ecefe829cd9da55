-- ===== src/Saga/Runner/Outcome.antt =====
-- What a step leaves in the tables (`executeStep` of internal/saga/runner.go): all of its writes, or none.
use selatpay.Prelude.{◌≡◌, refl, sym, ◌∙◌, ap, inl, inr, true, false, if◌then◌else◌, Bool-cases}
use selatpay.Prelude.Text.{Text}
use selatpay.Db.Tx.{Err, Result, ok, err, wrap, unavailable, World, SagaRun}
use selatpay.Ledger.Posting.{run_tx}
use selatpay.Ledger.Posting.Atomic.{run_tx-rolls_back, err-ne-ok}
use selatpay.Saga.Claim.{Step, Faults}
use selatpay.Saga.Runner.{step_body, committed, execute_step}

committed-err :
    (faults : Faults) (w w' : World) (e : Err) (x : Result Text × World)
    → ((e' : Err) (v : World) → x ≡ (err e', v) → v.db ≡ w.db)
    → committed faults w x ≡ (err e, w')
    → w'.db ≡ w.db
unfolding committed
committed-err faults w w' e (err e', v) h p = ap (λ t. t.1.db) (sym p) ∙ h e' v refl
committed-err faults w w' e (ok next, v) h p = elim (Bool-cases faults.commit_fails) [
  | inl down ↦ ap (λ t. t.1.db) (sym (rw down at p))
  | inr up ↦ absurd (err-ne-ok (sym (ap (λ t. t.0) (rw up at p))))
]

pub execute_step_begun :
    (faults : Faults) (step : Step) (run : SagaRun) (w : World)
    → faults.begin_fails ≡ false
    → execute_step faults step run w ≡ committed faults w (run_tx (step_body faults step run) w)
unfolding execute_step
execute_step_begun faults step run w up =
    ap
      (λ b.
        if b
        then (err (wrap unavailable), w)
        else committed faults w (run_tx (step_body faults step run) w))
      up

execute_step_refused :
    (faults : Faults) (step : Step) (run : SagaRun) (w : World)
    → faults.begin_fails ≡ true
    → execute_step faults step run w ≡ (err (wrap unavailable), w)
unfolding execute_step
execute_step_refused faults step run w down =
    ap
      (λ b.
        if b
        then (err (wrap unavailable), w)
        else committed faults w (run_tx (step_body faults step run) w))
      down

-- A step that ends in an error, at whatever point, leaves every table as it was, the step's own
-- writes included.
pub execute_step-rolls_back :
    (faults : Faults) (step : Step) (run : SagaRun) (w w' : World) (e : Err)
    → execute_step faults step run w ≡ (err e, w')
    → w'.db ≡ w.db
execute_step-rolls_back faults step run w w' e p = elim (Bool-cases faults.begin_fails) [
  | inl down ↦ ap (λ t. t.1.db) (sym p ∙ execute_step_refused faults step run w down)
  | inr up ↦
      committed-err faults w w' e (run_tx (step_body faults step run) w)
        (λ e' v q. run_tx-rolls_back (step_body faults step run) w v e' q)
        (sym (execute_step_begun faults step run w up) ∙ p)
]
