-- ===== src/Saga/Runner.antt =====
-- The worker of internal/saga/runner.go: one tick claims a saga, runs its step, and records the outcome.
pub mod Outcome
pub mod Progress
pub mod Recorded
pub mod Failure
pub mod Exhaustion
use selatpay.Prelude.{
  ℕ, suc, ◌+◌, Bool, true, false, ◌||◌, Option, none, some, List, [], ◌∷◌, leb, if◌then◌else◌,
  find?, ◌==◌,
}
use selatpay.Prelude.Text.{Text}
use selatpay.Prelude.Int.{ℤ, pos, pos_part}
use selatpay.Db.Tables.{Uuid, SagaState}
use selatpay.Db.Tx.{
  Err, Result, ok, err, no_rows, unknown_step, unavailable, wrap, Db, World, SagaRun, Tx, pure,
  catch, guard, ◌>>=◌, ◌>>◌,
}
use selatpay.Ledger.Posting.{entries_balanced, run_tx}
use selatpay.Saga.Backoff.{Backoff, delay}
use selatpay.Saga.Claim.{
  is_terminal, Step, Registry, get_step, Config, Faults, update_run, set_run, claim,
}

-- AdvanceSagaStep, CompleteSagaRun, ScheduleSagaRetry and FailSagaRun: what each sets.
abbrev pub advanced : Text → ℕ → SagaRun → SagaRun
advanced next now r = record r {
  current_step = next;
  state = SagaState.pending;
  step_attempts = 0;
  next_run_at = now;
  lease_owner = none;
  lease_until = none;
  last_error = none;
}

abbrev pub completed_run : SagaRun → SagaRun
completed_run r = record r {
  state = SagaState.completed;
  lease_owner = none;
  lease_until = none;
  last_error = none;
}

abbrev pub retried : ℕ → Err → SagaRun → SagaRun
retried next cause r = record r {
  step_attempts = suc r.step_attempts;
  state = SagaState.pending;
  next_run_at = next;
  lease_owner = none;
  lease_until = none;
  last_error = some cause;
}

abbrev pub failed_run : Err → SagaRun → SagaRun
failed_run cause r = record r {
  state = SagaState.failed;
  lease_owner = none;
  lease_until = none;
  last_error = some cause;
}

abbrev pub find_run : Uuid → World → Option SagaRun
find_run id w = find? (λ r. r.id == id) w.db.saga_runs

-- `UPDATE saga_runs SET ... WHERE id = $1 RETURNING ...`, a query of one row.
abbrev pub returning : Uuid → (SagaRun → SagaRun) → Option SagaRun → Tx SagaRun
returning id f none w = (err no_rows, w)
returning id f (some r) w = (ok (f r), update_run id f w)

-- CompleteSagaRun or AdvanceSagaStep, after a step that named `next`; the empty name ends the saga.
pub settle_run : Uuid → Text → Tx SagaRun
unfolding set_run find?
settle_run id [] w = returning id completed_run (find_run id w) w
settle_run id (c ∷ next) w = returning id (advanced (c ∷ next) w.now) (find_run id w) w

-- The body of the step's transaction.
unfoldable pub step_body : Faults → Step → SagaRun → Tx Text
unfolding settle_run
step_body faults step run = do
  next ← catch (step.execute run) wrap
  guard (if faults.advance_fails then false else true) (wrap unavailable)
  catch (settle_run run.id next) wrap
  pure next

-- A commit that fails leaves the tables as they were.
pub committed : Faults → World → Result Text × World → Result Text × World
committed faults w (err e, w') = (err e, w')
committed faults w (ok next, w') =
    if faults.commit_fails then (err (wrap unavailable), record w' { db = w.db }) else (ok next, w')

-- `executeStep`.
unfoldable pub execute_step : Faults → Step → SagaRun → World → Result Text × World
unfolding committed
execute_step faults step run w =
    if faults.begin_fails
    then (err (wrap unavailable), w)
    else committed faults w (run_tx (step_body faults step run) w)

-- `failRun` and `scheduleRetry`: an update that fails is only logged.
unfoldable pub fail_run : Faults → Uuid → Err → World → World
unfolding set_run
fail_run faults id cause w = if faults.update_fails then w else update_run id (failed_run cause) w

unfoldable pub schedule_retry : Faults → Uuid → ℕ → Err → World → World
unfolding set_run
schedule_retry faults id wait cause w =
    if faults.update_fails then w else update_run id (retried (w.now + wait) cause) w

module _ (cfg : Config) (registry : Registry) (backoff : Backoff) (jitter : ℤ → ℤ)
    (faults : Faults) where
  -- What becomes of a saga whose step ended in an error.
  unfoldable pub after_error : SagaRun → Err → World → World
  after_error run e w =
      if is_terminal e || leb cfg.max_attempts (suc run.step_attempts)
      then fail_run faults run.id e w
      else schedule_retry faults run.id
          (pos_part (delay jitter backoff (pos (suc run.step_attempts)))) e w

  abbrev pub outcome : SagaRun → Result Text × World → World
  outcome run (ok next, w) = w
  outcome run (err e, w) = after_error run e w

  unfoldable pub run_step : Step → SagaRun → World → World
  run_step step run w = outcome run (execute_step faults step run w)

  unfoldable pub run_claimed : SagaRun → World → World
  unfolding run_step
  run_claimed run w = elim (get_step registry run.current_step) [
    | none ↦ fail_run faults run.id unknown_step w
    | some step ↦ run_step step run w
  ]

  abbrev idle : Err → Result Bool
  idle no_rows = ok false
  idle e = err (wrap e)

  abbrev pub handle : Result SagaRun × World → Result Bool × World
  handle (ok run, w) = (ok true, run_claimed run w)
  handle (err e, w) = (idle e, w)

  -- `Tick`: whether a saga was claimed, or the error of the claim.
  unfoldable pub tick : World → Result Bool × World
  tick w = handle (claim cfg faults w)
