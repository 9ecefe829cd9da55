-- ===== src/Saga/Runner/Failure.antt =====
-- What becomes of a saga whose step ended in an error (`failRun` and `scheduleRetry` of
-- internal/saga/runner.go).
use selatpay.Prelude.{
  ℕ, suc, ◌+◌, ◌<◌, ◌≡◌, sym, ◌∙◌, ap, inl, inr, ◌⊎◌, Bool, true, false, ◌||◌, List, [], ◌∷◌, ◌==◌,
  leb, if◌then◌else◌, update_where, update_where-All, ==→eq, arith, Bool-cases, All, subst,
}
use selatpay.Prelude.Int.{ℤ, pos, pos_part}
use selatpay.Db.Tables.{Uuid, SagaState}
use selatpay.Db.Tx.{Err, err, Db, World, SagaRun}
use selatpay.Saga.Backoff.{Backoff, delay}
use selatpay.Saga.Claim.{is_terminal, is_due, Step, Registry, Config, Faults, set_run, update_run}
use selatpay.Saga.Runner.{
  retried, failed_run, execute_step, fail_run, schedule_retry, after_error, run_step, outcome,
}
use selatpay.Saga.Runner.Outcome.{execute_step-rolls_back}

fail_run_done :
    (faults : Faults) (id : Uuid) (e : Err) (w : World)
    → faults.update_fails ≡ false
    → fail_run faults id e w ≡ update_run id (failed_run e) w
unfolding fail_run
fail_run_done faults id e w up = ap (λ b. if b then w else update_run id (failed_run e) w) up

schedule_retry_done :
    (faults : Faults) (id : Uuid) (wait : ℕ) (e : Err) (w : World)
    → faults.update_fails ≡ false
    → schedule_retry faults id wait e w ≡ update_run id (retried (w.now + wait) e) w
unfolding schedule_retry
schedule_retry_done faults id wait e w up =
    ap (λ b. if b then w else update_run id (retried (w.now + wait) e) w) up

-- A row that a retry is due for.
retried-is_due :
    (id : Uuid) (next : ℕ) (e : Err) (rs : List SagaRun)
    → All (λ s. s.id ≡ id → is_due next s ≡ true) (set_run id (retried next e) rs)
unfolding set_run update_where is_due
retried-is_due id next e [] = tt
retried-is_due id next e (r ∷ rs) = (λ p. ground arith, retried-is_due id next e rs)

-- Where the update itself does not fail, scheduling a retry reopens the saga in whatever state its
-- row is, completed, failed or leased to another worker included: when the wait is over the row is
-- due.
pub schedule_retry_reopens :
    (faults : Faults) (id : Uuid) (wait : ℕ) (e : Err) (w : World)
    → faults.update_fails ≡ false
    → All
        (λ s. s.id ≡ id → is_due (w.now + wait) s ≡ true)
        (schedule_retry faults id wait e w).db.saga_runs
schedule_retry_reopens faults id wait e w up =
    subst (λ v. All (λ s. s.id ≡ id → is_due (w.now + wait) s ≡ true) v.db.saga_runs)
      (sym (schedule_retry_done faults id wait e w up))
      (retried-is_due id (w.now + wait) e w.db.saga_runs)

-- A saga is within its budget of attempts, or failed.
abbrev Bounded : Config → SagaRun → Type 0
Bounded cfg s = (s.state ≡ SagaState.failed) ⊎ (s.step_attempts < cfg.max_attempts)

module _ (cfg : Config) (backoff : Backoff) (jitter : ℤ → ℤ) where
  -- The verdict on a saga: failed when the error is terminal or the attempts are used up, else due
  -- again after the backoff of the attempt that comes next.
  abbrev pub verdict : SagaRun → Err → ℕ → SagaRun → SagaRun
  verdict run e now =
      if is_terminal e || leb cfg.max_attempts (suc run.step_attempts)
      then failed_run e
      else retried (now + pos_part (delay jitter backoff (pos (suc run.step_attempts)))) e

  after_error-verdict :
      (registry : Registry) (faults : Faults) (run : SagaRun) (e : Err) (w : World)
      → faults.update_fails ≡ false
      → after_error cfg registry backoff jitter faults run e w
        ≡ update_run run.id (verdict run e w.now) w
  unfolding after_error
  after_error-verdict registry faults run e w up =
      go (is_terminal e || leb cfg.max_attempts (suc run.step_attempts))
    where
      wait : ℕ
      wait = pos_part (delay jitter backoff (pos (suc run.step_attempts)))

      go :
          (b : Bool)
          → (if b then fail_run faults run.id e w else schedule_retry faults run.id wait e w)
            ≡ update_run run.id (if b then failed_run e else retried (w.now + wait) e) w
      go true = fail_run_done faults run.id e w up
      go false = schedule_retry_done faults run.id wait e w up

  -- When a step ends in an error and the update of its saga does not fail, the tables are those
  -- that the step started from but for the rows of its saga, which get the verdict: failed if the
  -- error is terminal or the attempts are used up, else pending with one attempt more, due after
  -- the backoff.
  pub run_step-verdict :
      (registry : Registry) (faults : Faults) (step : Step) (run : SagaRun) (e : Err) (w w' : World)
      → faults.update_fails ≡ false
      → execute_step faults step run w ≡ (err e, w')
      → (run_step cfg registry backoff jitter faults step run w).db
        ≡ record (w.db) { saga_runs = set_run run.id (verdict run e w'.now) w.db.saga_runs }
  unfolding run_step
  run_step-verdict registry faults step run e w w' up p =
      ap (λ x. (outcome cfg registry backoff jitter faults run x).db) p
      ∙ ap (λ v. v.db) (after_error-verdict registry faults run e w' up)
      ∙ ap {A = Db}
          (λ d. record d { saga_runs = set_run run.id (verdict run e w'.now) d.saga_runs })
          (execute_step-rolls_back faults step run w w' e p)

  verdict-Bounded :
      (run : SagaRun) (e : Err) (now : ℕ) (r : SagaRun)
      → r.step_attempts ≡ run.step_attempts
      → Bounded cfg (verdict run e now r)
  verdict-Bounded run e now r same = elim (Bool-cases (is_terminal e)) [
    | inl last ↦ inl (rw last)
    | inr again ↦ elim (Bool-cases (leb cfg.max_attempts (suc run.step_attempts))) [
      | inl spent ↦ inl (rw (again, spent))
      | inr left ↦ inr (rw (again, left) (ground arith))
    ]
  ]

  set_run-Bounded :
      (run : SagaRun) (e : Err) (now : ℕ) (rs : List SagaRun)
      → All (λ s. s.id ≡ run.id → s.step_attempts ≡ run.step_attempts) rs
      → All (λ s. s.id ≡ run.id → Bounded cfg s) (set_run run.id (verdict run e now) rs)
  unfolding set_run
  set_run-Bounded run e now =
      update_where-All (λ s. s.id ≡ run.id → s.step_attempts ≡ run.step_attempts)
        (λ s. s.id ≡ run.id → Bounded cfg s) (λ r. r.id == run.id) (verdict run e now)
        (λ r p h _. verdict-Bounded run e now r (h (==→eq r.id run.id p)))
        (λ r p h q. absurd (ground arith))

  -- When a step ends in an error and the update of its saga does not fail, the saga is failed or
  -- has attempts left, given that its row counts the attempts that the claimed run counts.
  pub run_step-Bounded :
      (registry : Registry) (faults : Faults) (step : Step) (run : SagaRun) (e : Err) (w w' : World)
      → faults.update_fails ≡ false
      → execute_step faults step run w ≡ (err e, w')
      → All (λ s. s.id ≡ run.id → s.step_attempts ≡ run.step_attempts) w.db.saga_runs
      → All
          (λ s. s.id ≡ run.id → Bounded cfg s)
          (run_step cfg registry backoff jitter faults step run w).db.saga_runs
  run_step-Bounded registry faults step run e w w' up p h =
      subst (λ d. All (λ s. s.id ≡ run.id → Bounded cfg s) d.saga_runs)
        (sym (run_step-verdict registry faults step run e w w' up p))
        (set_run-Bounded run e w'.now w.db.saga_runs h)
