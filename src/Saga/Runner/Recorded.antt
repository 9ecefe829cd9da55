-- ===== src/Saga/Runner/Recorded.antt =====
-- The row of a saga whose step ended in an error, column by column.
use selatpay.Prelude.{
  ℕ, suc, ◌+◌, ◌≡◌, refl, sym, ◌∙◌, ap, inl, inr, Bool, true, false, ◌||◌, none, some, List, ◌==◌,
  leb, Bool-cases, find?, select, not,
}
use selatpay.Prelude.Int.{ℤ, pos, pos_part}
use selatpay.Db.Tables.{SagaState}
use selatpay.Db.Tx.{Err, err, World, SagaRun}
use selatpay.Saga.Backoff.{Backoff, delay}
use selatpay.Saga.Claim.{is_terminal, Step, Registry, Config, Faults, set_run}
use selatpay.Saga.Runner.{find_run, execute_step, run_step}
use selatpay.Saga.Runner.Failure.{verdict, run_step-verdict}
use selatpay.Saga.Runner.Progress.{other_runs, set_run-others, set_run-found}

-- The row `s` of a saga after an error, where `r` was its row: `over` says that it is given up, and
-- `next` when it is tried again.
abbrev pub Recorded : Bool → ℕ → Err → SagaRun → SagaRun → Type 0
Recorded true next e r s = s ≡ record {
  id = r.id;
  intent_id = r.intent_id;
  saga_kind = r.saga_kind;
  current_step = r.current_step;
  state = SagaState.failed;
  step_attempts = r.step_attempts;
  next_run_at = r.next_run_at;
  lease_owner = none;
  lease_until = none;
  last_error = some e;
}
Recorded false next e r s = s ≡ record {
  id = r.id;
  intent_id = r.intent_id;
  saga_kind = r.saga_kind;
  current_step = r.current_step;
  state = SagaState.pending;
  step_attempts = suc r.step_attempts;
  next_run_at = next;
  lease_owner = none;
  lease_until = none;
  last_error = some e;
}

module _ (cfg : Config) (backoff : Backoff) (jitter : ℤ → ℤ) where
  -- The error is terminal, or this attempt was the last.
  abbrev pub gives_up : SagaRun → Err → Bool
  gives_up run e = is_terminal e || leb cfg.max_attempts (suc run.step_attempts)

  abbrev pub retry_time : SagaRun → ℕ → ℕ
  retry_time run now = now + pos_part (delay jitter backoff (pos (suc run.step_attempts)))

  verdict-id :
      (run : SagaRun) (e : Err) (now : ℕ) (x : SagaRun)
      → (verdict cfg backoff jitter run e now x).id ≡ x.id
  verdict-id run e now x =
      elim (Bool-cases (is_terminal e || leb cfg.max_attempts (suc run.step_attempts))) [
        | inl over ↦ rw over
        | inr again ↦ rw again
      ]

  verdict-Recorded :
      (run : SagaRun) (e : Err) (now : ℕ) (r : SagaRun)
      → Recorded (gives_up run e) (retry_time run now) e r (verdict cfg backoff jitter run e now r)
  verdict-Recorded run e now r = elim (Bool-cases (gives_up run e)) [
    | inl over ↦ rw over refl
    | inr again ↦ rw again refl
  ]

  -- When a step ends in an error, the update of its saga does not fail and the saga has a row, then
  -- no table but saga_runs changes and in it no row of another saga; the saga is failed with its
  -- attempts kept if the error is terminal or the attempts are used up, else it is pending with one
  -- attempt more, to run after the backoff; either way its lease is gone and its error is stored.
  pub run_step-records :
      (registry : Registry) (faults : Faults) (step : Step) (run r : SagaRun) (e : Err)
      (w w' : World)
      → faults.update_fails ≡ false
      → execute_step faults step run w ≡ (err e, w')
      → find_run run.id w ≡ some r
      → let v : World = run_step cfg registry backoff jitter faults step run w in
        (s : SagaRun) × (v.db ≡ record (w.db) { saga_runs = v.db.saga_runs })
        × (find_run run.id v ≡ some s)
        × Recorded (gives_up run e) (retry_time run w'.now) e r s
        × (other_runs run.id v ≡ other_runs run.id w)
  run_step-records registry faults step run r e w w' up p there =
      let v : World = run_step cfg registry backoff jitter faults step run w in
      let f = verdict cfg backoff jitter run e w'.now in
      let saved : v.db ≡ record (w.db) { saga_runs = set_run run.id f w.db.saga_runs } =
        run_step-verdict cfg backoff jitter registry faults step run e w w' up p in
      let rows : v.db.saga_runs ≡ set_run run.id f w.db.saga_runs = ap (λ d. d.saga_runs) saved in
      (
        f r,
        saved ∙ ap {A = List SagaRun} (λ l. record (w.db) { saga_runs = l }) (sym rows),
        ap (λ l. find? (λ x. x.id == run.id) l) rows
            ∙ set_run-found run.id f w.db.saga_runs r (verdict-id run e w'.now) there,
        verdict-Recorded run e w'.now r,
        ap (λ l. select (λ x. not (x.id == run.id)) l) rows
            ∙ set_run-others run.id f w.db.saga_runs (verdict-id run e w'.now),
      )
