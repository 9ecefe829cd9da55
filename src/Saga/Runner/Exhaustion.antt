-- ===== src/Saga/Runner/Exhaustion.antt =====
-- How often a step of one saga is tried.
use selatpay.Prelude.{
  ℕ, suc, ◌+◌, ◌<◌, ◌≤◌, ◌≡◌, refl, sym, ap, ◌∙◌, subst, true, false, ◌||◌, ◌⊎◌, inl, inr, leb,
  arith, All, Bool-cases,
}
use selatpay.Prelude.Text.{Text}
use selatpay.Prelude.Int.{ℤ}
use selatpay.Db.Tables.{Uuid, SagaState}
use selatpay.Db.Tx.{Err, ok, err, World, SagaRun}
use selatpay.Saga.Backoff.{Backoff}
use selatpay.Saga.Claim.{
  is_terminal, is_due, leased, Step, Registry, Config, Faults, set_run, claim, unlocked,
}
use selatpay.Saga.Claim.Rows.{Rows, Keeps, set_run-Rows, unlocked-Rows}
use selatpay.Saga.Claim.Lease.{first_due-All, claim_picks}
use selatpay.Saga.Runner.{execute_step, run_step}
use selatpay.Saga.Runner.Failure.{verdict, run_step-verdict}

failed_not_due : (now : ℕ) (r : SagaRun) → r.state ≡ SagaState.failed → ¬ (is_due now r ≡ true)
unfolding is_due
failed_not_due now r e due = let shut = rw e at due in absurd (cc)

module _ (cfg : Config) (registry : Registry) (backoff : Backoff) (jitter : ℤ → ℤ) (id : Uuid) where
  -- `n` trials of the saga, each claimed, ended in an error, and recorded.
  pub data Trials : ℕ → World → World → Type 1 where
    before : {w v : World} → Keeps id w v → Trials 0 w v
    trial :
        {n : ℕ} {w u x y v : World} (owner : Text) (faults : Faults) (step : Step) (run : SagaRun)
        (e : Err)
        → Trials n w u
        → claim (record cfg { owner = owner }) faults u ≡ (ok run, x)
        → run.id ≡ id
        → faults.update_fails ≡ false
        → execute_step faults step run x ≡ (err e, y)
        → Keeps id
            (run_step (record cfg { owner = owner }) registry backoff jitter faults step run x)
            v
        → Trials (suc n) w v

  abbrev Failed : SagaRun → Type 0
  Failed r = r.state ≡ SagaState.failed

  abbrev Tried : ℕ → SagaRun → Type 0
  Tried a r = r.step_attempts ≡ a

  -- The saga is failed, or was tried `a` times, and that is less than it may be.
  abbrev Within : ℕ → World → Type 0
  Within a w = Rows id Failed w ⊎ (Rows id (Tried a) w × (a < cfg.max_attempts))

  kept : (a : ℕ) (w v : World) → Keeps id w v → Within a w → Within a v
  kept a w v keeps (inl over) = inl (keeps Failed over)
  kept a w v keeps (inr (h, left)) = inr (keeps (Tried a) h, left)

  verdict-Within :
      (a : ℕ) (run : SagaRun) (e : Err) (now : ℕ) (w v : World)
      → run.id ≡ id
      → run.step_attempts ≡ a
      → Rows id (Tried a) w
      → v.db.saga_runs ≡ set_run run.id (verdict cfg backoff jitter run e now) w.db.saga_runs
      → Within (suc a) v
  verdict-Within a run e now w v same counted h saved =
      let f = verdict cfg backoff jitter run e now in
      let saved' : v.db.saga_runs ≡ set_run id f w.db.saga_runs =
        saved ∙ ap (λ k. set_run k f w.db.saga_runs) same in
      elim (Bool-cases (is_terminal e || leb cfg.max_attempts (suc run.step_attempts))) [
        | inl over ↦ inl (
            subst (λ rs. All (λ r. r.id ≡ id → Failed r) rs) (sym saved')
              (set_run-Rows id (Tried a) Failed f w.db.saga_runs (λ r t. rw over refl) h))
        | inr again ↦ inr (
          subst (λ rs. All (λ r. r.id ≡ id → Tried (suc a) r) rs) (sym saved')
              (set_run-Rows id (Tried a) (Tried (suc a)) f w.db.saga_runs
                (λ r t. rw again (ap suc t)) h),
          ground arith,
        )
      ]

  -- The row that a claim takes is not failed, and is tried as often as the rows say.
  claimed-Tried :
      (a : ℕ) (owner : Text) (faults : Faults) (w x : World) (run : SagaRun)
      → claim (record cfg { owner = owner }) faults w ≡ (ok run, x)
      → run.id ≡ id
      → Within a w
      → (run.step_attempts ≡ a) × Rows id (Tried a) x × (a < cfg.max_attempts)
  claimed-Tried a owner faults w x run e same within =
      let (s, picked, leased_so, moved) =
        claim_picks (record cfg { owner = owner }) faults w x run e in
      let ours : s.id ≡ id = sym (ap (λ r. r.id) leased_so) ∙ same in
      let f = leased owner (w.now + cfg.lease_duration) in
      elim within [
        | inl over ↦
            let (failed, due) =
              first_due-All (λ r. r.id ≡ id → Failed r) w.now (unlocked faults w.db.saga_runs) s
                (unlocked-Rows id Failed faults w over) picked in
            absurd (failed_not_due w.now s (failed ours) due)
        | inr (h, left) ↦
            let (tried, due) =
              first_due-All (λ r. r.id ≡ id → Tried a r) w.now (unlocked faults w.db.saga_runs) s
                (unlocked-Rows id (Tried a) faults w h) picked in
            (
              ap (λ r. r.step_attempts) leased_so ∙ tried ours,
              subst (λ v. Rows id (Tried a) v) (sym moved)
                  (subst (λ k. All (λ r. r.id ≡ id → Tried a r) (set_run k f w.db.saga_runs))
                    (sym ours) (set_run-Rows id (Tried a) (Tried a) f w.db.saga_runs (λ r t. t) h)),
              left,
            )
      ]

  Trials-Within :
      {n : ℕ} {w v : World} (a : ℕ)
      → Trials n w v
      → Rows id (Tried a) w
      → a < cfg.max_attempts
      → Within (n + a) v × (n + a ≤ cfg.max_attempts)
  Trials-Within a (before {w} {v} keeps) h left =
      let none_yet : a ≡ 0 + a = omega arith in
      subst (λ k. Within k v × (k ≤ cfg.max_attempts)) none_yet
        (inr (keeps (Tried a) h, left), omega arith)
  Trials-Within a
        (trial {n} {w} {u} {x} {y} {v} owner faults step run e t claimed same up failed keeps) h
        left =
      let (within, _) = Trials-Within a t h left in
      let (counted, rows, under) = claimed-Tried (n + a) owner faults u x run claimed same within in
      let saved =
        run_step-verdict (record cfg { owner = owner }) backoff jitter registry faults step run e x
          y up failed in
      let w' = run_step (record cfg { owner = owner }) registry backoff jitter faults step run x in
      let one_more : suc (n + a) ≡ suc n + a = omega arith in
      let verdict_kept =
        verdict-Within (n + a) run e y.now x w' same counted rows (ap (λ d. d.saga_runs) saved) in
      subst (λ k. Within k v × (k ≤ cfg.max_attempts)) one_more
        (kept (suc (n + a)) w' v keeps verdict_kept, under)

  -- A saga whose step was tried `a` times, fewer than max_attempts, is tried at most max_attempts -
  -- a times more, whatever workers try it, whichever of their other calls fail, and whatever others
  -- do in between, as long as they leave its rows and every update of its row is made; and when the
  -- attempts are used up the saga is failed.
  pub Trials-end :
      {n : ℕ} {w v : World} (a : ℕ)
      → Trials n w v
      → Rows id (Tried a) w
      → a < cfg.max_attempts
      → (n + a ≤ cfg.max_attempts) × (n + a ≡ cfg.max_attempts → Rows id Failed v)
  Trials-end {n} a t h left =
      let (within, bounded) = Trials-Within a t h left in
      (bounded, λ full. elim within [ inl over ↦ over | inr (tried, under) ↦ absurd (omega arith) ])
