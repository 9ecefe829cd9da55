-- ===== src/Saga/Runner/Progress.antt =====
-- What a step that succeeds leaves in the tables (`executeStep` of internal/saga/runner.go).
use selatpay.Prelude.{
  ℕ, ◌≡◌, refl, sym, ◌∙◌, ap, subst, inl, inr, ◌⊎◌, true, false, not, none, some, List, [], ◌∷◌,
  ◌==◌, Bool-cases, find?, select, update_where, find?-update_where,
}
use selatpay.Prelude.Text.{Text}
use selatpay.Db.Tables.{Uuid, SagaState}
use selatpay.Db.Tx.{Err, ok, err, wrap, check_violation, World, SagaRun}
use selatpay.Ledger.Posting.{run_tx, entries_balanced}
use selatpay.Ledger.Posting.Atomic.{run_tx_ok}
use selatpay.Saga.Claim.{Step, Faults, set_run, update_run}
use selatpay.Saga.Runner.{
  advanced, completed_run, find_run, settle_run, step_body, committed, execute_step,
}
use selatpay.Saga.Runner.Outcome.{execute_step_begun}

-- The row `s` of a saga after its step, where `r` was its row: completed when the step named no other,
-- else pending at the step that was named, which may run at once and was not tried yet.
abbrev pub Progressed : Text → ℕ → SagaRun → SagaRun → Type 0
Progressed [] now r s = s ≡ record {
  id = r.id;
  intent_id = r.intent_id;
  saga_kind = r.saga_kind;
  current_step = r.current_step;
  state = SagaState.completed;
  step_attempts = r.step_attempts;
  next_run_at = r.next_run_at;
  lease_owner = none;
  lease_until = none;
  last_error = none;
}
Progressed (c ∷ next) now r s = s ≡ record {
  id = r.id;
  intent_id = r.intent_id;
  saga_kind = r.saga_kind;
  current_step = c ∷ next;
  state = SagaState.pending;
  step_attempts = 0;
  next_run_at = now;
  lease_owner = none;
  lease_until = none;
  last_error = none;
}

-- The rows of all sagas but one.
abbrev pub other_runs : Uuid → World → List SagaRun
other_runs id w = select (λ r. not (r.id == id)) w.db.saga_runs

pub set_run-others :
    (id : Uuid) (f : SagaRun → SagaRun) (rs : List SagaRun)
    → ((r : SagaRun) → (f r).id ≡ r.id)
    → select (λ r. not (r.id == id)) (set_run id f rs) ≡ select (λ r. not (r.id == id)) rs
unfolding set_run update_where select
set_run-others id f [] keeps = refl
set_run-others id f (r ∷ rs) keeps =
    let rest = set_run-others id f rs keeps in
    elim (Bool-cases (r.id == id)) [
      | inl hit ↦ rw (hit, keeps r, hit) rest
      | inr miss ↦ rw (miss, miss) (ap (λ l. r ∷ l) rest)
    ]

pub set_run-found :
    (id : Uuid) (f : SagaRun → SagaRun) (rs : List SagaRun) (r : SagaRun)
    → ((x : SagaRun) → (f x).id ≡ x.id)
    → find? (λ x. x.id == id) rs ≡ some r
    → find? (λ x. x.id == id) (set_run id f rs) ≡ some (f r)
unfolding set_run
set_run-found id f rs r keeps e =
    find?-update_where (λ x. x.id == id) f rs r (λ y h. ap (λ k. k == id) (keeps y) ∙ h) e

-- What the end of a step writes: `w'` is `v` but for the row of one saga.
abbrev pub Settled : Uuid → Text → SagaRun → World → World → Type 0
Settled id next r v w' =
    (s : SagaRun) × (w' ≡ record v { db = record (v.db) { saga_runs = w'.db.saga_runs } })
    × (find_run id w' ≡ some s)
    × Progressed next v.now r s
    × (other_runs id w' ≡ other_runs id v)

settle_run-Settled :
    (id : Uuid) (next : Text) (v : World) (r : SagaRun)
    → find_run id v ≡ some r
    → (s : SagaRun) × (w' : World) × (settle_run id next v ≡ (ok s, w')) × Settled id next r v w'
unfolding settle_run
settle_run-Settled id [] v r e = (
  completed_run r,
  update_run id completed_run v,
  rw (settle_run, e),
  (
    completed_run r,
    refl,
    set_run-found id completed_run v.db.saga_runs r (λ x. refl) e,
    refl,
    set_run-others id completed_run v.db.saga_runs (λ x. refl),
  ),
)
settle_run-Settled id (c ∷ next) v r e =
    let f = advanced (c ∷ next) v.now in
    (
      f r,
      update_run id f v,
      rw (settle_run, e),
      (
        f r,
        refl,
        set_run-found id f v.db.saga_runs r (λ x. refl) e,
        refl,
        set_run-others id f v.db.saga_runs (λ x. refl),
      ),
    )

module _ (faults : Faults) (step : Step) (run : SagaRun) (w v : World) (next : Text) (r : SagaRun)
    (begins : faults.begin_fails ≡ false) (advances : faults.advance_fails ≡ false)
    (commits : faults.commit_fails ≡ false) (ran : step.execute run w ≡ (ok next, v))
    (there : find_run run.id v ≡ some r) where
  step_body-Settled :
      (w' : World) × (step_body faults step run w ≡ (ok next, w')) × Settled run.id next r v w'
  unfolding step_body
  step_body-Settled =
      let (s, w', e, settled) = settle_run-Settled run.id next v r there in
      (w', rw (step_body, ran, advances, e), settled)

  -- Where no database call fails and the saga's row is there when the step is done, a step that
  -- succeeds commits if the postings that it leaves balance, entry by entry: every table is as the
  -- step left it, but that the saga is completed if the step named no other, else pending at the
  -- step that was named, with no attempt counted and due at once; no other saga's row changes. If
  -- the postings do not balance, the step ends in an error and every table is as before it.
  pub execute_step-progresses :
      (w' : World) × (((entries_balanced v.db.postings v.db.postings ≡ true)
          × (execute_step faults step run w ≡ (ok next, w'))
          × Settled run.id next r v w')
        ⊎ ((entries_balanced v.db.postings v.db.postings ≡ false)
            × (e : Err) × (execute_step faults step run w ≡ (err e, w'))
            × (w'.db ≡ w.db)))
  unfolding committed run_tx
  execute_step-progresses =
      let (w', body, settled) = step_body-Settled in
      let begun = execute_step_begun faults step run w begins in
      let books : w'.db.postings ≡ v.db.postings = ap (λ x. x.db.postings) settled.1 in
      elim (Bool-cases (entries_balanced v.db.postings v.db.postings)) [
        | inl even ↦
            let even' : entries_balanced w'.db.postings w'.db.postings ≡ true =
              subst (λ p. entries_balanced p p ≡ true) (sym books) even in
            (
              w',
              inl (
                even,
                begun
                    ∙ ap (committed faults w)
                        (run_tx_ok (step_body faults step run) w w' next body even')
                    ∙ rw (committed, commits),
                settled,
              ),
            )
        | inr odd ↦
            let odd' : entries_balanced w'.db.postings w'.db.postings ≡ false =
              subst (λ p. entries_balanced p p ≡ false) (sym books) odd in
            let failed : execute_step faults step run w
                ≡ (err (wrap check_violation), record w' { db = w.db }) =
              begun ∙ rw (run_tx, body, odd') in
            (record w' { db = w.db }, inr (odd, wrap check_violation, failed, refl))
      ]
