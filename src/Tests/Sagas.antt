-- ===== src/Tests/Sagas.antt =====
-- The saga runner and the payout step at concrete inputs: one saga, one worker, one rail.
use selatpay.Prelude.{
  ◌+◌, ◌≡◌, ◌≢◌, refl, true, false, none, some, [], ◌∷◌, update_where, All, arith, ◌⊎◌, ◌==◌, find?,
  select,
}
use selatpay.Prelude.Text.{codes}
use selatpay.Prelude.Int.{ℤ, pos}
use selatpay.Db.Tables.{SagaState}
use selatpay.Db.Tx.{Err, ok, err, no_rows, World, SagaRun, message, wrap}
use selatpay.Saga.Backoff.{Backoff}
use selatpay.Saga.Claim.{
  Config, Faults, Step, claim, update_run, leased, set_run, is_due, first_due,
}
use mathlib.Core.List.{Mem}
use selatpay.Saga.Claim.Lease.{NoneBefore, under_lease, claim_lem}
use selatpay.Saga.Claim.Rows.{Rows}
use selatpay.Saga.Claim.Exclusion.{Leased, still, others, claim_excludes}
use selatpay.Saga.Runner.{execute_step, find_run, step_body, run_step}
use selatpay.Saga.Runner.Progress.{Settled, other_runs, execute_step-progresses}
use selatpay.Saga.Runner.Recorded.{Recorded, gives_up, retry_time, run_step-records}
use selatpay.Ledger.Posting.{entries_balanced, run_tx}
use selatpay.Tests.Books.{books}

abbrev pub saga : SagaRun
saga = record {
  id = 1;
  intent_id = 7;
  saga_kind = codes "settlement";
  current_step = codes "trigger_payout";
  state = SagaState.pending;
  step_attempts = 1;
  next_run_at = 900;
  lease_owner = none;
  lease_until = none;
  last_error = none;
}

-- A saga of another worker, whose lease runs out first.
abbrev held : SagaRun
held = record saga { id = 2; state = SagaState.running; next_run_at = 800; lease_until = some 1200 }

abbrev world : World
world = record books { db = record (books.db) { saga_runs = held ∷ saga ∷ [] } }

abbrev pub cfg : Config
cfg = record { owner = codes "worker-1"; lease_duration = 500; max_attempts = 3 }

abbrev pub healthy : Faults
healthy = record {
  locked = λ id. false;
  claim_fails = false;
  begin_fails = false;
  advance_fails = false;
  commit_fails = false;
  update_fails = false;
}

abbrev claimed : World
claimed = update_run 1 (leased cfg.owner 1500) world

world-claimed : claim cfg healthy world ≡ (ok (leased cfg.owner 1500 saga), claimed)
unfolding claim first_due is_due select
world-claimed = refl

claim_lem_example :
    ((claim cfg healthy world ≡ (err no_rows, world))
      × All (λ x. healthy.locked x.id ≡ false → is_due 1000 x ≡ false) world.db.saga_runs)
    ⊎ ((s : SagaRun) × Mem s world.db.saga_runs
        × (healthy.locked s.id ≡ false)
        × (is_due 1000 s ≡ true)
        × NoneBefore healthy s world
        × (let lease : SagaRun → SagaRun = under_lease cfg.owner (1000 + 500) in
            claim cfg healthy world ≡ (
              ok (lease s),
              record world {
                db = record (world.db) {
                  saga_runs = update_where (λ x. x.id == s.id) lease world.db.saga_runs;
                };
              },
            )))
claim_lem_example = claim_lem cfg healthy world refl

-- A second claim takes the other saga as the lease of the first runs out, and leaves it no saga.
abbrev later : World
later = record claimed { now = 1500 }

abbrev reclaimed : World
reclaimed = update_run 2 (leased cfg.owner 2000) later

later-claimed : claim cfg healthy later ≡ (ok (leased cfg.owner 2000 held), reclaimed)
unfolding claim first_due is_due set_run update_where select
later-claimed = refl

claim_excludes_example :
    (held.id ≢ saga.id) × Rows saga.id (Leased cfg.owner (1000 + 500)) reclaimed
claim_excludes_example =
    claim_excludes cfg cfg healthy healthy world claimed later reclaimed
      (leased cfg.owner 1500 saga) (leased cfg.owner 2000 held) world-claimed
      (others still (λ P h. h)) (omega arith) later-claimed

-- A step that names the next one, and one that fails after it has written.
abbrev good_step : Step
good_step = record {
  name = codes "trigger_payout";
  execute = λ run w. (ok (codes "apply_payout_result"), w);
}

abbrev pub bad_step : Step
bad_step = record {
  name = codes "trigger_payout";
  execute = λ run w. (err (message []), record w { db = record (w.db) { saga_runs = [] } });
}

even : entries_balanced world.db.postings world.db.postings ≡ true
unfolding entries_balanced
even = refl

saga-found : find_run 1 world ≡ some saga
unfolding find?
saga-found = refl

execute_step-progresses_example :
    (w' : World) × (((entries_balanced world.db.postings world.db.postings ≡ true)
        × (execute_step healthy good_step saga world ≡ (ok (codes "apply_payout_result"), w'))
        × Settled 1 (codes "apply_payout_result") saga world w')
      ⊎ ((entries_balanced world.db.postings world.db.postings ≡ false)
          × (e : Err) × (execute_step healthy good_step saga world ≡ (err e, w'))
          × (w'.db ≡ world.db)))
execute_step-progresses_example =
    execute_step-progresses healthy good_step saga world world (codes "apply_payout_result") saga
      refl refl refl refl saga-found

bad_step-done : execute_step healthy bad_step saga world ≡ (err (wrap (message [])), world)
unfolding execute_step run_tx step_body
bad_step-done = refl

abbrev pub backoff : Backoff
backoff = record { base = pos 100; max = pos 1000 }

abbrev pub lowest : ℤ → ℤ
lowest n = pos 0

run_step-records_example :
    let v : World = run_step cfg [] backoff lowest healthy bad_step saga world in
    (s : SagaRun) × (v.db ≡ record (world.db) { saga_runs = v.db.saga_runs })
    × (find_run 1 v ≡ some s)
    × Recorded
        (gives_up cfg backoff lowest saga (wrap (message [])))
        (retry_time cfg backoff lowest saga 1000)
        (wrap (message []))
        saga
        s
    × (other_runs 1 v ≡ other_runs 1 world)
run_step-records_example =
    run_step-records cfg backoff lowest [] healthy bad_step saga saga (wrap (message [])) world
      world refl bad_step-done saga-found
