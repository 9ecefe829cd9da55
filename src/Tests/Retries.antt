-- ===== src/Tests/Retries.antt =====
-- A saga at its last attempt.
use selatpay.Prelude.{◌+◌, ◌≡◌, ◌≤◌, refl, [], ◌∷◌, arith, select}
use selatpay.Db.Tables.{SagaState}
use selatpay.Db.Tx.{ok, err, World, SagaRun, message, wrap}
use selatpay.Saga.Claim.{claim, update_run, leased, is_due, first_due}
use selatpay.Saga.Runner.{execute_step, step_body, run_step}
use selatpay.Saga.Runner.Exhaustion.{Trials, before, trial, Trials-end}
use selatpay.Saga.Claim.Rows.{Rows}
use selatpay.Ledger.Posting.{run_tx}
use selatpay.Tests.Books.{books}
use selatpay.Tests.Sagas.{saga, cfg, healthy, bad_step, backoff, lowest}

abbrev last_try : SagaRun
last_try = record saga { step_attempts = 2 }

abbrev world : World
world = record books { db = record (books.db) { saga_runs = last_try ∷ [] } }

abbrev run : SagaRun
run = leased cfg.owner 1500 last_try

abbrev claimed : World
claimed = update_run 1 (leased cfg.owner 1500) world

world-claimed : claim cfg healthy world ≡ (ok run, claimed)
unfolding claim first_due is_due select
world-claimed = refl

step-fails : execute_step healthy bad_step run claimed ≡ (err (wrap (message [])), claimed)
unfolding execute_step run_tx step_body
step-fails = refl

abbrev over : World
over = run_step cfg [] backoff lowest healthy bad_step run claimed

tried_once : Trials cfg [] backoff lowest 1 1 world over
tried_once =
    trial cfg.owner healthy bad_step run (wrap (message [])) (before (λ P h. h)) world-claimed refl
      refl step-fails (λ P h. h)

Trials-end_example : (1 + 2 ≤ 3) × (1 + 2 ≡ 3 → Rows 1 (λ r. r.state ≡ SagaState.failed) over)
Trials-end_example =
    Trials-end cfg [] backoff lowest 1 2 tried_once ((λ same. refl), tt) (omega arith)
