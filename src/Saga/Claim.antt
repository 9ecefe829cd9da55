-- ===== src/Saga/Claim.antt =====
-- The registry of internal/saga/types.go, and the claim of internal/saga/runner.go over the query
-- ClaimDueSagaRun of internal/db/sqlc/saga_runs.sql.go.
pub mod Locked
pub mod Lease
pub mod Rows
pub mod Exclusion
use selatpay.Prelude.{
  ℕ, suc, ◌+◌, Bool, true, false, ◌&&◌, ◌||◌, Option, none, some, List, [], ◌∷◌, ◌==◌, ltb, leb,
  if◌then◌else◌, find?, update_where, select, not,
}
use selatpay.Prelude.Text.{Text, text_eq}
use selatpay.Prelude.Int.{ℤ, pos, pos_part}
use selatpay.Db.Tables.{Uuid, SagaState}
use selatpay.Db.Tx.{
  Err, Result, ok, err, no_rows, unknown_step, unavailable, wrap, terminal, Db, World, SagaRun, Tx,
  pure, fail, catch, guard, ◌>>=◌, ◌>>◌,
}
use selatpay.Ledger.Posting.{run_tx}
use selatpay.Saga.Backoff.{Backoff, delay}

-- `isTerminal`: `errors.As` walks the chain of wrapped errors.
unfoldable pub is_terminal : Err → Bool
is_terminal (terminal e) = true
is_terminal (wrap e) = is_terminal e
is_terminal _ = false

pub record Step : Type 0 where
  pub name : Text
  pub execute : SagaRun → Tx Text

-- `map[string]Step`, one entry to a name.
abbrev pub Registry : Type 0
Registry = List (Text × Step)

unfoldable pub set_step : Text → Step → Registry → Registry
set_step k v [] = (k, v) ∷ []
set_step k v ((j, u) ∷ m) = if text_eq j k then (j, v) ∷ m else (j, u) ∷ set_step k v m

add_steps : List Step → Registry → Registry
unfolding set_step
add_steps [] m = m
add_steps (s ∷ ss) m = add_steps ss (set_step s.name s m)

unfoldable pub new_registry : List Step → Registry
unfolding add_steps
new_registry steps = add_steps steps []

unfoldable pub get_step : Registry → Text → Option Step
get_step [] name = none
get_step ((k, v) ∷ m) name = if text_eq k name then some v else get_step m name

-- The fields of `Config` that the runner reads; a duration is a number of nanoseconds.
pub record Config : Type 0 where
  pub owner : Text
  pub lease_duration : ℕ
  pub max_attempts : ℕ

-- The database calls of a tick that may fail for a reason outside the model, one flag for each, and
-- the sagas whose rows other transactions hold locked as the claim runs.
pub record Faults : Type 0 where
  pub locked : Uuid → Bool
  pub claim_fails : Bool
  pub begin_fails : Bool
  pub advance_fails : Bool
  pub commit_fails : Bool
  pub update_fails : Bool

abbrev pub is_open : SagaState → Bool
is_open SagaState.pending = true
is_open SagaState.running = true
is_open SagaState.completed = false
is_open SagaState.failed = false

abbrev pub lease_over : ℕ → Option ℕ → Bool
lease_over now none = true
lease_over now (some until) = ltb until now

-- The WHERE clause of ClaimDueSagaRun.
unfoldable pub is_due : ℕ → SagaRun → Bool
is_due now r = is_open r.state && (leb r.next_run_at now && lease_over now r.lease_until)

abbrev earlier : SagaRun → Option SagaRun → Option SagaRun
earlier r none = some r
earlier r (some s) = if leb r.next_run_at s.next_run_at then some r else some s

-- ORDER BY next_run_at LIMIT 1.
unfoldable pub first_due : ℕ → List SagaRun → Option SagaRun
first_due now [] = none
first_due now (r ∷ rs) =
    let rest = first_due now rs in if is_due now r then earlier r rest else rest

abbrev pub leased : Text → ℕ → SagaRun → SagaRun
leased owner until r = record r {
  state = SagaState.running;
  lease_owner = some owner;
  lease_until = some until;
}

-- `UPDATE saga_runs SET ... WHERE id = $1`.
unfoldable pub set_run : Uuid → (SagaRun → SagaRun) → List SagaRun → List SagaRun
set_run id f = update_where (λ r. r.id == id) f

abbrev pub update_run : Uuid → (SagaRun → SagaRun) → World → World
update_run id f w = record w { db = record (w.db) { saga_runs = set_run id f w.db.saga_runs } }

-- FOR UPDATE SKIP LOCKED.
abbrev pub unlocked : Faults → List SagaRun → List SagaRun
unlocked faults rs = select (λ r. not (faults.locked r.id)) rs

abbrev pub claim_first : Config → Option SagaRun → World → Result SagaRun × World
claim_first cfg none w = (err no_rows, w)
claim_first cfg (some r) w =
    let f = leased cfg.owner (w.now + cfg.lease_duration) in (ok (f r), update_run r.id f w)

-- `claim`: one statement, so one transaction of its own.
unfoldable pub claim : Config → Faults → World → Result SagaRun × World
claim cfg faults w =
    if faults.claim_fails
    then (err unavailable, w)
    else claim_first cfg (first_due w.now (unlocked faults w.db.saga_runs)) w
