-- ===== src/Outbox/Dispatcher.antt =====
-- `drainOnce`, `computeBackoff` and `NewDispatcher` of internal/outbox/dispatcher.go, over the queries
-- of internal/db/sqlc/outbox.sql.go. The sender is a parameter that answers each message, the messages
-- that went out are kept in a list, and the clock stands still during a drain.
pub mod Claimed
pub mod Settles
pub mod Errors
use selatpay.Prelude.{
  ℕ, suc, ◌+◌, ◌-◌, ◌*◌, Bool, true, false, ◌&&◌, ◌||◌, Option, none, some, List, [], ◌∷◌, ◌++◌,
  ◌==◌, leb, if◌then◌else◌, find?, update_where, select, take,
}
use selatpay.Prelude.Text.{Text, codes, text_eq}
use selatpay.Prelude.Int.{ℤ, pos, pos_part, leb_ℤ}
use selatpay.Prelude.Keys.{has_key}
use selatpay.Prelude.Rows.{sort_by}
use selatpay.Db.Tables.{Uuid}
use selatpay.Db.Tx.{Err, Result, ok, err, no_rows, unavailable, message, wrap, World, Tx, OutboxRow}
use selatpay.Saga.Backoff.{doubling, clamp, draw_below}

pub record Message : Type 0 where
  pub id : Uuid
  pub topic : Text
  pub aggregate_id : Option Uuid
  pub payload : Text
  pub headers : List (Text × Text)
  pub attempts : ℕ

pub record DispatcherConfig : Type 0 where
  pub topic : Text
  pub poll_interval : ℤ
  pub idle_backoff : ℤ
  pub batch_size : ℤ
  pub max_attempts : ℤ
  pub backoff_base : ℤ
  pub backoff_max : ℤ
  pub lock_retry_every : ℤ

abbrev pub second : ℕ
second = 1000000000

abbrev or_default : ℤ → ℕ → ℤ
or_default value default = if leb_ℤ value (pos 0) then pos default else value

unfoldable pub with_defaults : DispatcherConfig → DispatcherConfig
with_defaults cfg = record {
  topic = cfg.topic;
  poll_interval = or_default cfg.poll_interval 200000000;
  idle_backoff = or_default cfg.idle_backoff (2 * second);
  batch_size = or_default cfg.batch_size 32;
  max_attempts = or_default cfg.max_attempts 12;
  backoff_base = or_default cfg.backoff_base second;
  backoff_max = or_default cfg.backoff_max (300 * second);
  lock_retry_every = or_default cfg.lock_retry_every (5 * second);
}

abbrev with_topic : Text → DispatcherConfig → Result DispatcherConfig
with_topic [] cfg = err (message (codes "outbox: topic is required"))
with_topic (c ∷ topic) cfg = ok cfg

-- `NewDispatcher`, for a pool and a sender that are given.
unfoldable pub new_dispatcher : DispatcherConfig → Result DispatcherConfig
unfolding with_defaults
new_dispatcher cfg = with_topic cfg.topic (with_defaults cfg)

-- `computeBackoff` at an attempt from 1 on: the loop doubles once for every attempt behind the first.
unfoldable pub compute_backoff : (ℤ → ℤ) → DispatcherConfig → ℕ → ℤ
unfolding doubling clamp draw_below
compute_backoff jitter cfg attempt =
    draw_below jitter
      (clamp (doubling (attempt - 1) cfg.backoff_base cfg.backoff_max) cfg.backoff_max)

-- A hundred years.
abbrev pub exhausted_delay : ℕ
exhausted_delay = 100 * 365 * 24 * 3600 * second

-- The delay behind a failed attempt.
unfoldable pub retry_delay : (ℤ → ℤ) → DispatcherConfig → ℕ → ℕ
unfolding compute_backoff
retry_delay jitter cfg attempt =
    if leb_ℤ cfg.max_attempts (pos attempt)
    then exhausted_delay
    else pos_part (compute_backoff jitter cfg attempt)

abbrev undelivered : Option ℕ → Bool
undelivered none = true
undelivered (some at) = false

-- The WHERE clause of ClaimDueOutbox.
unfoldable pub is_due : Text → ℕ → OutboxRow → Bool
is_due topic now r =
    text_eq r.topic topic && (undelivered r.delivered_at && leb r.next_attempt_at now)

unfoldable pub claim_due : Text → ℕ → ℕ → List OutboxRow → List OutboxRow
unfolding is_due sort_by
claim_due topic limit now rows =
    take limit (sort_by (λ r. r.next_attempt_at) (select (is_due topic now) rows))

abbrev pub outbox_id : OutboxRow → Uuid
outbox_id r = r.id

unfoldable pub find_row : Uuid → List OutboxRow → Option OutboxRow
find_row id = find? (has_key outbox_id ◌==◌ id)

unfoldable pub set_row : Uuid → (OutboxRow → OutboxRow) → List OutboxRow → List OutboxRow
set_row id f = update_where (has_key outbox_id ◌==◌ id) f

-- MarkOutboxDelivered and ScheduleOutboxRetry: what each sets.
abbrev pub delivered_row : ℕ → OutboxRow → OutboxRow
delivered_row now r = record r { delivered_at = some now; last_error = none }

abbrev pub retried_row : ℕ → Err → OutboxRow → OutboxRow
retried_row next e r = record r {
  attempts = suc r.attempts;
  next_attempt_at = next;
  last_error = some e;
}

-- The calls of a drain that may fail for a reason outside the model.
pub record DrainFaults : Type 0 where
  pub begin_fails : Bool
  pub claim_fails : Bool
  pub commit_fails : Bool
  pub update_fails : Uuid → Bool

abbrev row_updated : Uuid → (OutboxRow → OutboxRow) → Option OutboxRow → Tx (Unit {0})
row_updated id f none w = (err (wrap no_rows), w)
row_updated id f (some r) w =
    (ok tt, record w { db = record (w.db) { outbox = set_row id f w.db.outbox } })

unfoldable pub update_row : DrainFaults → Uuid → (OutboxRow → OutboxRow) → Tx (Unit {0})
unfolding find_row set_row
update_row faults id f w =
    if faults.update_fails id
    then (err (wrap unavailable), w)
    else row_updated id f (find_row id w.db.outbox) w

-- `toMessage`, where `decodes` says whether the headers column is JSON of the right shape.
unfoldable pub to_message : (OutboxRow → Bool) → OutboxRow → Option Message
to_message decodes r =
    if decodes r
    then some (record {
      id = r.id;
      topic = r.topic;
      aggregate_id = r.aggregate_id;
      payload = r.payload;
      headers = r.headers;
      attempts = r.attempts;
    })
    else none

-- What a drain goes through: its world, and the messages that it has sent.
abbrev pub Sending : Type 0
Sending = World × List Message

abbrev pub go_on :
    (Sending → Result (Unit {0}) × Sending)
    → Result (Unit {0}) × Sending
    → Result (Unit {0}) × Sending
go_on k (err e, s) = (err e, s)
go_on k (ok u, s) = k s

-- The end of the transaction: an error, the commit's too, leaves the tables as they were.
abbrev pub closed : DrainFaults → World → Result (Unit {0}) × Sending → Result Bool × Sending
closed faults w (err e, (w', sent)) = (err e, (record w' { db = w.db }, sent))
closed faults w (ok u, (w', sent)) =
    if faults.commit_fails
    then (err (wrap unavailable), (record w' { db = w.db }, sent))
    else (ok true, (w', sent))

module _ (jitter : ℤ → ℤ) (cfg : DispatcherConfig) where
  -- The row that an answer of the sender leaves.
  abbrev pub settled_by : ℕ → ℕ → Option Err → OutboxRow → OutboxRow
  settled_by now attempts none = delivered_row now
  settled_by now attempts (some e) = retried_row (now + retry_delay jitter cfg (suc attempts)) e

module _ (jitter : ℤ → ℤ) (cfg : DispatcherConfig) (decodes : OutboxRow → Bool)
    (send : Message → Option Err) (faults : DrainFaults) where
  unfoldable pub dispatch : OutboxRow → Option Message → Sending → Result (Unit {0}) × Sending
  unfolding retry_delay update_row
  dispatch r none (w, sent) = (ok tt, (w, sent))
  dispatch r (some msg) (w, sent) =
      let (result, w') =
        update_row faults r.id (settled_by jitter cfg w.now r.attempts (send msg)) w in
      (result, (w', sent ++ msg ∷ []))

  -- The loop over the claimed rows.
  unfoldable pub drain_rows : List OutboxRow → Sending → Result (Unit {0}) × Sending
  unfolding dispatch to_message
  drain_rows [] s = (ok tt, s)
  drain_rows (r ∷ rs) s = go_on (drain_rows rs) (dispatch r (to_message decodes r) s)

  abbrev pub drain_batch : List OutboxRow → Sending → Result Bool × Sending
  drain_batch [] s = (ok false, s)
  drain_batch (r ∷ rs) s = closed faults s.0 (drain_rows (r ∷ rs) s)

  -- `drainOnce`: whether there was work.
  unfoldable pub drain_once : Sending → Result Bool × Sending
  unfolding drain_rows claim_due
  drain_once s =
      if faults.begin_fails || faults.claim_fails
      then (err (wrap unavailable), s)
      else drain_batch (claim_due cfg.topic (pos_part cfg.batch_size) s.0.now s.0.db.outbox) s
