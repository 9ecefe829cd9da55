-- ===== src/Tests/Deliveries.antt =====
-- A drain of two messages.
use selatpay.Prelude.{
  ℕ, ◌+◌, ◌≡◌, refl, true, false, Bool, none, some, Option, [], ◌∷◌, ◌==◌, find?, select,
  update_where,
}
use selatpay.Prelude.Text.{codes, text_eq}
use selatpay.Prelude.Int.{ℤ, pos}
use selatpay.Prelude.Rows.{insert_by, sort_by}
use selatpay.Db.Tables.{Uuid}
use selatpay.Db.Tx.{Err, Result, ok, err, World, OutboxRow, unavailable, wrap}
use selatpay.Outbox.Dispatcher.{
  Message, DispatcherConfig, DrainFaults, is_due, claim_due, find_row, retry_delay, to_message,
  Sending, drain_rows, dispatch, update_row, drain_once,
}
use selatpay.Outbox.Dispatcher.Settles.{drain_once_lem}
use selatpay.Outbox.Dispatcher.Errors.{drain_once-rolls_back}
use selatpay.Tests.Books.{books}

abbrev config : DispatcherConfig
config = record {
  topic = codes "events";
  poll_interval = pos 0;
  idle_backoff = pos 0;
  batch_size = pos 10;
  max_attempts = pos 3;
  backoff_base = pos 1000;
  backoff_max = pos 8000;
  lock_retry_every = pos 0;
}

abbrev row : Uuid → ℕ → ℕ → OutboxRow
row id due attempts = record {
  id = id;
  topic = codes "events";
  aggregate_id = none;
  payload = codes "{}";
  headers = [];
  next_attempt_at = due;
  delivered_at = none;
  attempts = attempts;
  last_error = none;
}

abbrev world : World
world = record books {
  db = record (books.db) { outbox = row 1 900 0 ∷ row 2 800 2 ∷ row 3 2000 0 ∷ [] };
}

abbrev halving : ℤ → ℤ
halving z = pos 500

abbrev only_first : Message → Option Err
only_first msg = elim (msg.id == 1) [ true ↦ none | false ↦ some unavailable ]

abbrev faults : Bool → DrainFaults
faults commit = record {
  begin_fails = false;
  claim_fails = false;
  commit_fails = commit;
  update_fails = λ id. false;
}

abbrev drain : Bool → Result Bool × Sending
drain commit = drain_once halving config (λ r. true) only_first (faults commit) (world, [])

abbrev told : Uuid → ℕ → Message
told id attempts = record {
  id = id;
  topic = codes "events";
  aggregate_id = none;
  payload = codes "{}";
  headers = [];
  attempts = attempts;
}

-- The third attempt of the second row is its last.
drain_once_lem_example :
    ((drain false).0 ≡ ok true)
    × (find_row 2 (drain false).1.0.db.outbox
        ≡ some (record (row 2 800 2) {
          attempts = 3;
          next_attempt_at = 1000 + 3153600000000000000;
          last_error = some unavailable;
        }))
    × ((drain false).1.1 ≡ told 2 2 ∷ told 1 0 ∷ [])
unfolding claim_due is_due text_eq select sort_by insert_by find_row find? to_message retry_delay
drain_once_lem_example =
    drain_once_lem halving config (λ r. true) only_first (faults false) (λ id. refl) 2 world []
      (refl, (refl, (refl, tt))) refl refl refl

commit-fails : (drain true).0 ≡ err (wrap unavailable)
unfolding drain_once claim_due is_due text_eq select sort_by insert_by drain_rows dispatch
    update_row find_row find? to_message update_where
commit-fails = refl

drain_once-rolls_back_example : (drain true).1.0.db ≡ world.db
drain_once-rolls_back_example =
    drain_once-rolls_back halving config (λ r. true) only_first (faults true) (wrap unavailable)
      (world, []) commit-fails
