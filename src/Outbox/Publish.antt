-- ===== src/Outbox/Publish.antt =====
-- `Publish` of internal/outbox/publisher.go: the row stands in the caller's transaction. The JSON of
-- the headers is kept as the map that it encodes.
use selatpay.Prelude.{ℕ, ◌+◌, Option, none, List, [], ◌∷◌, ◌++◌}
use selatpay.Prelude.Text.{Text, codes}
use selatpay.Db.Tables.{Uuid}
use selatpay.Db.Tx.{ok, OutboxRow, Tx, fail, message}

-- An empty payload becomes the JSON null.
unfoldable pub payload_or_null : Text → Text
payload_or_null [] = codes "null"
payload_or_null (c ∷ s) = c ∷ s

unfoldable pub new_row : Uuid → ℕ → Text → Option Uuid → Text → List (Text × Text) → OutboxRow
unfolding payload_or_null
new_row id now topic aggregate_id payload headers = record {
  id = id;
  topic = topic;
  aggregate_id = aggregate_id;
  payload = payload_or_null payload;
  headers = headers;
  next_attempt_at = now;
  delivered_at = none;
  attempts = 0;
  last_error = none;
}

unfoldable pub publish : Text → Option Uuid → Text → List (Text × Text) → Tx OutboxRow
unfolding new_row
publish [] aggregate_id payload headers = fail (message [])
publish (c ∷ topic) aggregate_id payload headers = λ w.
    let row = new_row w.next_id w.now (c ∷ topic) aggregate_id payload headers in
    (
      ok row,
      record w { db = record (w.db) { outbox = w.db.outbox ++ row ∷ [] }; next_id = w.next_id + 1 },
    )
