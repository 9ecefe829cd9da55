-- ===== src/Outbox/Dispatcher/Claimed.antt =====
-- The rows that a drain claims.
use selatpay.Prelude.{◌≡◌, some, ◌==◌, ==→eq, ==_self, All, select}
use selatpay.Prelude.Int.{pos_part}
use selatpay.Prelude.Keys.{Distinct}
use selatpay.Prelude.Rows.{
  sort_by, select-All, take-All, sort_by-All, Distinct-select, Distinct-take, Distinct-sort_by,
  self-found,
}
use selatpay.Db.Tx.{World, OutboxRow}
use selatpay.Outbox.Dispatcher.{DispatcherConfig, is_due, claim_due, outbox_id, find_row}

abbrev pub Found : World → OutboxRow → Type 0
Found w r = find_row r.id w.db.outbox ≡ some r

module _ (cfg : DispatcherConfig) where
  -- The keys of the claimed rows are distinct where those of the table are.
  pub claim_due-Distinct :
      (w : World)
      → Distinct outbox_id ◌==◌ w.db.outbox
      → Distinct outbox_id ◌==◌ (claim_due cfg.topic (pos_part cfg.batch_size) w.now w.db.outbox)
  unfolding claim_due
  claim_due-Distinct w d =
      let due = select (is_due cfg.topic w.now) w.db.outbox in
      let by_time = λ (r : OutboxRow). r.next_attempt_at in
      Distinct-take outbox_id ◌==◌ ==→eq ==_self (pos_part cfg.batch_size) (sort_by by_time due) (
        Distinct-sort_by outbox_id ◌==◌ ==→eq ==_self by_time due
          (Distinct-select outbox_id ◌==◌ ==→eq ==_self (is_due cfg.topic w.now) w.db.outbox d))

  -- Each is found in the table.
  pub claim_due-Found :
      (w : World)
      → Distinct outbox_id ◌==◌ w.db.outbox
      → All (Found w) (claim_due cfg.topic (pos_part cfg.batch_size) w.now w.db.outbox)
  unfolding claim_due find_row
  claim_due-Found w d =
      let due = select (is_due cfg.topic w.now) w.db.outbox in
      let by_time = λ (r : OutboxRow). r.next_attempt_at in
      take-All (Found w) (pos_part cfg.batch_size) (sort_by by_time due) (
        sort_by-All (Found w) by_time due (
          select-All (Found w) (is_due cfg.topic w.now) w.db.outbox
            (self-found outbox_id ◌==◌ ==→eq ==_self w.db.outbox d)))
