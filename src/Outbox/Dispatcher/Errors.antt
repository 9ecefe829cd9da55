-- ===== src/Outbox/Dispatcher/Errors.antt =====
-- What a drain that ends in an error leaves.
use selatpay.Prelude.{◌≡◌, refl, Bool, ◌||◌, Option, List, [], ◌∷◌, inl, inr, Bool-cases}
use selatpay.Prelude.Int.{ℤ, pos_part}
use selatpay.Db.Tx.{Err, Result, ok, err, World, OutboxRow}
use selatpay.Outbox.Dispatcher.{
  Message, DispatcherConfig, claim_due, DrainFaults, Sending, closed, drain_rows, drain_batch,
  drain_once,
}

closed-err :
    (faults : DrainFaults) (w : World) (e : Err) (res : Result (Unit {0}) × Sending)
    → (closed faults w res).0 ≡ err e
    → (closed faults w res).1.0.db ≡ w.db
closed-err faults w e (err x, s) h = refl
closed-err faults w e (ok u, s) h = elim (Bool-cases faults.commit_fails) [
  | inl fails ↦ rw fails refl
  | inr works ↦ let done = rw works at h in absurd (cc)
]

module _ (jitter : ℤ → ℤ) (cfg : DispatcherConfig) (decodes : OutboxRow → Bool)
    (send : Message → Option Err) (faults : DrainFaults) (e : Err) (s : Sending) where
  drain_batch-err :
      (rows : List OutboxRow)
      → (drain_batch jitter cfg decodes send faults rows s).0 ≡ err e
      → (drain_batch jitter cfg decodes send faults rows s).1.0.db ≡ s.0.db
  drain_batch-err [] h = absurd (cc)
  drain_batch-err (r ∷ rs) h =
      closed-err faults s.0 e (drain_rows jitter cfg decodes send faults (r ∷ rs) s) h

  -- A drain that returns an error, whichever call failed and however many messages went out before,
  -- leaves every table as it was.
  pub drain_once-rolls_back :
      (drain_once jitter cfg decodes send faults s).0 ≡ err e
      → (drain_once jitter cfg decodes send faults s).1.0.db ≡ s.0.db
  unfolding drain_once
  drain_once-rolls_back h = elim (Bool-cases (faults.begin_fails || faults.claim_fails)) [
    | inl fails ↦ rw fails refl
    | inr works ↦ rw works (
        drain_batch-err (claim_due cfg.topic (pos_part cfg.batch_size) s.0.now s.0.db.outbox)
          (rw works at h))
  ]
