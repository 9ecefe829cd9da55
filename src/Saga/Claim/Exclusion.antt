-- ===== src/Saga/Claim/Exclusion.antt =====
-- A lease against the other workers' claims, over histories.
use selatpay.Prelude.{
  ℕ, ◌+◌, ◌≤◌, ◌≡◌, ◌≢◌, refl, sym, ◌∙◌, ap, subst, inl, inr, false, some, arith, Bool-cases,
  Option-cases, All-map, All-units,
}
use selatpay.Prelude.Text.{Text}
use selatpay.Db.Tables.{Uuid}
use selatpay.Db.Tx.{Result, ok, World, SagaRun}
use selatpay.Saga.Claim.{Config, Faults, claim_first, is_due, first_due, leased, claim, unlocked}
use selatpay.Saga.Claim.Lease.{first_due-All, claim_picks}
use selatpay.Saga.Claim.Rows.{Rows, Keeps, set_run-Rows, set_run-Rows_other, unlocked-Rows}

-- What may come while the lease of a saga runs, until a given time: claims of any workers, whatever
-- they take, and anything else, the passing of time included, that leaves the rows of the saga.
pub data Meanwhile (id : Uuid) (until : ℕ) : World → World → Type 1 where
  still : {w : World} → Meanwhile id until w w
  claims :
      {w u v : World} {x : Result SagaRun} (cfg : Config) (faults : Faults)
      → Meanwhile id until w u
      → u.now ≤ until
      → claim cfg faults u ≡ (x, v)
      → Meanwhile id until w v
  others : {w u v : World} → Meanwhile id until w u → Keeps id u v → Meanwhile id until w v

-- A row under one worker's lease.
abbrev pub Leased : Text → ℕ → SagaRun → Type 0
Leased owner until r = (r.lease_owner ≡ some owner) × (r.lease_until ≡ some until)

Leased-not_due :
    (owner : Text) (until now : ℕ) (r : SagaRun)
    → now ≤ until
    → Leased owner until r
    → is_due now r ≡ false
unfolding is_due
Leased-not_due owner until now r h (_, e) = ground (arith, h, e)

module _ (id : Uuid) (owner : Text) (until : ℕ) where
  abbrev Held : World → Type 0
  Held w = Rows id (Leased owner until) w

  picked-other :
      (faults : Faults) (w : World) (s : SagaRun)
      → w.now ≤ until
      → Held w
      → first_due w.now (unlocked faults w.db.saga_runs) ≡ some s
      → s.id ≢ id
  picked-other faults w s h held q same =
      let (lease, due) =
        first_due-All (λ r. r.id ≡ id → Leased owner until r) w.now (unlocked faults w.db.saga_runs)
          s (unlocked-Rows id (Leased owner until) faults w held) q in
      let shut = Leased-not_due owner until w.now s h (lease same) in absurd (cc)

  claim-Held :
      (cfg : Config) (faults : Faults) (w v : World) (x : Result SagaRun)
      → w.now ≤ until
      → Held w
      → claim cfg faults w ≡ (x, v)
      → Held v
  unfolding claim
  claim-Held cfg faults w v x h held e = elim (Bool-cases faults.claim_fails) [
    | inl down ↦ subst (λ u. Held u) (ap (λ t. t.1) (rw down at e)) held
    | inr up ↦ elim (Option-cases (first_due w.now (unlocked faults w.db.saga_runs))) [
      | inl q ↦ subst (λ u. Held u) (ap (λ t. t.1) (rw (up, q, claim_first) at e)) held
      | inr (s, q) ↦
          subst (λ u. Held u) (ap (λ t. t.1) (rw (up, q, claim_first) at e))
            (set_run-Rows_other id (Leased owner until) s.id
              (leased cfg.owner (w.now + cfg.lease_duration)) w.db.saga_runs (λ r. refl)
              (picked-other faults w s h held q) held)
    ]
  ]

  Meanwhile-Held : {w v : World} → Meanwhile id until w v → Held w → Held v
  Meanwhile-Held still held = held
  Meanwhile-Held (claims {w} {u} {v} {x} cfg faults m h e) held =
      claim-Held cfg faults u v x h (Meanwhile-Held m held) e
  Meanwhile-Held (others m keeps) held = keeps (Leased owner until) (Meanwhile-Held m held)

-- After a worker's claim of a saga, as long as the lease runs and nothing but claims writes to the
-- saga's rows, no claim of any worker takes the saga, whatever workers claimed others in between,
-- and its rows stay under the first worker's lease.
pub claim_excludes :
    (cfg other : Config) (faults faults' : Faults) (w w' v x : World) (r s : SagaRun)
    → claim cfg faults w ≡ (ok r, w')
    → Meanwhile r.id (w.now + cfg.lease_duration) w' v
    → v.now ≤ w.now + cfg.lease_duration
    → claim other faults' v ≡ (ok s, x)
    → (s.id ≢ r.id) × Rows r.id (Leased cfg.owner (w.now + cfg.lease_duration)) x
claim_excludes cfg other faults faults' w w' v x r s e m h e' =
    let until = w.now + cfg.lease_duration in
    let (t, tq, rt, w't) = claim_picks cfg faults w w' r e in
    let (u, uq, su, vu) = claim_picks other faults' v x s e' in
    let ours : t.id ≡ r.id = sym (ap (λ y. y.id) rt) in
    let fresh : Held t.id cfg.owner until w' =
      subst (λ y. Held t.id cfg.owner until y) (sym w't)
        (set_run-Rows t.id (λ _. Unit {0}) (Leased cfg.owner until) (leased cfg.owner until)
          w.db.saga_runs (λ y _. (refl, refl))
          (All-map (λ _. Unit {0}) (λ y. y.id ≡ t.id → Unit {0}) w.db.saga_runs (λ y _ _. tt)
            (All-units w.db.saga_runs))) in
    let held =
      Meanwhile-Held r.id cfg.owner until m (subst (λ k. Held k cfg.owner until w') ours fresh) in
    (
      λ same.
          picked-other r.id cfg.owner until faults' v u h held uq (sym (ap (λ y. y.id) su) ∙ same),
      claim-Held r.id cfg.owner until other faults' v x (ok s) h held e',
    )
