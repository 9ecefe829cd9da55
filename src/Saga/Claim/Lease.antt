-- ===== src/Saga/Claim/Lease.antt =====
-- What a claim picks.
use selatpay.Prelude.{
  ℕ, ◌+◌, ◌≤◌, ◌≡◌, refl, sym, ◌∙◌, ap, inl, inr, Bool, true, false, Option, none, some, List, [],
  ◌∷◌, leb, if◌then◌else◌, update_where, not, ◌==◌, arith, Bool-cases, Option-cases, All, All-map,
  leb→le, subst, eq_of_some, ◌⊎◌,
}
use selatpay.Prelude.Rows.{select-All}
use mathlib.Core.List.{Mem}
use selatpay.Saga.Claim.Locked.{unlocked-back, unlocked-free, rows-Mem}
use selatpay.Prelude.Text.{Text}
use selatpay.Db.Tables.{SagaState}
use selatpay.Db.Tx.{Err, ok, err, no_rows, World, SagaRun}
use selatpay.Saga.Claim.{
  Config, Faults, claim_first, is_due, first_due, earlier, leased, set_run, update_run, claim,
  unlocked,
}

-- The row that is picked is a row, and it is due.
pub first_due-All {ℓ} :
    (P : SagaRun → Type ℓ) (now : ℕ) (rs : List SagaRun) (r : SagaRun)
    → All P rs
    → first_due now rs ≡ some r
    → P r × (is_due now r ≡ true)
unfolding first_due
first_due-All P now [] r h e = absurd (cc)
first_due-All P now (s ∷ rs) r h e =
    go (is_due now s) (first_due now rs) refl refl (λ t p. first_due-All P now rs t h.1 p)
  where
    go :
        (b : Bool) (o : Option SagaRun)
        → is_due now s ≡ b
        → first_due now rs ≡ o
        → ((t : SagaRun) → first_due now rs ≡ some t → P t × (is_due now t ≡ true))
        → P r × (is_due now r ≡ true)
    go false o p q ih = ih r (rw (p, if◌then◌else◌) at e)
    go true none p q ih =
        let same : s ≡ r = eq_of_some (rw (p, q, earlier) at e) in (subst P same h.0, rw same at p)
    go true (some t) p q ih =
        let e' : earlier s (some t) ≡ some r = rw (p, q) at e in
        elim (Bool-cases (leb s.next_run_at t.next_run_at)) [
          | inl first ↦
              let same : s ≡ r = eq_of_some (rw first at e') in (subst P same h.0, rw same at p)
          | inr later ↦ ih r (q ∙ rw later at e')
        ]

first_due-none :
    (now : ℕ) (rs : List SagaRun) → first_due now rs ≡ none → All (λ s. is_due now s ≡ false) rs
unfolding first_due
first_due-none now [] e = tt
first_due-none now (s ∷ rs) e = ground (arith, first_due-none now rs)

abbrev pub NotBefore : SagaRun → ℕ → SagaRun → Type 0
NotBefore r now s = is_due now s ≡ true → r.next_run_at ≤ s.next_run_at

-- No due row is passed over for one that was due later.
first_due-least :
    (now : ℕ) (rs : List SagaRun) (r : SagaRun)
    → first_due now rs ≡ some r
    → All (NotBefore r now) rs
unfolding first_due
first_due-least now [] r e = tt
first_due-least now (s ∷ rs) r e =
    go (is_due now s) (first_due now rs) refl refl (λ t p. first_due-least now rs t p)
  where
    go :
        (b : Bool) (o : Option SagaRun)
        → is_due now s ≡ b
        → first_due now rs ≡ o
        → ((t : SagaRun) → first_due now rs ≡ some t → All (NotBefore t now) rs)
        → NotBefore r now s × All (NotBefore r now) rs
    go false o p q ih = (λ d. absurd (cc), ih r (rw (p, if◌then◌else◌) at e))
    go true none p q ih =
        let same : s.next_run_at ≡ r.next_run_at =
          ap (λ x. x.next_run_at) (eq_of_some (rw (p, q, earlier) at e)) in
        (
          λ d. omega arith,
          All-map (λ x. is_due now x ≡ false) (NotBefore r now) rs (λ x n d. absurd (cc))
              (first_due-none now rs q),
        )
    go true (some t) p q ih =
        let e' : earlier s (some t) ≡ some r = rw (p, q) at e in
        elim (Bool-cases (leb s.next_run_at t.next_run_at)) [
          | inl first ↦
              let same : s.next_run_at ≡ r.next_run_at =
                ap (λ x. x.next_run_at) (eq_of_some (rw first at e')) in
              (
                λ d. omega arith,
                All-map (NotBefore t now) (NotBefore r now) rs
                    (λ x n d. omega (arith, n d, leb→le s.next_run_at t.next_run_at first))
                    (ih t q),
              )
          | inr later ↦
              let same : t.next_run_at ≡ r.next_run_at =
                ap (λ x. x.next_run_at) (eq_of_some (rw later at e')) in
              (
                λ d. ground arith,
                All-map (NotBefore t now) (NotBefore r now) rs (λ x n d. omega (arith, n d))
                    (ih t q),
              )
        ]

err-ne-ok : {A : Type 0} {x : Err} {a : A} → ¬ (err x ≡ ok a)
err-ne-ok e = cc

eq_of_ok : {A : Type 0} {a b : A} → ok a ≡ ok b → a ≡ b
eq_of_ok e = cc

claim-none :
    (cfg : Config) (faults : Faults) (w w' : World) (r : SagaRun)
    → first_due w.now (unlocked faults w.db.saga_runs) ≡ none
    → ¬ (claim cfg faults w ≡ (ok r, w'))
unfolding claim
claim-none cfg faults w w' r q e = ground arith

claim-some :
    (cfg : Config) (faults : Faults) (w w' : World) (r s : SagaRun)
    → first_due w.now (unlocked faults w.db.saga_runs) ≡ some s
    → claim cfg faults w ≡ (ok r, w')
    → (r ≡ leased cfg.owner (w.now + cfg.lease_duration) s)
      × (w' ≡ update_run s.id (leased cfg.owner (w.now + cfg.lease_duration)) w)
unfolding claim
claim-some cfg faults w w' r s q e = elim (Bool-cases faults.claim_fails) [
  | inl down ↦ absurd (err-ne-ok (ap (λ t. t.0) (rw down at e)))
  | inr up ↦
      let done = rw (up, q, claim_first) at e in
      (sym (eq_of_ok (ap (λ t. t.0) done)), sym (ap (λ t. t.1) done))
]

pub claim_picks :
    (cfg : Config) (faults : Faults) (w w' : World) (r : SagaRun)
    → claim cfg faults w ≡ (ok r, w')
    → (s : SagaRun) × (first_due w.now (unlocked faults w.db.saga_runs) ≡ some s)
      × (r ≡ leased cfg.owner (w.now + cfg.lease_duration) s)
      × (w' ≡ update_run s.id (leased cfg.owner (w.now + cfg.lease_duration)) w)
claim_picks cfg faults w w' r e =
    elim (Option-cases (first_due w.now (unlocked faults w.db.saga_runs))) [
      | inl q ↦ absurd (claim-none cfg faults w w' r q e)
      | inr (s, q) ↦ let (p1, p2) = claim-some cfg faults w w' r s q e in (s, q, p1, p2)
    ]

-- Of the rows that nobody holds locked, none is due that was due before `s`.
abbrev pub NoneBefore : Faults → SagaRun → World → Type 0
NoneBefore faults s w =
    All (λ x. faults.locked x.id ≡ false → is_due w.now x ≡ true → s.next_run_at ≤ x.next_run_at)
      w.db.saga_runs

-- `s` under a lease.
abbrev pub under_lease : Text → ℕ → SagaRun → SagaRun
under_lease owner until s = record {
  id = s.id;
  intent_id = s.intent_id;
  saga_kind = s.saga_kind;
  current_step = s.current_step;
  state = SagaState.running;
  step_attempts = s.step_attempts;
  next_run_at = s.next_run_at;
  lease_owner = some owner;
  lease_until = some until;
  last_error = s.last_error;
}

module _ (cfg : Config) (faults : Faults) (w : World) (up : faults.claim_fails ≡ false) where
  abbrev rows : List SagaRun
  rows = w.db.saga_runs

  claim_done :
      (o : Option SagaRun)
      → first_due w.now (unlocked faults rows) ≡ o
      → claim cfg faults w ≡ claim_first cfg o w
  unfolding claim
  claim_done o q = rw (up, q) refl

  -- Where the query does not fail, a claim finds nothing exactly where every saga is locked by
  -- others or not due; else it takes a row of saga_runs that is not locked and is due (open, its
  -- time come, its lease over), with the least next_run_at of all such rows, and changes nothing but
  -- that the rows of its id are running, under this worker's lease for lease_duration.
  pub claim_lem :
      ((claim cfg faults w ≡ (err no_rows, w))
        × All (λ x. faults.locked x.id ≡ false → is_due w.now x ≡ false) w.db.saga_runs)
      ⊎ ((s : SagaRun) × Mem s w.db.saga_runs
          × (faults.locked s.id ≡ false)
          × (is_due w.now s ≡ true)
          × NoneBefore faults s w
          × (let lease : SagaRun → SagaRun = under_lease cfg.owner (w.now + cfg.lease_duration) in
              claim cfg faults w ≡ (
                ok (lease s),
                record w {
                  db = record (w.db) {
                    saga_runs = update_where (λ x. x.id == s.id) lease w.db.saga_runs;
                  };
                },
              )))
  unfolding set_run
  claim_lem = elim (Option-cases (first_due w.now (unlocked faults rows))) [
    | inl q ↦ inl (
      claim_done none q,
      unlocked-back faults (λ x. is_due w.now x ≡ false) rows
          (first_due-none w.now (unlocked faults rows) q),
    )
    | inr (s, q) ↦
        let free = unlocked faults rows in
        let (mem, due) =
          first_due-All (λ x. Mem x rows) w.now free s
            (select-All (λ x. Mem x rows) (λ x. not (faults.locked x.id)) rows (rows-Mem rows)) q in
        let (free_one, _) =
          first_due-All (λ x. faults.locked x.id ≡ false) w.now free s (unlocked-free faults rows)
            q in
        inr (
          s,
          mem,
          free_one,
          due,
          unlocked-back faults (NotBefore s w.now) rows (first_due-least w.now free s q),
          claim_done (some s) q,
        )
  ]
