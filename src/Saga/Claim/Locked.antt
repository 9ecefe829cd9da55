-- ===== src/Saga/Claim/Locked.antt =====
-- What holds of the rows that a claim does not skip.
use selatpay.Prelude.{
  ◌≡◌, ap, Bool, true, false, not, List, [], ◌∷◌, select, All, All-map, Bool-cases, inl, inr,
}
use mathlib.Core.List.{Mem, mem-cons_self, mem-cons_of_mem}
use selatpay.Db.Tx.{SagaRun}
use selatpay.Saga.Claim.{Faults, unlocked}

select-back :
    (test : SagaRun → Bool) (P : SagaRun → Type 0) (rs : List SagaRun)
    → All P (select test rs)
    → All (λ x. test x ≡ true → P x) rs
unfolding select
select-back test P [] h = tt
select-back test P (r ∷ rs) h = elim (Bool-cases (test r)) [
  | inl kept ↦ let h' = rw kept at h in (λ _. h'.0, select-back test P rs h'.1)
  | inr gone ↦ (λ kept. absurd (cc), select-back test P rs (rw gone at h))
]

pub unlocked-back :
    (faults : Faults) (P : SagaRun → Type 0) (rs : List SagaRun)
    → All P (unlocked faults rs)
    → All (λ x. faults.locked x.id ≡ false → P x) rs
unlocked-back faults P rs h =
    All-map (λ x. not (faults.locked x.id) ≡ true → P x) (λ x. faults.locked x.id ≡ false → P x) rs
      (λ x k free. k (ap not free)) (select-back (λ x. not (faults.locked x.id)) P rs h)

pub unlocked-free :
    (faults : Faults) (rs : List SagaRun)
    → All (λ x. faults.locked x.id ≡ false) (unlocked faults rs)
unfolding select
unlocked-free faults [] = tt
unlocked-free faults (r ∷ rs) = elim (Bool-cases (faults.locked r.id)) [
  | inl held ↦ rw held (unlocked-free faults rs)
  | inr free ↦ rw free (free, unlocked-free faults rs)
]

pub rows-Mem : (rs : List SagaRun) → All (λ x. Mem x rs) rs
rows-Mem [] = tt
rows-Mem (r ∷ rs) = (
  mem-cons_self,
  All-map (λ x. Mem x rs) (λ x. Mem x (r ∷ rs)) rs (λ x m. mem-cons_of_mem r m) (rows-Mem rs),
)
