-- ===== src/Chain/Watcher/Growth.antt =====
-- How a stored deposit may change.
use selatpay.Prelude.{
  ◌≤◌, ◌≡◌, refl, ap, ◌∙◌, Option, none, some, arith, ltb, ltb→lt, inl, inr, Bool-cases,
}
use selatpay.Db.Tables.{Uuid, OnchainPayment, Commitment}
use selatpay.Chain.Deposits.{rank, advanced_to, coalesce, merged}

-- A link to an intent, once set, stays.
abbrev pub LinkKept : Option Uuid → Option Uuid → Type 0
LinkKept none new = Unit
LinkKept (some id) new = new ≡ some id

-- `new` is `old` with its commitment at least as high and its link kept, and equal in every other
-- column.
pub record Grown (old new : OnchainPayment) : Type 0 where
  pub commitment_up : rank old.commitment ≤ rank new.commitment
  pub link_kept : LinkKept old.intent_id new.intent_id
  pub others_same : record new { commitment = old.commitment; intent_id = old.intent_id } ≡ old

LinkKept-refl : (i : Option Uuid) → LinkKept i i
LinkKept-refl none = tt
LinkKept-refl (some id) = refl

LinkKept-trans : (a b c : Option Uuid) → LinkKept a b → LinkKept b c → LinkKept a c
LinkKept-trans none b c h k = tt
LinkKept-trans (some id) b c h k = rw h at k

pub Grown-refl : (p : OnchainPayment) → Grown p p
Grown-refl p = record {
  commitment_up = omega arith;
  link_kept = LinkKept-refl p.intent_id;
  others_same = refl;
}

pub Grown-trans : {p q r : OnchainPayment} → Grown p q → Grown q r → Grown p r
Grown-trans {p} {q} {r} g h = record {
  commitment_up = omega (arith, g.commitment_up, h.commitment_up);
  link_kept = LinkKept-trans p.intent_id q.intent_id r.intent_id g.link_kept h.link_kept;
  others_same =
      ap {A = OnchainPayment} {B = OnchainPayment}
        (λ x. record x { commitment = p.commitment; intent_id = p.intent_id }) h.others_same
      ∙ g.others_same;
}

advanced_to-rank : (c d : Commitment) → rank c ≤ rank (advanced_to c d)
unfolding advanced_to
advanced_to-rank c d = elim (Bool-cases (ltb (rank c) (rank d))) [
  | inl up ↦ rw up (omega (arith, ltb→lt (rank c) (rank d) up))
  | inr stay ↦ rw stay (omega arith)
]

coalesce-LinkKept : (i j : Option Uuid) → LinkKept i (coalesce i j)
coalesce-LinkKept none j = tt
coalesce-LinkKept (some id) j = refl

pub merged-Grown : (p old : OnchainPayment) → Grown old (merged p old)
unfolding merged
merged-Grown p old = record {
  commitment_up = advanced_to-rank old.commitment p.commitment;
  link_kept = coalesce-LinkKept old.intent_id p.intent_id;
  others_same = refl;
}
