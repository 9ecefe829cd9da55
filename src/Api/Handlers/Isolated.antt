-- ===== src/Api/Handlers/Isolated.antt =====
-- What a merchant is told of the intents of others.
use selatpay.Prelude.{
  ◌≡◌, refl, subst, Bool, false, Option, none, some, List, [], ◌∷◌, inl, inr, Bool-cases, find?,
  select, ◌==◌, ==→eq,
}
use selatpay.Prelude.Keys.{Distinct}
use selatpay.Db.Tables.{Uuid, PaymentIntent, Quote}
use selatpay.Db.Tx.{World}
use selatpay.SolanaPay.Url.{Codec}
use selatpay.Saga.Steps.Queries.{find_intent}
use selatpay.Api.View.{Config}
use selatpay.Api.Handlers.{Faults, Response, queried, fetched, get_payment_intent}

abbrev pub intent_id : PaymentIntent → Uuid
intent_id i = i.id

abbrev pub owned : Uuid → PaymentIntent → Bool
owned m i = i.merchant_id == m

-- The world as if the other merchants had no intents.
abbrev pub own_world : Uuid → World → World
own_world m w = record w {
  db = record (w.db) { payment_intents = select (owned m) w.db.payment_intents };
}

select-missing :
    (m id : Uuid) (is : List PaymentIntent)
    → find_intent id is ≡ none
    → find_intent id (select (owned m) is) ≡ none
unfolding find_intent find? select
select-missing m id [] e = refl
select-missing m id (i ∷ is) e = elim (Bool-cases (i.id == id)) [
  | inl hit ↦ let found = rw hit at e in absurd (cc)
  | inr miss ↦
      let rest = select-missing m id is (rw miss at e) in
      elim (Bool-cases (owned m i)) [ inl mine ↦ rw (mine, miss) rest | inr other ↦ rw other rest ]
]

module _ (codec : Codec) (cfg : Config) (faults : Faults) where
  abbrev answer : Uuid → Option PaymentIntent → List Quote → Response
  answer m o quotes = fetched codec cfg faults m (queried faults.lookup_fails o) quotes

  answer-other :
      (m : Uuid) (i : PaymentIntent) (quotes : List Quote)
      → owned m i ≡ false
      → answer m (some i) quotes ≡ answer m none quotes
  answer-other m i quotes other = elim (Bool-cases faults.lookup_fails) [
    | inl down ↦ rw down refl
    | inr up ↦ rw (up, other) refl
  ]

  answer-select :
      (m id : Uuid) (quotes : List Quote) (is : List PaymentIntent)
      → Distinct intent_id ◌==◌ is
      → answer m (find_intent id is) quotes ≡ answer m (find_intent id (select (owned m) is)) quotes
  unfolding find_intent find? select
  answer-select m id quotes [] d = refl
  answer-select m id quotes (i ∷ is) d = elim (Bool-cases (i.id == id)) [
    | inr miss ↦
        let rest = answer-select m id quotes is d.1 in
        elim (Bool-cases (owned m i)) [
          | inl mine ↦ rw (miss, mine, miss) rest
          | inr other ↦ rw (miss, other) rest
        ]
    | inl hit ↦ elim (Bool-cases (owned m i)) [
      | inl mine ↦ rw (hit, mine, hit) refl
      | inr other ↦
          let same : i.id ≡ id = ==→eq i.id id hit in
          let alone : find_intent id is ≡ none = subst (λ k. find_intent k is ≡ none) same d.0 in
          rw (hit, other, select-missing m id is alone) (answer-other m i quotes other)
    ]
  ]

  -- Where the ids of the intents are distinct, a merchant who asks for an intent is answered as if the
  -- other merchants had no intents: whether one of them has it makes no difference.
  pub get_payment_intent-isolated :
      (m id : Uuid) (w : World)
      → Distinct intent_id ◌==◌ w.db.payment_intents
      → get_payment_intent codec cfg faults (some m) id w
        ≡ get_payment_intent codec cfg faults (some m) id (own_world m w)
  unfolding get_payment_intent
  get_payment_intent-isolated m id w d = answer-select m id w.db.quotes w.db.payment_intents d
