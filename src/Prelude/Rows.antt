-- ===== src/Prelude/Rows.antt =====
-- Rows with distinct keys under WHERE, ORDER BY and LIMIT.
use selatpay.Prelude.{
  ℕ, zero, suc, ◌≡◌, refl, ap, subst, true, false, Bool, none, some, List, [], ◌∷◌, inl, inr, leb,
  if◌then◌else◌, find?, select, take, All, Bool-cases, update_where,
}
use selatpay.Prelude.Keys.{has_key, Distinct, eq_flip}

module _ {A : Type 0} (rank : A → ℕ) where
  -- ORDER BY rank: insertion in front of the first row that does not come earlier.
  unfoldable pub insert_by : A → List A → List A
  insert_by x [] = x ∷ []
  insert_by x (y ∷ ys) =
      let rest = insert_by x ys in if leb (rank x) (rank y) then x ∷ y ∷ ys else y ∷ rest

  unfoldable pub sort_by : List A → List A
  unfolding insert_by
  sort_by [] = []
  sort_by (x ∷ xs) = insert_by x (sort_by xs)

module _ {A : Type 0} (P : A → Type 0) where
  pub select-All : (test : A → Bool) (xs : List A) → All P xs → All P (select test xs)
  unfolding select
  select-All test [] h = tt
  select-All test (x ∷ xs) h = elim (Bool-cases (test x)) [
    | inl p ↦ rw p (h.0, select-All test xs h.1)
    | inr p ↦ rw p (select-All test xs h.1)
  ]

  pub take-All : (n : ℕ) (xs : List A) → All P xs → All P (take n xs)
  take-All zero xs h = tt
  take-All (suc n) [] h = tt
  take-All (suc n) (x ∷ xs) h = (h.0, take-All n xs h.1)

  insert_by-All :
      (rank : A → ℕ) (x : A) (xs : List A) → P x → All P xs → All P (insert_by rank x xs)
  unfolding insert_by
  insert_by-All rank x [] hx h = (hx, tt)
  insert_by-All rank x (y ∷ ys) hx h = elim (Bool-cases (leb (rank x) (rank y))) [
    | inl p ↦ rw p (hx, h)
    | inr p ↦ rw p (h.0, insert_by-All rank x ys hx h.1)
  ]

  pub sort_by-All : (rank : A → ℕ) (xs : List A) → All P xs → All P (sort_by rank xs)
  unfolding sort_by
  sort_by-All rank [] h = tt
  sort_by-All rank (x ∷ xs) h = insert_by-All rank x (sort_by rank xs) h.0 (sort_by-All rank xs h.1)

module _ {A : Type 0} (p : A → Bool) where
  find?-select :
      (test : A → Bool) (xs : List A) → find? p xs ≡ none → find? p (select test xs) ≡ none
  unfolding find? select
  find?-select test [] e = refl
  find?-select test (x ∷ xs) e = elim (Bool-cases (p x)) [
    | inl hit ↦ let found = rw hit at e in absurd (cc)
    | inr miss ↦
        let rest = find?-select test xs (rw miss at e) in
        elim (Bool-cases (test x)) [ inl q ↦ rw (q, miss) rest | inr q ↦ rw q rest ]
  ]

  find?-take : (n : ℕ) (xs : List A) → find? p xs ≡ none → find? p (take n xs) ≡ none
  unfolding find?
  find?-take zero xs e = refl
  find?-take (suc n) [] e = refl
  find?-take (suc n) (x ∷ xs) e = elim (Bool-cases (p x)) [
    | inl hit ↦ let found = rw hit at e in absurd (cc)
    | inr miss ↦ rw miss (find?-take n xs (rw miss at e))
  ]

  find?-insert_by :
      (rank : A → ℕ) (x : A) (xs : List A)
      → p x ≡ false
      → find? p xs ≡ none
      → find? p (insert_by rank x xs) ≡ none
  unfolding find? insert_by
  find?-insert_by rank x [] px e = rw px
  find?-insert_by rank x (y ∷ ys) px e = elim (Bool-cases (p y)) [
    | inl hit ↦ let found = rw hit at e in absurd (cc)
    | inr miss ↦
        let rest = find?-insert_by rank x ys px (rw miss at e) in
        elim (Bool-cases (leb (rank x) (rank y))) [
          | inl q ↦ rw (q, px, miss) (rw miss at e)
          | inr q ↦ rw (q, miss) rest
        ]
  ]

  find?-sort_by :
      (rank : A → ℕ) (xs : List A) → find? p xs ≡ none → find? p (sort_by rank xs) ≡ none
  unfolding find? sort_by
  find?-sort_by rank [] e = refl
  find?-sort_by rank (x ∷ xs) e = elim (Bool-cases (p x)) [
    | inl hit ↦ let found = rw hit at e in absurd (cc)
    | inr miss ↦
        find?-insert_by rank x (sort_by rank xs) miss (find?-sort_by rank xs (rw miss at e))
  ]

-- A row that the test refuses to change is found as it was.
pub find?-update_where_miss :
    {A : Type 0} (test p : A → Bool) (f : A → A) (xs : List A)
    → ((x : A) → p (f x) ≡ p x)
    → ((x : A) → test x ≡ true → p x ≡ false)
    → find? p (update_where test f xs) ≡ find? p xs
unfolding find? update_where
find?-update_where_miss test p f [] keep apart = refl
find?-update_where_miss test p f (x ∷ xs) keep apart =
    let rest = find?-update_where_miss test p f xs keep apart in
    elim (Bool-cases (test x)) [
      | inl t ↦ rw (t, keep x, apart x t) rest
      | inr t ↦ rw t (ap (λ o. if p x then some x else o) rest)
    ]

module _ {A K : Type 0} (key : A → K) (eq : K → K → Bool)
    (sound : (a b : K) → eq a b ≡ true → a ≡ b) (reflexive : (a : K) → eq a a ≡ true) where
  pub Distinct-select :
      (test : A → Bool) (xs : List A) → Distinct key eq xs → Distinct key eq (select test xs)
  unfolding select
  Distinct-select test [] d = tt
  Distinct-select test (x ∷ xs) d = elim (Bool-cases (test x)) [
    | inl p ↦ rw p (find?-select (has_key key eq (key x)) test xs d.0, Distinct-select test xs d.1)
    | inr p ↦ rw p (Distinct-select test xs d.1)
  ]

  pub Distinct-take : (n : ℕ) (xs : List A) → Distinct key eq xs → Distinct key eq (take n xs)
  Distinct-take zero xs d = tt
  Distinct-take (suc n) [] d = tt
  Distinct-take (suc n) (x ∷ xs) d =
      (find?-take (has_key key eq (key x)) n xs d.0, Distinct-take n xs d.1)

  Distinct-insert_by :
      (rank : A → ℕ) (x : A) (xs : List A)
      → find? (has_key key eq (key x)) xs ≡ none
      → Distinct key eq xs
      → Distinct key eq (insert_by rank x xs)
  unfolding insert_by find?
  Distinct-insert_by rank x [] e d = (refl, tt)
  Distinct-insert_by rank x (y ∷ ys) e d = elim (Bool-cases (has_key key eq (key x) y)) [
    | inl hit ↦ let found = rw hit at e in absurd (cc)
    | inr miss ↦ elim (Bool-cases (leb (rank x) (rank y))) [
      | inl q ↦ rw q (e, d)
      | inr q ↦ rw q (
        find?-insert_by (has_key key eq (key y)) rank x ys
            (eq_flip key eq sound reflexive (key y) (key x) miss) d.0,
        Distinct-insert_by rank x ys (rw miss at e) d.1,
      )
    ]
  ]

  pub Distinct-sort_by :
      (rank : A → ℕ) (xs : List A) → Distinct key eq xs → Distinct key eq (sort_by rank xs)
  unfolding sort_by
  Distinct-sort_by rank [] d = tt
  Distinct-sort_by rank (x ∷ xs) d =
      Distinct-insert_by rank x (sort_by rank xs)
        (find?-sort_by (has_key key eq (key x)) rank xs d.0) (Distinct-sort_by rank xs d.1)

  -- Every row of such a table is the one that its key finds.
  self-found-behind :
      (x : A) (ys zs : List A)
      → find? (has_key key eq (key x)) ys ≡ none
      → All (λ r. find? (has_key key eq (key r)) ys ≡ some r) zs
      → All (λ r. find? (has_key key eq (key r)) (x ∷ ys) ≡ some r) zs
  unfolding find?
  self-found-behind x ys [] e h = tt
  self-found-behind x ys (z ∷ zs) e h = (
    elim (Bool-cases (has_key key eq (key z) x)) [
      | inl hit ↦
          let same = sound (key x) (key z) hit in
          let gone : find? (has_key key eq (key z)) ys ≡ none =
            subst (λ k. find? (has_key key eq k) ys ≡ none) same e in
          let found = h.0 in absurd (cc)
      | inr miss ↦ rw miss h.0
    ],
    self-found-behind x ys zs e h.1,
  )

  pub self-found :
      (xs : List A) → Distinct key eq xs → All (λ r. find? (has_key key eq (key r)) xs ≡ some r) xs
  unfolding find?
  self-found [] d = tt
  self-found (x ∷ xs) d =
      (rw (reflexive (key x)), self-found-behind x xs xs d.0 (self-found xs d.1))
