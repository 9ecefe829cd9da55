-- ===== src/Prelude/Keys.antt =====
-- Tables under a unique key: an upsert finds the row of a key and changes it, or appends one.
use selatpay.Prelude.{
  ◌≡◌, refl, sym, ap, subst, true, false, Bool, none, some, List, [], ◌∷◌, ◌++◌, ◌⊎◌, inl, inr,
  find?, update_where, All, Bool-cases, eq_of_some, find?-append, All-map,
}

module _ {A K : Type 0} (key : A → K) (eq : K → K → Bool) where
  abbrev pub has_key : K → A → Bool
  has_key k x = eq (key x) k

  -- No two rows have one key.
  abbrev pub Distinct : List A → Type 0
  Distinct [] = Unit
  Distinct (x ∷ xs) = (find? (has_key (key x)) xs ≡ none) × Distinct xs

module _ {A : Type 0} (test : A → Bool) (f : A → A) where
  -- An update that no row meets changes nothing.
  pub update_where-none : (xs : List A) → find? test xs ≡ none → update_where test f xs ≡ xs
  unfolding find? update_where
  update_where-none [] e = refl
  update_where-none (x ∷ xs) e = elim (Bool-cases (test x)) [
    | inl hit ↦ let found = rw hit at e in absurd (cc)
    | inr miss ↦ rw miss (ap (λ l. x ∷ l) (update_where-none xs (rw miss at e)))
  ]

  -- What an update leaves in the tests that cannot tell a row from the changed one.
  pub find?-update_where_other :
      (other : A → Bool)
      → ((x : A) → other (f x) ≡ other x)
      → (xs : List A) → find? other xs ≡ none
      → find? other (update_where test f xs) ≡ none
  unfolding find? update_where
  find?-update_where_other other same [] e = refl
  find?-update_where_other other same (x ∷ xs) e = elim (Bool-cases (other x)) [
    | inl hit ↦ let found = rw hit at e in absurd (cc)
    | inr miss ↦
        let rest = find?-update_where_other other same xs (rw miss at e) in
        elim (Bool-cases (test x)) [ inl p ↦ rw (p, same x, miss) rest | inr p ↦ rw (p, miss) rest ]
  ]

  -- A row that is found is found after the update, changed or not.
  pub find?-update_where_cases :
      (other : A → Bool)
      → ((x : A) → other (f x) ≡ other x)
      → (xs : List A) (x : A) → find? other xs ≡ some x
      → (find? other (update_where test f xs) ≡ some x)
        ⊎ (find? other (update_where test f xs) ≡ some (f x))
  unfolding find? update_where
  find?-update_where_cases other same [] x e = absurd (cc)
  find?-update_where_cases other same (y ∷ ys) x e = elim (Bool-cases (other y)) [
    | inl hit ↦
        let here : y ≡ x = eq_of_some (rw hit at e) in
        elim (Bool-cases (test y)) [
          | inl p ↦ inr (rw (p, same y, hit) (ap (λ z. some (f z)) here))
          | inr p ↦ inl (rw (p, hit) (ap (λ z. some z) here))
        ]
    | inr miss ↦
        let rest = find?-update_where_cases other same ys x (rw miss at e) in
        elim (Bool-cases (test y)) [ inl p ↦ rw (p, same y, miss) rest | inr p ↦ rw (p, miss) rest ]
  ]

module _ {A K : Type 0} (key : A → K) (eq : K → K → Bool)
    (sound : (a b : K) → eq a b ≡ true → a ≡ b) (reflexive : (a : K) → eq a a ≡ true) where
  pub eq_flip : (a b : K) → eq a b ≡ false → eq b a ≡ false
  eq_flip a b h = elim (Bool-cases (eq b a)) [
    | inl p ↦ let same : b ≡ a = sound b a p in absurd (cc (reflexive a))
    | inr p ↦ p
  ]

  pub Distinct-append :
      (xs : List A) (x : A)
      → Distinct key eq xs
      → find? (has_key key eq (key x)) xs ≡ none
      → Distinct key eq (xs ++ x ∷ [])
  unfolding find?
  Distinct-append [] x d e = (refl, tt)
  Distinct-append (y ∷ ys) x d e = elim (Bool-cases (has_key key eq (key x) y)) [
    | inl hit ↦ let found = rw hit at e in absurd (cc)
    | inr miss ↦ (
      rw (find?-append (has_key key eq (key y)) ys (x ∷ []), d.0, eq_flip (key y) (key x) miss),
      Distinct-append ys x d.1 (rw miss at e),
    )
  ]

  pub Distinct-update_where :
      (test : A → Bool) (f : A → A)
      → ((x : A) → key (f x) ≡ key x)
      → (xs : List A) → Distinct key eq xs
      → Distinct key eq (update_where test f xs)
  unfolding find? update_where
  Distinct-update_where test f keep [] d = tt
  Distinct-update_where test f keep (x ∷ xs) d =
      let rest = Distinct-update_where test f keep xs d.1 in
      let apart =
        find?-update_where_other test f (has_key key eq (key x))
          (λ y. ap (λ k. eq k (key x)) (keep y)) xs d.0 in
      elim (Bool-cases (test x)) [
        | inl p ↦ rw (p, keep x) (apart, rest)
        | inr p ↦ rw p (apart, rest)
      ]

  -- What holds of the row of a key once it is changed, and of every other row as it was.
  pub update_where-keyed :
      (P Q : A → Type 0) (k : K) (f : A → A) (found : A)
      → ((y : A) → P y → Q y)
      → Q (f found)
      → (xs : List A) → Distinct key eq xs
      → find? (has_key key eq k) xs ≡ some found
      → All P xs
      → All Q (update_where (has_key key eq k) f xs)
  unfolding find? update_where
  update_where-keyed P Q k f found weaken changed [] d e h = tt
  update_where-keyed P Q k f found weaken changed (x ∷ xs) d e h =
      elim (Bool-cases (has_key key eq k x)) [
        | inl hit ↦
            let same : x ≡ found = eq_of_some (rw hit at e) in
            let at_key : key x ≡ k = sound (key x) k hit in
            let alone : find? (has_key key eq k) xs ≡ none =
              subst (λ j. find? (has_key key eq j) xs ≡ none) at_key d.0 in
            rw hit (
              subst (λ y. Q (f y)) (sym same) changed,
              rw (update_where-none (has_key key eq k) f xs alone) (All-map P Q xs weaken h.1),
            )
        | inr miss ↦ rw miss (
          weaken x h.0,
          update_where-keyed P Q k f found weaken changed xs d.1 (rw miss at e) h.1,
        )
      ]
