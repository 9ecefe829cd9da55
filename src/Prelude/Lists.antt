-- ===== src/Prelude/Lists.antt =====
-- Lists measured by native numbers, and the searches and updates that stand for SQL statements.
use Prim.Native.Nat.{ℕ, zero, suc, ◌+◌}
use mathlib.Core.Bool.{Bool, true, false}
use mathlib.Core.List.{List, [], ◌∷◌, ◌++◌}
use mathlib.Core.Path.{◌≡◌, refl, ap, subst}
use mathlib.Core.Logic.{inl, inr}
use native.Mathlib.Omega.{arith}
use mathlib.Core.Option.{Option, none, some}
use selatpay.Prelude.Tests.{if◌then◌else◌, Bool-cases, eq_of_some}

module _ {ℓ} {A : Type ℓ} where
  abbrev pub length : List A → ℕ
  length [] = 0
  length (x ∷ xs) = suc (length xs)

  abbrev pub get_elem? : List A → ℕ → Option A
  get_elem? [] i = none
  get_elem? (x ∷ xs) zero = some x
  get_elem? (x ∷ xs) (suc i) = get_elem? xs i

  abbrev pub take : ℕ → List A → List A
  take zero xs = []
  take (suc n) [] = []
  take (suc n) (x ∷ xs) = x ∷ take n xs

  abbrev pub drop : ℕ → List A → List A
  drop zero xs = xs
  drop (suc n) [] = []
  drop (suc n) (x ∷ xs) = drop n xs

  abbrev pub replicate : ℕ → A → List A
  replicate zero a = []
  replicate (suc n) a = a ∷ replicate n a

  -- `SELECT * ... WHERE p`, the first row.
  unfoldable pub find? : (A → Bool) → List A → Option A
  find? p [] = none
  find? p (x ∷ xs) = if p x then some x else find? p xs

  -- `UPDATE ... SET f WHERE p`.
  unfoldable pub update_where : (A → Bool) → (A → A) → List A → List A
  update_where p f [] = []
  update_where p f (x ∷ xs) = (if p x then f x else x) ∷ update_where p f xs

  -- `SELECT * ... WHERE p`, every row.
  unfoldable pub select : (A → Bool) → List A → List A
  select p [] = []
  select p (x ∷ xs) = if p x then x ∷ select p xs else select p xs

  -- A predicate of every row.
  abbrev pub All {κ} : (A → Type κ) → List A → Type κ
  All P [] = Unit
  All P (x ∷ xs) = P x × All P xs

module _ {ℓ} {A : Type ℓ} where
  pub length-append : (xs ys : List A) → length (xs ++ ys) ≡ length xs + length ys
  length-append [] ys = omega arith
  length-append (x ∷ xs) ys = omega (arith, length-append xs ys)

  -- Two equal lists split at one length.
  pub cancel_prefix : (a b x y : List A) → length a ≡ length b → a ++ x ≡ b ++ y → (a ≡ b) × (x ≡ y)
  cancel_prefix [] [] x y l e = (refl, e)
  cancel_prefix [] (c ∷ b) x y l e = absurd (omega arith)
  cancel_prefix (c ∷ a) [] x y l e = absurd (omega arith)
  cancel_prefix (c ∷ a) (d ∷ b) x y l e =
      let head : c ≡ d = cc in
      let tail : a ++ x ≡ b ++ y = cc in
      let (same, rest) = cancel_prefix a b x y (omega arith) tail in (cc, rest)

  pub length-replicate : (n : ℕ) (a : A) → length (replicate n a) ≡ n
  length-replicate zero a = refl
  length-replicate (suc n) a = ap suc (length-replicate n a)

module _ {ℓ} {A : Type ℓ} where
  pub All-units : (xs : List A) → All (λ _. Unit {0}) xs
  All-units [] = tt
  All-units (x ∷ xs) = (tt, All-units xs)

  pub All-map {κ μ} :
      (P : A → Type κ) (Q : A → Type μ) (xs : List A) → ((x : A) → P x → Q x) → All P xs → All Q xs
  All-map P Q [] f h = tt
  All-map P Q (x ∷ xs) f h = (f x h.0, All-map P Q xs f h.1)

  pub All-append {κ} : (P : A → Type κ) (xs ys : List A) → All P xs → All P ys → All P (xs ++ ys)
  All-append P [] ys h k = k
  All-append P (x ∷ xs) ys h k = (h.0, All-append P xs ys h.1 k)

  -- The first row that is found satisfies the test, and whatever all rows satisfy.
  pub find?-All {κ} :
      (P : A → Type κ) (p : A → Bool) (xs : List A) (x : A)
      → All P xs
      → find? p xs ≡ some x
      → P x × (p x ≡ true)
  unfolding find?
  find?-All P p [] x h e = absurd (cc)
  find?-All P p (y ∷ ys) x h e = elim (Bool-cases (p y)) [
    | inl hit ↦ let same : y ≡ x = eq_of_some (rw hit at e) in (subst P same h.0, rw same at hit)
    | inr miss ↦ find?-All P p ys x h.1 (rw miss at e)
  ]

  -- A row behind those that the test refuses is the one that is found.
  pub find?-append :
      (p : A → Bool) (xs ys : List A)
      → find? p (xs ++ ys) ≡ (elim (find? p xs) [ none ↦ find? p ys | some x ↦ some x ])
  unfolding find?
  find?-append p [] ys = refl
  find?-append p (x ∷ xs) ys = elim (Bool-cases (p x)) [
    | inl hit ↦ rw hit refl
    | inr miss ↦ rw miss (find?-append p xs ys)
  ]

  -- What holds of each row after an update.
  pub update_where-All {ℓ₁ ℓ₂} :
      (P : A → Type ℓ₁) (Q : A → Type ℓ₂) (test : A → Bool) (f : A → A)
      → ((x : A) → test x ≡ true → P x → Q (f x))
      → ((x : A) → test x ≡ false → P x → Q x)
      → (xs : List A) → All P xs
      → All Q (update_where test f xs)
  unfolding update_where
  update_where-All P Q test f hit miss [] h = tt
  update_where-All P Q test f hit miss (x ∷ xs) (h, hs) = (
    elim (Bool-cases (test x)) [ inl p ↦ rw p (hit x p h) | inr p ↦ rw p (miss x p h) ],
    update_where-All P Q test f hit miss xs hs,
  )

  -- The row that an update by id leaves is the one that it was given, changed.
  pub find?-update_where :
      (test : A → Bool) (f : A → A) (xs : List A) (x : A)
      → ((y : A) → test y ≡ true → test (f y) ≡ true)
      → find? test xs ≡ some x
      → find? test (update_where test f xs) ≡ some (f x)
  unfolding find? update_where
  find?-update_where test f [] x keep e = absurd (cc)
  find?-update_where test f (y ∷ ys) x keep e = elim (Bool-cases (test y)) [
    | inl hit ↦ rw (hit, keep y hit) (ap (λ z. some (f z)) (eq_of_some (rw hit at e)))
    | inr miss ↦ rw (miss, miss) (find?-update_where test f ys x keep (rw miss at e))
  ]

  -- The row that is put behind others is found when the test refuses them.
  pub find?-last :
      (p : A → Bool) (xs : List A) (x : A)
      → find? p xs ≡ none
      → p x ≡ true
      → find? p (xs ++ x ∷ []) ≡ some x
  unfolding find?
  find?-last p [] x e h = rw h
  find?-last p (y ∷ ys) x e h = elim (Bool-cases (p y)) [
    | inl hit ↦ let found = rw hit at e in absurd (cc)
    | inr miss ↦ rw miss (find?-last p ys x (rw miss at e) h)
  ]

  -- An update that concerns the last row alone.
  pub update_where-last :
      (test : A → Bool) (f : A → A) (xs : List A) (x : A)
      → find? test xs ≡ none
      → test x ≡ true
      → update_where test f (xs ++ x ∷ []) ≡ xs ++ f x ∷ []
  unfolding find? update_where
  update_where-last test f [] x e h = rw h
  update_where-last test f (y ∷ ys) x e h = elim (Bool-cases (test y)) [
    | inl hit ↦ let found = rw hit at e in absurd (cc)
    | inr miss ↦ rw miss (ap (λ l. y ∷ l) (update_where-last test f ys x (rw miss at e) h))
  ]
