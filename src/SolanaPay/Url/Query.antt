-- ===== src/SolanaPay/Url/Query.antt =====
-- `url.Values`: the values of each name, in the order in which they were added.
use selatpay.Prelude.{
  ◌≡◌, refl, ap, ◌∙◌, false, List, [], ◌∷◌, ◌++◌, if◌then◌else◌, Bool-cases, inl, inr,
}
use selatpay.Prelude.Text.{Text, text_eq, text_eq_refl, text_eq_sound}

abbrev pub Values : Type 0
Values = List (Text × List Text)

unfoldable pub get_values : Text → Values → List Text
get_values name [] = []
get_values name ((k, l) ∷ vs) = if text_eq k name then l else get_values name vs

abbrev pub first_of : List Text → Text
first_of [] = []
first_of (v ∷ l) = v

-- `Get`: the first value of a name, or the empty text.
unfoldable pub get : Text → Values → Text
unfolding get_values
get name vs = first_of (get_values name vs)

-- The values of a name, changed; a name that is not there has none.
unfoldable pub change : Text → (List Text → List Text) → Values → Values
change name f [] = (name, f []) ∷ []
change name f ((k, l) ∷ vs) = if text_eq k name then (k, f l) ∷ vs else (k, l) ∷ change name f vs

-- `Set` and `Add`.
unfoldable pub set : Text → Text → Values → Values
unfolding change
set name v vs = change name (λ l. v ∷ []) vs

unfoldable pub add : Text → Text → Values → Values
unfolding change
add name v vs = change name (λ l. l ++ v ∷ []) vs

pub get_values-change :
    (name : Text) (f : List Text → List Text) (vs : Values)
    → get_values name (change name f vs) ≡ f (get_values name vs)
unfolding get_values change
get_values-change name f [] = rw (text_eq_refl name) refl
get_values-change name f ((k, l) ∷ vs) = elim (Bool-cases (text_eq k name)) [
  | inl hit ↦ rw (hit, hit) refl
  | inr miss ↦ rw (miss, miss) (get_values-change name f vs)
]

pub get_values-change_other :
    (name other : Text) (f : List Text → List Text) (vs : Values)
    → text_eq name other ≡ false
    → get_values other (change name f vs) ≡ get_values other vs
unfolding get_values change
get_values-change_other name other f [] apart = rw apart refl
get_values-change_other name other f ((k, l) ∷ vs) apart = elim (Bool-cases (text_eq k name)) [
  | inl hit ↦
      let same : k ≡ name = text_eq_sound k name hit in
      let miss : text_eq k other ≡ false = ap (λ s. text_eq s other) same ∙ apart in
      rw (hit, miss) refl
  | inr miss ↦ elim (Bool-cases (text_eq k other)) [
    | inl here ↦ rw (miss, here) refl
    | inr there ↦ rw (miss, there) (get_values-change_other name other f vs apart)
  ]
]
