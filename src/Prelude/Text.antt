-- ===== src/Prelude/Text.antt =====
-- Go strings as lists of bytes, with the standard library functions that the program calls.
use Prim.Native.Char.{code}
use Prim.Native.String.{String}
use selatpay.Prelude.Tests.{if◌then◌else◌, leb, ◌==◌}
use Prim.Native.Nat.{ℕ}
use mathlib.Core.Path.{◌≡◌, refl, sym, ap, ◌∙◌}
use mathlib.Core.Logic.{◌↔◌}
use mathlib.Core.Bool.{Bool, true, false, ◌&&◌, ◌||◌}
use mathlib.Core.List.{List, [], ◌∷◌}
use native.Mathlib.Omega.{arith}

abbrev pub Text : Type 0
Text = List ℕ

-- The bytes of an ASCII literal.
abbrev pub codes : String → Text
codes String.[] = []
codes (String.◌∷◌ c s) = code c ∷ codes s

unfoldable pub text_eq : Text → Text → Bool
text_eq [] [] = true
text_eq (a ∷ s) (b ∷ t) = (a == b) && text_eq s t
text_eq _ _ = false

pub text_eq_sound : (s t : Text) → text_eq s t ≡ true → s ≡ t
unfolding text_eq
text_eq_sound [] [] h = refl
text_eq_sound (a ∷ s) (b ∷ t) h = ground (arith, text_eq_sound s t)
text_eq_sound [] (b ∷ t) h = cc
text_eq_sound (a ∷ s) [] h = cc

pub text_eq_refl : (s : Text) → text_eq s s ≡ true
unfolding text_eq
text_eq_refl [] = refl
text_eq_refl (a ∷ s) = ground (arith, text_eq_refl s)

pub text_eq_iff : (s t : Text) → (text_eq s t ≡ true) ↔ (s ≡ t)
text_eq_iff s t = (text_eq_sound s t, λ e. ap (text_eq s) (sym e) ∙ text_eq_refl s)

abbrev pub is_empty : Text → Bool
is_empty [] = true
is_empty (_ ∷ _) = false

-- The ASCII bytes of `unicode.IsSpace`.
abbrev pub is_space : ℕ → Bool
is_space c = (c == b' ') || (leb 9 c && leb c 13)

-- Where a text stands that has been spaces so far: between two of them, behind the first bytes of one
-- in UTF-8, or at something else.
pub data Blank : Type 0 where
  between after_c2 after_e1 after_e1_9a after_e2 after_e2_80 after_e2_81 after_e3 after_e3_80
        marked :
      Blank

abbrev closes : Bool → Blank
closes good = if good then between else marked

-- The spaces are the ASCII ones, U+0085, U+00A0, U+1680, U+2000 to U+200A, U+2028, U+2029, U+202F,
-- U+205F and U+3000.
abbrev pub blank_step : Blank → ℕ → Blank
blank_step between c =
    if is_space c
    then between
    else if c == 194
    then after_c2
    else if c == 225
    then after_e1
    else if c == 226
    then after_e2
    else if c == 227
    then after_e3
    else marked
blank_step after_c2 c = closes ((c == 133) || (c == 160))
blank_step after_e1 c = if c == 154 then after_e1_9a else marked
blank_step after_e1_9a c = closes (c == 128)
blank_step after_e2 c = if c == 128 then after_e2_80 else if c == 129 then after_e2_81 else marked
blank_step after_e2_80 c =
    closes ((leb 128 c && leb c 138) || ((c == 168) || ((c == 169) || (c == 175))))
blank_step after_e2_81 c = closes (c == 159)
blank_step after_e3 c = if c == 128 then after_e3_80 else marked
blank_step after_e3_80 c = closes (c == 128)
blank_step marked c = marked

unfoldable pub blank_from : Blank → Text → Bool
blank_from between [] = true
blank_from _ [] = false
blank_from b (c ∷ s) = blank_from (blank_step b c) s

-- Once something else was met, no byte helps.
pub blank_from-marked : (s : Text) → blank_from marked s ≡ false
unfolding blank_from
blank_from-marked [] = refl
blank_from-marked (c ∷ s) = blank_from-marked s

-- `strings.TrimSpace(s) == ""`: the text is spaces.
unfoldable pub is_blank : Text → Bool
unfolding blank_from
is_blank s = blank_from between s
