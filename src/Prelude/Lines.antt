-- ===== src/Prelude/Lines.antt =====
-- Texts of one line, and printed numbers, behind which a line break ends them.
use selatpay.Prelude.{
  ℕ, suc, ◌≡◌, refl, sym, ap, ◌∙◌, true, false, [], ◌∷◌, ◌++◌, arith, All, All-map, ◌==◌,
  eq_of_some,
}
use selatpay.Prelude.Text.{Text}
use selatpay.Prelude.Int.{ℤ, pos, negsuc}
use selatpay.Prelude.Decimal.{
  format_uint, format_int, parse_digits, parse_digits-format_uint, format_uint-IsDigits, is_digit,
}

-- A text of one line.
abbrev pub IsLine : Text → Type 0
IsLine = All (λ c. (c == 10) ≡ false)

pub split_line :
    (s t x y : Text) → IsLine s → IsLine t → s ++ 10 ∷ x ≡ t ++ 10 ∷ y → (s ≡ t) × (x ≡ y)
split_line [] [] x y hs ht e = (cc, cc)
split_line [] (d ∷ t) x y hs (h, ht) e = let k : 10 ≡ d = cc in absurd (ground arith)
split_line (c ∷ s) [] x y (h, hs) ht e = let k : c ≡ 10 = cc in absurd (ground arith)
split_line (c ∷ s) (d ∷ t) x y (h, hs) (h', ht) e =
    let (p, q) = split_line s t x y hs ht (cc) in (cc, q)

format_uint-IsLine : (n : ℕ) → IsLine (format_uint n)
format_uint-IsLine n =
    All-map (λ c. is_digit c ≡ true) (λ c. (c == 10) ≡ false) (format_uint n)
      (λ c digit. ground arith) (format_uint-IsDigits n)

format_int-IsLine : (z : ℤ) → IsLine (format_int z)
unfolding format_int
format_int-IsLine (pos n) = format_uint-IsLine n
format_int-IsLine (negsuc n) = (refl, format_uint-IsLine (suc n))

pub format_uint-injective : (m n : ℕ) → format_uint m ≡ format_uint n → m ≡ n
format_uint-injective m n e =
    eq_of_some
      (sym (parse_digits-format_uint m) ∙ ap (parse_digits 0) e ∙ parse_digits-format_uint n)

-- A printed number does not begin with a minus sign.
unsigned_text : (s t : Text) → All (λ c. is_digit c ≡ true) s → ¬ (s ≡ b'-' ∷ t)
unsigned_text [] t h e = cc
unsigned_text (c ∷ s) t (digit, h) e = let k : c ≡ b'-' = cc in ground arith

pub format_int-injective : (x y : ℤ) → format_int x ≡ format_int y → x ≡ y
unfolding format_int
format_int-injective (pos m) (pos n) e = ap pos (format_uint-injective m n e)
format_int-injective (pos m) (negsuc n) e =
    absurd (unsigned_text (format_uint m) (format_uint (suc n)) (format_uint-IsDigits m) e)
format_int-injective (negsuc m) (pos n) e =
    absurd (unsigned_text (format_uint n) (format_uint (suc m)) (format_uint-IsDigits n) (sym e))
format_int-injective (negsuc m) (negsuc n) e =
    let same : suc m ≡ suc n = format_uint-injective (suc m) (suc n) (cc) in ap negsuc (omega arith)

-- Two lines that begin with a number, and what is behind it.
pub split_int :
    (x y : ℤ) (s t : Text) → format_int x ++ 10 ∷ s ≡ format_int y ++ 10 ∷ t → (x ≡ y) × (s ≡ t)
split_int x y s t e =
    let (same, rest) =
      split_line (format_int x) (format_int y) s t (format_int-IsLine x) (format_int-IsLine y) e in
    (format_int-injective x y same, rest)
