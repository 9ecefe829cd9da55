-- ===== src/Ledger/Validate/Balanced.antt =====
-- What an entry that `Validate` accepts is: the specification of a balanced entry, and its proof.
use selatpay.Prelude.{
  ℕ, ◌+◌, ◌-◌, ◌%◌, ◌≤◌, ◌<◌, ◌≡◌, refl, ◌⊎◌, Bool, true, false, ◌&&◌, none, List, [], ◌∷◌,
  if◌then◌else◌, arith, All,
}
use selatpay.Prelude.Text.{Text, text_eq, text_eq_iff, is_blank}
use selatpay.Prelude.Int.{ℤ, pos, negsuc, pos_part, word, max_int64}
use selatpay.Db.Tables.{Direction, debit, credit, other}
use selatpay.Db.Tx.{Err, Result, ok, err}
use selatpay.Ledger.Validate.{
  Line, Entry, Sums, sum_of, set_sum, all_zero, tally, check_line, check_lines, check_body,
  check_sums, validate,
}

abbrev pub is_debit : Direction → Bool
is_debit debit = true
is_debit credit = false
is_debit (other _) = false

abbrev pub is_credit : Direction → Bool
is_credit debit = false
is_credit credit = true
is_credit (other _) = false

-- The sum of the amounts that are posted to one side of a currency, as a plain number.
unfoldable pub debits : Text → List Line → ℕ
debits c [] = 0
debits c (l ∷ ls) =
    (if text_eq l.currency c && is_debit l.direction then pos_part l.amount else 0) + debits c ls

unfoldable pub credits : Text → List Line → ℕ
credits c [] = 0
credits c (l ∷ ls) =
    (if text_eq l.currency c && is_credit l.direction then pos_part l.amount else 0) + credits c ls

-- A line that may be posted: a positive int64, a currency, and one of the two directions.
pub record IsPostable (l : Line) : Type 0 where
  pub positive : 0 < pos_part l.amount
  pub currency_given : is_blank l.currency ≡ false
  pub directed : (l.direction ≡ debit) ⊎ (l.direction ≡ credit)

pub sum_of-set_sum :
    (k c : Text) (v : ℕ) (m : Sums)
    → sum_of c (set_sum k v m) ≡ (if text_eq k c then v else sum_of c m)
unfolding sum_of set_sum
sum_of-set_sum k c v [] = refl
sum_of-set_sum k c v ((j, u) ∷ m) =
    ground (arith, text_eq_iff j k, text_eq_iff j c, text_eq_iff k c, sum_of-set_sum k c v m)

sum_of-all_zero : (c : Text) (m : Sums) → all_zero m ≡ true → sum_of c m ≡ 0
unfolding sum_of all_zero
sum_of-all_zero c [] h = refl
sum_of-all_zero c ((k, v) ∷ m) h = ground (arith, sum_of-all_zero c m)

abbrev pub IsInt64 : ℤ → Type 0
IsInt64 (pos n) = n ≤ max_int64
IsInt64 (negsuc n) = n ≤ max_int64

-- Splitting a sum on whether the line's currency is the one that is looked at.
abbrev share : Bool → ℕ → ℕ
share b n = if b then n else 0

tally-sum :
    (d : Direction) (k c : Text) (n : ℕ) (m m' : Sums)
    → n ≤ max_int64
    → tally d k n m ≡ ok m'
    → (sum_of c m' + share (text_eq k c && is_credit d) n) % word
      ≡ (sum_of c m + share (text_eq k c && is_debit d) n) % word
unfolding tally
tally-sum debit k c n m m' h e =
    let r = sum_of-set_sum k c ((sum_of k m + n) % word) m in ground (arith, r, text_eq_iff k c)
tally-sum credit k c n m m' h e =
    let r = sum_of-set_sum k c ((sum_of k m + (word - n % word)) % word) m in
    ground (arith, r, text_eq_iff k c)
tally-sum (other t) k c n m m' h e = cc

-- One line moves the running sum of its currency by its amount, and no other.
module _ (l : Line) (m m' : Sums) (range : IsInt64 l.amount) (done : check_line l m ≡ ok m') where
  check_line-IsPostable : IsPostable l
  unfolding check_line tally
  check_line-IsPostable = ground arith

  check_line-tally : tally l.direction l.currency (pos_part l.amount) m ≡ ok m'
  unfolding check_line
  check_line-tally = ground arith

  check_line-sum :
      (c : Text)
      → (sum_of c m' + share (text_eq l.currency c && is_credit l.direction) (pos_part l.amount))
          % word
        ≡ (sum_of c m + share (text_eq l.currency c && is_debit l.direction) (pos_part l.amount))
          % word
  check_line-sum c =
      tally-sum l.direction l.currency c (pos_part l.amount) m m' (ground arith) check_line-tally

mod_chain :
    (a b s x y p q : ℕ)
    → (a + p) % word ≡ (b + q) % word
    → (b + x) % word ≡ (s + y) % word
    → (a + (x + p)) % word ≡ (s + (y + q)) % word
mod_chain a b s x y p q h k = omega arith

-- Every line that the loop passes is postable, and each currency's running sum moves by its debits
-- less its credits, modulo 2^64.
pub check_lines_sound :
    (ls : List Line) (m m' : Sums)
    → All (λ l. IsInt64 l.amount) ls
    → check_lines ls m ≡ ok m'
    → All IsPostable ls
      × ((c : Text) → (sum_of c m' + credits c ls) % word ≡ (sum_of c m + debits c ls) % word)
unfolding check_lines debits credits
check_lines_sound [] m m' range e = (tt, λ c. ground arith)
check_lines_sound (l ∷ ls) m m' range e =
    go (check_line l m) refl (λ m1 rest. check_lines_sound ls m1 m' range.1 rest)
  where
    go :
        (r : Result Sums)
        → check_line l m ≡ r
        → ((m1 : Sums)
            → check_lines ls m1 ≡ ok m'
            → All IsPostable ls
              × ((c : Text)
                  → (sum_of c m' + credits c ls) % word ≡ (sum_of c m1 + debits c ls) % word))
        → All IsPostable (l ∷ ls)
          × ((c : Text)
              → (sum_of c m' + credits c (l ∷ ls)) % word ≡ (sum_of c m + debits c (l ∷ ls)) % word)
    go (ok m1) q ih =
        let later = ih m1 (rw (q, check_lines) at e) in
        (
          (check_line-IsPostable l m m1 range.0 q, later.0),
          λ c.
              mod_chain (sum_of c m') (sum_of c m1) (sum_of c m)
                (share (text_eq l.currency c && is_credit l.direction) (pos_part l.amount))
                (share (text_eq l.currency c && is_debit l.direction) (pos_part l.amount))
                (credits c ls) (debits c ls) (later.1 c) (check_line-sum l m m1 range.0 q c),
        )
    go (err x) q ih = let stuck : err x ≡ ok m' = rw (q, check_lines) at e in absurd (cc)

-- The specification of an entry that may be posted: named, with at least one line, every line
-- postable, and in each currency debits and credits equal modulo 2^64.
pub record IsBalanced (e : Entry) : Type 0 where
  pub named : (is_blank e.external_ref ≡ false) × (is_blank e.kind ≡ false)
  pub some_line : ¬ (e.lines ≡ [])
  pub postable : All IsPostable e.lines
  pub balanced : (c : Text) → debits c e.lines % word ≡ credits c e.lines % word

check_sums-all_zero : (m : Sums) → check_sums (ok m) ≡ none → all_zero m ≡ true
unfolding check_sums
check_sums-all_zero m h = ground arith

check_sums-err : (x : Err) → ¬ (check_sums (err x) ≡ none)
unfolding check_sums
check_sums-err x h = cc

zero_sum_balanced : (s d k : ℕ) → s ≡ 0 → (s + k) % word ≡ (0 + d) % word → d % word ≡ k % word
zero_sum_balanced s d k z h = omega arith

check_body_sound :
    (ls : List Line)
    → All (λ l. IsInt64 l.amount) ls
    → check_body ls ≡ none
    → (¬ (ls ≡ [])) × All IsPostable ls × ((c : Text) → debits c ls % word ≡ credits c ls % word)
unfolding check_body sum_of
check_body_sound [] range h = cc
check_body_sound (l ∷ ls) range h = go (check_lines (l ∷ ls) []) refl
  where
    go :
        (r : Result Sums)
        → check_lines (l ∷ ls) [] ≡ r
        → (¬ (l ∷ ls ≡ []))
          × All IsPostable (l ∷ ls)
          × ((c : Text) → debits c (l ∷ ls) % word ≡ credits c (l ∷ ls) % word)
    go (ok m) q =
        let zero_sums : all_zero m ≡ true = check_sums-all_zero m (rw q at h) in
        let (lines, sums) = check_lines_sound (l ∷ ls) [] m range q in
        (
          λ e. cc,
          lines,
          λ c.
              zero_sum_balanced (sum_of c m) (debits c (l ∷ ls)) (credits c (l ∷ ls))
                (sum_of-all_zero c m zero_sums) (sums c),
        )
    go (err x) q = absurd (check_sums-err x (rw q at h))

-- `Validate` accepts only balanced entries.
pub validate-IsBalanced :
    (e : Entry) → All (λ l. IsInt64 l.amount) e.lines → validate e ≡ none → IsBalanced e
unfolding validate
validate-IsBalanced e range h =
    let names : (is_blank e.external_ref ≡ false) × (is_blank e.kind ≡ false) = ground arith in
    let body : check_body e.lines ≡ none = rw (names.0, names.1) at h in
    let (lines_given, lines, sums) = check_body_sound e.lines range body in
    record { named = names; some_line = lines_given; postable = lines; balanced = sums }

-- As long as neither side of a currency reaches 2^64, an accepted entry of int64 amounts balances
-- exactly in that currency.
pub validate_exact :
    (e : Entry) (c : Text)
    → All (λ l. IsInt64 l.amount) e.lines
    → validate e ≡ none
    → debits c e.lines < word
    → credits c e.lines < word
    → debits c e.lines ≡ credits c e.lines
validate_exact e c range h d k = omega (arith, (validate-IsBalanced e range h).balanced c)
