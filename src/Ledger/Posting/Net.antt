-- ===== src/Ledger/Posting/Net.antt =====
-- What an entry's lines and its postings come to.
use selatpay.Prelude.{
  ℕ, suc, ◌+◌, ◌<◌, ◌≡◌, refl, sym, inl, inr, true, false, ◌&&◌, List, [], ◌∷◌, ◌++◌, ◌==◌, All,
  Bool-cases, if◌then◌else◌, arith,
}
use selatpay.Prelude.Text.{Text, text_eq}
use selatpay.Prelude.Int.{ℤ, pos, pos_part, ◌+ℤ◌, ◌-ℤ◌, +ℤ_parts, -ℤ_parts, eq_of_parts}
use selatpay.Db.Tables.{Uuid, Posting}
use selatpay.Ledger.Validate.{Line}
use selatpay.Ledger.Validate.Balanced.{debits, credits, IsPostable}
use selatpay.Ledger.Posting.{signed, entry_net}
use selatpay.Ledger.Posting.Posted.{posted}

pub +ℤ_assoc : (a b c : ℤ) → a +ℤ (b +ℤ c) ≡ a +ℤ b +ℤ c
+ℤ_assoc a b c =
    eq_of_parts (a +ℤ (b +ℤ c)) (a +ℤ b +ℤ c)
      (omega (arith, +ℤ_parts b c, +ℤ_parts a (b +ℤ c), +ℤ_parts a b, +ℤ_parts (a +ℤ b) c))

pub zero_left : (a : ℤ) → pos 0 +ℤ a ≡ a
zero_left a = eq_of_parts (pos 0 +ℤ a) a (omega (arith, +ℤ_parts (pos 0) a))

-- What the lines of a currency come to, debits less credits.
unfoldable pub line_net : Text → List Line → ℤ
line_net c [] = pos 0
line_net c (l ∷ ls) =
    let rest = line_net c ls in
    if text_eq l.currency c then signed l.direction l.amount +ℤ rest else rest

pub entry_net-append :
    (c : Text) (id : Uuid) (ps qs : List Posting)
    → entry_net c id (ps ++ qs) ≡ entry_net c id ps +ℤ entry_net c id qs
unfolding entry_net
entry_net-append c id [] qs = sym (zero_left (entry_net c id qs))
entry_net-append c id (p ∷ ps) qs =
    elim (Bool-cases (text_eq p.currency c && p.journal_entry_id == id)) [
      | inl hit ↦
          rw (hit, entry_net-append c id ps qs)
            (+ℤ_assoc (signed p.direction p.amount) (entry_net c id ps) (entry_net c id qs))
      | inr miss ↦ rw miss (entry_net-append c id ps qs)
    ]

pub entry_net-posted :
    (c : Text) (id n : ℕ) (ls : List Line) → entry_net c id (posted id n ls) ≡ line_net c ls
unfolding entry_net posted line_net
entry_net-posted c id n [] = refl
entry_net-posted c id n (l ∷ ls) =
    let self : (id == id) ≡ true = ground arith in
    elim (Bool-cases (text_eq l.currency c)) [
      | inl hit ↦ rw (hit, self, entry_net-posted c id (suc n) ls) refl
      | inr miss ↦ rw (miss, entry_net-posted c id (suc n) ls) refl
    ]

pub entry_net-posted_other :
    (c : Text) (other id n : ℕ) (ls : List Line)
    → (id == other) ≡ false
    → entry_net c other (posted id n ls) ≡ pos 0
unfolding entry_net posted
entry_net-posted_other c other id n [] h = refl
entry_net-posted_other c other id n (l ∷ ls) h =
    let miss : (text_eq l.currency c && id == other) ≡ false = ground arith in
    rw miss (entry_net-posted_other c other id (suc n) ls h)

-- A posting moves its side of a sum.
debit-sides :
    (a : ℤ) (d k : ℕ) → 0 < pos_part a → a +ℤ (pos d -ℤ pos k) ≡ pos (pos_part a + d) -ℤ pos k
debit-sides (pos n) d k h = eq_of_parts (pos n +ℤ (pos d -ℤ pos k)) (pos (n + d) -ℤ pos k) (
    omega (
      arith,
      -ℤ_parts (pos d) (pos k),
      +ℤ_parts (pos n) (pos d -ℤ pos k),
      -ℤ_parts (pos (n + d)) (pos k),
    ))
debit-sides (ℤ.negsuc n) d k h = absurd (omega arith)

credit-sides :
    (a : ℤ) (d k : ℕ)
    → 0 < pos_part a
    → pos 0 -ℤ a +ℤ (pos d -ℤ pos k) ≡ pos d -ℤ pos (pos_part a + k)
credit-sides (pos n) d k h =
    eq_of_parts (pos 0 -ℤ pos n +ℤ (pos d -ℤ pos k)) (pos d -ℤ pos (n + k)) (
      omega (
        arith,
        -ℤ_parts (pos d) (pos k),
        -ℤ_parts (pos 0) (pos n),
        +ℤ_parts (pos 0 -ℤ pos n) (pos d -ℤ pos k),
        -ℤ_parts (pos d) (pos (n + k)),
      ))
credit-sides (ℤ.negsuc n) d k h = absurd (omega arith)

pub line_net-sides :
    (c : Text) (ls : List Line)
    → All IsPostable ls
    → line_net c ls ≡ pos (debits c ls) -ℤ pos (credits c ls)
unfolding line_net debits credits
line_net-sides c [] h =
    eq_of_parts (pos 0) (pos 0 -ℤ pos 0) (omega (arith, -ℤ_parts (pos 0) (pos 0)))
line_net-sides c (l ∷ ls) (h, hs) =
    let d = debits c ls in
    let k = credits c ls in
    let none_left : 0 + d ≡ d = omega arith in
    let none_right : 0 + k ≡ k = omega arith in
    elim (Bool-cases (text_eq l.currency c)) [
      | inr miss ↦ rw (miss, none_left, none_right) (line_net-sides c ls hs)
      | inl hit ↦ elim h.directed [
        | inl left ↦
            rw (hit, left, line_net-sides c ls hs, none_right) (debit-sides l.amount d k h.positive)
        | inr right ↦
            rw (hit, right, line_net-sides c ls hs, none_left)
              (credit-sides l.amount d k h.positive)
      ]
    ]

pub level : (n : ℕ) → pos n -ℤ pos n ≡ pos 0
level n = eq_of_parts (pos n -ℤ pos n) (pos 0) (omega (arith, -ℤ_parts (pos n) (pos n)))
