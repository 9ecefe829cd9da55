-- ===== src/Bank/Once.antt =====
-- What a key is answered when requests come one after the other.
use selatpay.Prelude.{
  ℕ, ◌≡◌, refl, ap, true, false, none, some, List, [], ◌∷◌, inl, inr, Bool-cases, Option-cases,
  take, ◌^◌,
}
use selatpay.Prelude.Text.{Text, codes, text_eq, text_eq_refl, text_eq_sound, is_empty}
use selatpay.Bank.{
  BankRequest, BankResponse, Readable, good, bad, HttpRequest, Response, Server, lookup, Phase,
  waiting, missed, answered, found, look, decoded, decided, finished, finish, continued,
  handle_payouts,
}

-- A request that the guards let pass.
abbrev pub IsPayout : HttpRequest → Type 0
IsPayout r = (text_eq r.method (codes "POST") ≡ true) × (is_empty r.idempotency_key ≡ false)

pub look-IsPayout :
    (r : HttpRequest) (s : Server)
    → IsPayout r
    → look r s ≡ found (lookup r.idempotency_key s.cache)
unfolding look
look-IsPayout r s (posts, keyed) = rw (posts, keyed) refl

module _ (uuid_string : ℕ → Text) (marshal : BankResponse → Text)
    (unmarshal : Text → Readable BankRequest) where
  abbrev pub serve : HttpRequest → Server → Response × Server
  serve = handle_payouts uuid_string marshal unmarshal

  unfoldable pub serve_all : List HttpRequest → Server → Server
  serve_all [] s = s
  serve_all (r ∷ rs) s = serve_all rs (serve r s).1

  pub serve-cached :
      (r : HttpRequest) (a : Response) (s : Server)
      → IsPayout r
      → lookup r.idempotency_key s.cache ≡ some a
      → serve r s ≡ (a, s)
  unfolding handle_payouts
  serve-cached r a s pays there = rw (look-IsPayout r s pays, there) refl

  -- A stored answer stays: only a key that is not in the cache is stored.
  finish-keeps :
      (r : HttpRequest) (key : Text) (a : Response) (s : Server)
      → lookup r.idempotency_key s.cache ≡ none
      → lookup key s.cache ≡ some a
      → lookup key (finish uuid_string marshal unmarshal r s).1.cache ≡ some a
  unfolding finish lookup
  finish-keeps r key a s new there = go r.body
    where
      apart : text_eq r.idempotency_key key ≡ false
      apart = elim (Bool-cases (text_eq r.idempotency_key key)) [
        | inl same ↦
            let e = ap (λ k. lookup k s.cache) (text_eq_sound r.idempotency_key key same) in
            absurd (cc)
        | inr other ↦ other
      ]

      go_on :
          (q : Readable BankRequest)
          → lookup key (decided uuid_string marshal unmarshal r q s).1.cache ≡ some a
      go_on (bad e) = there
      go_on (good req) = rw apart there

      go :
          (b : Readable Text)
          → lookup key (finished uuid_string marshal unmarshal r b s).1.cache ≡ some a
      go (bad e) = there
      go (good body) = go_on (decoded uuid_string marshal unmarshal (take (2 ^ 20) body))

  look-missed :
      (r : HttpRequest) (s : Server) → look r s ≡ missed → lookup r.idempotency_key s.cache ≡ none
  unfolding look
  look-missed r s e = elim (Bool-cases (text_eq r.method (codes "POST"))) [
    | inr other ↦ let no = rw other at e in absurd (cc)
    | inl posts ↦ elim (Bool-cases (is_empty r.idempotency_key)) [
      | inl unkeyed ↦ let no = rw (posts, unkeyed) at e in absurd (cc)
      | inr keyed ↦ elim (Option-cases (lookup r.idempotency_key s.cache)) [
        | inl new ↦ new
        | inr (a, there) ↦ let no = rw (posts, keyed, there) at e in absurd (cc)
      ]
    ]
  ]

  look-not_waiting : (r : HttpRequest) (s : Server) → ¬ (look r s ≡ waiting)
  unfolding look
  look-not_waiting r s e = elim (Bool-cases (text_eq r.method (codes "POST"))) [
    | inr other ↦ let no = rw other at e in cc
    | inl posts ↦ elim (Bool-cases (is_empty r.idempotency_key)) [
      | inl unkeyed ↦ let no = rw (posts, unkeyed) at e in cc
      | inr keyed ↦ elim (Option-cases (lookup r.idempotency_key s.cache)) [
        | inl new ↦ let no = rw (posts, keyed, new) at e in cc
        | inr (a, there) ↦ let no = rw (posts, keyed, there) at e in cc
      ]
    ]
  ]

  serve-keeps :
      (r : HttpRequest) (key : Text) (a : Response) (s : Server)
      → lookup key s.cache ≡ some a
      → lookup key (serve r s).1.cache ≡ some a
  unfolding handle_payouts
  serve-keeps r key a s there = go (look r s) refl
    where
      go :
          (p : Phase)
          → look r s ≡ p
          → lookup key (continued uuid_string marshal unmarshal r s p).1.cache ≡ some a
      go (answered b) e = there
      go missed e = finish-keeps r key a s (look-missed r s e) there
      go waiting e = absurd (look-not_waiting r s e)

  pub serve_all-keeps :
      (rs : List HttpRequest) (key : Text) (a : Response) (s : Server)
      → lookup key s.cache ≡ some a
      → lookup key (serve_all rs s).cache ≡ some a
  unfolding serve_all
  serve_all-keeps [] key a s there = there
  serve_all-keeps (r ∷ rs) key a s there =
      serve_all-keeps rs key a (serve r s).1 (serve-keeps r key a s there)

  -- A payout whose body reads is answered from the cache, or its answer is stored.
  pub serve-stored :
      (r : HttpRequest) (body : Text) (req : BankRequest) (s : Server)
      → IsPayout r
      → r.body ≡ good body
      → decoded uuid_string marshal unmarshal (take (2 ^ 20) body) ≡ good req
      → lookup r.idempotency_key (serve r s).1.cache ≡ some (serve r s).0
  unfolding handle_payouts finish lookup
  serve-stored r body req s pays reads decodes =
      elim (Option-cases (lookup r.idempotency_key s.cache)) [
        | inr (a, there) ↦ rw (look-IsPayout r s pays, there) there
        | inl new ↦
            rw (look-IsPayout r s pays, new, reads, decodes, text_eq_refl r.idempotency_key) refl
      ]
