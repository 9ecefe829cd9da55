-- ===== src/Bank/Race.antt =====
-- Two requests with one key, whose critical sections come in any order.
use selatpay.Prelude.{
  ℕ, suc, ◌≡◌, ◌≢◌, refl, sym, ap, ◌∙◌, Bool, true, false, not, none, List, [], ◌∷◌, take, ◌^◌,
  arith,
}
use selatpay.Prelude.Text.{Text, codes, text_eq, text_eq_refl}
use selatpay.Bank.{
  BankRequest, BankResponse, Readable, good, HttpRequest, Response, Server, lookup, Phase, waiting,
  missed, answered, found, look, succeeded, decide, decoded, finish,
}
use selatpay.Bank.Once.{IsPayout, look-IsPayout}

-- The server, and where two requests stand.
pub record Pair : Type 0 where
  pub server : Server
  pub first : Phase
  pub second : Phase

module _ (uuid_string : ℕ → Text) (marshal : BankResponse → Text)
    (unmarshal : Text → Readable BankRequest) (one other : HttpRequest) where
  abbrev finish_of : HttpRequest → Server → Response × Server
  finish_of = finish uuid_string marshal unmarshal

  -- The next critical section of a request: the lookup, or the answer and its storing.
  abbrev section_of : HttpRequest → Phase → Server → Phase × Server
  section_of r waiting s = (look r s, s)
  section_of r missed s = let (a, t) = finish_of r s in (answered a, t)
  section_of r (answered a) s = (answered a, s)

  abbrev moved_first : Phase → Phase × Server → Pair
  moved_first other_phase (x, t) = record { server = t; first = x; second = other_phase }

  abbrev moved_second : Phase → Phase × Server → Pair
  moved_second one_phase (x, t) = record { server = t; first = one_phase; second = x }

  -- The turn of the first request, or of the second.
  abbrev turn : Bool → Pair → Pair
  turn true p = moved_first p.second (section_of one p.first p.server)
  turn false p = moved_second p.first (section_of other p.second p.server)

  abbrev run : List Bool → Pair → Pair
  run [] p = p
  run (b ∷ bs) p = run bs (turn b p)

  -- Four turns of two requests that come at a server.
  abbrev pub after : Bool × Bool × Bool × Bool → Server → Pair
  after (a, b, c, d) s =
      run (a ∷ b ∷ c ∷ d ∷ []) (record { server = s; first = waiting; second = waiting })

  -- A payout that the bank would pay.
  pub record Pays (r : HttpRequest) : Type 0 where
    pub is_payout : IsPayout r
    pub not_retry : text_eq r.fail (codes "retry") ≡ false
    pub not_permanent : text_eq r.fail (codes "permanent") ≡ false
    pub body : Text
    pub request : BankRequest
    pub reads : r.body ≡ good body
    pub decodes : decoded uuid_string marshal unmarshal (take (2 ^ 20) body) ≡ good request

  finish-Pays :
      (r : HttpRequest) (s : Server) (p : Pays r)
      → let answer : Response = record {
        status_code = 200;
        body = marshal (succeeded uuid_string marshal unmarshal p.request s.next_uuid);
      } in
        finish_of r s ≡ (
          answer,
          record { cache = (r.idempotency_key, answer) ∷ s.cache; next_uuid = suc s.next_uuid },
        )
  unfolding finish decide
  finish-Pays r s p = rw (p.reads, p.decodes, p.not_retry, p.not_permanent) refl

  references_apart :
      ((m n : ℕ) → uuid_string m ≡ uuid_string n → m ≡ n)
      → (a b : BankRequest) (n : ℕ)
      → (succeeded uuid_string marshal unmarshal a n).reference
        ≢ (succeeded uuid_string marshal unmarshal b (suc n)).reference
  references_apart injective a b n e =
      let ids : n ≡ suc n = injective n (suc n) (cc) in absurd (omega arith)

  -- Both are paid, under two references.
  abbrev pub PaidTwice : Pair → Type 0
  PaidTwice p =
      (x y : BankResponse) × (p.first ≡ answered (record { status_code = 200; body = marshal x }))
      × (p.second ≡ answered (record { status_code = 200; body = marshal y }))
      × (x.reference ≢ y.reference)

  -- Both get one answer, that of a payment.
  abbrev pub PaidOnce : Pair → Type 0
  PaidOnce p =
      (x : BankResponse) × (p.first ≡ answered (record { status_code = 200; body = marshal x }))
      × (p.second ≡ answered (record { status_code = 200; body = marshal x }))

  -- A request finds the answer that was stored under its key.
  look-stored :
      (r : HttpRequest) (key : Text) (a : Response) (s : Server)
      → Pays r
      → r.idempotency_key ≡ key
      → look r (record s { cache = (key, a) ∷ s.cache }) ≡ answered a
  unfolding lookup
  look-stored r key a s p same =
      look-IsPayout r (record s { cache = (key, a) ∷ s.cache }) p.is_payout
      ∙ rw (same, text_eq_refl key) refl

  module _ (injective : (m n : ℕ) → uuid_string m ≡ uuid_string n → m ≡ n) (p : Pays one)
      (q : Pays other) (same : other.idempotency_key ≡ one.idempotency_key) (s : Server)
      (new : lookup one.idempotency_key s.cache ≡ none) where
    abbrev paid : BankRequest → ℕ → BankResponse
    paid = succeeded uuid_string marshal unmarshal

    abbrev answer_of : BankResponse → Response
    answer_of x = record { status_code = 200; body = marshal x }

    abbrev counted : Server → Server
    counted t = record t { next_uuid = suc t.next_uuid }

    abbrev stored : HttpRequest → BankResponse → Server
    stored r x = record (counted s) { cache = (r.idempotency_key, answer_of x) ∷ s.cache }

    abbrev Apart : Response → Response → Type 0
    Apart a b =
        (x y : BankResponse) × (answered a ≡ answered (answer_of x))
        × (answered b ≡ answered (answer_of y))
        × (x.reference ≢ y.reference)

    one_then_other :
        Apart
          (answer_of (paid p.request s.next_uuid))
          (answer_of (paid q.request (suc s.next_uuid)))
    one_then_other = (
      paid p.request s.next_uuid,
      paid q.request (suc s.next_uuid),
      refl,
      refl,
      references_apart injective p.request q.request s.next_uuid,
    )

    other_then_one :
        Apart
          (answer_of (paid p.request (suc s.next_uuid)))
          (answer_of (paid q.request s.next_uuid))
    other_then_one = (
      paid p.request (suc s.next_uuid),
      paid q.request s.next_uuid,
      refl,
      refl,
      λ e. references_apart injective q.request p.request s.next_uuid (sym e),
    )

    one_missed : look one s ≡ missed
    one_missed = look-IsPayout one s p.is_payout ∙ ap found new

    other_missed : look other s ≡ missed
    other_missed =
        look-IsPayout other s q.is_payout ∙ ap found (ap (λ k. lookup k s.cache) same ∙ new)

    overlapping : (a b : Bool) → PaidTwice (after (a, not a, b, not b) s)
    overlapping true true =
        rw (one_missed, other_missed)
          (rw (finish-Pays one s p)
            (rw (finish-Pays other (stored one (paid p.request s.next_uuid)) q) one_then_other))
    overlapping true false =
        rw (one_missed, other_missed)
          (rw (finish-Pays other s q)
            (rw (finish-Pays one (stored other (paid q.request s.next_uuid)) p) other_then_one))
    overlapping false true =
        rw (one_missed, other_missed)
          (rw (finish-Pays one s p)
            (rw (finish-Pays other (stored one (paid p.request s.next_uuid)) q) one_then_other))
    overlapping false false =
        rw (one_missed, other_missed)
          (rw (finish-Pays other s q)
            (rw (finish-Pays one (stored other (paid q.request s.next_uuid)) p) other_then_one))

    serial : (a : Bool) → PaidOnce (after (a, a, not a, not a) s)
    serial true =
        let x = paid p.request s.next_uuid in
        rw one_missed (
          rw (finish-Pays one s p) (
            rw (look-stored other one.idempotency_key (answer_of x) (counted s) q same)
              (x, refl, refl)))
    serial false =
        let x = paid q.request s.next_uuid in
        rw other_missed (
          rw (finish-Pays other s q) (
            rw (look-stored one other.idempotency_key (answer_of x) (counted s) p (sym same))
              (x, refl, refl)))

    -- Two payouts with one new key: if both lookups come before either answer is stored, in
    -- whatever order, both are paid, under two references; if one request is through before the
    -- other comes, both get the one answer. Given that two UUIDs have two texts.
    pub one_key-two_references :
        (a b : Bool)
        → PaidTwice (after (a, not a, b, not b) s) × PaidOnce (after (a, a, not a, not a) s)
    one_key-two_references a b = (overlapping a b, serial a)
