-- ===== src/Chain/Watcher/Covered.antt =====
-- What the watcher's two writes do to the invariant of its tables.
use selatpay.Prelude.{
  ◌≡◌, refl, true, Option, none, some, List, [], ◌∷◌, ◌++◌, arith, ==_self, find?-append,
  find?-last, All, All-map,
}
use selatpay.Prelude.Text.{Text, text_eq, text_eq_sound, text_eq_refl}
use selatpay.Prelude.Keys.{
  has_key, Distinct, Distinct-append, Distinct-update_where, update_where-keyed,
}
use selatpay.Db.Tables.{Uuid, OnchainPayment, Commitment, processed, confirmed, finalized}
use selatpay.Db.Tx.{Result, ok, err, Db, World, SagaRun}
use selatpay.Saga.Steps.Names.{first_step}
use selatpay.Chain.Deposits.{
  merged, signature_of, find_payment, update_payment, payment_upserted, run_key, key_eq, find_run,
  new_run, run_enqueued,
}
use selatpay.Chain.Watcher.{kind_settlement}

-- A finalized deposit of an intent has a settlement saga.
abbrev pub CoveredBy : List SagaRun → Commitment → Option Uuid → Type 0
CoveredBy runs finalized (some id) = (r : SagaRun) × (find_run id kind_settlement runs ≡ some r)
CoveredBy runs _ _ = Unit

abbrev pub Covered : List SagaRun → OnchainPayment → Type 0
Covered runs p = CoveredBy runs p.commitment p.intent_id

pub record Settled (db : Db) : Type 0 where
  pub signatures_distinct : Distinct signature_of text_eq db.onchain_payments
  pub sagas_distinct : Distinct run_key key_eq db.saga_runs
  pub deposits_covered : All (Covered db.saga_runs) db.onchain_payments

pub key_eq_sound : (a b : Uuid × Text) → key_eq a b ≡ true → a ≡ b
key_eq_sound (i, s) (j, t) h = ground (arith, text_eq_sound s t)

pub key_eq_refl : (a : Uuid × Text) → key_eq a a ≡ true
key_eq_refl (i, s) = rw (==_self i, text_eq_refl s)

All-snoc :
    (P : OnchainPayment → Type 0) (xs : List OnchainPayment) (x : OnchainPayment)
    → All P xs
    → P x
    → All P (xs ++ x ∷ [])
All-snoc P [] x h hx = (hx, tt)
All-snoc P (y ∷ ys) x h hx = (h.0, All-snoc P ys x h.1 hx)

-- What a saga behind the others leaves found.
pub find_run-kept :
    (runs : List SagaRun) (r : SagaRun) (id : Uuid) (kind : Text) (s : SagaRun)
    → find_run id kind runs ≡ some s
    → find_run id kind (runs ++ r ∷ []) ≡ some s
unfolding find_run
find_run-kept runs r id kind s e =
    rw (find?-append (has_key run_key key_eq (id, kind)) runs (r ∷ []), e)

CoveredBy-kept :
    (runs : List SagaRun) (r : SagaRun) (c : Commitment) (i : Option Uuid)
    → CoveredBy runs c i
    → CoveredBy (runs ++ r ∷ []) c i
CoveredBy-kept runs r finalized (some id) (s, e) = (s, find_run-kept runs r id kind_settlement s e)
CoveredBy-kept runs r finalized none h = tt
CoveredBy-kept runs r confirmed i h = tt
CoveredBy-kept runs r processed i h = tt

-- The tables before the saga is enqueued: the row `c`, `i` may be the one not covered yet.
pub record Pending (c : Commitment) (i : Option Uuid) (w : World) : Type 0 where
  pub signatures : Distinct signature_of text_eq w.db.onchain_payments
  pub sagas : Distinct run_key key_eq w.db.saga_runs
  pub covered :
      (runs : List SagaRun)
      → ((y : OnchainPayment) → Covered w.db.saga_runs y → Covered runs y)
      → CoveredBy runs c i
      → All (Covered runs) w.db.onchain_payments

pub Pending-Settled :
    {c : Commitment} {i : Option Uuid} {w : World}
    → Pending c i w
    → CoveredBy w.db.saga_runs c i
    → Settled w.db
Pending-Settled {w} p c = record {
  signatures_distinct = p.signatures;
  sagas_distinct = p.sagas;
  deposits_covered = p.covered w.db.saga_runs (λ y h. h) c;
}

pub run_enqueued-Settled :
    (id : Uuid) (w : World) (o : Option SagaRun)
    → find_run id kind_settlement w.db.saga_runs ≡ o
    → Pending finalized (some id) w
    → Settled (run_enqueued id kind_settlement first_step o w).1.db
unfolding find_run
run_enqueued-Settled id w (some r) e p = Pending-Settled p (r, e)
run_enqueued-Settled id w none e p =
    let r : SagaRun = new_run id kind_settlement first_step w.next_id w.now in
    let runs = w.db.saga_runs ++ r ∷ [] in
    record {
      signatures_distinct = p.signatures;
      sagas_distinct =
          Distinct-append run_key key_eq key_eq_sound key_eq_refl w.db.saga_runs r p.sagas e;
      deposits_covered =
          p.covered runs (λ y. CoveredBy-kept w.db.saga_runs r y.commitment y.intent_id)
            (
              r,
              find?-last (has_key run_key key_eq (id, kind_settlement)) w.db.saga_runs r e
                  (key_eq_refl (run_key r)),
            );
    }

-- The row that an upsert returns is the one that may not be covered.
abbrev pub UpsertGood : Result OnchainPayment × World → Type 0
UpsertGood (ok p, w) = Pending p.commitment p.intent_id w
UpsertGood (err e, w) = Unit

pub payment_upserted-Pending :
    (p : OnchainPayment) (w : World) (o : Option OnchainPayment)
    → find_payment p.signature w.db.onchain_payments ≡ o
    → Settled w.db
    → UpsertGood (payment_upserted p o w)
unfolding find_payment update_payment merged
payment_upserted-Pending p w none e s = record {
  signatures =
      Distinct-append signature_of text_eq text_eq_sound text_eq_refl w.db.onchain_payments p
        s.signatures_distinct e;
  sagas = s.sagas_distinct;
  covered = λ runs weaken here.
      All-snoc (Covered runs) w.db.onchain_payments p
        (All-map (Covered w.db.saga_runs) (Covered runs) w.db.onchain_payments weaken
          s.deposits_covered)
        here;
}
payment_upserted-Pending p w (some old) e s = record {
  signatures =
      Distinct-update_where signature_of text_eq text_eq_sound text_eq_refl
        (has_key signature_of text_eq p.signature) (merged p) (λ x. refl) w.db.onchain_payments
        s.signatures_distinct;
  sagas = s.sagas_distinct;
  covered = λ runs weaken here.
      update_where-keyed signature_of text_eq text_eq_sound text_eq_refl (Covered w.db.saga_runs)
        (Covered runs) p.signature (merged p) old weaken here w.db.onchain_payments
        s.signatures_distinct e s.deposits_covered;
}
