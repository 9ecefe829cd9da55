-- ===== src/Idempotency/Store.antt =====
-- internal/idempotency/store.go and store_pg.go, over the queries of
-- internal/db/sqlc/idempotency.sql.go. A status code is below 2^31, so its int32 cast is left out.
use selatpay.Prelude.{
  ℕ, ◌≡◌, refl, ap, ◌∙◌, Bool, ◌&&◌, ◌||◌, Option, none, some, List, [], ◌∷◌, ◌++◌, ◌==◌,
  if◌then◌else◌, find?, find?-append, find?-last, Bool-cases, inl, inr, ==_self,
}
use selatpay.Prelude.Text.{Text, text_eq, text_eq_refl, is_empty}
use selatpay.Db.Tables.{Uuid}
use selatpay.Db.Tx.{Err, wrap, unavailable}

pub record Record : Type 0 where
  pub merchant_id : Uuid
  pub key : Text
  pub request_hash : Text
  pub status_code : ℕ
  pub response_body : Text

pub data Lookup : Type 0 where
  found : Record → Lookup
  not_found : Lookup
  failed : Err → Lookup

-- `created` says that the record is ours, `existing` that another writer's was there.
pub data Stored : Type 0 where
  created : Record → Stored
  existing : Record → Stored
  failed : Err → Stored

-- The interface `Store`, over the state of an implementation.
pub record Store (S : Type 0) : Type 0 where
  pub get : Uuid → Text → S → Lookup × S
  pub put : Record → S → Stored × S

abbrev pub Rows : Type 0
Rows = List Record

abbrev pub keyed : Uuid → Text → Record → Bool
keyed merchant_id key r = (r.merchant_id == merchant_id) && text_eq r.key key

-- GetIdempotencyKey, by the primary key.
unfoldable pub find_record : Uuid → Text → Rows → Option Record
find_record merchant_id key = find? (keyed merchant_id key)

-- The database calls that may fail for a reason outside the model.
pub record StoreFaults : Type 0 where
  pub get_fails : Bool
  pub insert_fails : Bool

abbrev looked_up : Option Record → Lookup
looked_up none = not_found
looked_up (some r) = found r

unfoldable pub pg_get : StoreFaults → Uuid → Text → Rows → Lookup × Rows
unfolding find_record
pg_get faults merchant_id key rows =
    if faults.get_fails
    then (failed (wrap unavailable), rows)
    else (looked_up (find_record merchant_id key rows), rows)

-- The winner of a conflict is fetched; a missing one is an error.
abbrev winner : Lookup × Rows → Stored × Rows
winner (found r, rows) = (existing r, rows)
winner (not_found, rows) = (Stored.failed (wrap unavailable), rows)
winner (Lookup.failed e, rows) = (Stored.failed (wrap e), rows)

-- InsertIdempotencyKey does nothing on a conflict.
abbrev pub inserted : StoreFaults → Record → Option Record → Rows → Stored × Rows
inserted faults r none rows = (created r, rows ++ r ∷ [])
inserted faults r (some old) rows = winner (pg_get faults r.merchant_id r.key rows)

-- `response_body` is NOT NULL, and the bytes of an empty body are nil, which is NULL.
unfoldable pub pg_put : StoreFaults → Record → Rows → Stored × Rows
unfolding pg_get
pg_put faults r rows =
    if faults.insert_fails || is_empty r.response_body
    then (Stored.failed (wrap unavailable), rows)
    else inserted faults r (find_record r.merchant_id r.key rows) rows

unfoldable pub pg_store : StoreFaults → Store Rows
unfolding pg_get pg_put
pg_store faults = record { get = pg_get faults; put = pg_put faults }

pub find_record-append :
    (m : Uuid) (key : Text) (rows : Rows) (r old : Record)
    → find_record m key rows ≡ some old
    → find_record m key (rows ++ r ∷ []) ≡ some old
unfolding find_record
find_record-append m key rows r old e = rw (find?-append (keyed m key) rows (r ∷ []), e)

pub find_record-last :
    (r : Record) (rows : Rows)
    → find_record r.merchant_id r.key rows ≡ none
    → find_record r.merchant_id r.key (rows ++ r ∷ []) ≡ some r
unfolding find_record
find_record-last r rows e =
    find?-last (keyed r.merchant_id r.key) rows r e
      (rw (==_self r.merchant_id, text_eq_refl r.key) refl)

pg_get-rows :
    (faults : StoreFaults) (m : Uuid) (key : Text) (rows : Rows)
    → (pg_get faults m key rows).1 ≡ rows
unfolding pg_get
pg_get-rows faults m key rows = elim (Bool-cases faults.get_fails) [
  | inl fails ↦ rw fails refl
  | inr works ↦ rw works refl
]

winner-rows : (res : Lookup × Rows) → (winner res).1 ≡ res.1
winner-rows (found r, rows) = refl
winner-rows (not_found, rows) = refl
winner-rows (Lookup.failed e, rows) = refl

-- A record, once stored, is found whatever is put later.
pub find_record-pg_put :
    (faults : StoreFaults) (m : Uuid) (key : Text) (r old : Record) (rows : Rows)
    → find_record m key rows ≡ some old
    → find_record m key (pg_put faults r rows).1 ≡ some old
unfolding pg_put
find_record-pg_put faults m key r old rows e =
    elim (Bool-cases (faults.insert_fails || is_empty r.response_body)) [
      | inl fails ↦ rw fails e
      | inr works ↦ rw works (go (find_record r.merchant_id r.key rows))
    ]
  where
    go : (o : Option Record) → find_record m key (inserted faults r o rows).1 ≡ some old
    go none = find_record-append m key rows r old e
    go (some x) =
        ap (find_record m key) (
          winner-rows (pg_get faults r.merchant_id r.key rows)
          ∙ pg_get-rows faults r.merchant_id r.key rows)
        ∙ e
