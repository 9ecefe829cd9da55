-- ===== src/Idempotency/CachedStore/Entries.antt =====
-- The entries of the cache and the rows of the store, by their keys.
use selatpay.Prelude.{
  ◌≡◌, refl, sym, ap, ◌∙◌, Bool, true, false, none, some, [], ◌∷◌, arith, inl, inr, ==→eq,
  find?-All, select, All-units, Bool-cases,
}
use selatpay.Prelude.Text.{Text, text_eq, text_eq_sound}
use selatpay.Db.Tables.{Uuid}
use selatpay.Idempotency.Store.{Record, Rows, keyed, find_record}
use selatpay.Idempotency.CachedStore.{CachePayload, Cache, redis_get}

pub found-keys :
    (m : Uuid) (key : Text) (rows : Rows) (r : Record)
    → find_record m key rows ≡ some r
    → (r.merchant_id ≡ m) × (r.key ≡ key)
unfolding find_record
found-keys m key rows r e =
    let hit = (find?-All (λ _. Unit {0}) (keyed m key) rows r (All-units rows) e).1 in
    (==→eq r.merchant_id m (ground arith), text_eq_sound r.key key (ground arith))

redis_get-gone :
    (keep : Text → Bool) (ck : Text) (cache : Cache)
    → keep ck ≡ false
    → redis_get ck (select (λ e. keep e.0) cache) ≡ none
unfolding redis_get select
redis_get-gone keep ck [] out = refl
redis_get-gone keep ck ((k, q) ∷ cache) out = elim (Bool-cases (keep k)) [
  | inl kept ↦
      let other : text_eq k ck ≡ false = not_same k kept in
      rw (kept, other) (redis_get-gone keep ck cache out)
  | inr gone ↦ rw gone (redis_get-gone keep ck cache out)
]
  where
    not_same : (j : Text) → keep j ≡ true → text_eq j ck ≡ false
    not_same j kept = elim (Bool-cases (text_eq j ck)) [
      | inl same ↦ let e = text_eq_sound j ck same in absurd (cc)
      | inr other ↦ other
    ]

pub redis_get-select :
    (keep : Text → Bool) (ck : Text) (cache : Cache) (p : CachePayload)
    → redis_get ck (select (λ e. keep e.0) cache) ≡ some p
    → redis_get ck cache ≡ some p
unfolding redis_get select
redis_get-select keep ck [] p hit = hit
redis_get-select keep ck ((k, q) ∷ cache) p hit = elim (Bool-cases (keep k)) [
  | inl kept ↦ elim (Bool-cases (text_eq k ck)) [
    | inl same ↦ rw same (rw (kept, same) at hit)
    | inr other ↦ rw other (redis_get-select keep ck cache p (rw (kept, other) at hit))
  ]
  | inr gone ↦
      let kept_p = redis_get-select keep ck cache p (rw gone at hit) in
      elim (Bool-cases (text_eq k ck)) [
        | inl same ↦
            let out : keep ck ≡ false = ap keep (sym (text_eq_sound k ck same)) ∙ gone in
            let nothing = redis_get-gone keep ck cache out in
            let something = rw gone at hit in absurd (cc)
        | inr other ↦ rw other kept_p
      ]
]
