-- ===== src/Idempotency/CachedStore/Refines.antt =====
-- The cached store answers like the store behind it.
use selatpay.Prelude.{
  cancel_prefix, ◌≡◌, refl, sym, ap, ◌∙◌, subst, Bool, Option, none, some, List, [], ◌∷◌, ◌++◌, inl,
  inr, if◌then◌else◌, select, length, eq_of_some, Bool-cases,
}
use selatpay.Prelude.Text.{Text, text_eq, text_eq_sound, is_empty}
use selatpay.Db.Tables.{Uuid}
use selatpay.Idempotency.Store.{
  Record, Rows, find_record, pg_get, pg_put, inserted, pg_store, find_record-append,
  find_record-last,
}
use selatpay.Idempotency.CachedStore.{
  CachePayload, Cache, RedisFaults, redis_get, payload_of, record_of, cache_key, warm, fetched,
  through, cached_get, warmed, cached_put, cached_store,
}
use selatpay.Idempotency.CachedStore.Session.{
  working, Op, get, put, expire, looked_up, stored, answers_of_store, answers_of_cached,
}
use selatpay.Idempotency.CachedStore.Entries.{found-keys, redis_get-select}

module _ (uuid_string : Uuid → Text)
    (width : (a b : Uuid) → length (uuid_string a) ≡ length (uuid_string b))
    (injective : (a b : Uuid) → uuid_string a ≡ uuid_string b → a ≡ b) where
  cache_key-injective :
      (m n : Uuid) (j k : Text)
      → cache_key uuid_string m j ≡ cache_key uuid_string n k
      → (m ≡ n) × (j ≡ k)
  unfolding cache_key
  cache_key-injective m n j k e =
      let behind : uuid_string m ++ b':' ∷ j ≡ uuid_string n ++ b':' ∷ k = cc in
      let (ids, keys) =
        cancel_prefix (uuid_string m) (uuid_string n) (b':' ∷ j) (b':' ∷ k) (width m n) behind in
      (injective m n ids, cc)

  -- Whatever the cache holds for a key is the payload of the stored record.
  Coherent : Rows → Cache → Type 0
  Coherent rows cache =
      (m : Uuid) (key : Text) (p : CachePayload)
      → redis_get (cache_key uuid_string m key) cache ≡ some p
      → (r : Record) × (find_record m key rows ≡ some r) × (payload_of r ≡ p)

  Coherent-warm :
      (faults : RedisFaults) (m : Uuid) (key : Text) (r : Record) (rows : Rows) (cache : Cache)
      → find_record m key rows ≡ some r
      → Coherent rows cache
      → Coherent rows (warm faults (cache_key uuid_string m key) r cache)
  unfolding warm Coherent redis_get
  Coherent-warm faults m key r rows cache e h = elim (Bool-cases faults.write_fails) [
    | inl fails ↦ rw fails h
    | inr works ↦ rw works λ n k p. at_key n k p
  ]
    where
      at_key :
          (n : Uuid) (k : Text) (p : CachePayload)
          → redis_get
              (cache_key uuid_string n k)
              ((cache_key uuid_string m key, payload_of r) ∷ cache)
            ≡ some p
          → (x : Record) × (find_record n k rows ≡ some x) × (payload_of x ≡ p)
      at_key n k p hit =
          let ours = cache_key uuid_string m key in
          let asked = cache_key uuid_string n k in
          elim (Bool-cases (text_eq ours asked)) [
            | inl same ↦
                let (ids, keys) = cache_key-injective m n key k (text_eq_sound ours asked same) in
                (
                  r,
                  subst (λ j. find_record j k rows ≡ some r) ids
                      (subst (λ j. find_record m j rows ≡ some r) keys e),
                  eq_of_some (rw same at hit),
                )
            | inr other ↦ h n k p (rw other at hit)
          ]

  Coherent-select :
      (keep : Text → Bool) (rows : Rows) (cache : Cache)
      → Coherent rows cache
      → Coherent rows (select (λ e. keep e.0) cache)
  unfolding Coherent
  Coherent-select keep rows cache h m key p hit =
      h m key p (redis_get-select keep (cache_key uuid_string m key) cache p hit)

  Coherent-append :
      (r : Record) (rows : Rows) (cache : Cache)
      → Coherent rows cache
      → Coherent (rows ++ r ∷ []) cache
  unfolding Coherent
  Coherent-append r rows cache h m key p hit =
      let (x, e, same) = h m key p hit in (x, find_record-append m key rows r x e, same)

  -- A hit gives the stored record.
  record_of-hit :
      (m : Uuid) (key : Text) (rows : Rows) (cache : Cache) (p : CachePayload)
      → Coherent rows cache
      → redis_get (cache_key uuid_string m key) cache ≡ some p
      → find_record m key rows ≡ some (record_of m key p)
  unfolding Coherent
  record_of-hit m key rows cache p h hit =
      let (r, e, same) = h m key p hit in
      let (id_same, key_same) = found-keys m key rows r e in
      let whole : r ≡ record_of m key p =
        ap (λ i. record_of i r.key (payload_of r)) id_same
        ∙ ap (λ k. record_of m k (payload_of r)) key_same
        ∙ ap (record_of m key) same in
      e ∙ ap (λ x. some x) whole

  -- One read: the store's answer, its rows as they were, and a cache that is coherent still.
  cached_get-agrees :
      (faults : RedisFaults) (m : Uuid) (key : Text) (rows : Rows) (cache : Cache)
      → Coherent rows cache
      → (cache' : Cache) × (cached_get uuid_string (pg_store working) faults m key (rows, cache)
          ≡ ((pg_get working m key rows).0, (rows, cache')))
        × Coherent rows cache'
  unfolding cached_get pg_store pg_get
  cached_get-agrees faults m key rows cache h =
      go (if faults.read_fails then none else redis_get (cache_key uuid_string m key) cache) refl
    where
      behind :
          (o : Option Record)
          → find_record m key rows ≡ o
          → (cache' : Cache) × (fetched uuid_string
                (pg_store working)
                faults
                (cache_key uuid_string m key)
                cache
                (pg_get working m key rows)
              ≡ ((pg_get working m key rows).0, (rows, cache')))
            × Coherent rows cache'
      behind none e = (cache, rw e refl, h)
      behind (some r) e = (
        warm faults (cache_key uuid_string m key) r cache,
        rw e refl,
        Coherent-warm faults m key r rows cache e h,
      )

      go :
          (o : Option CachePayload)
          → (if faults.read_fails then none else redis_get (cache_key uuid_string m key) cache) ≡ o
          → (cache' : Cache) × (through uuid_string (pg_store working) faults m key o (rows, cache)
              ≡ ((pg_get working m key rows).0, (rows, cache')))
            × Coherent rows cache'
      go none e = behind (find_record m key rows) refl
      go (some p) e = elim (Bool-cases faults.read_fails) [
        | inl fails ↦ let nothing = rw fails at e in absurd (cc)
        | inr works ↦ (cache, rw (record_of-hit m key rows cache p h (rw works at e)) refl, h)
      ]

  -- One write: the store's answer and rows, and a cache that is coherent with them.
  cached_put-agrees :
      (faults : RedisFaults) (r : Record) (rows : Rows) (cache : Cache)
      → Coherent rows cache
      → (cache' : Cache) × (cached_put uuid_string (pg_store working) faults r (rows, cache)
          ≡ ((pg_put working r rows).0, ((pg_put working r rows).1, cache')))
        × Coherent (pg_put working r rows).1 cache'
  unfolding cached_put pg_store pg_put pg_get
  cached_put-agrees faults r rows cache h = elim (Bool-cases (is_empty r.response_body)) [
    | inl gone ↦ rw gone (cache, refl, h)
    | inr given ↦ rw given (go (find_record r.merchant_id r.key rows) refl)
  ]
    where
      go :
          (o : Option Record)
          → find_record r.merchant_id r.key rows ≡ o
          → (cache' : Cache) × (warmed uuid_string
                (pg_store working)
                faults
                cache
                (inserted working r o rows)
              ≡ ((inserted working r o rows).0, ((inserted working r o rows).1, cache')))
            × Coherent (inserted working r o rows).1 cache'
      go none e = (
        warm faults (cache_key uuid_string r.merchant_id r.key) r cache,
        refl,
        Coherent-warm faults r.merchant_id r.key r (rows ++ r ∷ []) cache
            (find_record-last r rows e) (Coherent-append r rows cache h),
      )
      go (some old) e =
          let (id_same, key_same) = found-keys r.merchant_id r.key rows old e in
          let at_own : find_record old.merchant_id old.key rows ≡ some old =
            subst (λ k. find_record old.merchant_id k rows ≡ some old) (sym key_same)
              (subst (λ i. find_record i r.key rows ≡ some old) (sym id_same) e) in
          rw e (
            warm faults (cache_key uuid_string old.merchant_id old.key) old cache,
            refl,
            Coherent-warm faults old.merchant_id old.key old rows cache at_own h,
          )

  cached_store-answers :
      (ops : List Op) (rows : Rows) (cache : Cache)
      → Coherent rows cache
      → answers_of_cached uuid_string ops (rows, cache) ≡ answers_of_store ops rows
  unfolding answers_of_cached answers_of_store cached_store pg_store pg_get
  cached_store-answers [] rows cache h = refl
  cached_store-answers (get faults m key ∷ ops) rows cache h =
      let (cache', e, h') = cached_get-agrees faults m key rows cache h in
      ap (λ x. looked_up x.0 ∷ answers_of_cached uuid_string ops x.1) e
      ∙ ap (λ l. looked_up (pg_get working m key rows).0 ∷ l)
          (cached_store-answers ops rows cache' h')
  cached_store-answers (put faults r ∷ ops) rows cache h =
      let (cache', e, h') = cached_put-agrees faults r rows cache h in
      ap (λ x. stored x.0 ∷ answers_of_cached uuid_string ops x.1) e
      ∙ ap (λ l. stored (pg_put working r rows).0 ∷ l)
          (cached_store-answers ops (pg_put working r rows).1 cache' h')
  cached_store-answers (expire keep ∷ ops) rows cache h =
      cached_store-answers ops rows (select (λ e. keep e.0) cache)
        (Coherent-select keep rows cache h)

  -- With an empty cache in front of it at first, and while the database answers, every sequence of
  -- reads and writes is answered as by the store alone, whichever calls of Redis fail and whenever
  -- entries expire, given that the texts of UUIDs have one length and two UUIDs have two texts.
  pub cached_store-refines :
      (ops : List Op) (rows : Rows)
      → answers_of_cached uuid_string ops (rows, []) ≡ answers_of_store ops rows
  unfolding Coherent redis_get
  cached_store-refines ops rows = cached_store-answers ops rows [] (λ m key p hit. absurd (cc))
