-- ===== src/Idempotency/CachedStore.antt =====
-- internal/idempotency/store_cache.go: a read-through cache in front of a store. Redis is a list of
-- entries, the last write first; its errors are flags, and the JSON of an entry is kept as the
-- payload that it encodes. The text of a UUID is a parameter.
pub mod Session
pub mod Entries
pub mod Refines
use selatpay.Prelude.{ℕ, Bool, true, false, Option, none, some, List, [], ◌∷◌, ◌++◌, if◌then◌else◌}
use selatpay.Prelude.Text.{Text, codes, text_eq}
use selatpay.Db.Tables.{Uuid}
use selatpay.Db.Tx.{Err}
use selatpay.Idempotency.Store.{Record, Lookup, found, not_found, Stored, created, existing, Store}

pub record CachePayload : Type 0 where
  pub request_hash : Text
  pub status_code : ℕ
  pub response_body : Text

abbrev pub Cache : Type 0
Cache = List (Text × CachePayload)

-- Whether the read and the write of one call fail; a read of bytes that do not decode is one that
-- fails.
pub record RedisFaults : Type 0 where
  pub read_fails : Bool
  pub write_fails : Bool

unfoldable pub redis_get : Text → Cache → Option CachePayload
redis_get ck [] = none
redis_get ck ((k, p) ∷ cache) = if text_eq k ck then some p else redis_get ck cache

abbrev pub payload_of : Record → CachePayload
payload_of r = record {
  request_hash = r.request_hash;
  status_code = r.status_code;
  response_body = r.response_body;
}

abbrev pub record_of : Uuid → Text → CachePayload → Record
record_of merchant_id key p = record {
  merchant_id = merchant_id;
  key = key;
  request_hash = p.request_hash;
  status_code = p.status_code;
  response_body = p.response_body;
}

unfoldable pub warm : RedisFaults → Text → Record → Cache → Cache
warm faults ck r cache = if faults.write_fails then cache else (ck, payload_of r) ∷ cache

module _ (uuid_string : Uuid → Text) where
  unfoldable pub cache_key : Uuid → Text → Text
  cache_key merchant_id key = codes "idemp:" ++ (uuid_string merchant_id ++ b':' ∷ key)

  module _ {S : Type 0} (inner : Store S) (faults : RedisFaults) where
    -- A record of the inner store is put in the cache.
    abbrev pub fetched : Text → Cache → Lookup × S → Lookup × (S × Cache)
    fetched ck cache (found r, s) = (found r, (s, warm faults ck r cache))
    fetched ck cache (not_found, s) = (not_found, (s, cache))
    fetched ck cache (Lookup.failed e, s) = (Lookup.failed e, (s, cache))

    abbrev pub through : Uuid → Text → Option CachePayload → S × Cache → Lookup × (S × Cache)
    through merchant_id key (some p) (s, cache) = (found (record_of merchant_id key p), (s, cache))
    through merchant_id key none (s, cache) =
        fetched (cache_key merchant_id key) cache (inner.get merchant_id key s)

    unfoldable pub cached_get : Uuid → Text → S × Cache → Lookup × (S × Cache)
    unfolding cache_key redis_get
    cached_get merchant_id key (s, cache) =
        through merchant_id key
          (if faults.read_fails then none else redis_get (cache_key merchant_id key) cache)
          (s, cache)

    abbrev pub warmed : Cache → Stored × S → Stored × (S × Cache)
    warmed cache (created r, s) =
        (created r, (s, warm faults (cache_key r.merchant_id r.key) r cache))
    warmed cache (existing r, s) =
        (existing r, (s, warm faults (cache_key r.merchant_id r.key) r cache))
    warmed cache (Stored.failed e, s) = (Stored.failed e, (s, cache))

    unfoldable pub cached_put : Record → S × Cache → Stored × (S × Cache)
    cached_put r (s, cache) = warmed cache (inner.put r s)

    unfoldable pub cached_store : Store (S × Cache)
    unfolding cached_get cached_put
    cached_store = record { get = cached_get; put = cached_put }
