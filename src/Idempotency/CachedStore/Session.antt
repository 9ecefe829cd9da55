-- ===== src/Idempotency/CachedStore/Session.antt =====
-- A session of reads and writes, answered by a store or by the cache in front of it.
use selatpay.Prelude.{Bool, false, List, [], ◌∷◌, select}
use selatpay.Prelude.Text.{Text}
use selatpay.Db.Tables.{Uuid}
use selatpay.Idempotency.Store.{Record, Lookup, Stored, Rows, StoreFaults, pg_store}
use selatpay.Idempotency.CachedStore.{Cache, RedisFaults, cached_store}

abbrev pub working : StoreFaults
working = record { get_fails = false; insert_fails = false }

-- What is asked of a store, with the faults of Redis at each call; entries of the cache may expire at
-- any time.
pub data Op : Type 0 where
  get : RedisFaults → Uuid → Text → Op
  put : RedisFaults → Record → Op
  expire : (Text → Bool) → Op

pub data Answer : Type 0 where
  looked_up : Lookup → Answer
  stored : Stored → Answer

-- The answers of the store alone, and of the cache in front of it.
unfoldable pub answers_of_store : List Op → Rows → List Answer
unfolding pg_store
answers_of_store [] rows = []
answers_of_store (get faults m key ∷ ops) rows =
    let (a, rows') = (pg_store working).get m key rows in looked_up a ∷ answers_of_store ops rows'
answers_of_store (put faults r ∷ ops) rows =
    let (a, rows') = (pg_store working).put r rows in stored a ∷ answers_of_store ops rows'
answers_of_store (expire keep ∷ ops) rows = answers_of_store ops rows

module _ (uuid_string : Uuid → Text) where
  unfoldable pub answers_of_cached : List Op → Rows × Cache → List Answer
  unfolding cached_store
  answers_of_cached [] s = []
  answers_of_cached (get faults m key ∷ ops) s =
      let (a, s') = (cached_store uuid_string (pg_store working) faults).get m key s in
      looked_up a ∷ answers_of_cached ops s'
  answers_of_cached (put faults r ∷ ops) s =
      let (a, s') = (cached_store uuid_string (pg_store working) faults).put r s in
      stored a ∷ answers_of_cached ops s'
  answers_of_cached (expire keep ∷ ops) (rows, cache) =
      answers_of_cached ops (rows, select (λ e. keep e.0) cache)
