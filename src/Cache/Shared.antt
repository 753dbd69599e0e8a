-- ===== src/Cache/Shared.antt =====
-- The cache over a shared store, src/core/cache/CacheStoreCache.ts. The store is a port: its calls
-- are a record of operations, with the laws that the adapter relies on. The log of writes, which
-- the source keeps for each cache, is a field.
pub mod Bounded
pub mod Dropped
use esi_ts.Prelude.{
  ℕ, zero, suc, ◌+◌, ◌-◌, ◌≤◌, ◌<◌, String, ◌≡◌, refl, Bool, true, false, not, ◌&&◌, Option, none,
  some, List, [], ◌∷◌, ◌++◌, map, arith, str_eq, ltb, leb, ◌==◌, if◌then◌else◌, or_default,
}
use esi_ts.Prelude.Text.{includes}
use esi_ts.Prelude.JsMap
use esi_ts.Prelude.JsMap.{JsMap}
use esi_ts.Cache.{CacheEntry}
use esi_ts.Cache.WriteLog.{WriteLog, record_write}
use esi_ts.Dedup.{RequestDeduplicator, detach_by_path}

-- `CacheStore` of src/core/ports/CacheStore.ts; a lookup may change the store.
pub record CacheStore (S D : Type 0) : Type 0 where
  pub get : S → String → S × Option (CacheEntry D)
  pub set : S → String → String → D → JsMap String → Option ℕ → S
  pub delete : S → String → S × Bool
  pub clear : S → S

-- What a store promises: a deletion removes the entry of its key and no other.
pub record IsStore {S D : Type 0} (ops : CacheStore S D) : Type 0 where
  pub get-delete :
      (s : S) (k j : String)
      → (ops.get (ops.delete s k).0 j).1 ≡ (if str_eq k j then none else (ops.get s j).1)

pub data CacheInvalidation : Type 0 where
  path : String → CacheInvalidation
  cleared : CacheInvalidation

pub record CacheStoreCache (S : Type 0) : Type 0 where
  pub store : S
  pub keys : JsMap ℕ
  pub hits : ℕ
  pub misses : ℕ
  pub deduplicators : List RequestDeduplicator
  pub writes : WriteLog
  pub published : List CacheInvalidation

abbrev pub max_tracked_keys : ℕ
max_tracked_keys = 10000

-- The constructor.
unfoldable pub create : {S : Type 0} → S → WriteLog → CacheStoreCache S
create store writes = record {
  store = store;
  keys = [];
  hits = 0;
  misses = 0;
  deduplicators = [];
  writes = writes;
  published = [];
}

-- `while (this.keys.size > limit)` the first key is deleted; each round deletes one, so the fuel
-- is the number of keys.
unfoldable pub trim_keys : ℕ → ℕ → JsMap ℕ → JsMap ℕ
trim_keys zero limit keys = keys
trim_keys (suc fuel) limit [] = []
trim_keys (suc fuel) limit ((k, at) ∷ keys) =
    if ltb limit (JsMap.size ((k, at) ∷ keys))
    then trim_keys fuel limit (JsMap.delete k ((k, at) ∷ keys))
    else (k, at) ∷ keys

unfoldable pub track : String → ℕ → JsMap ℕ → JsMap ℕ
track key now keys =
    let more = JsMap.set key now (JsMap.delete key keys) in
    trim_keys (JsMap.size more) max_tracked_keys more

abbrev pub detach_all : List RequestDeduplicator → String → List RequestDeduplicator
detach_all [] segment = []
detach_all (d ∷ ds) segment = (detach_by_path d segment).0 ∷ detach_all ds segment

module _ {S D : Type 0} (ops : CacheStore S D) where
  -- What a lookup answers with, given what the store answered.
  abbrev pub seen :
      CacheStoreCache S
      → String
      → S × Option (CacheEntry D)
      → CacheStoreCache S × Option (CacheEntry D)
  seen c url (store, none) =
      (record c { store = store; keys = JsMap.delete url c.keys; misses = c.misses + 1 }, none)
  seen c url (store, some entry) = (
    record c { store = store; hits = c.hits + 1 },
    some (record entry { timestamp = or_default (JsMap.get url c.keys) entry.timestamp }),
  )

  unfoldable pub get : CacheStoreCache S → String → CacheStoreCache S × Option (CacheEntry D)
  get c url = seen c url (ops.get c.store url)

  etag_in : Option (CacheEntry D) → Option String
  etag_in none = none
  etag_in (some entry) = some entry.etag

  unfoldable pub get_etag : CacheStoreCache S → String → CacheStoreCache S × Option String
  unfolding etag_in
  get_etag c url = let (c', entry) = get c url in (c', etag_in entry)

  unfoldable pub set :
      CacheStoreCache S → ℕ → String → String → D → JsMap String → Option ℕ → CacheStoreCache S
  set c now url etag body headers ttl = record c {
    store = ops.set c.store url etag body headers ttl;
    keys = track url now c.keys;
  }

  is_some : Option (CacheEntry D) → Bool
  is_some none = false
  is_some (some entry) = true

  -- `has`, with the store after the lookup.
  unfoldable pub has : CacheStoreCache S → String → CacheStoreCache S × Bool
  unfolding is_some
  has c url = (record c { store = (ops.get c.store url).0 }, is_some (ops.get c.store url).1)

  unfoldable pub delete : CacheStoreCache S → String → CacheStoreCache S × Bool
  delete c url = (
    record c { store = (ops.delete c.store url).0; keys = JsMap.delete url c.keys },
    (ops.delete c.store url).1,
  )

  abbrev pub tally : Bool → ℕ → ℕ
  tally true n = n + 1
  tally false n = n

  -- One round of the loop of `dropLocal`.
  unfoldable pub drop_key : CacheStoreCache S × ℕ → String → CacheStoreCache S × ℕ
  drop_key (c, count) key = ((delete c key).0, tally (delete c key).1 count)

  -- The loop over the keys that there were.
  unfoldable pub drop_loop : String → JsMap ℕ → CacheStoreCache S × ℕ → CacheStoreCache S × ℕ
  drop_loop segment [] a = a
  drop_loop segment ((key, at) ∷ keys) a =
      drop_loop segment keys (if includes key segment then drop_key a key else a)

  unfoldable pub drop_local : CacheStoreCache S → String → CacheStoreCache S × ℕ
  drop_local c segment = drop_loop segment c.keys (c, 0)

  abbrev publish : CacheStoreCache S → CacheInvalidation → CacheStoreCache S
  publish c event = record c { published = c.published ++ event ∷ [] }

  unfoldable pub delete_by_path : CacheStoreCache S → String → CacheStoreCache S × ℕ
  delete_by_path c segment =
      let (c', count) = drop_local c segment in (publish c' (path segment), count)

  unfoldable pub clear : CacheStoreCache S → CacheStoreCache S
  clear c =
      publish (record c { store = ops.clear c.store; keys = []; hits = 0; misses = 0 }) cleared

  abbrev logged : CacheStoreCache S → String → CacheStoreCache S
  logged c segment = record c { writes = record_write c.writes segment }

  abbrev detached : CacheStoreCache S → String → CacheStoreCache S
  detached c segment = record c { deduplicators = detach_all c.deduplicators segment }

  -- `applyRemote`.
  unfoldable pub apply_remote : CacheStoreCache S → CacheInvalidation → CacheStoreCache S
  apply_remote c cleared = logged (detached c "") ""
  apply_remote c (path segment) = logged (drop_local (detached c segment) segment).0 segment
