-- ===== src/Cache/Etag.antt =====
-- The cache of src/core/cache/ETagCacheManager.ts. Times are milliseconds read from the clock by
-- the caller and passed as `now`; log lines are left out.
pub mod Lookup
pub mod Evict
pub mod Bound
use esi_ts.Prelude.{
  ℕ, zero, suc, ◌+◌, ◌-◌, ◌*◌, ◌/◌, ◌%◌, ◌≤◌, ◌<◌, min, max, String, ◌≡◌, refl, sym, ap, ◌∙◌, ◌≢◌,
  ◌↔◌, ◌⊎◌, inl, inr, Bool, true, false, not, ◌&&◌, ◌||◌, Option, none, some, List, [], ◌∷◌, ◌++◌,
  map, arith, str_eq, eq_iff, ltb, leb, ◌==◌, if◌then◌else◌, ltb→lt, lt→ltb, leb→le, le→leb, ==_iff,
  leb-false, leb_of_lt, or_default, Bool-cases, Option-cases, length, take, drop, any,
  length-append, All, All-append,
}
use esi_ts.Prelude.Text.{includes}
use esi_ts.Prelude.JsMap
use esi_ts.Prelude.JsMap.{JsMap}
use esi_ts.Cache.{CacheEntry}

pub record EtagCacheConfig : Type 0 where
  pub max_entries : Option ℕ
  pub default_ttl : Option ℕ
  pub cleanup_interval : Option ℕ

-- `cleanup_timer` is the interval of the timer while it runs.
pub record EtagCacheManager (D : Type 0) : Type 0 where
  pub cache : JsMap (CacheEntry D)
  pub max_entries : ℕ
  pub default_ttl : ℕ
  pub cleanup_interval : ℕ
  pub hits : ℕ
  pub misses : ℕ
  pub cleanup_timer : Option ℕ

pub record EtagStats : Type 0 where
  pub total_entries : ℕ
  pub max_entries : ℕ
  pub hits : ℕ
  pub misses : ℕ
  pub oldest_entry : Option ℕ
  pub newest_entry : Option ℕ

-- The constructor.
unfoldable pub create : (D : Type 0) → EtagCacheConfig → EtagCacheManager D
create D config = record {
  cache = [];
  max_entries = or_default config.max_entries 1000;
  default_ttl = or_default config.default_ttl 300000;
  cleanup_interval = or_default config.cleanup_interval 60000;
  hits = 0;
  misses = 0;
  cleanup_timer = some (or_default config.cleanup_interval 60000);
}

-- An absent time to live and one of 0 never expire: `if (!entry.ttl) return false`.
expired_after : ℕ → ℕ → Option ℕ → Bool
expired_after now timestamp none = false
expired_after now timestamp (some ttl) = if ttl == 0 then false else ltb (ttl + timestamp) now

-- Whether `timestamp < oldestTime`; no time so far is `Infinity`.
older : ℕ → Option (String × ℕ) → Bool
older timestamp none = true
older timestamp (some (key, time)) = ltb timestamp time

-- The smallest and the largest timestamp; none in an empty cache.
abbrev smaller : Option ℕ → ℕ → Option ℕ
smaller none t = some t
smaller (some a) t = some (if ltb t a then t else a)

abbrev larger : Option ℕ → ℕ → Option ℕ
larger none t = some t
larger (some a) t = some (if ltb a t then t else a)

module _ {D : Type 0} where
  unfoldable pub is_expired : ℕ → CacheEntry D → Bool
  unfolding expired_after
  is_expired now entry = expired_after now entry.timestamp entry.ttl

  unfoldable pub get : EtagCacheManager D → ℕ → String → EtagCacheManager D × Option (CacheEntry D)
  get c now url = elim (JsMap.get url c.cache) [
    | none ↦ (record c { misses = c.misses + 1 }, none)
    | some entry ↦
        if is_expired now entry
        then (record c { cache = JsMap.delete url c.cache; misses = c.misses + 1 }, none)
        else (record c { hits = c.hits + 1 }, some entry)
  ]

  etag_of : Option (CacheEntry D) → Option String
  etag_of none = none
  etag_of (some entry) = some entry.etag

  unfoldable pub get_etag : EtagCacheManager D → ℕ → String → EtagCacheManager D × Option String
  unfolding etag_of
  get_etag c now url = let (c', entry) = get c now url in (c', etag_of entry)

  -- The loop of `evictOldest`, over `oldestKey` and `oldestTime`.
  unfoldable pub oldest_loop : JsMap (CacheEntry D) → Option (String × ℕ) → Option (String × ℕ)
  unfolding older
  oldest_loop [] best = best
  oldest_loop ((key, entry) ∷ m) best =
      oldest_loop m (if older entry.timestamp best then some (key, entry.timestamp) else best)

  -- `if (oldestKey)`: an empty key is falsy, and is not evicted.
  evict_found : EtagCacheManager D → Option (String × ℕ) → EtagCacheManager D
  evict_found c none = c
  evict_found c (some (key, time)) =
      if str_eq key "" then c else record c { cache = JsMap.delete key c.cache }

  unfoldable pub evict_oldest : EtagCacheManager D → EtagCacheManager D
  unfolding evict_found
  evict_oldest c = evict_found c (oldest_loop c.cache none)

  abbrev pub make_room : EtagCacheManager D → String → EtagCacheManager D
  make_room c url =
      if not (JsMap.has url c.cache) && leb c.max_entries (JsMap.size c.cache)
      then evict_oldest c
      else c

  abbrev pub entry_of : EtagCacheManager D → ℕ → String → D → JsMap String → Option ℕ → CacheEntry D
  entry_of c now etag body headers custom_ttl = record {
    etag = etag;
    body = body;
    headers = headers;
    timestamp = now;
    ttl = some (or_default custom_ttl c.default_ttl);
  }

  unfoldable pub set :
      EtagCacheManager D → ℕ → String → String → D → JsMap String → Option ℕ → EtagCacheManager D
  set c now url etag body headers custom_ttl =
      let c' = make_room c url in
      record c' { cache = JsMap.set url (entry_of c now etag body headers custom_ttl) c'.cache }

  unfoldable pub found_fresh : ℕ → Option (CacheEntry D) → Bool
  found_fresh now none = false
  found_fresh now (some entry) = not (is_expired now entry)

  unfoldable pub has : EtagCacheManager D → ℕ → String → Bool
  unfolding found_fresh
  has c now url = found_fresh now (JsMap.get url c.cache)

  unfoldable pub delete : EtagCacheManager D → String → EtagCacheManager D × Bool
  delete c url = (record c { cache = JsMap.delete url c.cache }, JsMap.has url c.cache)

  -- The cache without the entries whose URL contains the segment, and how many were deleted.
  unfoldable pub delete_by_path : EtagCacheManager D → String → EtagCacheManager D × ℕ
  delete_by_path c segment =
      let kept = JsMap.keep (λ key entry. not (includes key segment)) c.cache in
      (record c { cache = kept }, JsMap.size c.cache - JsMap.size kept)

  unfoldable pub clear : EtagCacheManager D → EtagCacheManager D
  clear c = record c { cache = []; hits = 0; misses = 0 }

  unfoldable pub cleanup : EtagCacheManager D → ℕ → EtagCacheManager D × ℕ
  cleanup c now =
      let kept = JsMap.keep (λ key entry. not (is_expired now entry)) c.cache in
      (record c { cache = kept }, JsMap.size c.cache - JsMap.size kept)

  -- `updateConfig`.
  unfoldable pub update_config : EtagCacheManager D → EtagCacheConfig → EtagCacheManager D
  update_config c config = record c {
    max_entries = or_default config.max_entries c.max_entries;
    default_ttl = or_default config.default_ttl c.default_ttl;
    cleanup_interval = or_default config.cleanup_interval c.cleanup_interval;
  }

  unfoldable pub shutdown : EtagCacheManager D → EtagCacheManager D
  shutdown c = record c { cleanup_timer = none }

  ages_loop : JsMap (CacheEntry D) → Option ℕ → Option ℕ → Option ℕ × Option ℕ
  ages_loop [] oldest newest = (oldest, newest)
  ages_loop ((key, entry) ∷ m) oldest newest =
      ages_loop m (smaller oldest entry.timestamp) (larger newest entry.timestamp)

  -- `getStats`, without the quotient `hitRate` of `hits` and their sum with `misses`.
  unfoldable pub get_stats : EtagCacheManager D → EtagStats
  unfolding ages_loop
  get_stats c =
      let (oldest, newest) = ages_loop c.cache none none in
      record {
        total_entries = JsMap.size c.cache;
        max_entries = c.max_entries;
        hits = c.hits;
        misses = c.misses;
        oldest_entry = oldest;
        newest_entry = newest;
      }
