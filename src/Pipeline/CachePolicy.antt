-- ===== src/Pipeline/CachePolicy.antt =====
-- When a response is served from the cache, stored, and invalidated:
-- src/core/requestPipeline/cachePolicy.ts. Log lines are left out.
pub mod Writes
pub mod Served
use esi_ts.Prelude.{
  ℕ, zero, suc, ◌+◌, ◌-◌, ◌*◌, ◌≤◌, ◌<◌, String, ◌≡◌, refl, Bool, true, false, not, ◌&&◌, ◌||◌,
  Option, none, some, List, [], ◌∷◌, arith, str_eq, ltb, leb, ◌==◌, if◌then◌else◌, or_default,
}
use esi_ts.Prelude.Text.{before}
use esi_ts.Prelude.JsMap
use esi_ts.Prelude.JsMap.{JsMap}
use esi_ts.CacheKey.{◌<>◌, truthy, build_cache_key}
use esi_ts.Cache.{CacheEntry}
use esi_ts.Cache.Etag as Etag
use esi_ts.Cache.Etag.{EtagCacheManager}
use esi_ts.Cache.WriteLog.{WriteLog, record_write, invalidated_since}
use esi_ts.Dedup.{RequestDeduplicator, detach_by_path}
use esi_ts.Pipeline.{
  Body, Given, Client, Call, HandlerResponse, HitType, spec_ttl, etag_304, stale_on_error,
}
use esi_ts.Pipeline.Headers.{ParsedHeaders, parse_cache_control_ttl, lookup_spec_ttl}

abbrev pub stale_retention_ms : ℕ
stale_retention_ms = 60 * 60 * 1000

abbrev pub retention_ttl : Option ℕ → Option ℕ
retention_ttl none = none
retention_ttl (some freshness_ms) = some (freshness_ms + stale_retention_ms)

-- `if (!n)`.
abbrev pub truthy_number : Option ℕ → Option ℕ
truthy_number none = none
truthy_number (some n) = if n == 0 then none else some n

abbrev pub spread : JsMap String → JsMap String → JsMap String
spread base [] = base
spread base ((name, value) ∷ more) = spread (JsMap.set name value base) more

abbrev pub is_get : String → Bool
is_get method = str_eq method "GET"

-- `invalidatedSince`, for a read that took a generation.
abbrev pub overtaken : WriteLog → Option ℕ → String → Bool
overtaken writes none key = false
overtaken writes (some generation) key = invalidated_since writes generation key

unfoldable pub detach : Option RequestDeduplicator → String → Option RequestDeduplicator
detach none path = none
detach (some d) path = some (detach_by_path d path).0

abbrev pub path_of : String → String
path_of endpoint = before b'?' endpoint

module _ {D : Type 0} where
  abbrev pub set_cache : Client D → EtagCacheManager (Body D) → Client D
  set_cache c cache = record c { cache = some cache }

  abbrev pub found : ℕ → String → Option (EtagCacheManager (Body D)) → Option (CacheEntry (Body D))
  found now key none = none
  found now key (some cache) = (Etag.get cache now key).1

  abbrev pub touched : Client D → ℕ → String → Option (EtagCacheManager (Body D)) → Client D
  touched c now key none = c
  touched c now key (some cache) = set_cache c (Etag.get cache now key).0

  -- `Etag.get` on the cache of a client, which counts the lookup and drops an expired entry.
  abbrev pub cache_get : Client D → ℕ → String → Client D × Option (CacheEntry (Body D))
  cache_get c now key = (touched c now key c.cache, found now key c.cache)

  abbrev pub has_entry : Option (EtagCacheManager (Body D)) → ℕ → String → Bool
  has_entry none now key = false
  has_entry (some cache) now key = Etag.has cache now key

  abbrev pub url_of : Client D → String → String
  url_of c endpoint = c.keys.link <> "/" <> endpoint

  abbrev pub spec_response : CacheEntry (Body D) → HandlerResponse D
  spec_response entry = record {
    headers = entry.headers;
    body = entry.body;
    status = 200;
    from_cache = true;
    stale = false;
    cache_hit_type = some spec_ttl;
    cursors = none;
  }

  -- The answer from an entry that is younger than the lifetime. An entry from the future has a
  -- negative age.
  unfoldable pub spec_hit : ℕ → ℕ → Option (CacheEntry (Body D)) → Option (HandlerResponse D)
  spec_hit now ttl none = none
  spec_hit now ttl (some entry) =
      if leb entry.timestamp now && ltb now (ttl + entry.timestamp)
      then some (spec_response entry)
      else none

  -- The answer from an entry when the server failed.
  unfoldable pub stale_hit :
      ParsedHeaders → Option (CacheEntry (Body D)) → Option (HandlerResponse D)
  stale_hit parsed none = none
  stale_hit parsed (some entry) = some (record {
    headers = spread entry.headers parsed.raw;
    body = entry.body;
    status = 200;
    from_cache = true;
    stale = true;
    cache_hit_type = some stale_on_error;
    cursors = none;
  })

  unfoldable pub current_write_generation : Client D → ℕ
  current_write_generation c = elim c.cache [ none ↦ 0 | some cache ↦ c.writes.generation ]

  unfoldable pub drop_path : Client D → String → Option (EtagCacheManager (Body D)) → Client D
  drop_path c path none = c
  drop_path c path (some cache) = record c {
    cache = some (Etag.delete_by_path cache path).0;
    writes = record_write c.writes path;
  }

  unfoldable pub invalidate_after_write : Client D → String → String → Client D
  unfolding detach drop_path
  invalidate_after_write c method endpoint =
      if is_get method
      then c
      else drop_path (record c { deduplicator = detach c.deduplicator (path_of endpoint) })
          (path_of endpoint) c.cache

abbrev either : Option ℕ → Option ℕ → Option ℕ
either none other = other
either (some n) other = some n

-- The ETag that a response may be stored under.
unfoldable pub storable_etag : Call → ParsedHeaders → Option String
storable_etag call parsed = if call.use_etag && is_get call.method then truthy parsed.etag else none

module _ (g : Given) where
  -- The lifetime in the specification that decides on a hit, if any.
  unfoldable pub spec_ttl_for : String → Option String → Option ℕ
  spec_ttl_for method template_path = elim (truthy template_path) [
    | none ↦ none
    | some path ↦
        if is_get method then truthy_number (lookup_spec_ttl g.spec_seconds method path) else none
  ]

  spec_freshness : Call → Option ℕ
  spec_freshness call = elim (truthy call.template_path) [
    | none ↦ none
    | some path ↦ lookup_spec_ttl g.spec_seconds call.method path
  ]

  -- The lifetime that a response is stored with, before the cache's own default.
  unfoldable pub storage_ttl : Call → JsMap String → Option ℕ
  unfolding spec_freshness
  storage_ttl call raw = retention_ttl (either (spec_freshness call) (parse_cache_control_ttl raw))

module _ {D : Type 0} (g : Given) where
  abbrev pub cache_key : Client D → String → Bool → Option String → String
  cache_key c url requires_auth header =
      build_cache_key g.caller_identity g.hashed_identity url c.keys requires_auth header

  unfoldable pub serve_within :
      Client D → ℕ → String → Option ℕ → Client D × Option (HandlerResponse D)
  serve_within c now key none = (c, none)
  serve_within c now key (some ttl) =
      ((cache_get c now key).0, spec_hit now ttl (cache_get c now key).1)

  unfoldable pub try_spec_aware_cache_hit :
      Client D → ℕ → String → Call → Client D × Option (HandlerResponse D)
  try_spec_aware_cache_hit c now url call =
      serve_within c now (cache_key c url call.requires_auth none)
        (spec_ttl_for g call.method call.template_path)

  unfoldable pub has_cached_entry : Client D → ℕ → String → Bool → Option String → Bool
  has_cached_entry c now url requires_auth header =
      has_entry c.cache now (cache_key c url requires_auth header)

  unfoldable pub try_stale_cache_response :
      Client D
      → ℕ
      → String
      → ParsedHeaders
      → Bool
      → Option String
      → Client D × Option (HandlerResponse D)
  try_stale_cache_response c now url parsed requires_auth header =
      let key = cache_key c url requires_auth header in
      ((cache_get c now key).0, stale_hit parsed (cache_get c now key).1)

  -- The end of `cacheResponse`: given whether a write overtook the read, the cache, and the ETag.
  unfoldable pub keep_response :
      Client D
      → ℕ
      → String
      → Call
      → ParsedHeaders
      → Body D
      → Bool
      → Option (EtagCacheManager (Body D))
      → Option String
      → Client D
  keep_response c now key call parsed body late none etag =
      invalidate_after_write c call.method call.endpoint
  keep_response c now key call parsed body late (some cache) none =
      invalidate_after_write c call.method call.endpoint
  keep_response c now key call parsed body true (some cache) (some etag) = c
  keep_response c now key call parsed body false (some cache) (some etag) =
      invalidate_after_write
        (set_cache c (Etag.set cache now key etag body parsed.raw (storage_ttl g call parsed.raw)))
        call.method call.endpoint

  unfoldable pub cache_response :
      Client D → ℕ → String → Call → ParsedHeaders → Body D → Option ℕ → Option String → Client D
  cache_response c now url call parsed body sent_at header =
      let key = cache_key c url call.requires_auth header in
      keep_response c now key call parsed body (overtaken c.writes sent_at key) c.cache
        (storable_etag call parsed)

  unfoldable pub evict_rejected_response : Client D → String → Bool → Client D
  evict_rejected_response c endpoint requires_auth = elim c.cache [
    | none ↦ c
    | some cache ↦
        set_cache c (Etag.delete cache (cache_key c (url_of c endpoint) requires_auth none)).0
  ]
