-- ===== src/Pipeline/CachePolicy/Writes.antt =====
-- What a write does to reads: those that follow it, and those that were under way.
use esi_ts.Prelude.{
  ℕ, String, ◌≡◌, refl, ap, ◌∙◌, Bool, true, false, Option, some, List, [], ◌∷◌, leb, if◌then◌else◌,
  length, any,
}
use esi_ts.Prelude.Text.{includes}
use esi_ts.CacheKey.{truthy}
use esi_ts.Cache.Etag as Etag
use esi_ts.Cache.Etag.{EtagCacheManager}
use esi_ts.Cache.WriteLog.{IsValid, recent_writes, record_write, record_all}
use esi_ts.Cache.WriteLog.Overtaken.{invalidated_since_lem}
use esi_ts.Pipeline.{Body, Given, Client, Call}
use esi_ts.Pipeline.Headers.{ParsedHeaders}
use esi_ts.Pipeline.CachePolicy.{
  is_get, set_cache, cache_key, path_of, current_write_generation, invalidate_after_write,
  drop_path, cache_response, keep_response, storable_etag, storage_ttl, overtaken,
}

module _ {D : Type 0} where
  -- How a client changes while other requests run: writes of these endpoints' paths, in order, and
  -- anything else that leaves the log of writes alone and keeps a cache.
  pub data Meanwhile : Client D → Client D → List String → Type 0 where
    nothing : {c : Client D} → Meanwhile c c []
    wrote :
        {c d : Client D} {paths : List String} (method endpoint : String)
        → is_get method ≡ false
        → Meanwhile (invalidate_after_write c method endpoint) d paths
        → Meanwhile c d (path_of endpoint ∷ paths)
    changed :
        {b d : Client D} {paths : List String} (c : Client D) (cache : EtagCacheManager (Body D))
        → c.writes ≡ b.writes
        → c.cache ≡ some cache
        → Meanwhile c d paths
        → Meanwhile b d paths

  record Logged (c d : Client D) (paths : List String) : Type 0 where
    cache : EtagCacheManager (Body D)
    held : d.cache ≡ some cache
    log : d.writes ≡ record_all c.writes paths

  invalidated-cache :
      (c : Client D) (method endpoint : String) (cache : EtagCacheManager (Body D))
      → is_get method ≡ false
      → c.cache ≡ some cache
      → (invalidate_after_write c method endpoint).cache
        ≡ some (Etag.delete_by_path cache (path_of endpoint)).0
  unfolding invalidate_after_write drop_path
  invalidated-cache c method endpoint cache m h = rw (m, h) refl

  invalidated-writes :
      (c : Client D) (method endpoint : String) (cache : EtagCacheManager (Body D))
      → is_get method ≡ false
      → c.cache ≡ some cache
      → (invalidate_after_write c method endpoint).writes ≡ record_write c.writes (path_of endpoint)
  unfolding invalidate_after_write drop_path
  invalidated-writes c method endpoint cache m h = rw (m, h) refl

  Meanwhile-Logged :
      {c d : Client D} {paths : List String} (cache : EtagCacheManager (Body D))
      → c.cache ≡ some cache
      → Meanwhile c d paths
      → Logged c d paths
  unfolding record_all
  Meanwhile-Logged cache h nothing = record { cache = cache; held = h; log = refl }
  Meanwhile-Logged {c} cache h (wrote {paths = paths} method endpoint m later) =
      let l = Meanwhile-Logged _ (invalidated-cache c method endpoint cache m h) later in
      record {
        cache = l.cache;
        held = l.held;
        log = l.log ∙ ap (λ w. record_all w paths) (invalidated-writes c method endpoint cache m h);
      }
  Meanwhile-Logged {paths = paths} cache h (changed c cache' same held later) =
      let l = Meanwhile-Logged cache' held later in
      record { cache = l.cache; held = l.held; log = l.log ∙ ap (λ w. record_all w paths) same }

-- The ETag of a response to a GET that uses ETags.
storable_etag_of :
    (call : Call) (parsed : ParsedHeaders)
    → call.use_etag ≡ true
    → is_get call.method ≡ true
    → storable_etag call parsed ≡ truthy parsed.etag
unfolding storable_etag
storable_etag_of call parsed u m = rw (u, m) refl

module _ {D : Type 0} (g : Given) (call : Call) (parsed : ParsedHeaders) (body : Body D) (now : ℕ)
    (url etag : String) (header : Option String) where
  abbrev key_in : Client D → String
  key_in d = cache_key g d url call.requires_auth header

  -- The client with the response in its cache.
  abbrev pub with_response : Client D → EtagCacheManager (Body D) → Client D
  with_response d cache =
      set_cache d
        (Etag.set cache now (key_in d) etag body parsed.raw (storage_ttl g call parsed.raw))

module _ {D : Type 0} (g : Given) (call : Call) (parsed : ParsedHeaders) (body : Body D) (now : ℕ)
    (url etag : String) (header : Option String) (get : is_get call.method ≡ true) where
  abbrev key_of : Client D → String
  key_of d = key_in g call parsed body now url etag header d

  abbrev stored : Client D → EtagCacheManager (Body D) → Client D
  stored d cache = with_response g call parsed body now url etag header d cache

  keep_response-if :
      (d : Client D) (cache : EtagCacheManager (Body D)) (late : Bool)
      → keep_response g d now (key_of d) call parsed body late (some cache) (some etag)
        ≡ (if late then d else stored d cache)
  unfolding keep_response invalidate_after_write
  keep_response-if d cache true = refl
  keep_response-if d cache false = rw get refl

  stored_unless_late :
      (d : Client D) (cache : EtagCacheManager (Body D)) (sent_at : ℕ) (late : Bool)
      → storable_etag call parsed ≡ some etag
      → d.cache ≡ some cache
      → overtaken d.writes (some sent_at) (key_of d) ≡ late
      → cache_response g d now url call parsed body (some sent_at) header
        ≡ (if late then d else stored d cache)
  unfolding cache_response
  stored_unless_late d cache sent_at late s h o =
      (λ i. keep_response g d now (key_of d) call parsed body (o i) (h i) (s i))
      ∙ keep_response-if d cache late

-- A response to a GET with an ETag, whose request took the write generation of the client before
-- other requests changed it, is stored under its key unless one of the writes since then has its
-- path in that key, or there were more than 64 of them; then the client stays as it is.
pub stored_unless_overtaken :
    {D : Type 0} (g : Given) (call : Call) (parsed : ParsedHeaders) (body : Body D) (now : ℕ)
    (url etag : String) (header : Option String) (c d : Client D)
    (cache : EtagCacheManager (Body D)) (paths : List String)
    → is_get call.method ≡ true
    → call.use_etag ≡ true
    → truthy parsed.etag ≡ some etag
    → IsValid c.writes
    → c.cache ≡ some cache
    → Meanwhile c d paths
    → (late : EtagCacheManager (Body D)) × (d.cache ≡ some late)
      × (cache_response g d now url call parsed body (some (current_write_generation c)) header ≡ (
          if (if leb (length paths) recent_writes
            then any (includes (cache_key g d url call.requires_auth header)) paths
            else true)
          then d
          else with_response g call parsed body now url etag header d late))
unfolding current_write_generation
stored_unless_overtaken g call parsed body now url etag header c d cache paths get u e v h m =
    let l = Meanwhile-Logged cache h m in
    let key = cache_key g d url call.requires_auth header in
    let sent : current_write_generation c ≡ c.writes.generation = rw h refl in
    (
      l.cache,
      l.held,
      stored_unless_late g call parsed body now url etag header get d l.cache _ _
          (storable_etag_of call parsed u get ∙ e) l.held
          ((λ i. overtaken (l.log i) (some (sent i)) key)
            ∙ invalidated_since_lem c.writes paths key v),
    )
