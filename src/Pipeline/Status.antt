-- ===== src/Pipeline/Status.antt =====
-- How a status becomes an answer or an error: src/core/requestPipeline/statusHandling.ts. The texts
-- of errors and the log lines are left out.
pub mod Revalidated
use esi_ts.Prelude.{
  ℕ, zero, suc, ◌+◌, ◌-◌, ◌*◌, ◌≤◌, ◌<◌, String, ◌≡◌, refl, Bool, true, false, not, ◌&&◌, ◌||◌,
  Option, none, some, List, [], ◌∷◌, arith, str_eq, ltb, leb, ◌==◌, if◌then◌else◌, or_default,
}
use esi_ts.Prelude.JsMap
use esi_ts.Prelude.JsMap.{JsMap}
use esi_ts.Errors.{Failure, esi, fault, esijs_error, is_esi_error, Result, ok, err}
use esi_ts.Cache.{CacheEntry}
use esi_ts.Cache.Etag as Etag
use esi_ts.Cache.Etag.{EtagCacheManager}
use esi_ts.Pipeline.{
  Body, Content, single, array, Given, Client, Call, Response, HandlerResponse, etag_304, plain,
}
use esi_ts.Pipeline.Headers.{ParsedHeaders}
use esi_ts.Pipeline.CachePolicy.{set_cache, cache_get, spread, cache_key, try_stale_cache_response}

abbrev pub header_is : String → Option String → Bool
header_is value none = false
header_is value (some s) = str_eq s value

module _ {D : Type 0} where
  -- `response.ok`.
  abbrev pub is_ok : Response D → Bool
  is_ok r = leb 200 r.status && ltb r.status 300

  unfoldable pub answered_with_no_content : Response D → Bool
  answered_with_no_content r =
      r.status == 204 || (r.status == 200 && header_is "0" (JsMap.get "content-length" r.headers))

  unfoldable pub empty_list_when_no_content : Body D → Bool → Body D
  empty_list_when_no_content none true = some (array [])
  empty_list_when_no_content body flagged = body

  -- The headers of an answer to a 304: the stored ETag names the stored body.
  unfoldable pub revalidated_headers : CacheEntry (Body D) → ParsedHeaders → JsMap String
  revalidated_headers entry parsed =
      if JsMap.has "etag" parsed.raw
      then JsMap.set "etag" entry.etag (spread entry.headers parsed.raw)
      else spread entry.headers parsed.raw

  abbrev pub revalidated : CacheEntry (Body D) → ParsedHeaders → HandlerResponse D
  revalidated entry parsed = record {
    headers = revalidated_headers entry parsed;
    body = entry.body;
    status = 304;
    from_cache = true;
    stale = false;
    cache_hit_type = some etag_304;
    cursors = none;
  }

  -- Stores the entry again, under the key.
  abbrev pub store_again :
      Client D
      → ℕ
      → String
      → ParsedHeaders
      → CacheEntry (Body D)
      → Option (EtagCacheManager (Body D))
      → Client D
  store_again c now key parsed entry none = c
  store_again c now key parsed entry (some cache) =
      set_cache c
        (Etag.set cache now key entry.etag entry.body (revalidated_headers entry parsed) entry.ttl)

  -- What follows the lookup for a 304.
  unfoldable pub answer_304 :
      Client D × Option (CacheEntry (Body D))
      → ℕ
      → String
      → ParsedHeaders
      → Client D × Result (Option (HandlerResponse D))
  answer_304 (c, none) now key parsed = (c, err (esi 304))
  answer_304 (c, some entry) now key parsed =
      (store_again c now key parsed entry c.cache, ok (some (revalidated entry parsed)))

  abbrev set_status : ℕ → HandlerResponse D → HandlerResponse D
  set_status status r = record r { status = status }

  -- The answer of an error status, given the stale one.
  unfoldable pub stale_or_throw :
      Client D × Option (HandlerResponse D) → ℕ → Client D × Result (HandlerResponse D)
  stale_or_throw (c, none) status = (c, err (esi status))
  stale_or_throw (c, some r) status = (c, ok (set_status status r))

module _ {D : Type 0} (g : Given) where
  unfoldable pub handle_early_status :
      Client D
      → ℕ
      → ℕ
      → String
      → ParsedHeaders
      → Call
      → Option String
      → Client D × Result (Option (HandlerResponse D))
  handle_early_status c now status url parsed call header =
      let key = cache_key g c url call.requires_auth header in
      if status == 201
      then (c, ok (some (plain parsed.raw none 201)))
      else if status == 204
      then (c, ok (some (plain parsed.raw none 204)))
      else if status == 304
      then (if call.use_etag
          then answer_304 (cache_get c now key) now key parsed
          else (c, err (esi 304)))
      else (c, ok none)

  unfoldable pub handle_error_response :
      Client D
      → ℕ
      → Response D
      → String
      → ParsedHeaders
      → Call
      → Option String
      → Client D × Result (HandlerResponse D)
  handle_error_response c now response url parsed call header =
      if leb 500 response.status && call.use_etag
      then stale_or_throw (try_stale_cache_response g c now url parsed call.requires_auth header)
          response.status
      else (c, err (esi response.status))

-- `toEsiError`, which `wrapError` throws.
unfoldable pub wrap_error : Failure → Failure
wrap_error e = if is_esi_error e then e else fault esijs_error
