-- ===== src/Pipeline/Handle.antt =====
-- The whole call: `handleRequest` of src/core/ApiRequestHandler.ts. Its operation is called again
-- by the retry strategy; the state of the client at each call is given, and so is what the requests
-- that it waits for come to.
pub mod Later
pub mod Fresh
use esi_ts.Prelude.{
  ℕ, zero, suc, ◌+◌, ◌-◌, ◌*◌, ◌≤◌, ◌<◌, String, ◌≡◌, refl, Bool, true, false, not, ◌&&◌, ◌||◌,
  Option, none, some, List, [], ◌∷◌, arith, str_eq, ltb, leb, ◌==◌, if◌then◌else◌, or_default,
}
use esi_ts.Prelude.Int.{ℤ, pos, negsuc}
use esi_ts.Prelude.JsMap
use esi_ts.CacheKey.{build_dedupe_key}
use esi_ts.Errors.{Failure, esi, fault, pagination_incomplete, is_esi_error, Result, ok, err}
use esi_ts.Dedup.{RequestDeduplicator, dedupe}
use esi_ts.Retry.{RetryStrategy, RetryContext, Run, execute}
use esi_ts.Pagination.{IncompletePagesMode, Outcome, resolved, incomplete, failed}
use esi_ts.Pagination.Offset.{fetch_remaining_pages}
use esi_ts.Pipeline.{
  Body, Content, single, array, Given, Client, Call, Response, HandlerResponse, CursorTokens, plain,
}
use esi_ts.Pipeline.Headers.{ParsedHeaders}
use esi_ts.Pipeline.CachePolicy.{
  is_get, url_of, current_write_generation, invalidate_after_write, try_spec_aware_cache_hit,
  has_cached_entry, cache_response,
}
use esi_ts.Pipeline.Status.{
  is_ok, answered_with_no_content, handle_early_status, handle_error_response, wrap_error,
}
use esi_ts.Pipeline.Middleware.{
  MiddlewareManager, ResponseContext, has_interceptors, run_all, apply_response_interceptors,
}
use esi_ts.Pipeline.Fetch.{Flight, RawFetchResult, execute_single_fetch, parse_json_body}

-- How an operation of `handleRequest` gets its answer: from the cache, from a request in flight,
-- from a new request that others may join, or from one of its own.
pub data Route (D : Type 0) : Type 0 where
  served : HandlerResponse D → Route D
  joined started : ℕ → Route D
  direct : Route D

module _ {D : Type 0} where
  abbrev pub way_of : Option ℕ → ℕ → Route D
  way_of none request = started request
  way_of (some _) request = joined request

  -- The use of the deduplicator, if there is one and the call may be deduplicated.
  unfoldable pub share : Client D → Bool → String → Option RequestDeduplicator → Client D × Route D
  share c shareable key none = (c, direct)
  share c false key (some d) = (c, direct)
  share c true key (some d) = (
    record c { deduplicator = some (dedupe d key).0 },
    way_of (JsMap.get key d.inflight) (dedupe d key).1,
  )

module _ {D : Type 0} (g : Given) (call : Call) where
  abbrev pub dedupe_key : Client D → String
  dedupe_key c =
      build_dedupe_key g.caller_identity g.hashed_identity call.endpoint c.keys call.requires_auth

  unfoldable pub dispatch : Client D → Client D × Route D
  dispatch c = share c (is_get call.method && not call.has_body) (dedupe_key c) c.deduplicator

  unfoldable pub after_lookup : Client D × Option (HandlerResponse D) → Client D × Route D
  after_lookup (c, none) = dispatch c
  after_lookup (c, some r) = (c, served r)

  -- `operation`; a repeated one looks into the cache first.
  unfoldable pub route : Client D → ℕ → Bool → Client D × Route D
  route c now false = dispatch c
  route c now true = after_lookup (try_spec_aware_cache_hit g c now (url_of c call.endpoint) call)

module _ {D : Type 0} (g : Given) (call : Call) (strategy : RetryStrategy) (ctx : RetryContext)
    (random : ℕ → ℕ) (at : ℕ → Client D × ℕ)
    (settle : ℕ → Route D → Result (HandlerResponse D)) where
  unfoldable pub resolve : ℕ → Route D → Result (HandlerResponse D)
  resolve n (served r) = ok r
  resolve n way = settle n way

  -- The operation number n, on the client and at the time `at n`.
  unfoldable pub operation : ℕ → Result (HandlerResponse D)
  operation n = resolve n (route g call (at n).0 (at n).1 (ltb 0 n)).1

  abbrev unless_served : Option (HandlerResponse D) → Option (Run (HandlerResponse D))
  unless_served (some r) = some (record { outcome = ok r; calls = 0; refreshes = 0; delays = [] })
  unless_served none = execute strategy ctx random operation

  -- `handleRequest` of a client at a time.
  unfoldable pub handle_request : Client D → ℕ → Option (Run (HandlerResponse D))
  handle_request c now =
      unless_served (try_spec_aware_cache_hit g c now (url_of c call.endpoint) call).1
