-- ===== src/Pipeline/Request.antt =====
-- One request: `executeRequest` of src/core/ApiRequestHandler.ts, with
-- src/core/requestPipeline/paginationOrchestration.ts and the response interceptors of
-- middlewareBridge.ts. The time that a request took, which is only reported, is left out.
pub mod Errors
pub mod Ends
use esi_ts.Prelude.{
  ℕ, zero, suc, ◌+◌, ◌-◌, ◌*◌, ◌≤◌, ◌<◌, String, ◌≡◌, refl, Bool, true, false, not, ◌&&◌, ◌||◌,
  Option, none, some, List, [], ◌∷◌, arith, str_eq, ltb, leb, ◌==◌, if◌then◌else◌, or_default,
}
use esi_ts.Prelude.Int.{ℤ, pos, negsuc}
use esi_ts.Prelude.JsMap
use esi_ts.CacheKey.{build_dedupe_key}
use esi_ts.Errors.{Failure, esi, fault, pagination_incomplete, is_esi_error, Result, ok, err}
use esi_ts.Dedup.{RequestDeduplicator, dedupe}
use esi_ts.Retry.{RetryStrategy, RetryContext, Run, execute}
use esi_ts.Pagination.{IncompletePagesMode, Outcome, resolved, incomplete, failed}
use esi_ts.Pagination.Offset.{fetch_remaining_pages}
use esi_ts.Pipeline.{
  Body, Content, single, array, Given, Client, Call, Response, HandlerResponse, CursorTokens, plain,
}
use esi_ts.Pipeline.Headers.{ParsedHeaders}
use esi_ts.Pipeline.CachePolicy.{
  is_get, url_of, current_write_generation, invalidate_after_write, try_spec_aware_cache_hit,
  has_cached_entry, cache_response,
}
use esi_ts.Pipeline.Status.{
  is_ok, answered_with_no_content, handle_early_status, handle_error_response, wrap_error,
}
use esi_ts.Pipeline.Middleware.{
  MiddlewareManager, ResponseContext, has_interceptors, run_all, apply_response_interceptors,
}
use esi_ts.Pipeline.Fetch.{Flight, RawFetchResult, execute_single_fetch, parse_json_body}

-- The surroundings of one `executeRequest`: those of its fetch, and what happens while the body
-- and the other pages are read.
pub record Trip (D : Type 0) : Type 0 where
  pub flight : Flight D
  pub at_body : Client D → Client D
  pub read_at : ℕ
  pub mode : IncompletePagesMode
  pub pages : ℕ → Result (List D)
  pub at_pages : Client D → Client D
  pub paged_at : ℕ
  pub finished_at : ℕ

-- What a response leads to: an answer, or the repetition of the request.
pub data Stage (D : Type 0) : Type 0 where
  done : HandlerResponse D → Stage D
  again : Stage D

-- `parsed.xPages <= 1`.
abbrev pub at_most_one : Option ℤ → Bool
at_most_one none = false
at_most_one (some (pos n)) = leb n 1
at_most_one (some (negsuc n)) = true

-- The number of pages of the walk; no page follows the first where the number is NaN.
abbrev page_total : Option ℤ → ℕ
page_total (some (pos n)) = n
page_total _ = 1

-- An answer of `executeRequest`, with the client afterwards.
abbrev pub Answer : Type 0 → Type 0
Answer D = Client D × Result (HandlerResponse D)

abbrev pub is_bodiless : ℕ → Bool
is_bodiless status = status == 201 || status == 204

module _ {D : Type 0} where
  -- `Array.isArray(data) ? data : [data]`.
  abbrev items_of : Content D → List D
  items_of (single d) = d ∷ []
  items_of (array xs) = xs

  unfoldable pub handle_cursor_pagination : ParsedHeaders → Content D → Option (HandlerResponse D)
  handle_cursor_pagination parsed body =
      if parsed.has_cursor_pagination
      then some (record (plain parsed.raw (some body) 200) {
        cursors = some (record { before = parsed.cursor_before; after = parsed.cursor_after });
      })
      else none

  -- The error that a failed walk is reported with.
  unfoldable pub walk_result : Outcome D → Result (List D)
  walk_result (resolved xs) = ok xs
  walk_result (incomplete e) = err (fault pagination_incomplete)
  walk_result (failed e) = err (if is_esi_error e then e else fault pagination_incomplete)

  abbrev pub stage_of : Answer D → Client D × Result (Stage D)
  stage_of (c, err e) = (c, err e)
  stage_of (c, ok r) = (c, ok (done r))

  abbrev with_context : HandlerResponse D → Result (ResponseContext D) → Result (HandlerResponse D)
  with_context r (err e) = err e
  with_context r (ok ctx) = ok (record r { headers = ctx.headers; body = ctx.body })

  -- `applyResponseInterceptors`.
  unfoldable pub intercept :
      MiddlewareManager D → String → Call → ℕ → HandlerResponse D → Result (HandlerResponse D)
  intercept m url call ms r =
      if has_interceptors m
      then with_context r (
          apply_response_interceptors m (record {
            url = url;
            endpoint = call.endpoint;
            method = call.method;
            status = r.status;
            headers = r.headers;
            body = r.body;
            duration_ms = ms;
            from_cache = r.from_cache;
          }))
      else ok r

module _ {D : Type 0} (g : Given) (t : Trip D) (call : Call) where
  -- After the walk over the pages: `cacheResponse` with all of them.
  unfoldable pub paged : Client D → RawFetchResult D → ℕ → Result (List D) → Answer D
  paged c raw sent_at (err e) = (c, err e)
  paged c raw sent_at (ok xs) = (
    cache_response g c t.paged_at raw.url call raw.parsed (some (array xs)) (some sent_at)
        raw.authorization,
    ok (plain raw.parsed.raw (some (array xs)) 200),
  )

  -- `handleOffsetPagination`.
  unfoldable pub handle_offset_pagination : Client D → RawFetchResult D → ℕ → Content D → Answer D
  handle_offset_pagination c raw sent_at body =
      if at_most_one raw.parsed.x_pages
      then (c, ok (plain raw.parsed.raw (some body) 200))
      else paged (t.at_pages c) raw sent_at (
          walk_result
            (fetch_remaining_pages t.mode (page_total raw.parsed.x_pages) t.pages none
              (items_of body)).outcome)

  unfoldable pub or_offset :
      Client D → RawFetchResult D → ℕ → Content D → Option (HandlerResponse D) → Answer D
  or_offset c raw sent_at body (some r) = (c, ok r)
  or_offset c raw sent_at body none = handle_offset_pagination c raw sent_at body

  -- What a parsed body leads to.
  unfoldable pub on_body : Client D → RawFetchResult D → ℕ → Result (Content D) → Answer D
  on_body c raw sent_at (err e) = (c, err e)
  on_body c raw sent_at (ok body) =
      or_offset
        (if at_most_one raw.parsed.x_pages || raw.parsed.has_cursor_pagination
          then cache_response g c t.read_at raw.url call raw.parsed (some body) (some sent_at)
              raw.authorization
          else c)
        raw sent_at body (handle_cursor_pagination raw.parsed body)

  abbrev pub body_of : Option String → Response D → Result (Content D)
  body_of none response = parse_json_body response
  body_of (some type) response = ok (single response.text)

  -- From the reading of a body on.
  unfoldable pub on_content : Client D → RawFetchResult D → ℕ → Answer D
  on_content c raw sent_at =
      if is_ok raw.response
      then on_body (t.at_body c) raw sent_at (body_of call.accept raw.response)
      else handle_error_response g (t.at_body c) t.read_at raw.response raw.url raw.parsed call
          raw.authorization

  unfoldable pub on_early :
      RawFetchResult D → ℕ → Client D × Result (Option (HandlerResponse D)) → Answer D
  on_early raw sent_at (c, err e) = (c, err e)
  on_early raw sent_at (c, ok (some r)) = (c, ok r)
  on_early raw sent_at (c, ok none) = on_content c raw sent_at

  -- Whether the entry that a 304 stands for has left the cache while the request was under way.
  unfoldable pub is_orphaned : Client D → RawFetchResult D → Bool → Bool
  is_orphaned c raw revalidating =
      raw.response.status == 304
      && revalidating
      && not (has_cached_entry g c t.flight.replied_at raw.url call.requires_auth raw.authorization)

  abbrev pub after_bodiless : Client D → ℕ → Client D
  after_bodiless c status =
      if is_bodiless status then invalidate_after_write c call.method call.endpoint else c

  -- The early returns in their order: a 201, a flagged answer with no content, a repetition.
  unfoldable pub early_return :
      Client D → RawFetchResult D → ℕ → Bool → Bool → Bool → Client D × Result (Stage D)
  early_return c raw sent_at true empty orphaned =
      (t.at_body c, ok (done (plain raw.parsed.raw raw.response.json 201)))
  early_return c raw sent_at false true orphaned = (c, ok (done (plain raw.parsed.raw none 200)))
  early_return c raw sent_at false false true = (c, ok again)
  early_return c raw sent_at false false false = stage_of (
      on_early raw sent_at (
        handle_early_status g c t.flight.replied_at raw.response.status raw.url raw.parsed call
          raw.authorization))

  unfoldable pub on_status : Client D → RawFetchResult D → ℕ → Bool → Client D × Result (Stage D)
  on_status c raw sent_at revalidating =
      early_return c raw sent_at (raw.response.status == 201)
        (call.empty_when_no_content
          && raw.response.status == 200
          && answered_with_no_content raw.response)
        (is_orphaned c raw revalidating)

  unfoldable pub on_response :
      ℕ → Bool → Client D × Result (RawFetchResult D) → Client D × Result (Stage D)
  on_response sent_at revalidating (c, err e) = (c, err e)
  on_response sent_at revalidating (c, ok raw) =
      on_status (after_bodiless c raw.response.status) raw sent_at revalidating

  -- `revalidating`.
  abbrev pub revalidates : Client D → Bool
  revalidates c =
      call.use_etag
      && is_get call.method
      && has_cached_entry g c t.flight.built_at (url_of c call.endpoint) call.requires_auth none

  -- The body of `executeRequest`.
  unfoldable pub attempt : Client D → Client D × Result (Stage D)
  attempt c =
      on_response (current_write_generation c) (revalidates c)
        (execute_single_fetch g t.flight call c)

module _ {D : Type 0} (g : Given) (trips : ℕ → Trip D) (call : Call) where
  abbrev pub rethrown : Option (Answer D) → Option (Answer D)
  rethrown none = none
  rethrown (some (c, err e)) = some (c, err (wrap_error e))
  rethrown (some (c, ok r)) = some (c, ok r)

  abbrev pub conclude : ℕ → Client D → HandlerResponse D → Answer D
  conclude n c r =
      let t = trips n in
      (
        c,
        intercept t.flight.middleware (url_of c call.endpoint) call
            (t.finished_at - t.flight.built_at) r,
      )

  -- What a stage leads to, where `repeat` is the repeated request; an interceptor that throws in
  -- `finish` is outside of the `catch`, but a repetition is inside of it.
  unfoldable pub settle_stage :
      (Client D → Option (Answer D)) → ℕ → Client D × Result (Stage D) → Option (Answer D)
  settle_stage repeat n (c, err e) = some (c, err (wrap_error e))
  settle_stage repeat n (c, ok (done r)) = some (conclude n c r)
  settle_stage repeat n (c, ok again) = rethrown (repeat c)

  -- `executeRequest` on fuel, with the number of repetitions so far.
  unfoldable pub execute_request : ℕ → ℕ → Client D → Option (Answer D)
  execute_request zero n c = none
  execute_request (suc fuel) n c =
      settle_stage (λ c'. execute_request fuel (n + 1) c') n (attempt g (trips n) call c)
