-- ===== src/Pipeline/Fetch.antt =====
-- One fetch: src/core/requestPipeline/fetchExecution.ts, with the bridge to the interceptors of
-- middlewareBridge.ts. The function waits for the interceptors,
-- for the limiter and for the answer; what other requests change meanwhile is given as functions
-- on the client.
pub mod Probe
pub mod Steady
use esi_ts.Prelude.{
  ℕ, zero, suc, ◌+◌, ◌-◌, ◌*◌, ◌≤◌, ◌<◌, ◌≡◌, refl, Bool, true, false, not, ◌&&◌, ◌||◌, Option,
  none, some, List, [], ◌∷◌, arith, str_eq, ltb, leb, ◌==◌, if◌then◌else◌, or_default,
}
use Prim.Native.Char.{Char, code}
use Prim.Native.String.{String, [], ◌∷◌}
use esi_ts.Prelude.JsMap
use esi_ts.Prelude.JsMap.{JsMap}
use esi_ts.CacheKey.{
  KeyClient, ◌<>◌, default_date, truthy, mark_token_accepted, build_conditional_cache_key,
}
use esi_ts.Errors.{
  Failure, esi, timeout, circuit_open, network, fault, no_auth_token, configuration_error,
  json_parse_error, is_esi_error, Result, ok, err,
}
use esi_ts.Cache.{CacheEntry}
use esi_ts.CircuitBreaker.{
  CircuitBreaker, CircuitOpenError, KeyStrategy, resolved, template, check_circuit, record_success,
  record_failure,
}
use esi_ts.RateLimiter.{RateLimiter}
use esi_ts.RateLimiter.Update.{update_from_response}
use esi_ts.RateLimiter.Check.{CheckOutcome, allowed, refused, check_rate_limit}
use esi_ts.Pipeline.{Content, array, Given, Client, Call, Response}
use esi_ts.Pipeline.Headers.{ParsedHeaders, parse_headers}
use esi_ts.Pipeline.CachePolicy.{is_get, cache_get, url_of}
use esi_ts.Pipeline.Status.{is_ok, answered_with_no_content}
use esi_ts.Pipeline.RequestHeaders.{build_request_headers}
use esi_ts.Pipeline.Middleware.{
  MiddlewareManager, RequestContext, has_interceptors, apply_request_interceptors,
}

-- What `fetch` did: it answered, or it was rejected, by the timer or otherwise.
pub data Reply (D : Type 0) : Type 0 where
  answered : Response D → Reply D
  rejected : Bool → Failure → Reply D

-- The surroundings of one fetch: the clock at each step, the interceptors, what other requests
-- change during each wait, the answer, and the timeout of the call.
pub record Flight (D : Type 0) : Type 0 where
  pub built_at : ℕ
  pub middleware : MiddlewareManager D
  pub lower : String → String
  pub at_middleware : Client D → Client D
  pub checked_at : ℕ
  pub during_check : ℕ → RateLimiter → RateLimiter
  pub check_clock : ℕ → ℕ
  pub at_check : Client D → Client D
  pub at_fetch : Client D → Client D
  pub reply : Reply D
  pub request_timeout : Option ℕ
  pub replied_at : ℕ

-- `RawFetchResult`.
pub record RawFetchResult (D : Type 0) : Type 0 where
  pub response : Response D
  pub parsed : ParsedHeaders
  pub url : String
  pub authorization : Option String

-- The key that the breaker keeps the circuit of a request under.
unfoldable pub circuit_key : CircuitBreaker → Call → String
circuit_key b call = elim b.key_strategy [
  | resolved ↦ call.endpoint
  | template ↦ or_default (truthy call.template_path) call.endpoint
]

abbrev pub counts_against : ℕ → Bool
counts_against status = leb 500 status || status == 420 || status == 429

abbrev pub redirect_status : ℕ → ℕ
redirect_status status = if leb 300 status then status else 302

-- The error of a fetch that gave no response.
unfoldable pub transport_error : ℕ → Bool → Failure → Failure
transport_error ms is_abort e =
    if is_esi_error e then e else if is_abort then timeout ms else network

-- `cb.recordFailure(cbKey, status)`, where there is a breaker.
abbrev pub failed_in : ℕ → String → ℕ → Option CircuitBreaker → Option CircuitBreaker
failed_in now key status none = none
failed_in now key status (some b) = some (record_failure b now key status)

abbrev pub passed_in : String → Option CircuitBreaker → Option CircuitBreaker
passed_in key none = none
passed_in key (some b) = some (record_success b key)

module _ {D : Type 0} where
  -- `applyRequestMiddleware`.
  unfoldable pub apply_request_middleware : Flight D → RequestContext → Result RequestContext
  apply_request_middleware f ctx =
      if has_interceptors f.middleware
      then apply_request_interceptors f.lower f.middleware ctx
      else ok ctx

  abbrev pub record_failed : Client D → ℕ → String → ℕ → Client D
  record_failed c now key status = record c {
    circuit_breaker = failed_in now key status c.circuit_breaker;
  }

  abbrev pub record_passed : Client D → String → Client D
  record_passed c key = record c { circuit_breaker = passed_in key c.circuit_breaker }

  unfoldable pub record_status : Client D → ℕ → String → ℕ → Client D
  record_status c now key status =
      if counts_against status then record_failed c now key status else record_passed c key

  unfoldable pub is_redirect : Response D → Bool
  is_redirect r =
      if r.is_opaque_redirect
      then true
      else leb 300 r.status && ltb r.status 400 && not (r.status == 304)

  abbrev arrive : Flight D → Client D → RateLimiter → Client D
  arrive f c lim = record (f.at_check c) { rate_limiter = some lim }

abbrev pub raw_result : {D : Type 0} → RequestContext → Response D → RawFetchResult D
raw_result req response = record {
  response = response;
  parsed = parse_headers response.headers;
  url = req.url;
  authorization = JsMap.get "Authorization" req.headers;
}

module _ (g : Given) where
  -- `markTokenAccepted` for the header that was sent, if it is not empty.
  abbrev pub keys_accepting : KeyClient → Option String → KeyClient
  keys_accepting keys none = keys
  keys_accepting keys (some header) =
      mark_token_accepted g.caller_identity g.hashed_identity keys header

module _ {D : Type 0} (g : Given) where
  -- ESI accepts the token that it answers 2xx or 304 to.
  unfoldable pub accept_token : Client D → Call → RequestContext → Response D → Client D
  accept_token c call req response =
      if call.requires_auth && (is_ok response || response.status == 304)
      then record c {
        keys = keys_accepting g c.keys (truthy (JsMap.get "Authorization" req.headers));
      }
      else c

  abbrev pub limiter_after :
      Option RateLimiter → ℕ → Call → RequestContext → Response D → Option RateLimiter
  limiter_after none now call req response = none
  limiter_after (some lim) now call req response = some (
      update_from_response lim now (g.limiter_headers response.headers) response.status
        (g.limiter_request call.template_path req.headers))

  unfoldable pub report_response : Client D → ℕ → Call → RequestContext → Response D → Client D
  report_response c now call req response = record c {
    rate_limiter = limiter_after c.rate_limiter now call req response;
  }

  unfoldable pub on_answer :
      Client D
      → ℕ
      → String
      → Call
      → RequestContext
      → Response D
      → Client D × Result (RawFetchResult D)
  on_answer c now key call req response = (
    record_status (report_response (accept_token c call req response) now call req response) now key
        response.status,
    if is_redirect response
        then err (esi (redirect_status response.status))
        else ok (raw_result req response),
  )

module _ {D : Type 0} (g : Given) (f : Flight D) (call : Call) where
  unfoldable pub after_fetch :
      Client D → String → RequestContext → Reply D → Client D × Result (RawFetchResult D)
  after_fetch c key req (answered response) = on_answer g c f.replied_at key call req response
  after_fetch c key req (rejected is_abort e) = (
    record_failed c f.replied_at key 0,
    err (transport_error (or_default f.request_timeout c.timeout_ms) is_abort e),
  )

  -- What follows the check of the limiter; a refusal is recorded in `finally`.
  unfoldable pub after_check :
      Client D → String → RequestContext → CheckOutcome → Client D × Result (RawFetchResult D)
  after_check c key req (allowed check) =
      after_fetch (f.at_fetch (arrive f c check.limiter)) key req f.reply
  after_check c key req (refused ms check) =
      (record_failed (arrive f c check.limiter) (f.check_clock check.waits) key 0, err (esi 429))

  unfoldable pub limited :
      Client D → String → RequestContext → Option RateLimiter → Client D × Result (RawFetchResult D)
  limited c key req none = (record_failed c f.checked_at key 0, err (fault configuration_error))
  limited c key req (some lim) = after_check c key req (
      check_rate_limit f.during_check f.check_clock
        (g.limiter_request call.template_path req.headers) lim)

  -- What follows the answer of the breaker.
  unfoldable pub after_breaker :
      Client D
      → String
      → RequestContext
      → CircuitBreaker × Option CircuitOpenError
      → Client D × Result (RawFetchResult D)
  after_breaker c key req (b, some e) =
      (record c { circuit_breaker = some b }, err (circuit_open e))
  after_breaker c key req (b, none) =
      limited (record c { circuit_breaker = some b }) key req c.rate_limiter

  -- From the check of the breaker on.
  unfoldable pub guarded :
      Client D → RequestContext → Option CircuitBreaker → Client D × Result (RawFetchResult D)
  guarded c req none = limited c call.endpoint req c.rate_limiter
  guarded c req (some b) =
      after_breaker c (circuit_key b call) req (check_circuit b f.checked_at (circuit_key b call))

  abbrev context_of : Client D → JsMap String → RequestContext
  context_of c headers = record {
    url = url_of c call.endpoint;
    endpoint = call.endpoint;
    method = call.method;
    headers = headers;
    has_body = call.has_body;
  }

  unfoldable pub after_middleware :
      Client D → Result RequestContext → Client D × Result (RawFetchResult D)
  after_middleware c (err e) = (c, err e)
  after_middleware c (ok req) = guarded c req c.circuit_breaker

  unfoldable pub after_headers :
      Client D × Result (JsMap String) → Client D × Result (RawFetchResult D)
  after_headers (c, err e) = (c, err e)
  after_headers (c, ok headers) =
      after_middleware (f.at_middleware c) (apply_request_middleware f (context_of c headers))

  -- `executeSingleFetch`.
  unfoldable pub execute_single_fetch : Client D → Client D × Result (RawFetchResult D)
  execute_single_fetch c =
      after_headers (build_request_headers g c f.built_at (url_of c call.endpoint) call)

module _ {D : Type 0} where
  -- `parseJsonBody`.
  unfoldable pub parse_json_body : Response D → Result (Content D)
  parse_json_body response = elim response.json [
    | none ↦ err (fault json_parse_error)
    | some body ↦ ok body
  ]

  -- What `fetchOnePage` makes of its response.
  unfoldable pub page_of : Call → RawFetchResult D → Result (Content D)
  page_of call raw =
      if is_ok raw.response
      then (if call.empty_when_no_content && answered_with_no_content raw.response
          then ok (array [])
          else parse_json_body raw.response)
      else err (esi raw.response.status)

  abbrev bind_page : Call → Result (RawFetchResult D) → Result (Content D)
  bind_page call (err e) = err e
  bind_page call (ok raw) = page_of call raw

module _ {D : Type 0} (g : Given) where
  -- `fetchOnePage`.
  unfoldable pub fetch_one_page : Flight D → Call → Client D → Client D × Result (Content D)
  fetch_one_page f call c =
      let fetched = execute_single_fetch g f call c in (fetched.0, bind_page call fetched.1)
