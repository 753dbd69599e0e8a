-- ===== src/Pipeline.antt =====
-- The request pipeline of src/core/requestPipeline and src/core/ApiRequestHandler.ts: the state of
-- an `ApiClient` that a request reads and changes, the call, the response and the answer. Bodies of
-- type `unknown` are told apart only as the code does: an array, a single value, or `undefined`.
pub mod Headers
pub mod CachePolicy
pub mod Status
pub mod Middleware
pub mod RequestHeaders
pub mod Fetch
pub mod Request
pub mod Handle
use esi_ts.Prelude.{ℕ, Bool, false, Option, none, List, String}
use esi_ts.Prelude.JsMap.{JsMap}
use esi_ts.CacheKey.{KeyClient}
use esi_ts.Cache.Etag.{EtagCacheManager}
use esi_ts.Cache.WriteLog.{WriteLog}
use esi_ts.Dedup.{RequestDeduplicator}
use esi_ts.CircuitBreaker.{CircuitBreaker}
use esi_ts.RateLimiter.{RateLimiter}
use esi_ts.RateLimiter as RateLimiter

-- What a parsed body is, as far as the code tells.
pub data Content (D : Type 0) : Type 0 where
  single : D → Content D
  array : List D → Content D

-- A body; none is `undefined`.
abbrev pub Body : Type 0 → Type 0
Body D = Option (Content D)

-- What the pipeline takes from elsewhere: how a header names an identity, the generated table of
-- lifetimes in seconds, and how the limiter reads the headers of a request and of a response.
pub record Given : Type 0 where
  pub caller_identity : String → String
  pub hashed_identity : String → String
  pub spec_seconds : String → Option ℕ
  pub limiter_request : Option String → JsMap String → RateLimiter.Request
  pub limiter_headers : JsMap String → RateLimiter.ResponseHeaders

-- The parts of an `ApiClient`, with the log of the writes that its cache saw.
pub record Client (D : Type 0) : Type 0 where
  pub keys : KeyClient
  pub user_agent : Option String
  pub client_id : String
  pub cache : Option (EtagCacheManager (Body D))
  pub writes : WriteLog
  pub deduplicator : Option RequestDeduplicator
  pub circuit_breaker : Option CircuitBreaker
  pub rate_limiter : Option RateLimiter
  pub timeout_ms : ℕ

-- The arguments of `handleRequest`; of the body it matters here whether it is truthy.
pub record Call : Type 0 where
  pub endpoint : String
  pub method : String
  pub has_body : Bool
  pub requires_auth : Bool
  pub use_etag : Bool
  pub template_path : Option String
  pub accept : Option String
  pub empty_when_no_content : Bool

-- A `Response` with its body read: `json` is none where it does not parse.
pub record Response (D : Type 0) : Type 0 where
  pub status : ℕ
  pub is_opaque_redirect : Bool
  pub headers : JsMap String
  pub json : Option (Content D)
  pub text : D

pub data HitType : Type 0 where
  spec_ttl etag_304 stale_on_error : HitType

pub record CursorTokens : Type 0 where
  pub before : Option String
  pub after : Option String

-- `EsiHandlerResponse`; an absent flag is false.
pub record HandlerResponse (D : Type 0) : Type 0 where
  pub headers : JsMap String
  pub body : Body D
  pub status : ℕ
  pub from_cache : Bool
  pub stale : Bool
  pub cache_hit_type : Option HitType
  pub cursors : Option CursorTokens

-- An answer straight from a response.
abbrev pub plain : {D : Type 0} → JsMap String → Body D → ℕ → HandlerResponse D
plain headers body status = record {
  headers = headers;
  body = body;
  status = status;
  from_cache = false;
  stale = false;
  cache_hit_type = none;
  cursors = none;
}
