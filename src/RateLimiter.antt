-- ===== src/RateLimiter.antt =====
-- The rate limiter of src/core/rateLimiter/RateLimiter.ts: its buckets, and what a response changes.
-- Times are milliseconds read from the clock and passed as `now`; a numeric header is what
-- `parseInt` reads from it, none for NaN. The key under which an endpoint's group is looked up,
-- "METHOD:/path", comes with the request.
pub mod Buckets
pub mod Update
pub mod Places
pub mod Backoff
pub mod ErrorBudget
pub mod Check
use esi_ts.Prelude.{
  ℕ, zero, suc, ◌+◌, ◌-◌, ◌*◌, ◌/◌, ◌%◌, ◌^◌, ◌≤◌, ◌<◌, min, max, String, ◌≡◌, refl, sym, ap, ◌∙◌,
  ◌≢◌, ◌↔◌, ◌⊎◌, inl, inr, Bool, true, false, not, ◌&&◌, ◌||◌, Option, none, some, List, [], ◌∷◌,
  ◌++◌, map, arith, str_eq, eq_iff, ltb, leb, ◌==◌, if◌then◌else◌, ltb→lt, lt→ltb, leb→le, le→leb,
  ==_iff, leb-false, ltb-false, ltb_of_le, eq_of_ne, leb_of_lt, eq_or_lt, or_default, some_inj,
  Bool-cases, Option-cases, length, take, drop, any, length-append, All, All-append, All-imp,
}
use Prim.Native.String.{◌++◌ as append_text}
use esi_ts.Prelude.Int.{ℤ, pos, negsuc}
use esi_ts.Prelude.JsMap
use esi_ts.Prelude.JsMap.{JsMap}

-- A number of JavaScript; none is NaN, of which every comparison is false.
abbrev pub Number : Type 0
Number = Option ℤ

-- `x > 0` and `x <= 0`.
abbrev pub positive : Number → Bool
positive none = false
positive (some (pos n)) = ltb 0 n
positive (some (negsuc n)) = false

abbrev pub exhausted : Number → Bool
exhausted none = false
exhausted (some (pos n)) = n == 0
exhausted (some (negsuc n)) = true

-- `getTokenCost`.
unfoldable pub get_token_cost : ℕ → ℕ
get_token_cost status =
    if leb 200 status && ltb status 300
    then 2
    else if leb 300 status && ltb status 400
    then 1
    else if leb 400 status && ltb status 500
    then 5
    else if leb 500 status && ltb status 600
    then 0
    else 2

-- A Retry-After header: seconds, a date as `Date.parse` reads it, or text that is neither.
pub data RetryAfter : Type 0 where
  delay_seconds http_date : ℕ → RetryAfter
  unreadable : RetryAfter

-- `retryAfterDeadline`.
abbrev pub retry_after_deadline : RetryAfter → ℕ → Option ℕ
retry_after_deadline (delay_seconds s) now = some (now + s * 1000)
retry_after_deadline (http_date ms) now = some ms
retry_after_deadline unreadable now = none

-- An entry of `esiRateLimitGroups`, or of the endpoint overrides.
pub record RateLimitGroupSpec : Type 0 where
  pub group : String
  pub max_tokens : ℕ
  pub window_size_ms : ℕ

pub record GroupBucket : Type 0 where
  pub group : String
  pub remaining : Number
  pub limit : Number
  pub used : Number
  pub window_size_ms : ℕ
  pub blocked_until : ℕ
  pub last_updated : ℕ

-- `exhausted_until` is none where it is NaN.
pub record ErrorLimitState : Type 0 where
  pub remain : Number
  pub reset : Number
  pub exhausted_until : Option ℕ

pub record UserBucketSet : Type 0 where
  pub groups : JsMap GroupBucket
  pub error_limit : ErrorLimitState
  pub last_accessed : ℕ

-- `per_user` says that a `userKeyExtractor` is configured. The threshold is `num / den`. The
-- table of the groups is generated.
pub record RateLimiter : Type 0 where
  pub min_delay_ms : ℕ
  pub threshold_num : ℕ
  pub threshold_den : ℕ
  pub per_user : Bool
  pub endpoint_overrides : JsMap RateLimitGroupSpec
  pub esi_rate_limit_groups : JsMap RateLimitGroupSpec
  pub last_request_time : ℕ
  pub is_test_mode : Bool
  pub global_error_limit : ErrorLimitState
  pub default_buckets : JsMap GroupBucket
  pub user_buckets : JsMap UserBucketSet
  pub fallback_bucket : GroupBucket
  pub last_cleanup : ℕ

-- What of a request the limiter reads: the key of its endpoint, and the user that the extractor
-- finds in its headers.
pub record Request : Type 0 where
  pub endpoint : Option String
  pub user : Option String

pub record ResponseHeaders : Type 0 where
  pub group : Option String
  pub remaining : Option Number
  pub limit : Option Number
  pub used : Option Number
  pub retry_after : Option RetryAfter
  pub error_limit_remain : Option Number
  pub error_limit_reset : Option Number

abbrev pub default_window_ms : ℕ
default_window_ms = 900000

abbrev pub cleanup_interval_ms : ℕ
cleanup_interval_ms = 60000

abbrev pub default_error_limit : ErrorLimitState
default_error_limit = record {
  remain = some (pos 100);
  reset = some (pos 0);
  exhausted_until = some 0;
}

abbrev pub create_bucket_for_group : String → GroupBucket
create_bucket_for_group group = record {
  group = group;
  remaining = some (negsuc 0);
  limit = some (pos 0);
  used = some (pos 0);
  window_size_ms = default_window_ms;
  blocked_until = 0;
  last_updated = 0;
}

abbrev pub create_fallback_bucket : GroupBucket
create_fallback_bucket = create_bucket_for_group "__fallback__"

abbrev pub create_bucket_from_spec : RateLimitGroupSpec → GroupBucket
create_bucket_from_spec spec = record {
  group = spec.group;
  remaining = some (pos spec.max_tokens);
  limit = some (pos spec.max_tokens);
  used = some (pos 0);
  window_size_ms = spec.window_size_ms;
  blocked_until = 0;
  last_updated = 0;
}
