-- ===== src/RateLimiter/Update.antt =====
-- `updateFromResponse`, `isBlocked` and `reset` of src/core/rateLimiter/RateLimiter.ts.
use esi_ts.Prelude.{
  ℕ, ◌+◌, ◌-◌, ◌*◌, String, Bool, false, ◌&&◌, ◌||◌, Option, none, some, [], str_eq, ltb, leb, ◌==◌,
  if◌then◌else◌, or_default, any,
}
use esi_ts.Prelude.Int.{pos, negsuc}
use esi_ts.Prelude.JsMap
use esi_ts.Prelude.JsMap.{JsMap}
use esi_ts.RateLimiter.{
  Number, positive, exhausted, retry_after_deadline, GroupBucket, ErrorLimitState, RateLimiter,
  Request, ResponseHeaders, default_error_limit, create_fallback_bucket,
}
use esi_ts.RateLimiter.Buckets.{
  user_of, resolve_user_set, error_limit_of, put_error_limit, put_bucket, place_of, bucket_of,
  get_bucket,
}

-- `bucket.blockedUntil` after a response.
abbrev pub block_until : ResponseHeaders → ℕ → ℕ → ℕ → ℕ
block_until h status now blocked_until =
    let told : ℕ = elim h.retry_after [
      | none ↦ blocked_until
      | some value ↦ or_default (retry_after_deadline value now) blocked_until
    ] in
    if (status == 420 || status == 429) && leb told now then now + 60000 else told

unfoldable pub update_bucket : ResponseHeaders → ℕ → ℕ → GroupBucket → GroupBucket
update_bucket h status now bucket = record bucket {
  remaining = or_default h.remaining bucket.remaining;
  limit = or_default h.limit bucket.limit;
  used = or_default h.used bucket.used;
  blocked_until = block_until h status now bucket.blocked_until;
  last_updated = now;
}

abbrev pub is_before : ℕ → Option ℕ → Bool
is_before now none = false
is_before now (some t) = ltb now t

-- `now + errorLimit.reset * 1000`; a time before 0 is 0, which no reading of the clock is before.
abbrev pub window_end : ℕ → Number → Option ℕ
window_end now none = none
window_end now (some (pos s)) = some (now + s * 1000)
window_end now (some (negsuc s)) = some (now - (s + 1) * 1000)

-- A report of budget left that arrives inside the window of a budget reported as exhausted.
abbrev pub is_late_report : ℕ → ErrorLimitState → Option Number → Bool
is_late_report now limit none = false
is_late_report now limit (some remain) =
    positive remain && exhausted limit.remain && is_before now limit.exhausted_until

abbrev pub reports_exhausted : Option Number → Bool
reports_exhausted none = false
reports_exhausted (some remain) = exhausted remain

-- What a response that is no late report changes.
abbrev pub take_report : ResponseHeaders → ℕ → ErrorLimitState → ErrorLimitState
take_report h now limit = record {
  remain = or_default h.error_limit_remain limit.remain;
  reset = or_default h.error_limit_reset limit.reset;
  exhausted_until =
      if reports_exhausted h.error_limit_remain
      then window_end now (or_default h.error_limit_reset limit.reset)
      else limit.exhausted_until;
}

unfoldable pub update_error_limit : ResponseHeaders → ℕ → ErrorLimitState → ErrorLimitState
update_error_limit h now limit =
    if is_late_report now limit h.error_limit_remain then limit else take_report h now limit

abbrev pub present : Option String → Option String
present none = none
present (some group) = if str_eq group "" then none else some group

-- `updateFromResponse`.
unfoldable pub update_from_response : RateLimiter → ℕ → ResponseHeaders → ℕ → Request → RateLimiter
update_from_response lim now h status req =
    if lim.is_test_mode
    then lim
    else let group = present h.group in
      let found = get_bucket lim now req group in
      let lim' =
        put_bucket found now (place_of found req group)
          (update_bucket h status now (bucket_of found req group)) in
      let lim'' = resolve_user_set lim' now (user_of lim' req) in
      put_error_limit lim'' now (user_of lim'' req)
        (update_error_limit h now (error_limit_of lim'' req))

-- `isBlocked`, for a group and for all of them.
abbrev pub is_blocked_bucket : ℕ → GroupBucket → Bool
is_blocked_bucket now bucket = ltb now bucket.blocked_until

abbrev any_blocked : ℕ → JsMap GroupBucket → Bool
any_blocked now m = any (λ e. is_blocked_bucket now e.1) m

unfoldable pub is_blocked : RateLimiter → ℕ → Option String → Bool
is_blocked lim now none =
    is_blocked_bucket now lim.fallback_bucket || any_blocked now lim.default_buckets
is_blocked lim now (some group) =
    if str_eq group ""
    then is_blocked_bucket now lim.fallback_bucket || any_blocked now lim.default_buckets
    else elim (JsMap.get group lim.default_buckets) [
      | none ↦ false
      | some bucket ↦ is_blocked_bucket now bucket
    ]

-- `reset`.
unfoldable pub reset : RateLimiter → RateLimiter
reset lim = record lim {
  default_buckets = [];
  user_buckets = [];
  fallback_bucket = create_fallback_bucket;
  global_error_limit = default_error_limit;
  last_request_time = 0;
  last_cleanup = 0;
}
