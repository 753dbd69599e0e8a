-- ===== src/Tests/Limits.antt =====
-- The theorems on the rate limiter at concrete inputs.
use esi_ts.Prelude.{
  List, ℕ, ◌+◌, ◌*◌, ◌≤◌, ◌<◌, String, ◌≡◌, refl, inr, true, false, none, some, [], ◌∷◌, arith,
}
use esi_ts.Prelude.Int.{pos}
use esi_ts.Prelude.JsMap
use esi_ts.Prelude.JsMap.{JsMap}
use esi_ts.RateLimiter.{
  delay_seconds, GroupBucket, RateLimiter, Request, ResponseHeaders, create_fallback_bucket,
}
use esi_ts.RateLimiter.Buckets.{
  lookup_group_spec, resolve_user_set, put_error_limit, find_bucket, put_bucket, bucket_of,
  get_bucket, cleanup_stale_users, Place, fallback, in_default, in_user,
}
use esi_ts.RateLimiter.Update.{update_bucket, update_from_response}
use esi_ts.RateLimiter.Check.{
  bucket_now, block_loop, block_phase, verdict, slow_down, check_rate_limit, Check, CheckOutcome,
  allowed, refused, after_block,
}
use esi_ts.RateLimiter.Check.Blocked.{no_request_while_blocked}
use esi_ts.RateLimiter.Backoff.{limited_response_blocks}
use esi_ts.RateLimiter.Check.{error_limit_wait}
use esi_ts.RateLimiter.ErrorBudget.{Response, take_all, exhausted_budget_holds}

-- A limiter with a bucket for each user, whose error budget is spent until 5000.
abbrev limiter : RateLimiter
limiter = record {
  min_delay_ms = 50;
  threshold_num = 1;
  threshold_den = 5;
  per_user = true;
  endpoint_overrides = [];
  esi_rate_limit_groups =
      ("GET:/markets", record { group = "market"; max_tokens = 600; window_size_ms = 900000 }) ∷ [];
  last_request_time = 0;
  is_test_mode = false;
  global_error_limit = record {
    remain = some (pos 0);
    reset = some (pos 4);
    exhausted_until = some 5000;
  };
  default_buckets = [];
  user_buckets = [];
  fallback_bucket = create_fallback_bucket;
  last_cleanup = 0;
}

abbrev request : Request
request = record { endpoint = some "GET:/markets"; user = some "ann" }

-- A 429 that says when to come back, and that the error budget has one left.
abbrev told : ResponseHeaders
told = record {
  group = none;
  remaining = some (some (pos 0));
  limit = none;
  used = none;
  retry_after = some (delay_seconds 2);
  error_limit_remain = some (some (pos 1));
  error_limit_reset = none;
}

-- Nothing else happens, and the clock moves on by 3 seconds a wait.
abbrev undisturbed : ℕ → RateLimiter → RateLimiter
undisturbed n lim = lim

abbrev clock : ℕ → ℕ
clock n = 1000 + 3000 * n

abbrev user_at : Place → String
user_at fallback = ""
user_at (in_default group) = ""
user_at (in_user user group) = user

limited_response_blocks_example :
    (b : GroupBucket) × (find_bucket
        (update_from_response limiter 1000 told 429 request)
        (in_user "ann" "market")
      ≡ some b)
    × (1000 < b.blocked_until)
unfolding lookup_group_spec JsMap.get
limited_response_blocks_example =
    limited_response_blocks limiter 1000 told 429 request refl (inr refl)

abbrev late_responses : List Response
late_responses = record { time = 1000; headers = told; status = 200; request = request } ∷ []

exhausted_budget_holds_example :
    (ms : ℕ) × (0 < ms)
    × (error_limit_wait (take_all limiter late_responses).global_error_limit ≡ some ms)
    × ((take_all limiter late_responses).global_error_limit.exhausted_until ≡ some 5000)
exhausted_budget_holds_example =
    exhausted_budget_holds limiter 5000 late_responses refl refl ((omega arith, refl), tt)

-- Ann was blocked by a 429 just before.
abbrev blocked_limiter : RateLimiter
blocked_limiter = update_from_response limiter 1000 told 429 request

abbrev call_of : CheckOutcome → Check
call_of (allowed c) = c
call_of (refused ms c) = c

abbrev ann_waited : Check
ann_waited = call_of (check_rate_limit undisturbed clock request blocked_limiter)

no_request_while_blocked_example :
    (b : Check) × ((bucket_now undisturbed clock request b).blocked_until ≤ clock b.waits)
    × (ann_waited ≡ slow_down undisturbed clock request b)
unfolding check_rate_limit block_phase block_loop verdict after_block update_from_response
    put_error_limit resolve_user_set put_bucket lookup_group_spec JsMap.get get_bucket bucket_of
    find_bucket cleanup_stale_users JsMap.set update_bucket
no_request_while_blocked_example =
    no_request_while_blocked undisturbed clock request blocked_limiter ann_waited refl refl
