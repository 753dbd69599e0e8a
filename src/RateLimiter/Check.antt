-- ===== src/RateLimiter/Check.antt =====
-- `checkRateLimit` and `enforceMinDelay` of src/core/rateLimiter/RateLimiter.ts. The function waits
-- in several places, and other requests and responses change the limiter meanwhile: the change made
-- during the wait number n is `during n`, and the clock reads `clock n` after n waits. A bucket is
-- changed in its place, so what is left out is a `reset` during a wait for a block.
pub mod Blocked
use esi_ts.Prelude.{
  ℕ, zero, suc, ◌+◌, ◌-◌, ◌*◌, ◌/◌, ◌%◌, ◌^◌, ◌≤◌, ◌<◌, min, max, String, ◌≡◌, refl, sym, ap, ◌∙◌,
  ◌≢◌, ◌↔◌, ◌⊎◌, inl, inr, Bool, true, false, not, ◌&&◌, ◌||◌, Option, none, some, List, [], ◌∷◌,
  ◌++◌, map, arith, str_eq, eq_iff, ltb, leb, ◌==◌, if◌then◌else◌, ltb→lt, lt→ltb, leb→le, le→leb,
  ==_iff, leb-false, ltb-false, ltb_of_le, eq_of_ne, leb_of_lt, eq_or_lt, or_default, some_inj,
  Bool-cases, Option-cases, length, take, drop, any, length-append, All, All-append, All-imp,
}
use Prim.Native.String.{◌++◌ as append_text}
use esi_ts.Prelude.Int.{ℤ, pos, negsuc}
use esi_ts.Prelude.JsMap
use esi_ts.Prelude.JsMap.{JsMap}
use esi_ts.RateLimiter.{
  Number, positive, exhausted, RetryAfter, delay_seconds, http_date, unreadable,
  retry_after_deadline, RateLimitGroupSpec, GroupBucket, ErrorLimitState, UserBucketSet,
  RateLimiter, Request, ResponseHeaders, default_window_ms, cleanup_interval_ms,
  default_error_limit, create_bucket_for_group, create_fallback_bucket, create_bucket_from_spec,
}
use esi_ts.RateLimiter.Buckets.{
  lookup_group_spec, fresh_user_set, user_of, user_set, put_user_set, resolve_user_set,
  error_limit_of, put_error_limit, find_bucket, put_bucket, place_in, group_name, place_of,
  place_group, new_bucket, bucket_of, get_bucket, cleanup_stale_users, Place, fallback, in_default,
  in_user,
}
use esi_ts.RateLimiter.Update.{
  block_until, update_bucket, window_end, is_late_report, reports_exhausted, take_report,
  update_error_limit, update_from_response, is_blocked_bucket, is_blocked, reset,
}

-- A call in progress: the limiter, and the waits so far with their lengths.
pub record Check : Type 0 where
  pub limiter : RateLimiter
  pub waits : ℕ
  pub waited : List ℕ

pub data CheckOutcome : Type 0 where
  allowed : Check → CheckOutcome
  refused : ℕ → Check → CheckOutcome

-- `remain <= 10 && remain > 0`.
abbrev pub is_low : Number → Bool
is_low none = false
is_low (some (pos n)) = ltb 0 n && leb n 10
is_low (some (negsuc n)) = false

abbrev pub seconds : Number → ℕ
seconds none = 0
seconds (some (pos n)) = n
seconds (some (negsuc n)) = 0

-- How long the error limit makes a request wait, if at all.
unfoldable pub error_limit_wait : ErrorLimitState → Option ℕ
error_limit_wait limit =
    if is_low limit.remain
    then (if positive limit.reset then some (min (seconds limit.reset * 1000) 5000) else none)
    else if exhausted limit.remain && positive limit.reset
    then some (seconds limit.reset * 1000)
    else none

-- The wait on a bucket that runs low: `ratio <= num / den`, and the delay is rounded up.
abbrev ratio_wait : ℕ → ℕ → ℕ → ℕ → Option ℕ
ratio_wait num den remaining limit =
    if remaining == 0
    then some 1000
    else if leb (remaining * den) (num * limit)
    then some (1000 - (1000 * remaining * den) / (num * limit))
    else none

unfoldable pub bucket_wait : RateLimiter → GroupBucket → Option ℕ
bucket_wait lim bucket = elim bucket.remaining [
  | none ↦ none
  | some r ↦ elim r [
    | negsuc n ↦ none
    | pos remaining ↦ elim bucket.limit [
      | none ↦ none
      | some l ↦ elim l [
        | negsuc n ↦ none
        | pos limit ↦
            if limit == 0
            then none
            else ratio_wait lim.threshold_num lim.threshold_den remaining limit
      ]
    ]
  ]
]

-- The wait of `run` in `enforceMinDelay`.
unfoldable pub min_delay_wait : RateLimiter → ℕ → Option ℕ
min_delay_wait lim now =
    if ltb now (lim.last_request_time + lim.min_delay_ms)
    then some (lim.last_request_time + lim.min_delay_ms - now)
    else none

abbrev pub unblocked : ℕ → GroupBucket → GroupBucket
unblocked waited_until bucket =
    if leb bucket.blocked_until waited_until then record bucket { blocked_until = 0 } else bucket

module _ (during : ℕ → RateLimiter → RateLimiter) (clock : ℕ → ℕ) (req : Request) where
  abbrev pub bucket_now : Check → GroupBucket
  bucket_now c = bucket_of c.limiter req none

  abbrev pub look : Check → Check
  look c = record c { limiter = get_bucket c.limiter (clock c.waits) req none }

  abbrev pub pause : ℕ → Check → Check
  pause ms c = record {
    limiter = during c.waits c.limiter;
    waits = c.waits + 1;
    waited = c.waited ++ (ms ∷ []);
  }

  abbrev pub pause_if : Option ℕ → Check → Check
  pause_if none c = c
  pause_if (some ms) c = pause ms c

  -- Clears the block that was waited for, unless it was extended.
  abbrev pub clear_block : ℕ → Check → Check
  clear_block waited_until c = record c {
    limiter =
        put_bucket c.limiter (clock c.waits) (place_of c.limiter req none)
          (unblocked waited_until (bucket_now c));
  }

  abbrev pub wait_for_block : Check → Check
  wait_for_block c =
      let until : ℕ = (bucket_now c).blocked_until in
      clear_block until (pause (until - clock c.waits) c)

  -- The rounds of the loop; the flag says that `stillBlockedBucket` is set.
  unfoldable pub block_loop : ℕ → Bool → Check → Check × Bool
  block_loop zero still c = (c, still)
  block_loop (suc left) still c = elim (leb (bucket_now (look c)).blocked_until (clock c.waits)) [
    | true ↦ (look c, false)
    | false ↦ block_loop left true (wait_for_block (look c))
  ]

  -- The refusal after the loop.
  unfoldable pub verdict : Check × Bool → CheckOutcome
  verdict (c, still) =
      if still && ltb (clock c.waits) (bucket_now c).blocked_until
      then refused ((bucket_now c).blocked_until - clock c.waits) c
      else allowed c

  abbrev pub at_start : RateLimiter → Check
  at_start lim = record { limiter = lim; waits = 0; waited = [] }

  unfoldable pub block_phase : RateLimiter → CheckOutcome
  block_phase lim = verdict (block_loop 10 false (at_start lim))

  abbrev pub touch_user : Check → Check
  touch_user c = record c {
    limiter = resolve_user_set c.limiter (clock c.waits) (user_of c.limiter req);
  }

  abbrev pub mark_request : Check → Check
  mark_request c = record c { limiter = record c.limiter { last_request_time = clock c.waits } }

  -- What follows the block: the waits on the error limit, on the bucket and between requests.
  unfoldable pub slow_down : Check → Check
  slow_down c =
      let touched = touch_user c in
      let rested = pause_if (error_limit_wait (error_limit_of touched.limiter req)) touched in
      let seen = look rested in
      let slowed = pause_if (bucket_wait seen.limiter (bucket_now seen)) seen in
      mark_request (pause_if (min_delay_wait slowed.limiter (clock slowed.waits)) slowed)

  unfoldable pub after_block : CheckOutcome → CheckOutcome
  after_block (allowed c) = allowed (slow_down c)
  after_block (refused ms c) = refused ms c

  -- `checkRateLimit`.
  unfoldable pub check_rate_limit : RateLimiter → CheckOutcome
  check_rate_limit lim =
      if lim.is_test_mode
      then allowed (at_start lim)
      else after_block (block_phase (cleanup_stale_users lim (clock 0)))
