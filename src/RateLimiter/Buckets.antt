-- ===== src/RateLimiter/Buckets.antt =====
-- How src/core/rateLimiter/RateLimiter.ts finds the bucket and the error limit of a request, and
-- drops the users that it has not seen for a while.
use esi_ts.Prelude.{
  ℕ, ◌-◌, String, Bool, not, ◌||◌, Option, none, some, [], ltb, leb, if◌then◌else◌, or_default,
}
use Prim.Native.String.{◌++◌ as append_text}
use esi_ts.Prelude.JsMap
use esi_ts.Prelude.JsMap.{JsMap}
use esi_ts.RateLimiter.{
  RateLimitGroupSpec, GroupBucket, ErrorLimitState, UserBucketSet, RateLimiter, Request,
  default_window_ms, cleanup_interval_ms, default_error_limit, create_bucket_for_group,
  create_bucket_from_spec,
}

-- `lookupGroupSpec`, from the key on.
unfoldable pub lookup_group_spec : RateLimiter → Option String → Option RateLimitGroupSpec
lookup_group_spec lim none = none
lookup_group_spec lim (some key) = elim (JsMap.get key lim.endpoint_overrides) [
  | some override ↦ some (record {
    group = append_text "endpoint:" key;
    max_tokens = override.max_tokens;
    window_size_ms = override.window_size_ms;
  })
  | none ↦ JsMap.get key lim.esi_rate_limit_groups
]

abbrev pub fresh_user_set : ℕ → UserBucketSet
fresh_user_set now = record { groups = []; error_limit = default_error_limit; last_accessed = now }

-- The user whose set a request uses, if any.
abbrev pub user_of : RateLimiter → Request → Option String
user_of lim req = if lim.per_user then req.user else none

-- The set of a user, as `resolveUserSet` finds or creates it.
abbrev pub user_set : RateLimiter → ℕ → String → UserBucketSet
user_set lim now user = record (or_default (JsMap.get user lim.user_buckets) (fresh_user_set now)) {
  last_accessed = now;
}

abbrev pub put_user_set : RateLimiter → String → UserBucketSet → RateLimiter
put_user_set lim user set = record lim { user_buckets = JsMap.set user set lim.user_buckets }

-- `resolveUserSet`; what it returns is read at the user's key.
unfoldable pub resolve_user_set : RateLimiter → ℕ → Option String → RateLimiter
resolve_user_set lim now none = lim
resolve_user_set lim now (some user) = put_user_set lim user (user_set lim now user)

abbrev pub error_limit_in : RateLimiter → Option String → Option ErrorLimitState
error_limit_in lim none = some lim.global_error_limit
error_limit_in lim (some user) = elim (JsMap.get user lim.user_buckets) [
  | none ↦ none
  | some set ↦ some set.error_limit
]

-- The state that `resolveErrorLimit` returns.
unfoldable pub error_limit_of : RateLimiter → Request → ErrorLimitState
error_limit_of lim req = or_default (error_limit_in lim (user_of lim req)) default_error_limit

unfoldable pub put_error_limit : RateLimiter → ℕ → Option String → ErrorLimitState → RateLimiter
put_error_limit lim now none limit = record lim { global_error_limit = limit }
put_error_limit lim now (some user) limit =
    put_user_set lim user (record (user_set lim now user) { error_limit = limit })

-- Where a bucket is kept: `fallbackBucket`, `defaultBuckets`, or the set of a user.
pub data Place : Type 0 where
  fallback : Place
  in_default : String → Place
  in_user : String → String → Place

abbrev pub group_in : Option UserBucketSet → String → Option GroupBucket
group_in none group = none
group_in (some set) group = JsMap.get group set.groups

unfoldable pub find_bucket : RateLimiter → Place → Option GroupBucket
find_bucket lim fallback = some lim.fallback_bucket
find_bucket lim (in_default group) = JsMap.get group lim.default_buckets
find_bucket lim (in_user user group) = group_in (JsMap.get user lim.user_buckets) group

-- A bucket object is changed in its place.
unfoldable pub put_bucket : RateLimiter → ℕ → Place → GroupBucket → RateLimiter
put_bucket lim now fallback bucket = record lim { fallback_bucket = bucket }
put_bucket lim now (in_default group) bucket = record lim {
  default_buckets = JsMap.set group bucket lim.default_buckets;
}
put_bucket lim now (in_user user group) bucket =
    let set = user_set lim now user in
    put_user_set lim user (record set { groups = JsMap.set group bucket set.groups })

abbrev pub place_in : Option String → Option String → Place
place_in user none = fallback
place_in none (some group) = in_default group
place_in (some user) (some group) = in_user user group

abbrev spec_group : Option RateLimitGroupSpec → Option String
spec_group none = none
spec_group (some spec) = some spec.group

-- `groupNameOverride ?? spec?.group`.
abbrev pub group_name : RateLimiter → Request → Option String → Option String
group_name lim req (some group) = some group
group_name lim req none = spec_group (lookup_group_spec lim req.endpoint)

abbrev pub place_of : RateLimiter → Request → Option String → Place
place_of lim req override = place_in (user_of lim req) (group_name lim req override)

abbrev pub place_group : Place → String
place_group fallback = "__fallback__"
place_group (in_default group) = group
place_group (in_user user group) = group

abbrev pub new_bucket : Option RateLimitGroupSpec → Place → GroupBucket
new_bucket (some spec) place = create_bucket_from_spec spec
new_bucket none place = create_bucket_for_group (place_group place)

-- The bucket that `getBucket` finds or creates.
unfoldable pub bucket_of : RateLimiter → Request → Option String → GroupBucket
bucket_of lim req override =
    let place = place_of lim req override in
    or_default (find_bucket lim place) (new_bucket (lookup_group_spec lim req.endpoint) place)

-- `getBucket`, as far as it changes the limiter.
unfoldable pub get_bucket : RateLimiter → ℕ → Request → Option String → RateLimiter
get_bucket lim now req override =
    let lim' = resolve_user_set lim now (user_of lim req) in
    put_bucket lim' now (place_of lim' req override) (bucket_of lim' req override)

-- `cleanupStaleUsers`.
abbrev recently_used : ℕ → String → UserBucketSet → Bool
recently_used now user set = leb (now - set.last_accessed) default_window_ms

unfoldable pub cleanup_stale_users : RateLimiter → ℕ → RateLimiter
cleanup_stale_users lim now =
    if not lim.per_user || ltb (now - lim.last_cleanup) cleanup_interval_ms
    then lim
    else record lim {
      user_buckets = JsMap.keep (recently_used now) lim.user_buckets;
      last_cleanup = now;
    }
