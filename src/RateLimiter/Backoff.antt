-- ===== src/RateLimiter/Backoff.antt =====
-- What a response does to the buckets: it blocks the bucket it is about, and no other.
use esi_ts.Prelude.{
  ℕ, ◌<◌, String, ◌≡◌, refl, sym, ap, ◌∙◌, ◌≢◌, ◌⊎◌, inl, inr, Bool, true, false, Option, none,
  some, arith, if◌then◌else◌,
}
use esi_ts.RateLimiter.{GroupBucket, RateLimiter, Request, ResponseHeaders}
use esi_ts.RateLimiter.Buckets.{
  lookup_group_spec, user_of, resolve_user_set, error_limit_of, put_error_limit, find_bucket,
  put_bucket, place_of, bucket_of, get_bucket, Place, fallback, in_default, in_user,
}
use esi_ts.RateLimiter.Update.{update_bucket, update_error_limit, update_from_response, present}
use mathlib.Core.Path.{subst}
use esi_ts.RateLimiter.Places.{
  find_bucket-resolve, find_bucket-put_error_limit, find_bucket-put_self, find_bucket-put_other,
}

place_of-resolve :
    (lim : RateLimiter) (now : ℕ) (user : Option String) (req : Request) (o : Option String)
    → place_of (resolve_user_set lim now user) req o ≡ place_of lim req o
unfolding resolve_user_set lookup_group_spec
place_of-resolve lim now none req o = refl
place_of-resolve lim now (some user) req o = refl

place_of-put :
    (lim : RateLimiter) (now : ℕ) (p : Place) (b : GroupBucket) (req : Request) (o : Option String)
    → place_of (put_bucket lim now p b) req o ≡ place_of lim req o
unfolding put_bucket lookup_group_spec
place_of-put lim now fallback b req o = refl
place_of-put lim now (in_default g) b req o = refl
place_of-put lim now (in_user u g) b req o = refl

place_of-get_bucket :
    (lim : RateLimiter) (now : ℕ) (req : Request) (o : Option String)
    → place_of (get_bucket lim now req o) req o ≡ place_of lim req o
unfolding get_bucket
place_of-get_bucket lim now req o =
    let lim' = resolve_user_set lim now (user_of lim req) in
    place_of-put lim' now (place_of lim' req o) (bucket_of lim' req o) req o
    ∙ place_of-resolve lim now (user_of lim req) req o

find_bucket-get_bucket_other :
    (lim : RateLimiter) (now : ℕ) (req : Request) (o : Option String) (q : Place)
    → place_of lim req o ≢ q
    → find_bucket (get_bucket lim now req o) q ≡ find_bucket lim q
unfolding get_bucket
find_bucket-get_bucket_other lim now req o q n =
    let lim' = resolve_user_set lim now (user_of lim req) in
    find_bucket-put_other lim' now (place_of lim' req o) q (bucket_of lim' req o)
      (λ e. n (sym (place_of-resolve lim now (user_of lim req) req o) ∙ e))
    ∙ find_bucket-resolve lim now (user_of lim req) q

-- The limiter after the first part of `updateFromResponse`, which changes the bucket.
abbrev bucket_updated :
    RateLimiter → ℕ → ResponseHeaders → ℕ → Request → Option String → RateLimiter
bucket_updated lim now h status req group =
    let found = get_bucket lim now req group in
    put_bucket found now (place_of found req group)
      (update_bucket h status now (bucket_of found req group))

find_bucket-if :
    (t : Bool) (a b : RateLimiter) (q : Place)
    → find_bucket (if t then a else b) q ≡ (if t then find_bucket a q else find_bucket b q)
find_bucket-if true a b q = refl
find_bucket-if false a b q = refl

same_if : (t : Bool) (a b : Option GroupBucket) → b ≡ a → (if t then a else b) ≡ a
same_if true a b e = refl
same_if false a b e = e

second_if : (t : Bool) (a b : Option GroupBucket) → t ≡ false → (if t then a else b) ≡ b
second_if t a b h = rw h refl

-- The rest changes no bucket.
update_from_response-find_bucket :
    (lim : RateLimiter) (now : ℕ) (h : ResponseHeaders) (status : ℕ) (req : Request) (q : Place)
    → find_bucket (update_from_response lim now h status req) q ≡ (
        if lim.is_test_mode
        then find_bucket lim q
        else find_bucket (bucket_updated lim now h status req (present h.group)) q)
unfolding update_from_response
update_from_response-find_bucket lim now h status req q =
    let lim' = bucket_updated lim now h status req (present h.group) in
    let lim'' = resolve_user_set lim' now (user_of lim' req) in
    let limit = update_error_limit h now (error_limit_of lim'' req) in
    find_bucket-if lim.is_test_mode lim (put_error_limit lim'' now (user_of lim'' req) limit) q
    ∙ ap (λ o. if lim.is_test_mode then find_bucket lim q else o)
        (find_bucket-put_error_limit lim'' now (user_of lim'' req) limit q
          ∙ find_bucket-resolve lim' now (user_of lim' req) q)

update_bucket-blocks :
    (h : ResponseHeaders) (status now : ℕ) (b : GroupBucket)
    → (status ≡ 420) ⊎ (status ≡ 429)
    → now < (update_bucket h status now b).blocked_until
unfolding update_bucket
update_bucket-blocks h status now b limited = elim limited [
  | inl e ↦ ground (arith, e)
  | inr e ↦ ground (arith, e)
]

-- A response with status 420 or 429 leaves the bucket of its request, or of the group it names,
-- blocked, whatever its Retry-After header says.
pub limited_response_blocks :
    (lim : RateLimiter) (now : ℕ) (h : ResponseHeaders) (status : ℕ) (req : Request)
    → lim.is_test_mode ≡ false
    → (status ≡ 420) ⊎ (status ≡ 429)
    → (b : GroupBucket) × (find_bucket
          (update_from_response lim now h status req)
          (place_of lim req (present h.group))
        ≡ some b)
      × (now < b.blocked_until)
limited_response_blocks lim now h status req live limited =
    let group = present h.group in
    let found = get_bucket lim now req group in
    let b = update_bucket h status now (bucket_of found req group) in
    let p = place_of lim req group in
    (
      b,
      update_from_response-find_bucket lim now h status req p
          ∙ second_if lim.is_test_mode _ _ live
          ∙ subst (λ q. find_bucket (put_bucket found now (place_of found req group) b) q ≡ some b)
              (place_of-get_bucket lim now req group)
              (find_bucket-put_self found now (place_of found req group) b),
      update_bucket-blocks h status now (bucket_of found req group) limited,
    )

-- A response changes no bucket but that of its request, or of the group it names: neither another
-- group nor another user's bucket of the same group.
pub response_isolation :
    (lim : RateLimiter) (now : ℕ) (h : ResponseHeaders) (status : ℕ) (req : Request) (q : Place)
    → place_of lim req (present h.group) ≢ q
    → find_bucket (update_from_response lim now h status req) q ≡ find_bucket lim q
response_isolation lim now h status req q n =
    let group = present h.group in
    let found = get_bucket lim now req group in
    update_from_response-find_bucket lim now h status req q
    ∙ same_if lim.is_test_mode _ _ (
        find_bucket-put_other found now (place_of found req group) q
          (update_bucket h status now (bucket_of found req group))
          (λ e. n (sym (place_of-get_bucket lim now req group) ∙ e))
        ∙ find_bucket-get_bucket_other lim now req group q n)
