-- ===== src/RateLimiter/Places.antt =====
-- How the changes of the limiter act on the bucket at each place.
use esi_ts.Prelude.{
  ℕ, String, ◌≡◌, refl, sym, ap, ◌∙◌, ◌≢◌, inl, inr, Bool, true, false, Option, none, some, arith,
  str_eq, eq_iff, if◌then◌else◌, or_default, Bool-cases,
}
use esi_ts.Prelude.JsMap
use esi_ts.Prelude.JsMap.{JsMap}
use esi_ts.RateLimiter.{GroupBucket, ErrorLimitState, UserBucketSet, RateLimiter}
use esi_ts.RateLimiter.Buckets.{
  fresh_user_set, user_set, put_user_set, resolve_user_set, put_error_limit, find_bucket, group_in,
  put_bucket, Place, fallback, in_default, in_user,
}

group_in-set :
    (user u g : String) (set : UserBucketSet) (m : JsMap UserBucketSet)
    → group_in (JsMap.get u (JsMap.set user set m)) g
      ≡ (if str_eq user u then JsMap.get g set.groups else group_in (JsMap.get u m) g)
group_in-set user u g set m =
    ap (λ o. group_in o g) (JsMap.get-set user u set m) ∙ by_test (str_eq user u)
  where
    by_test :
        (t : Bool)
        → group_in (if t then some set else JsMap.get u m) g
          ≡ (if t then JsMap.get g set.groups else group_in (JsMap.get u m) g)
    by_test true = refl
    by_test false = refl

group_in-fresh :
    (now : ℕ) (g : String) (o : Option UserBucketSet)
    → JsMap.get g (or_default o (fresh_user_set now)).groups ≡ group_in o g
unfolding JsMap.get
group_in-fresh now g none = refl
group_in-fresh now g (some set) = refl

find_bucket-touch :
    (lim : RateLimiter) (now : ℕ) (user : String) (p : Place)
    → find_bucket (put_user_set lim user (user_set lim now user)) p ≡ find_bucket lim p
unfolding find_bucket
find_bucket-touch lim now user fallback = refl
find_bucket-touch lim now user (in_default g) = refl
find_bucket-touch lim now user (in_user u g) =
    group_in-set user u g (user_set lim now user) lim.user_buckets
    ∙ (elim (Bool-cases (str_eq user u)) [
      | inl same ↦
          rw (same, if◌then◌else◌)
            (group_in-fresh now g (JsMap.get user lim.user_buckets)
              ∙ ap (λ k. group_in (JsMap.get k lim.user_buckets) g) ((eq_iff user u).0 same))
      | inr other ↦ rw (other, if◌then◌else◌) refl
    ])

-- Touching a user changes no bucket.
pub find_bucket-resolve :
    (lim : RateLimiter) (now : ℕ) (user : Option String) (p : Place)
    → find_bucket (resolve_user_set lim now user) p ≡ find_bucket lim p
unfolding resolve_user_set
find_bucket-resolve lim now none p = refl
find_bucket-resolve lim now (some user) p = find_bucket-touch lim now user p

-- A change of the error limit changes no bucket.
pub find_bucket-put_error_limit :
    (lim : RateLimiter) (now : ℕ) (user : Option String) (limit : ErrorLimitState) (p : Place)
    → find_bucket (put_error_limit lim now user limit) p ≡ find_bucket lim p
unfolding put_error_limit find_bucket
find_bucket-put_error_limit lim now none limit fallback = refl
find_bucket-put_error_limit lim now none limit (in_default g) = refl
find_bucket-put_error_limit lim now none limit (in_user u g) = refl
find_bucket-put_error_limit lim now (some user) limit fallback = refl
find_bucket-put_error_limit lim now (some user) limit (in_default g) = refl
find_bucket-put_error_limit lim now (some user) limit (in_user u g) =
    group_in-set user u g (record (user_set lim now user) { error_limit = limit }) lim.user_buckets
    ∙ sym (group_in-set user u g (user_set lim now user) lim.user_buckets)
    ∙ find_bucket-touch lim now user (in_user u g)

pub find_bucket-put_self :
    (lim : RateLimiter) (now : ℕ) (p : Place) (b : GroupBucket)
    → find_bucket (put_bucket lim now p b) p ≡ some b
unfolding find_bucket put_bucket
find_bucket-put_self lim now fallback b = refl
find_bucket-put_self lim now (in_default g) b = JsMap.get-set_self g b lim.default_buckets
find_bucket-put_self lim now (in_user u g) b =
    let groups = (user_set lim now u).groups in
    group_in-set u u g (record (user_set lim now u) { groups = JsMap.set g b groups })
      lim.user_buckets
    ∙ (rw ((eq_iff u u).1 refl, if◌then◌else◌) (JsMap.get-set_self g b groups))

other_group :
    (g h : String) (b : GroupBucket) (m : JsMap GroupBucket)
    → g ≢ h
    → JsMap.get h (JsMap.set g b m) ≡ JsMap.get h m
other_group g h b m n = ground (arith, JsMap.get-set g h b m, eq_iff g h)

-- A change of a bucket changes no other.
pub find_bucket-put_other :
    (lim : RateLimiter) (now : ℕ) (p q : Place) (b : GroupBucket)
    → p ≢ q
    → find_bucket (put_bucket lim now p b) q ≡ find_bucket lim q
unfolding find_bucket put_bucket
find_bucket-put_other lim now fallback fallback b n = absurd (n refl)
find_bucket-put_other lim now fallback (in_default h) b n = refl
find_bucket-put_other lim now fallback (in_user v h) b n = refl
find_bucket-put_other lim now (in_default g) fallback b n = refl
find_bucket-put_other lim now (in_default g) (in_default h) b n =
    other_group g h b lim.default_buckets (λ e. n (ap in_default e))
find_bucket-put_other lim now (in_default g) (in_user v h) b n = refl
find_bucket-put_other lim now (in_user u g) fallback b n = refl
find_bucket-put_other lim now (in_user u g) (in_default h) b n = refl
find_bucket-put_other lim now (in_user u g) (in_user v h) b n =
    let set = user_set lim now u in
    group_in-set u v h (record set { groups = JsMap.set g b set.groups }) lim.user_buckets
    ∙ (elim (Bool-cases (str_eq u v)) [
      | inl same ↦
          let e = (eq_iff u v).0 same in
          rw (same, if◌then◌else◌)
            (other_group g h b set.groups (λ f. n (λ i. in_user (e i) (f i)))
              ∙ group_in-fresh now h (JsMap.get u lim.user_buckets)
              ∙ ap (λ k. group_in (JsMap.get k lim.user_buckets) h) e)
      | inr other ↦ rw (other, if◌then◌else◌) refl
    ])
