-- ===== src/Pipeline/Request/Ends.antt =====
-- A request is repeated at most once: the repeated one finds no entry to revalidate.
use esi_ts.Prelude.{
  ℕ, ◌+◌, ◌≤◌, String, ◌≡◌, refl, sym, ap, ◌∙◌, Bool, true, false, ◌&&◌, Option, none, some, inl,
  inr, arith, if◌then◌else◌, Bool-cases,
}
use mathlib.Core.Path.{subst}
use esi_ts.Prelude.JsMap
use esi_ts.CacheKey.{◌<>◌, build_cache_key}
use esi_ts.Errors.{Result, ok, err}
use esi_ts.Cache.{CacheEntry}
use esi_ts.Cache.Etag as Etag
use esi_ts.Cache.Etag.{EtagCacheManager, found_fresh, is_expired}
use esi_ts.Cache.Etag.Lookup.{is_expired_later}
use esi_ts.Pipeline.{Body, Given, Client, Call}
use esi_ts.Pipeline.CachePolicy.{
  is_get, url_of, current_write_generation, path_of, has_entry, has_cached_entry,
  invalidate_after_write, drop_path,
}
use esi_ts.Pipeline.Fetch.{RawFetchResult, execute_single_fetch}
use esi_ts.Pipeline.Fetch.Steady.{Steady, OwnKey, single_fetch-OwnKey}
use esi_ts.Pipeline.Request.{
  Trip, Stage, done, again, Answer, stage_of, is_orphaned, is_bodiless, early_return, on_status,
  on_response, revalidates, attempt, rethrown, settle_stage, execute_request,
}

module _ {D : Type 0} where
  entry_out :
      (now t : ℕ) (e : Option (CacheEntry (Body D)))
      → now ≤ t
      → found_fresh now e ≡ false
      → found_fresh t e ≡ false
  unfolding found_fresh
  entry_out now t none le h = refl
  entry_out now t (some entry) le h = ground (arith, is_expired_later now t entry le)

  -- What is not in the cache, or has expired, stays so.
  stays_out :
      (now t : ℕ) (key : String) (o : Option (EtagCacheManager (Body D)))
      → now ≤ t
      → has_entry o now key ≡ false
      → has_entry o t key ≡ false
  unfolding Etag.has
  stays_out now t key none le h = refl
  stays_out now t key (some cache) le h = entry_out now t (JsMap.get key cache.cache) le h

  dropped-keys :
      (c : Client D) (path : String) (o : Option (EtagCacheManager (Body D)))
      → (drop_path c path o).keys ≡ c.keys
  unfolding drop_path
  dropped-keys c path none = refl
  dropped-keys c path (some cache) = refl

  invalidated-keys :
      (c : Client D) (method endpoint : String)
      → (invalidate_after_write c method endpoint).keys ≡ c.keys
  unfolding invalidate_after_write
  invalidated-keys c method endpoint = elim (Bool-cases (is_get method)) [
    | inl e ↦ rw e refl
    | inr e ↦ rw e (dropped-keys _ (path_of endpoint) c.cache)
  ]

  if-keys : (b : Bool) (x y : Client D) → x.keys ≡ y.keys → (if b then x else y).keys ≡ y.keys
  if-keys true x y h = h
  if-keys false x y h = refl

module _ {D : Type 0} (g : Given) (call : Call) where
  own-transport :
      (c d : Client D) (raw : RawFetchResult D)
      → d.keys ≡ c.keys
      → OwnKey g call (c, ok raw)
      → OwnKey g call (d, ok raw)
  unfolding OwnKey
  own-transport c d raw e h =
      subst
        (λ k.
          build_cache_key g.caller_identity g.hashed_identity raw.url k call.requires_auth
            raw.authorization
          ≡ build_cache_key g.caller_identity g.hashed_identity (k.link <> "/" <> call.endpoint) k
              call.requires_auth none)
        (sym e) h

-- A repetition is asked for only when the client's own entry is gone.
RepeatsWithout : {D : Type 0} → Given → Trip D → Call → Client D × Result (Stage D) → Type 0
RepeatsWithout g t call (c, ok again) =
    has_cached_entry g c t.flight.replied_at (url_of c call.endpoint) call.requires_auth none
    ≡ false
RepeatsWithout g t call (c, _) = Unit

-- No repetition is asked for.
Final : {D : Type 0} → Client D × Result (Stage D) → Type 0
Final (c, ok again) = ⊥
Final (c, _) = Unit

-- There is an answer.
pub IsAnswered : {D : Type 0} → Option (Answer D) → Type 0
IsAnswered none = ⊥
IsAnswered (some a) = Unit

module _ {D : Type 0} where
  stage-Final : (a : Answer D) → Final (stage_of a)
  unfolding Final
  stage-Final (c, err e) = tt
  stage-Final (c, ok r) = tt

module _ {D : Type 0} (g : Given) (t : Trip D) (call : Call) where
  stage-RepeatsWithout : (a : Answer D) → RepeatsWithout g t call (stage_of a)
  unfolding RepeatsWithout
  stage-RepeatsWithout (c, err e) = tt
  stage-RepeatsWithout (c, ok r) = tt

  orphan-out :
      (c : Client D) (raw : RawFetchResult D) (asked : Bool)
      → is_orphaned g t call c raw asked ≡ true
      → has_cached_entry g c t.flight.replied_at raw.url call.requires_auth raw.authorization
        ≡ false
  unfolding is_orphaned
  orphan-out c raw asked h = ground arith

  orphan-own :
      (c : Client D) (raw : RawFetchResult D) (asked : Bool)
      → OwnKey g call (c, ok raw)
      → is_orphaned g t call c raw asked ≡ true
      → has_cached_entry g c t.flight.replied_at (url_of c call.endpoint) call.requires_auth none
        ≡ false
  unfolding OwnKey has_cached_entry
  orphan-own c raw asked own h =
      ap (has_entry c.cache t.flight.replied_at) (sym own) ∙ orphan-out c raw asked h

  return-RepeatsWithout :
      (c : Client D) (raw : RawFetchResult D) (sent_at : ℕ) (created empty orphaned : Bool)
      → (orphaned ≡ true
          → has_cached_entry g c t.flight.replied_at
              (url_of c call.endpoint)
              call.requires_auth
              none
            ≡ false)
      → RepeatsWithout g t call (early_return g t call c raw sent_at created empty orphaned)
  unfolding early_return RepeatsWithout
  return-RepeatsWithout c raw sent_at true empty orphaned h = tt
  return-RepeatsWithout c raw sent_at false true orphaned h = tt
  return-RepeatsWithout c raw sent_at false false true h = h refl
  return-RepeatsWithout c raw sent_at false false false h = stage-RepeatsWithout _

  return-Final :
      (c : Client D) (raw : RawFetchResult D) (sent_at : ℕ) (created empty orphaned : Bool)
      → orphaned ≡ false
      → Final (early_return g t call c raw sent_at created empty orphaned)
  unfolding early_return Final
  return-Final c raw sent_at true empty orphaned h = tt
  return-Final c raw sent_at false true orphaned h = tt
  return-Final c raw sent_at false false true h = cc
  return-Final c raw sent_at false false false h = stage-Final _

  status-RepeatsWithout :
      (c : Client D) (raw : RawFetchResult D) (sent_at : ℕ) (asked : Bool)
      → OwnKey g call (c, ok raw)
      → RepeatsWithout g t call (on_status g t call c raw sent_at asked)
  unfolding on_status
  status-RepeatsWithout c raw sent_at asked own =
      return-RepeatsWithout c raw sent_at _ _ (is_orphaned g t call c raw asked)
        (orphan-own c raw asked own)

  not_asked : (c : Client D) (raw : RawFetchResult D) → is_orphaned g t call c raw false ≡ false
  unfolding is_orphaned
  not_asked c raw = ground arith

  status-Final :
      (c : Client D) (raw : RawFetchResult D) (sent_at : ℕ)
      → Final (on_status g t call c raw sent_at false)
  unfolding on_status
  status-Final c raw sent_at = return-Final c raw sent_at _ _ _ (not_asked c raw)

  response-RepeatsWithout :
      (sent_at : ℕ) (asked : Bool) (a : Client D × Result (RawFetchResult D))
      → OwnKey g call a
      → RepeatsWithout g t call (on_response g t call sent_at asked a)
  unfolding on_response
  response-RepeatsWithout sent_at asked (c, err e) own = unfold RepeatsWithout in tt
  response-RepeatsWithout sent_at asked (c, ok raw) own =
      status-RepeatsWithout _ raw sent_at asked (
        own-transport g call c _ raw
          (if-keys (is_bodiless raw.response.status) _ c
            (invalidated-keys c call.method call.endpoint))
          own)

  response-Final :
      (sent_at : ℕ) (a : Client D × Result (RawFetchResult D))
      → Final (on_response g t call sent_at false a)
  unfolding on_response
  response-Final sent_at (c, err e) = unfold Final in tt
  response-Final sent_at (c, ok raw) = status-Final _ raw sent_at

  attempt-Final : (c : Client D) → revalidates g t call c ≡ false → Final (attempt g t call c)
  unfolding attempt
  attempt-Final c h =
      subst
        (λ b. Final (
          on_response g t call (current_write_generation c) b
            (execute_single_fetch g t.flight call c)))
        (sym h) (response-Final _ _)

  attempt-RepeatsWithout :
      Steady t.flight → (c : Client D) → RepeatsWithout g t call (attempt g t call c)
  unfolding attempt
  attempt-RepeatsWithout v c =
      response-RepeatsWithout _ _ _ (single_fetch-OwnKey g t.flight call v c)

module _ {D : Type 0} (g : Given) (trips : ℕ → Trip D) (call : Call) where
  Final-IsAnswered :
      (repeat : Client D → Option (Answer D)) (n : ℕ) (a : Client D × Result (Stage D))
      → Final a
      → IsAnswered (settle_stage g trips call repeat n a)
  unfolding settle_stage Final IsAnswered
  Final-IsAnswered repeat n (c, err e) h = tt
  Final-IsAnswered repeat n (c, ok (done r)) h = tt
  Final-IsAnswered repeat n (c, ok again) h = elim h [ ]

  rethrown-IsAnswered :
      (o : Option (Answer D)) → IsAnswered o → IsAnswered (rethrown g trips call o)
  unfolding IsAnswered
  rethrown-IsAnswered none h = h
  rethrown-IsAnswered (some (c, err e)) h = tt
  rethrown-IsAnswered (some (c, ok r)) h = tt

  repeated-IsAnswered :
      (n : ℕ) (c : Client D) (now : ℕ)
      → now ≤ (trips n).flight.built_at
      → has_cached_entry g c now (url_of c call.endpoint) call.requires_auth none ≡ false
      → IsAnswered (execute_request g trips call 1 n c)
  unfolding execute_request has_cached_entry
  repeated-IsAnswered n c now le h = Final-IsAnswered _ n _ (
      attempt-Final g (trips n) call c (
        unasked (call.use_etag) (is_get call.method)
          (stays_out now (trips n).flight.built_at _ c.cache le h)))
    where
      unasked : (a b : Bool) {e : Bool} → e ≡ false → (a && b && e) ≡ false
      unasked a b h = ground arith

  stage-IsAnswered :
      (n : ℕ) (a : Client D × Result (Stage D))
      → (trips n).flight.replied_at ≤ (trips (n + 1)).flight.built_at
      → RepeatsWithout g (trips n) call a
      → IsAnswered (settle_stage g trips call (λ c. execute_request g trips call 1 (n + 1) c) n a)
  unfolding settle_stage RepeatsWithout
  stage-IsAnswered n (c, err e) le h = unfold IsAnswered in tt
  stage-IsAnswered n (c, ok (done r)) le h = unfold IsAnswered in tt
  stage-IsAnswered n (c, ok again) le h =
      rethrown-IsAnswered _ (repeated-IsAnswered (n + 1) c (trips n).flight.replied_at le h)

  -- A request ends: if no interceptor is registered and neither the link nor the token of the
  -- client changes during its fetch, and the repetition starts no earlier than the response came,
  -- then after at most one repetition there is an answer or an error.
  pub request_ends :
      (n : ℕ) (c : Client D)
      → Steady (trips n).flight
      → (trips n).flight.replied_at ≤ (trips (n + 1)).flight.built_at
      → IsAnswered (execute_request g trips call 2 n c)
  unfolding execute_request
  request_ends n c v le =
      stage-IsAnswered n (attempt g (trips n) call c) le
        (attempt-RepeatsWithout g (trips n) call v c)
