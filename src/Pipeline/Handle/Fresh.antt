-- ===== src/Pipeline/Handle/Fresh.antt =====
-- How a read is answered after a write to its path, and how it is when the cache is fresh.
use esi_ts.Prelude.{
  ℕ, String, ◌≡◌, refl, sym, ap, ◌∙◌, Bool, true, false, not, ◌&&◌, Option, none, some, arith,
  if◌then◌else◌, some_inj, List,
}
use mathlib.Core.Path.{subst}
use esi_ts.Prelude.Text.{includes}
use esi_ts.Prelude.Text.Parts.{includes-append}
use esi_ts.Prelude.JsMap
use esi_ts.Prelude.JsMap.{JsMap, Distinct}
use esi_ts.Prelude.JsMap.Every.{IfSome}
use esi_ts.CacheKey.{◌<>◌, build_cache_key}
use esi_ts.Cache.Etag as Etag
use esi_ts.Cache.Etag.{EtagCacheManager}
use esi_ts.Cache.Etag.Lookup.{get-delete_by_path}
use esi_ts.Dedup.{RequestDeduplicator, Event, detach_by_path, dedupe}
use esi_ts.Pipeline.{Body, Given, Client, Call}
use esi_ts.Pipeline.CachePolicy.{
  is_get, found, touched, cache_key, url_of, path_of, spec_ttl_for, spec_hit, serve_within,
  invalidate_after_write, drop_path, detach, try_spec_aware_cache_hit,
}
use esi_ts.Pipeline.Handle.{
  Route, served, joined, way_of, share, dispatch, dedupe_key, after_lookup, route,
}
use esi_ts.Pipeline.Handle.Later.{
  includes-scope, includes-dedupe_key, is_older, next_request, after_events, route-Later,
  events-Later, invalidated-requests,
}

-- Whether no earlier request answers.
abbrev pub is_new : {D : Type 0} → Route D → Bool
is_new (served r) = false
is_new (joined n) = false
is_new _ = true

-- No key occurs twice in the maps of a client.
pub record Tidy {D : Type 0} (c : Client D) : Type 0 where
  pub entries : IfSome (λ cache. Distinct cache.cache) c.cache
  pub requests : IfSome (λ d. Distinct d.inflight) c.deduplicator

of_some : {A : Type 0} (P : A → Type 0) (o : Option A) → IfSome P o → (a : A) → o ≡ some a → P a
of_some P none h a e = cc
of_some P (some b) h a e = subst P (some_inj e) h

module _ {D : Type 0} where
  found-dropped :
      (c : Client D) (path key : String) (now : ℕ) (o : Option (EtagCacheManager (Body D)))
      → c.cache ≡ o
      → ((cache : EtagCacheManager (Body D)) → o ≡ some cache → Distinct cache.cache)
      → includes key path ≡ true
      → found now key (drop_path c path o).cache ≡ none
  unfolding drop_path
  found-dropped c path key now none e d h = ap (found now key) e
  found-dropped c path key now (some cache) e d h =
      get-delete_by_path cache path now key (d cache refl)
      ∙ ap (λ b. if b then none else (Etag.get cache now key).1) h

kept_out :
    (v : Option ℕ) (hit : Bool)
    → hit ≡ true
    → elim v [ none ↦ none | some n ↦ if not hit then some n else none ] ≡ none
kept_out v hit h = ground arith

detached-get :
    (d : RequestDeduplicator) (path key : String)
    → Distinct d.inflight
    → includes key path ≡ true
    → JsMap.get key (detach_by_path d path).0.inflight ≡ none
unfolding detach_by_path
detached-get d path key u h =
    JsMap.get-keep (λ k r. not (includes k path)) key d.inflight u ∙ kept_out _ _ h

detach-gone :
    (e : Option RequestDeduplicator) (path key : String)
    → ((d : RequestDeduplicator) → e ≡ some d → Distinct d.inflight)
    → includes key path ≡ true
    → (d : RequestDeduplicator) → detach e path ≡ some d
    → JsMap.get key d.inflight ≡ none
unfolding detach
detach-gone none path key u h d q = cc
detach-gone (some d0) path key u h d q =
    ap (λ x. JsMap.get key x.inflight) (sym (some_inj q)) ∙ detached-get d0 path key (u d0 refl) h

module _ {D : Type 0} (g : Given) (call : Call) where
  share-new :
      (c : Client D) (shareable : Bool) (key : String) (o : Option RequestDeduplicator)
      → ((d : RequestDeduplicator) → o ≡ some d → JsMap.get key d.inflight ≡ none)
      → is_new (share c shareable key o).1 ≡ true
  unfolding share
  share-new c shareable key none h = refl
  share-new c false key (some d) h = refl
  share-new c true key (some d) h = ap (λ v. is_new (way_of {D = D} v (dedupe d key).1)) (h d refl)

  abbrev here : Client D → String
  here c = cache_key g c (url_of c call.endpoint) call.requires_auth none

  -- No entry answers, and nothing in flight may be joined.
  record Unseen (c : Client D) (now : ℕ) : Type 0 where
    no_entry : found now (here c) c.cache ≡ none
    no_request :
        (d : RequestDeduplicator)
        → c.deduplicator ≡ some d
        → JsMap.get (dedupe_key g call c) d.inflight ≡ none

  dispatch-new : (c : Client D) (now : ℕ) → Unseen c now → is_new (dispatch g call c).1 ≡ true
  unfolding dispatch
  dispatch-new c now u =
      share-new c (is_get call.method && not call.has_body) (dedupe_key g call c) c.deduplicator
        u.no_request

  -- A lookup that finds nothing leaves what the dispatch reads.
  touched-new :
      (c : Client D) (now : ℕ) (key : String) (o : Option (EtagCacheManager (Body D)))
      → Unseen c now
      → is_new (dispatch g call (touched c now key o)).1 ≡ true
  unfolding dispatch
  touched-new c now key none u = unfold dispatch in dispatch-new c now u
  touched-new c now key (some cache) u =
      share-new (touched c now key (some cache)) _ _ _ u.no_request

  lookup-new :
      (c : Client D) (now : ℕ) (ttl : Option ℕ)
      → Unseen c now
      → is_new (after_lookup g call (serve_within g c now (here c) ttl)).1 ≡ true
  unfolding after_lookup serve_within spec_hit
  lookup-new c now none u = dispatch-new c now u
  lookup-new c now (some ttl) u =
      ap (λ e. is_new (after_lookup g call (touched c now (here c) c.cache, spec_hit now ttl e)).1)
        u.no_entry
      ∙ touched-new c now (here c) c.cache u

  route-new :
      (c : Client D) (now : ℕ) (attempted : Bool)
      → Unseen c now
      → is_new (route g call c now attempted).1 ≡ true
  unfolding route try_spec_aware_cache_hit
  route-new c now false u = dispatch-new c now u
  route-new c now true u = lookup-new c now (spec_ttl_for g call.method call.template_path) u

  includes-here :
      (c : Client D) (path : String)
      → includes call.endpoint path ≡ true
      → includes (here c) path ≡ true
  unfolding build_cache_key
  includes-here c path h =
      let url : includes (url_of c call.endpoint) path ≡ true =
        includes-append c.keys.link ("/" <> call.endpoint) path
          (includes-append "/" call.endpoint path h) in
      includes-scope c.keys (url_of c call.endpoint) path _ url

  dropped-Unseen :
      (c : Client D) (now : ℕ) (path : String) (o : Option (EtagCacheManager (Body D)))
      → c.cache ≡ o
      → ((cache : EtagCacheManager (Body D)) → c.cache ≡ some cache → Distinct cache.cache)
      → includes call.endpoint path ≡ true
      → ((d : RequestDeduplicator)
          → c.deduplicator ≡ some d
          → JsMap.get (dedupe_key g call c) d.inflight ≡ none)
      → Unseen (drop_path c path o) now
  unfolding drop_path
  dropped-Unseen c now path none p u h gone = record {
    no_entry = ap (found now (here c)) p;
    no_request = gone;
  }
  dropped-Unseen c now path (some cache) p u h gone = record {
    no_entry =
        unfold drop_path in
        found-dropped c path (here c) now (some cache) p (λ cache' q. u cache' (p ∙ q))
          (includes-here c path h);
    no_request = gone;
  }

  serve_within-none :
      (c : Client D) (now : ℕ) (ttl : Option ℕ)
      → Unseen c now
      → (serve_within g c now (here c) ttl).1 ≡ none
  unfolding serve_within spec_hit
  serve_within-none c now none u = refl
  serve_within-none c now (some ttl) u = ap (spec_hit now ttl) u.no_entry

  lookup-none :
      (c : Client D) (now : ℕ)
      → Unseen c now
      → (try_spec_aware_cache_hit g c now (url_of c call.endpoint) call).1 ≡ none
  unfolding try_spec_aware_cache_hit
  lookup-none c now u = serve_within-none c now (spec_ttl_for g call.method call.template_path) u

  invalidated-Unseen :
      (c : Client D) (now : ℕ) (method endpoint : String)
      → Tidy c
      → is_get method ≡ false
      → includes call.endpoint (path_of endpoint) ≡ true
      → Unseen (invalidate_after_write c method endpoint) now
  unfolding invalidate_after_write
  invalidated-Unseen c now method endpoint tidy m h =
      let path = path_of endpoint in
      let c1 : Client D = record c { deduplicator = detach c.deduplicator path } in
      rw m (
        dropped-Unseen c1 now path c.cache refl (of_some _ _ tidy.entries) h (
          detach-gone c.deduplicator path (dedupe_key g call c) (of_some _ _ tidy.requests)
            (includes-dedupe_key g call c path h)))

-- After a successful write, a call whose endpoint contains the path of the write finds nothing in
-- the cache as the write leaves it, and an operation on that client, a first or a repeated one,
-- starts a request of its own. Later, whatever else has become of the client, of its cache and of its
-- identity, and whatever calls, settlings, detachments and clearings the deduplicator has seen, an
-- operation joins no request that was started before the write. The maps of the client must hold no
-- key twice.
pub write_then_read :
    {D : Type 0} (g : Given) (call : Call) (c later : Client D) (now t : ℕ)
    (method endpoint : String) (attempted : Bool) (evs : List Event)
    → Tidy c
    → is_get method ≡ false
    → includes call.endpoint (path_of endpoint) ≡ true
    → (let after = invalidate_after_write c method endpoint in
        ((try_spec_aware_cache_hit g after now (url_of after call.endpoint) call).1 ≡ none)
        × (is_new (route g call after now attempted).1 ≡ true)
        × (is_older
              (next_request c.deduplicator)
              (route g call
                (record later { deduplicator = after_events after.deduplicator evs })
                t
                attempted).1
            ≡ false))
write_then_read g call c later now t method endpoint attempted evs tidy m h =
    let u = invalidated-Unseen g call c now method endpoint tidy m h in
    let after = invalidate_after_write c method endpoint in
    let later' : Client _ = record later { deduplicator = after_events after.deduplicator evs } in
    (
      lookup-none g call after now u,
      route-new g call after now attempted u,
      route-Later g call later' (next_request c.deduplicator) t attempted (
          events-Later g call later' (path_of endpoint) c.deduplicator evs tidy.requests h
            (ap (λ o. after_events o evs) (invalidated-requests g call c method endpoint m))),
    )
