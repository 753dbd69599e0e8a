-- ===== src/Pipeline/Handle/Later.antt =====
-- Which requests a read may join after a write to its path, whatever happens in between.
use esi_ts.Prelude.{
  ℕ, String, ◌≡◌, refl, sym, ◌∙◌, Bool, true, false, not, ◌&&◌, Option, none, some, arith, some_inj,
  List, ◌≤◌, ltb,
}
use mathlib.Core.Path.{subst}
use esi_ts.Prelude.Text.{includes}
use esi_ts.Prelude.Text.Parts.{includes-append}
use esi_ts.Prelude.JsMap
use esi_ts.Prelude.JsMap.{JsMap, Distinct}
use esi_ts.Prelude.JsMap.Every.{IfSome}
use esi_ts.CacheKey.{◌<>◌, KeyClient, build_dedupe_key, scope, scoped, variant_of}
use esi_ts.Cache.Etag.{EtagCacheManager}
use esi_ts.Dedup.{RequestDeduplicator, Event, run, dedupe}
use esi_ts.Dedup.Detached.{never_joins_older}
use esi_ts.Pipeline.{Body, Given, Client, Call, HandlerResponse}
use esi_ts.Pipeline.CachePolicy.{
  is_get, touched, path_of, spec_ttl_for, serve_within, invalidate_after_write, drop_path, detach,
  try_spec_aware_cache_hit,
}
use esi_ts.Pipeline.Handle.{Route, joined, way_of, share, dispatch, dedupe_key, after_lookup, route}

-- A key contains what the endpoint in it contains.
pub includes-scope :
    (c : KeyClient) (text part : String) (identity : Option String)
    → includes text part ≡ true
    → includes (scope c text identity) part ≡ true
unfolding scope scoped
includes-scope c text part none h = includes-append (variant_of c) text part h
includes-scope c text part (some i) h =
    includes-append (variant_of c) (i <> ":" <> text) part
      (includes-append i (":" <> text) part (includes-append ":" text part h))

-- Whether an earlier request than this number answers.
abbrev pub is_older : {D : Type 0} → ℕ → Route D → Bool
is_older first (joined n) = ltb n first
is_older first _ = false

-- The number of the next request, and a deduplicator after more events.
abbrev pub next_request : Option RequestDeduplicator → ℕ
next_request none = 0
next_request (some d) = d.started

abbrev pub after_events : Option RequestDeduplicator → List Event → Option RequestDeduplicator
after_events none evs = none
after_events (some d) evs = some (run d evs)

module _ {D : Type 0} (g : Given) (call : Call) where
  share-later :
      (c : Client D) (shareable : Bool) (key : String) (first : ℕ) (o : Option RequestDeduplicator)
      → ((d : RequestDeduplicator) → o ≡ some d → first ≤ (dedupe d key).1)
      → is_older first (share c shareable key o).1 ≡ false
  unfolding share
  share-later c shareable key first none h = refl
  share-later c false key first (some d) h = refl
  share-later c true key first (some d) h =
      way-later (JsMap.get key d.inflight) (dedupe d key).1 (h d refl)
    where
      way-later : (o : Option ℕ) (n : ℕ) → first ≤ n → is_older first (way_of {D = D} o n) ≡ false
      way-later none n le = refl
      way-later (some _) n le = ground (arith, le)

  -- No call with the key of this one is handed a request before a number.
  abbrev Later : ℕ → Client D → Type 0
  Later first c =
      (d : RequestDeduplicator)
      → c.deduplicator ≡ some d
      → first ≤ (dedupe d (dedupe_key g call c)).1

  dispatch-Later :
      (c : Client D) (first : ℕ) → Later first c → is_older first (dispatch g call c).1 ≡ false
  unfolding dispatch
  dispatch-Later c first h =
      share-later c (is_get call.method && not call.has_body) (dedupe_key g call c) first
        c.deduplicator h

  touched-Later :
      (c : Client D) (first now : ℕ) (key : String) (o : Option (EtagCacheManager (Body D)))
      → (hit : Option (HandlerResponse D)) → Later first c
      → is_older first (after_lookup g call (touched c now key o, hit)).1 ≡ false
  unfolding after_lookup
  touched-Later c first now key o (some r) h = refl
  touched-Later c first now key none none h = dispatch-Later c first h
  touched-Later c first now key (some cache) none h =
      dispatch-Later (touched c now key (some cache)) first h

  lookup-Later :
      (c : Client D) (first now : ℕ) (key : String) (ttl : Option ℕ)
      → Later first c
      → is_older first (after_lookup g call (serve_within g c now key ttl)).1 ≡ false
  unfolding serve_within
  lookup-Later c first now key none h = touched-Later c first now key none none h
  lookup-Later c first now key (some ttl) h = touched-Later c first now key c.cache _ h

  pub route-Later :
      (c : Client D) (first now : ℕ) (attempted : Bool)
      → Later first c
      → is_older first (route g call c now attempted).1 ≡ false
  unfolding route try_spec_aware_cache_hit
  route-Later c first now false h = dispatch-Later c first h
  route-Later c first now true h =
      lookup-Later c first now _ (spec_ttl_for g call.method call.template_path) h

  pub includes-dedupe_key :
      (c : Client D) (path : String)
      → includes call.endpoint path ≡ true
      → includes (dedupe_key g call c) path ≡ true
  unfolding build_dedupe_key
  includes-dedupe_key c path h = includes-scope c.keys call.endpoint path _ h

  pub events-Later :
      (c : Client D) (path : String) (o : Option RequestDeduplicator) (evs : List Event)
      → IfSome (λ d. Distinct d.inflight) o
      → includes call.endpoint path ≡ true
      → c.deduplicator ≡ after_events (detach o path) evs
      → Later (next_request o) c
  unfolding detach
  events-Later c path none evs u h e d q = cc
  events-Later c path (some d0) evs u h e d q =
      subst (λ x. d0.started ≤ (dedupe x (dedupe_key g call c)).1) (some_inj (sym e ∙ q))
        (never_joins_older d0 path (dedupe_key g call c) evs u (includes-dedupe_key c path h))

  dropped-requests :
      (path : String) (c : Client D) (o : Option (EtagCacheManager (Body D)))
      → (drop_path c path o).deduplicator ≡ c.deduplicator
  unfolding drop_path
  dropped-requests path c none = refl
  dropped-requests path c (some cache) = refl

  pub invalidated-requests :
      (c : Client D) (method endpoint : String)
      → is_get method ≡ false
      → (invalidate_after_write c method endpoint).deduplicator
        ≡ detach c.deduplicator (path_of endpoint)
  unfolding invalidate_after_write
  invalidated-requests c method endpoint m = rw m (
      dropped-requests (path_of endpoint)
        (record c { deduplicator = detach c.deduplicator (path_of endpoint) }) c.cache)
