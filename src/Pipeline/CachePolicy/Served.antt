-- ===== src/Pipeline/CachePolicy/Served.antt =====
-- How long a stored response is served without a request.
use esi_ts.Prelude.{
  ℕ, ◌+◌, ◌<◌, String, ◌≡◌, sym, ap, ◌∙◌, Bool, true, false, not, ◌&&◌, Option, none, some, arith,
  ltb, leb, ◌==◌, if◌then◌else◌,
}
use esi_ts.Prelude.JsMap.{JsMap}
use esi_ts.CacheKey.{truthy}
use esi_ts.Cache.{CacheEntry}
use esi_ts.Cache.Etag as Etag
use esi_ts.Cache.Etag.{EtagCacheManager, entry_of}
use esi_ts.Cache.Etag.Lookup.{lookup-set_self}
use esi_ts.Pipeline.{Body, Given, Client, Call}
use esi_ts.Pipeline.Headers.{ParsedHeaders, lookup_spec_ttl, parse_cache_control_ttl}
use esi_ts.Pipeline.CachePolicy.{
  is_get, truthy_number, stale_retention_ms, spec_ttl_for, spec_freshness, storage_ttl, either,
  retention_ttl, spec_response, spec_hit, set_cache, serve_within, try_spec_aware_cache_hit,
  cache_key,
}
use esi_ts.Pipeline.CachePolicy.Writes.{with_response}

-- A lifetime that decides on a hit is positive, and is the one that a response is stored with.
ttl-freshness :
    (b : Bool) (o : Option ℕ) (ttl : ℕ)
    → (if b then truthy_number o else none) ≡ some ttl
    → (o ≡ some ttl) × (0 < ttl)
ttl-freshness false o ttl h = cc
ttl-freshness true none ttl h = cc
ttl-freshness true (some n) ttl h = ground arith

module _ (g : Given) (call : Call) (ttl : ℕ) where
  path-freshness :
      (o : Option String)
      → elim o [
        | none ↦ none
        | some path ↦
            if is_get call.method
            then truthy_number (lookup_spec_ttl g.spec_seconds call.method path)
            else none
      ]
        ≡ some ttl
      → (elim o [ none ↦ none | some path ↦ lookup_spec_ttl g.spec_seconds call.method path ]
          ≡ some ttl)
        × (0 < ttl)
  path-freshness none h = cc
  path-freshness (some path) h =
      ttl-freshness (is_get call.method) (lookup_spec_ttl g.spec_seconds call.method path) ttl h

  storage_ttl-spec :
      (raw : JsMap String)
      → spec_ttl_for g call.method call.template_path ≡ some ttl
      → (storage_ttl g call raw ≡ some (ttl + stale_retention_ms)) × (0 < ttl)
  unfolding storage_ttl spec_freshness spec_ttl_for
  storage_ttl-spec raw h =
      let (e, p) = path-freshness (truthy call.template_path) h in
      (ap (λ o. retention_ttl (either o (parse_cache_control_ttl raw))) e, p)

-- The entry that a response of this body is stored as.
abbrev pub stored_as : {D : Type 0} → ℕ → String → Body D → JsMap String → ℕ → CacheEntry (Body D)
stored_as now etag body raw ttl = record {
  etag = etag;
  body = body;
  headers = raw;
  timestamp = now;
  ttl = some ttl;
}

module _ {D : Type 0} where
  -- While the entry is fresh it is found; afterwards the lifetime is over as well.
  within_retention :
      (t ttl : ℕ) (entry : CacheEntry (Body D))
      → spec_hit t ttl (
          if not (ttl + stale_retention_ms == 0)
            && ltb (ttl + stale_retention_ms + entry.timestamp) t
          then none
          else some entry)
        ≡ (if leb entry.timestamp t && ltb t (ttl + entry.timestamp)
            then some (spec_response entry)
            else none)
  unfolding spec_hit
  within_retention t ttl entry = ground arith

-- A stored response to a GET whose template path has a lifetime in the specification is served
-- from the cache, with its body and its headers, exactly from the time at which it was stored until
-- that lifetime is over, to every call whose lookup has the same key and the same lifetime in the
-- specification; before and after, that lookup answers nothing.
pub served_while_fresh :
    {D : Type 0} (g : Given) (call reader : Call) (parsed : ParsedHeaders) (body : Body D)
    (now t ttl : ℕ) (url url' etag : String) (header : Option String) (d : Client D)
    (cache : EtagCacheManager (Body D))
    → spec_ttl_for g call.method call.template_path ≡ some ttl
    → spec_ttl_for g reader.method reader.template_path ≡ some ttl
    → cache_key g d url call.requires_auth header ≡ cache_key g d url' reader.requires_auth none
    → (try_spec_aware_cache_hit g
        (with_response g call parsed body now url etag header d cache)
        t
        url'
        reader).1
      ≡ (if leb now t && ltb t (ttl + now)
          then some (spec_response (stored_as now etag body parsed.raw (ttl + stale_retention_ms)))
          else none)
unfolding try_spec_aware_cache_hit serve_within
served_while_fresh g call reader parsed body now t ttl url url' etag header d cache h r same =
    let key = cache_key g d url call.requires_auth header in
    let stored = storage_ttl-spec g call ttl parsed.raw h in
    let kept = Etag.set cache now key etag body parsed.raw (storage_ttl g call parsed.raw) in
    ap
      (λ o.
        (serve_within g (set_cache d kept) t (cache_key g d url' reader.requires_auth none) o).1)
      r
    ∙ ap (λ k. spec_hit t ttl (Etag.get kept t k).1) (sym same)
    ∙ ap (λ o. spec_hit t ttl (Etag.get (Etag.set cache now key etag body parsed.raw o) t key).1)
        stored.0
    ∙ ap (spec_hit t ttl)
        (lookup-set_self cache now t key etag body parsed.raw (some (ttl + stale_retention_ms)))
    ∙ within_retention t ttl (stored_as now etag body parsed.raw (ttl + stale_retention_ms))
