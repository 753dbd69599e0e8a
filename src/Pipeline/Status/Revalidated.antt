-- ===== src/Pipeline/Status/Revalidated.antt =====
-- What a 304 answers, and what it leaves in the cache.
use esi_ts.Prelude.{
  ℕ, ◌+◌, String, ◌≡◌, refl, ap, ◌∙◌, true, not, ◌&&◌, Option, none, some, arith, ltb, ◌==◌,
  if◌then◌else◌, or_default, Bool-cases, inl, inr,
}
use esi_ts.Prelude.JsMap
use esi_ts.Prelude.JsMap.{JsMap}
use esi_ts.Errors.{esi, ok, err}
use esi_ts.Cache.{CacheEntry}
use esi_ts.Cache.Etag as Etag
use esi_ts.Cache.Etag.{EtagCacheManager}
use esi_ts.Cache.Etag.Lookup.{lookup-set_self}
use esi_ts.Pipeline.{Body, Given, Client, Call}
use esi_ts.Pipeline.Headers.{ParsedHeaders}
use esi_ts.Pipeline.CachePolicy.{spread, found, touched, cache_get, cache_key}
use esi_ts.Pipeline.Status.{
  revalidated_headers, revalidated, store_again, answer_304, handle_early_status,
}

module _ {D : Type 0} where
  -- The entry, dated anew.
  abbrev pub renewed : ℕ → ℕ → CacheEntry (Body D) → ParsedHeaders → CacheEntry (Body D)
  renewed now default_ttl entry parsed = record {
    etag = entry.etag;
    body = entry.body;
    headers = revalidated_headers entry parsed;
    timestamp = now;
    ttl = some (or_default entry.ttl default_ttl);
  }

  get-revalidated_headers :
      (entry : CacheEntry (Body D)) (parsed : ParsedHeaders)
      → JsMap.get "etag" (revalidated_headers entry parsed) ≡ (
          if JsMap.has "etag" parsed.raw
          then some entry.etag
          else JsMap.get "etag" (spread entry.headers parsed.raw))
  unfolding revalidated_headers
  get-revalidated_headers entry parsed = elim (Bool-cases (JsMap.has "etag" parsed.raw)) [
    | inl e ↦ rw e (JsMap.get-set_self "etag" entry.etag _)
    | inr e ↦ rw e refl
  ]

  again-found :
      (c : Client D) (now t : ℕ) (key : String) (parsed : ParsedHeaders)
      (entry : CacheEntry (Body D)) (cache : EtagCacheManager (Body D))
      → found t key (store_again c now key parsed entry (some cache)).cache ≡ (
          let ttl = or_default entry.ttl cache.default_ttl in
          if not (ttl == 0) && ltb (ttl + now) t
          then none
          else some (renewed now cache.default_ttl entry parsed))
  again-found c now t key parsed entry cache =
      lookup-set_self cache now t key entry.etag entry.body (revalidated_headers entry parsed)
        entry.ttl

  found-default :
      (now : ℕ) (key : String) (cache : EtagCacheManager (Body D))
      → (Etag.get cache now key).0.default_ttl ≡ cache.default_ttl
  unfolding Etag.get
  found-default now key cache = ground arith

-- A 304 to a request that uses ETags, for a key under which the cache has an entry at that time,
-- answers with the body of the entry; if the response carries an ETag, the answer's ETag is that of
-- the entry and not the response's. The entry is stored again as of now, so that it is found
-- until its lifetime from now on is over.
pub not_modified_renews :
    {D : Type 0} (g : Given) (c : Client D) (now t : ℕ) (url : String) (parsed : ParsedHeaders)
    (call : Call) (header : Option String) (cache : EtagCacheManager (Body D))
    (entry : CacheEntry (Body D))
    → call.use_etag ≡ true
    → c.cache ≡ some cache
    → found now (cache_key g c url call.requires_auth header) (some cache) ≡ some entry
    → (let a = handle_early_status g c now 304 url parsed call header in
        let ttl = or_default entry.ttl cache.default_ttl in
        (a.1 ≡ ok (some (revalidated entry parsed)))
        × (JsMap.get "etag" (revalidated_headers entry parsed) ≡ (
            if JsMap.has "etag" parsed.raw
            then some entry.etag
            else JsMap.get "etag" (spread entry.headers parsed.raw)))
        × (found t (cache_key g c url call.requires_auth header) a.0.cache ≡ (
            if not (ttl == 0) && ltb (ttl + now) t
            then none
            else some (renewed now cache.default_ttl entry parsed))))
unfolding handle_early_status answer_304
not_modified_renews g c now t url parsed call header cache entry u h e =
    let key = cache_key g c url call.requires_auth header in
    let answer : handle_early_status g c now 304 url parsed call header
        ≡ answer_304 (touched c now key (some cache), some entry) now key parsed =
      ap (λ b. if b then answer_304 (cache_get c now key) now key parsed else (c, err (esi 304))) u
      ∙ (λ i. answer_304 (touched c now key (h i), found now key (h i)) now key parsed)
      ∙ ap (λ o. answer_304 (touched c now key (some cache), o) now key parsed) e in
    (
      ap (λ a. a.1) answer,
      get-revalidated_headers entry parsed,
      ap (λ a. found t key a.0.cache) answer
          ∙ again-found (touched c now key (some cache)) now t key parsed entry
              (Etag.get cache now key).0
          ∙ ap
              (λ (d : ℕ).
                if not (or_default entry.ttl d == 0) && ltb (or_default entry.ttl d + now) t
                then none
                else some (renewed now d entry parsed))
              (found-default now key cache),
    )
