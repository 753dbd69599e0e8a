-- ===== src/Cache/Etag/Lookup.antt =====
-- What a lookup in the ETag cache answers after the other operations.
use esi_ts.Prelude.{
  ℕ, ◌+◌, ◌≤◌, String, ◌≡◌, refl, sym, ap, ◌∙◌, Bool, true, false, not, ◌&&◌, Option, none, some,
  arith, ltb, ◌==◌, if◌then◌else◌, or_default,
}
use esi_ts.Prelude.Text.{includes}
use esi_ts.Prelude.JsMap
use esi_ts.Prelude.JsMap.{JsMap, Distinct}
use esi_ts.Cache.{CacheEntry}
use esi_ts.Cache.Etag.{
  EtagCacheManager, expired_after, is_expired, get, make_room, entry_of, set, delete_by_path,
  cleanup,
}

module _ {D : Type 0} where
  -- The entry that a lookup at `now` may answer with.
  abbrev pub fresh : ℕ → Option (CacheEntry D) → Option (CacheEntry D)
  fresh now none = none
  fresh now (some entry) = if is_expired now entry then none else some entry

  -- A lookup answers with the entry that is stored under the URL, unless it has expired.
  pub get-fresh :
      (c : EtagCacheManager D) (now : ℕ) (url : String)
      → (get c now url).1 ≡ fresh now (JsMap.get url c.cache)
  unfolding get
  get-fresh c now url = ground arith

  -- Right after a response is stored, and until its time to live is over, its URL answers with it,
  -- whatever the cache held and had to evict; a time to live of 0 never ends.
  pub lookup-set_self :
      (c : EtagCacheManager D) (now t : ℕ) (url etag : String) (body : D) (headers : JsMap String)
      (custom_ttl : Option ℕ)
      → (get (set c now url etag body headers custom_ttl) t url).1 ≡ (
          let ttl = or_default custom_ttl c.default_ttl in
          if not (ttl == 0) && ltb (ttl + now) t
          then none
          else some (entry_of c now etag body headers custom_ttl))
  unfolding set is_expired expired_after
  lookup-set_self c now t url etag body headers custom_ttl =
      let entry = entry_of c now etag body headers custom_ttl in
      get-fresh _ t url
      ∙ ap (fresh t) (JsMap.get-set_self url entry (make_room c url).cache)
      ∙ fresh_some (or_default custom_ttl c.default_ttl) entry
    where
      fresh_some :
          (ttl : ℕ) (entry : CacheEntry D)
          → (if (if ttl == 0 then false else ltb (ttl + now) t) then none else some entry)
            ≡ (if not (ttl == 0) && ltb (ttl + now) t then none else some entry)
      fresh_some ttl entry = ground arith

  -- An expired entry stays expired.
  pub is_expired_later :
      (now t : ℕ) (entry : CacheEntry D)
      → now ≤ t
      → is_expired now entry ≡ true
      → is_expired t entry ≡ true
  unfolding is_expired expired_after
  is_expired_later now t entry h e = ground arith

  fresh-kept :
      (now t : ℕ) (o : Option (CacheEntry D))
      → now ≤ t
      → fresh t (elim o [
        | none ↦ none
        | some entry ↦ if not (is_expired now entry) then some entry else none
      ])
        ≡ fresh t o
  fresh-kept now t none h = refl
  fresh-kept now t (some entry) h = ground (arith, is_expired_later now t entry h)

  -- Cleaning up at `now` changes no answer from then on.
  pub get-cleanup :
      (c : EtagCacheManager D) (now t : ℕ) (url : String)
      → Distinct c.cache
      → now ≤ t
      → (get (cleanup c now).0 t url).1 ≡ (get c t url).1
  unfolding cleanup
  get-cleanup c now t url d h =
      get-fresh _ t url
      ∙ ap (fresh t) (JsMap.get-keep (λ key entry. not (is_expired now entry)) url c.cache d)
      ∙ fresh-kept now t (JsMap.get url c.cache) h
      ∙ sym (get-fresh c t url)

  fresh-excluded :
      (t : ℕ) (hit : Bool) (o : Option (CacheEntry D))
      → fresh t (elim o [ none ↦ none | some entry ↦ if not hit then some entry else none ])
        ≡ (if hit then none else fresh t o)
  fresh-excluded t hit o = ground arith

  -- After an invalidation by path, the URLs that contain the path have no entry, and all others
  -- answer as before.
  pub get-delete_by_path :
      (c : EtagCacheManager D) (segment : String) (t : ℕ) (url : String)
      → Distinct c.cache
      → (get (delete_by_path c segment).0 t url).1
        ≡ (if includes url segment then none else (get c t url).1)
  unfolding delete_by_path
  get-delete_by_path c segment t url d =
      get-fresh _ t url
      ∙ ap (fresh t) (JsMap.get-keep (λ key entry. not (includes key segment)) url c.cache d)
      ∙ fresh-excluded t (includes url segment) (JsMap.get url c.cache)
      ∙ ap (λ o. if includes url segment then none else o) (sym (get-fresh c t url))
