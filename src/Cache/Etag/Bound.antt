-- ===== src/Cache/Etag/Bound.antt =====
-- Sequences of calls of an ETag cache: its size stays bounded and its counters count the lookups.
use esi_ts.Prelude.{
  ℕ, zero, suc, ◌+◌, ◌≤◌, max, String, ◌≡◌, refl, ap, ◌∙◌, inl, inr, Bool, true, false, Option,
  List, [], ◌∷◌, arith, str_eq, leb, if◌then◌else◌, leb-false, Bool-cases, Option-cases, All,
}
use esi_ts.Prelude.JsMap
use esi_ts.Prelude.JsMap.{JsMap, Distinct}
use esi_ts.Cache.{CacheEntry}
use esi_ts.Cache.Etag.{
  EtagCacheManager, get, set, delete, delete_by_path, clear, cleanup, is_expired, make_room,
  entry_of, evict_oldest, evict_found,
}
use esi_ts.Cache.Etag.Evict.{Oldest-of, evict_oldest_lem, evict_oldest-empty}

pub data Event (D : Type 0) : Type 0 where
  looked : ℕ → String → Event D
  stored : ℕ → String → String → D → JsMap String → Option ℕ → Event D
  deleted invalidated : String → Event D
  cleaned : ℕ → Event D
  emptied : Event D

module _ {D : Type 0} where
  unfoldable pub apply : EtagCacheManager D → Event D → EtagCacheManager D
  apply c (looked now url) = (get c now url).0
  apply c (stored now url etag body headers ttl) = set c now url etag body headers ttl
  apply c (deleted url) = (delete c url).0
  apply c (invalidated path) = (delete_by_path c path).0
  apply c (cleaned now) = (cleanup c now).0
  apply c emptied = clear c

  unfoldable pub run : EtagCacheManager D → List (Event D) → EtagCacheManager D
  run c [] = c
  run c (ev ∷ evs) = run (apply c ev) evs

  -- Responses are stored under a URL that is not empty.
  abbrev pub IsNamed : Event D → Type 0
  IsNamed (stored now url etag body headers ttl) = str_eq url "" ≡ false
  IsNamed _ = Unit

  pub record IsValid (c : EtagCacheManager D) : Type 0 where
    pub distinct : Distinct c.cache
    pub named : JsMap.has "" c.cache ≡ false
    pub bounded : JsMap.size c.cache ≤ max 1 c.max_entries

  keep-IsValid :
      (c : EtagCacheManager D) (p : String → CacheEntry D → Bool)
      → IsValid c
      → IsValid (record c { cache = JsMap.keep p c.cache })
  keep-IsValid c p v = record {
    distinct = JsMap.Distinct-keep p c.cache v.distinct;
    named = JsMap.has-keep-false p "" c.cache v.named;
    bounded = omega (arith, JsMap.size-keep-le p c.cache, v.bounded);
  }

  delete-IsValid :
      (c : EtagCacheManager D) (url : String)
      → IsValid c
      → IsValid (record c { cache = JsMap.delete url c.cache })
  delete-IsValid c url v = record {
    distinct = JsMap.Distinct-delete url c.cache v.distinct;
    named = ground (arith, JsMap.has-delete url "" c.cache, v.named);
    bounded = omega (arith, JsMap.size-delete-le url c.cache, v.bounded);
  }

  get-IsValid :
      (c : EtagCacheManager D) (now : ℕ) (url : String) → IsValid c → IsValid (get c now url).0
  unfolding get
  get-IsValid c now url v = elim (Option-cases (JsMap.get url c.cache)) [
    | inl missing ↦
        rw (missing, get) (record { distinct = v.distinct; named = v.named; bounded = v.bounded })
    | inr (entry, found) ↦ elim (Bool-cases (is_expired now entry)) [
      | inl old ↦
          rw (found, get)
            (rw old (
              let w = delete-IsValid c url v in
              record { distinct = w.distinct; named = w.named; bounded = w.bounded }))
      | inr live ↦
          rw (found, get)
            (rw live (record { distinct = v.distinct; named = v.named; bounded = v.bounded }))
    ]
  ]

  -- After room was made for a URL, storing it keeps the bound.
  record HasRoom (c c' : EtagCacheManager D) (url : String) : Type 0 where
    distinct : Distinct c'.cache
    named : JsMap.has "" c'.cache ≡ false
    same_max : c'.max_entries ≡ c.max_entries
    room :
        (if JsMap.has url c'.cache then JsMap.size c'.cache else suc (JsMap.size c'.cache))
        ≤ max 1 c.max_entries

  evicted-HasRoom :
      (c : EtagCacheManager D) (url key : String)
      → IsValid c
      → JsMap.has key c.cache ≡ true
      → HasRoom c (record c { cache = JsMap.delete key c.cache }) url
  evicted-HasRoom c url key v there = record {
    distinct = JsMap.Distinct-delete key c.cache v.distinct;
    named = ground (arith, JsMap.has-delete key "" c.cache, v.named);
    same_max = refl;
    room = ground (arith, JsMap.size-delete-lt key c.cache there, v.bounded);
  }

  make_room-HasRoom :
      (c : EtagCacheManager D) (url : String) → IsValid c → HasRoom c (make_room c url) url
  make_room-HasRoom c url v = elim (Bool-cases (JsMap.has url c.cache)) [
    | inl old ↦ rw old (record {
      distinct = v.distinct;
      named = v.named;
      same_max = refl;
      room = rw old v.bounded;
    })
    | inr new ↦ elim (Bool-cases (leb c.max_entries (JsMap.size c.cache))) [
      | inl full ↦ rw new (rw full (on_full (JsMap.size c.cache) refl full))
      | inr free ↦ rw new (
          rw free (record {
            distinct = v.distinct;
            named = v.named;
            same_max = refl;
            room = rw new (omega (arith, leb-false _ _ free));
          }))
    ]
  ]
    where
      on_full :
          (n : ℕ)
          → JsMap.size c.cache ≡ n
          → leb c.max_entries (JsMap.size c.cache) ≡ true
          → HasRoom c (evict_oldest c) url
      on_full zero e full = rw (evict_oldest-empty c e) (record {
        distinct = v.distinct;
        named = v.named;
        same_max = refl;
        room = ground (arith, e);
      })
      on_full (suc n) e full =
          let o = Oldest-of c.cache v.distinct (omega arith) in
          rw (evict_oldest_lem c o v.named)
            (evicted-HasRoom c url o.key v (JsMap.has-get o.key c.cache o.entry o.stored))

  set-IsValid :
      (c : EtagCacheManager D) (now : ℕ) (url etag : String) (body : D) (headers : JsMap String)
      (ttl : Option ℕ)
      → str_eq url "" ≡ false
      → IsValid c
      → IsValid (set c now url etag body headers ttl)
  unfolding set
  set-IsValid c now url etag body headers ttl name v =
      let h = make_room-HasRoom c url v in
      let e = entry_of c now etag body headers ttl in
      record {
        distinct = JsMap.Distinct-set url e (make_room c url).cache h.distinct;
        named = JsMap.has-set url "" e (make_room c url).cache ∙ (rw name h.named);
        bounded = rw JsMap.size-set (rw h.same_max h.room);
      }

  apply-IsValid :
      (c : EtagCacheManager D) (ev : Event D) → IsNamed ev → IsValid c → IsValid (apply c ev)
  unfolding apply delete delete_by_path clear cleanup
  apply-IsValid c (looked now url) n v = get-IsValid c now url v
  apply-IsValid c (stored now url etag body headers ttl) n v =
      set-IsValid c now url etag body headers ttl n v
  apply-IsValid c (deleted url) n v = delete-IsValid c url v
  apply-IsValid c (invalidated path) n v = keep-IsValid c _ v
  apply-IsValid c (cleaned now) n v = keep-IsValid c _ v
  apply-IsValid c emptied n v = record {
    distinct = tt;
    named = unfold JsMap.has in refl;
    bounded = omega arith;
  }

  -- Whatever is looked up, stored under named URLs, deleted, invalidated and cleaned up, and in
  -- whatever order, a valid cache stays valid: it never holds more than its number of entries (or
  -- one, if that is 0), and no URL twice.
  pub cache_run-IsValid :
      (c : EtagCacheManager D) (evs : List (Event D))
      → All IsNamed evs
      → IsValid c
      → IsValid (run c evs)
  unfolding run
  cache_run-IsValid c [] n v = v
  cache_run-IsValid c (ev ∷ evs) (n, ns) v =
      cache_run-IsValid (apply c ev) evs ns (apply-IsValid c ev n v)

  -- The lookups since the counters last started from 0.
  unfoldable pub lookups : ℕ → List (Event D) → ℕ
  lookups n [] = n
  lookups n (looked now url ∷ evs) = lookups (n + 1) evs
  lookups n (emptied ∷ evs) = lookups 0 evs
  lookups n (_ ∷ evs) = lookups n evs

  abbrev counted : EtagCacheManager D → ℕ
  counted c = c.hits + c.misses

  counted-get :
      (c : EtagCacheManager D) (now : ℕ) (url : String) → counted (get c now url).0 ≡ counted c + 1
  unfolding get
  counted-get c now url = ground arith

  counted-set :
      (c : EtagCacheManager D) (now : ℕ) (url etag : String) (body : D) (headers : JsMap String)
      (ttl : Option ℕ)
      → counted (set c now url etag body headers ttl) ≡ counted c
  unfolding set evict_oldest evict_found
  counted-set c now url etag body headers ttl = ground arith

  -- Hits and misses together count every lookup since the cache was last cleared, and nothing
  -- else.
  pub hits_and_misses :
      (c : EtagCacheManager D) (evs : List (Event D))
      → (run c evs).hits + (run c evs).misses ≡ lookups (c.hits + c.misses) evs
  unfolding run lookups apply delete delete_by_path clear cleanup
  hits_and_misses c [] = refl
  hits_and_misses c (looked now url ∷ evs) =
      hits_and_misses (get c now url).0 evs ∙ ap (λ n. lookups n evs) (counted-get c now url)
  hits_and_misses c (stored now url etag body headers ttl ∷ evs) =
      hits_and_misses (set c now url etag body headers ttl) evs
      ∙ ap (λ n. lookups n evs) (counted-set c now url etag body headers ttl)
  hits_and_misses c (deleted url ∷ evs) = hits_and_misses (delete c url).0 evs
  hits_and_misses c (invalidated path ∷ evs) = hits_and_misses (delete_by_path c path).0 evs
  hits_and_misses c (cleaned now ∷ evs) = hits_and_misses (cleanup c now).0 evs
  hits_and_misses c (emptied ∷ evs) = hits_and_misses (clear c) evs
