-- ===== src/Cache/Etag/Evict.antt =====
-- Which entry a full ETag cache evicts.
use esi_ts.Prelude.{
  ℕ, ◌≤◌, ◌<◌, String, ◌≡◌, refl, sym, ap, ◌⊎◌, inl, inr, Bool, true, false, Option, none, some, [],
  ◌∷◌, arith, str_eq, eq_iff, ltb, if◌then◌else◌, ltb→lt, le→leb, ltb-false, Bool-cases,
}
use mathlib.Core.Path.{subst}
use esi_ts.Prelude.JsMap
use esi_ts.Prelude.JsMap.{JsMap, Distinct}
use esi_ts.Prelude.JsMap.Every.{Every}
use esi_ts.Cache.{CacheEntry}
use esi_ts.Cache.Etag.{EtagCacheManager, oldest_loop, evict_oldest, evict_found, entry_of, set}

module _ {D : Type 0} where
  -- No entry of the map is older than `time`.
  abbrev pub NoneOlder : ℕ → JsMap (CacheEntry D) → Type 0
  NoneOlder time m = Every (λ entry. time ≤ entry.timestamp) m

  NoneOlder-le : (t u : ℕ) (m : JsMap (CacheEntry D)) → t ≤ u → NoneOlder u m → NoneOlder t m
  NoneOlder-le t u [] h n = tt
  NoneOlder-le t u ((k, e) ∷ m) h (p, n) = (omega arith, NoneOlder-le t u m h n)

  -- The map has an entry of this key and time.
  abbrev IsAt : JsMap (CacheEntry D) → String → ℕ → Type 0
  IsAt m key time =
      (entry : CacheEntry D) × (JsMap.get key m ≡ some entry) × (entry.timestamp ≡ time)

  get-tail :
      (i k : String) (e entry : CacheEntry D) (m : JsMap (CacheEntry D))
      → JsMap.has i m ≡ false
      → JsMap.get k m ≡ some entry
      → JsMap.get k ((i, e) ∷ m) ≡ some entry
  unfolding JsMap.get
  get-tail i k e entry m fresh h = elim (Bool-cases (str_eq i k)) [
    | inl same ↦ absurd (clash ((eq_iff i k).0 same))
    | inr other ↦ rw other h
  ]
    where
      clash : i ≡ k → ⊥
      clash p = cc (fresh, JsMap.has-get k m entry h, ap (λ j. JsMap.has j m) p)

  IsAt-tail :
      (i k : String) (e : CacheEntry D) (t : ℕ) (m : JsMap (CacheEntry D))
      → JsMap.has i m ≡ false
      → IsAt m k t
      → IsAt ((i, e) ∷ m) k t
  IsAt-tail i k e t m fresh (entry, found, time) = (entry, get-tail i k e entry m fresh found, time)

  IsAt-head :
      (i k : String) (e : CacheEntry D) (t : ℕ) (m : JsMap (CacheEntry D))
      → k ≡ i
      → t ≡ e.timestamp
      → IsAt ((i, e) ∷ m) k t
  unfolding JsMap.get
  IsAt-head i k e t m p q = (e, rw ((eq_iff i k).1 (sym p)), sym q)

  -- What the loop over `m` ends with, from a best of `key` and `time`.
  record Best (m : JsMap (CacheEntry D)) (key : String) (time : ℕ) : Type 0 where
    best_key : String
    best_time : ℕ
    result : oldest_loop m (some (key, time)) ≡ some (best_key, best_time)
    at_most : best_time ≤ time
    none_older : NoneOlder best_time m
    origin : ((best_key ≡ key) × (best_time ≡ time)) ⊎ IsAt m best_key best_time

  Best-of : (m : JsMap (CacheEntry D)) (key : String) (time : ℕ) → Distinct m → Best m key time
  unfolding oldest_loop
  Best-of [] key time d = record {
    best_key = key;
    best_time = time;
    result = refl;
    at_most = omega arith;
    none_older = tt;
    origin = inl (refl, refl);
  }
  Best-of ((i, e) ∷ m) key time (fresh, d) = elim (Bool-cases (ltb e.timestamp time)) [
    | inl less ↦
        let b = Best-of m i e.timestamp d in
        record {
          best_key = b.best_key;
          best_time = b.best_time;
          result = rw less b.result;
          at_most = omega (arith, b.at_most, ltb→lt _ _ less);
          none_older = (b.at_most, b.none_older);
          origin = inr (elim b.origin [
            | inl (k, t) ↦ IsAt-head i b.best_key e b.best_time m k t
            | inr at ↦ IsAt-tail i b.best_key e b.best_time m fresh at
          ]);
        }
    | inr more ↦
        let b = Best-of m key time d in
        record {
          best_key = b.best_key;
          best_time = b.best_time;
          result = rw more b.result;
          at_most = b.at_most;
          none_older = (omega (arith, b.at_most, ltb-false _ _ more), b.none_older);
          origin = elim b.origin [
            | inl kept ↦ inl kept
            | inr at ↦ inr (IsAt-tail i b.best_key e b.best_time m fresh at)
          ];
        }
  ]

  -- What the loop of `evictOldest` finds in a map that is not empty: one of its entries, and none
  -- is older.
  pub record Oldest (m : JsMap (CacheEntry D)) : Type 0 where
    pub key : String
    pub entry : CacheEntry D
    pub found : oldest_loop m none ≡ some (key, entry.timestamp)
    pub stored : JsMap.get key m ≡ some entry
    pub none_older : NoneOlder entry.timestamp m

  pub Oldest-of : (m : JsMap (CacheEntry D)) → Distinct m → 0 < JsMap.size m → Oldest m
  Oldest-of [] d h = elim h [ ]
  Oldest-of ((i, e) ∷ m) (fresh, d) h =
      let b = Best-of m i e.timestamp d in
      let (entry, stored, time) = at_head b in
      record {
        key = b.best_key;
        entry = entry;
        found = unfold oldest_loop in rw time b.result;
        stored = stored;
        none_older = subst (λ t. NoneOlder t ((i, e) ∷ m)) (sym time) (b.at_most, b.none_older);
      }
    where
      at_head : (b : Best m i e.timestamp) → IsAt ((i, e) ∷ m) b.best_key b.best_time
      at_head b = elim b.origin [
        | inl (k, t) ↦ IsAt-head i b.best_key e b.best_time m k t
        | inr at ↦ IsAt-tail i b.best_key e b.best_time m fresh at
      ]

  -- Eviction deletes the oldest entry, as long as no URL is empty.
  pub evict_oldest_lem :
      (c : EtagCacheManager D) (o : Oldest c.cache)
      → JsMap.has "" c.cache ≡ false
      → evict_oldest c ≡ record c { cache = JsMap.delete o.key c.cache }
  unfolding evict_oldest evict_found
  evict_oldest_lem c o blank = rw o.found (rw (named (str_eq o.key "") refl))
    where
      named : (b : Bool) → str_eq o.key "" ≡ b → str_eq o.key "" ≡ false
      named false e = e
      named true e = absurd (
          cc (
            blank,
            JsMap.has-get o.key c.cache o.entry o.stored,
            ap (λ j. JsMap.has j c.cache) ((eq_iff o.key "").0 e),
          ))

  oldest_loop-empty : (m : JsMap (CacheEntry D)) → JsMap.size m ≡ 0 → oldest_loop m none ≡ none
  unfolding oldest_loop
  oldest_loop-empty [] h = refl
  oldest_loop-empty (x ∷ m) h = absurd (omega (arith, h))

  pub evict_oldest-empty : (c : EtagCacheManager D) → JsMap.size c.cache ≡ 0 → evict_oldest c ≡ c
  unfolding evict_oldest evict_found
  evict_oldest-empty c h = rw (oldest_loop-empty c.cache h)

  -- Storing a response under a new URL in a full cache evicts one entry than which none is older,
  -- and keeps all others.
  pub set-evicts :
      (c : EtagCacheManager D) (now : ℕ) (url etag : String) (body : D) (headers : JsMap String)
      (custom_ttl : Option ℕ)
      → Distinct c.cache
      → JsMap.has "" c.cache ≡ false
      → JsMap.has url c.cache ≡ false
      → c.max_entries ≤ JsMap.size c.cache
      → 0 < JsMap.size c.cache
      → (key : String) × (entry : CacheEntry D) × (JsMap.get key c.cache ≡ some entry)
        × NoneOlder entry.timestamp c.cache
        × ((j : String)
            → JsMap.get j (set c now url etag body headers custom_ttl).cache ≡ (
                if str_eq url j
                then some (entry_of c now etag body headers custom_ttl)
                else if str_eq key j
                then none
                else JsMap.get j c.cache))
  unfolding set
  set-evicts c now url etag body headers custom_ttl d blank new full some_entry =
      let o = Oldest-of c.cache d some_entry in
      (
        o.key,
        o.entry,
        o.stored,
        o.none_older,
        λ j. rw new (
            rw (le→leb _ _ full)
              (rw (evict_oldest_lem c o blank) (rw JsMap.get-set (rw JsMap.get-delete)))),
      )
