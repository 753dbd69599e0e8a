-- ===== src/Cache/Shared/Dropped.antt =====
-- What an invalidation, of this process or of another, leaves of the keys that were written here.
use esi_ts.Prelude.{
  ℕ, String, ◌≡◌, refl, sym, ap, ◌∙◌, Bool, true, false, Option, none, some, [], ◌∷◌, str_eq,
  eq_iff, if◌then◌else◌,
}
use mathlib.Core.Path.{subst}
use esi_ts.Prelude.Text.{includes}
use esi_ts.Prelude.JsMap
use esi_ts.Prelude.JsMap.{JsMap}
use esi_ts.Cache.{CacheEntry}
use esi_ts.Cache.Shared.{
  CacheStore, IsStore, path, CacheStoreCache, seen, get, delete, detach_all, drop_key, drop_loop,
  drop_local, delete_by_path, apply_remote,
}

module _ {S D : Type 0} (ops : CacheStore S D) (laws : IsStore ops) where
  -- The store has no entry under the key.
  abbrev Gone : CacheStoreCache S → String → Type 0
  Gone c key = (ops.get c.store key).1 ≡ none

  if-none : (b : Bool) (o : Option (CacheEntry D)) → o ≡ none → (if b then none else o) ≡ none
  if-none true o h = refl
  if-none false o h = h

  drop_key-Gone :
      (j key : String) (a : CacheStoreCache S × ℕ) → Gone a.0 key → Gone (drop_key ops a j).0 key
  unfolding drop_key delete
  drop_key-Gone j key a h =
      laws.get-delete a.0.store j key ∙ if-none (str_eq j key) (ops.get a.0.store key).1 h

  drop_key_self :
      (j key : String) (a : CacheStoreCache S × ℕ)
      → str_eq j key ≡ true
      → Gone (drop_key ops a j).0 key
  unfolding drop_key delete
  drop_key_self j key a h =
      laws.get-delete a.0.store j key
      ∙ ap (λ (b : Bool). if b then none else (ops.get a.0.store key).1) h

  if-Gone :
      (b : Bool) (j key : String) (a : CacheStoreCache S × ℕ)
      → Gone a.0 key
      → Gone (if b then drop_key ops a j else a).0 key
  if-Gone true j key a h = drop_key-Gone j key a h
  if-Gone false j key a h = h

  drop_loop-Gone :
      (segment key : String) (keys : JsMap ℕ) (a : CacheStoreCache S × ℕ)
      → Gone a.0 key
      → Gone (drop_loop ops segment keys a).0 key
  unfolding drop_loop
  drop_loop-Gone segment key [] a h = h
  drop_loop-Gone segment key ((j, at) ∷ keys) a h =
      drop_loop-Gone segment key keys _ (if-Gone (includes j segment) j key a h)

  same-hit :
      (j key segment : String)
      → str_eq j key ≡ true
      → includes key segment ≡ true
      → includes j segment ≡ true
  same-hit j key segment e h = ap (λ k. includes k segment) ((eq_iff j key).0 e) ∙ h

  drop_loop-tracked :
      (segment key : String) (keys : JsMap ℕ) (a : CacheStoreCache S × ℕ)
      → includes key segment ≡ true
      → JsMap.has key keys ≡ true
      → Gone (drop_loop ops segment keys a).0 key
  unfolding drop_loop JsMap.has
  drop_loop-tracked segment key [] a h there = cc
  drop_loop-tracked segment key ((j, at) ∷ keys) a h there =
      by_test (str_eq j key) refl there (λ more.
        drop_loop-tracked segment key keys (if includes j segment then drop_key ops a j else a) h
          more)
    where
      by_test :
          (b : Bool)
          → str_eq j key ≡ b
          → (if b then true else JsMap.has key keys) ≡ true
          → (JsMap.has key keys ≡ true
              → Gone
                  (drop_loop ops segment keys
                    (if includes j segment then drop_key ops a j else a)).0
                  key)
          → Gone
              (drop_loop ops segment keys (if includes j segment then drop_key ops a j else a)).0
              key
      by_test true e there rest = drop_loop-Gone segment key keys _ (
          subst (λ (b : Bool). Gone (if b then drop_key ops a j else a).0 key)
            (sym (same-hit j key segment e h)) (drop_key_self j key a e))
      by_test false e there rest = rest there

  seen-none :
      (c : CacheStoreCache S) (url : String) (r : S × Option (CacheEntry D))
      → r.1 ≡ none
      → (seen ops c url r).1 ≡ none
  seen-none c url (s, none) h = refl
  seen-none c url (s, some entry) h = cc

  -- An invalidation of a path, whether it comes from this process or from another, leaves no
  -- entry under any key that this process remembers to have written and that contains the path. The
  -- store must remove what it is told to delete, and no other entry.
  pub tracked_keys_dropped :
      (c : CacheStoreCache S) (segment key : String)
      → includes key segment ≡ true
      → JsMap.has key c.keys ≡ true
      → ((get ops (delete_by_path ops c segment).0 key).1 ≡ none)
        × ((get ops (apply_remote ops c (path segment)) key).1 ≡ none)
  unfolding get delete_by_path apply_remote drop_local
  tracked_keys_dropped c segment key h there =
      let elsewhere = record c { deduplicators = detach_all c.deduplicators segment } in
      (
        seen-none (delete_by_path ops c segment).0 key _
            (drop_loop-tracked segment key c.keys (c, 0) h there),
        seen-none (apply_remote ops c (path segment)) key _
            (drop_loop-tracked segment key c.keys (elsewhere, 0) h there),
      )
