-- ===== src/Cache/Shared/Bounded.antt =====
-- How many keys the adapter remembers, and that the last written one is among them.
use esi_ts.Prelude.{
  ℕ, zero, suc, ◌+◌, ◌≤◌, String, ◌≡◌, refl, sym, ap, ◌∙◌, inl, inr, Bool, true, false, Option, [],
  ◌∷◌, ◌++◌, arith, str_eq, eq_iff, ltb, if◌then◌else◌, Bool-cases, ltb-false, ltb_of_le,
}
use mathlib.Core.Path.{subst}
use esi_ts.Prelude.JsMap
use esi_ts.Prelude.JsMap.{JsMap, size-delete-lt, has-delete}
use esi_ts.Prelude.Text.{str_eq_refl}
use esi_ts.Cache.Shared.{CacheStore, CacheStoreCache, max_tracked_keys, trim_keys, track, set}

has-first : (k : String) (at : ℕ) (keys : JsMap ℕ) → JsMap.has k ((k, at) ∷ keys) ≡ true
unfolding JsMap.has
has-first k at keys = rw (str_eq_refl k) refl

trim_keys-le :
    (fuel limit : ℕ) (keys : JsMap ℕ)
    → JsMap.size keys ≤ fuel + limit
    → JsMap.size (trim_keys fuel limit keys) ≤ limit
unfolding trim_keys
trim_keys-le zero limit keys h = omega (arith, h)
trim_keys-le (suc fuel) limit [] h = omega arith
trim_keys-le (suc fuel) limit ((k, at) ∷ keys) h =
    elim (Bool-cases (ltb limit (JsMap.size ((k, at) ∷ keys)))) [
      | inr small ↦ rw small (ltb-false _ _ small)
      | inl large ↦ rw large (
          trim_keys-le fuel limit (JsMap.delete k ((k, at) ∷ keys))
            (omega (arith, h, size-delete-lt k ((k, at) ∷ keys) (has-first k at keys))))
    ]

-- A key that is not in the map is added at its end.
set-append :
    (k : String) (v : ℕ) (m : JsMap ℕ) → JsMap.has k m ≡ false → JsMap.set k v m ≡ m ++ (k, v) ∷ []
unfolding JsMap.set JsMap.has
set-append k v [] h = refl
set-append k v ((j, w) ∷ m) h = ground (arith, set-append k v m)

delete-append :
    (j k : String) (v : ℕ) (m : JsMap ℕ)
    → str_eq k j ≡ false
    → JsMap.delete j (m ++ (k, v) ∷ []) ≡ JsMap.delete j m ++ (k, v) ∷ []
unfolding JsMap.delete
delete-append j k v [] h = rw h refl
delete-append j k v ((i, w) ∷ m) h = elim (Bool-cases (str_eq i j)) [
  | inl e ↦ rw e (delete-append j k v m h)
  | inr e ↦ rw e (ap (λ l. (i, w) ∷ l) (delete-append j k v m h))
]

has-append : (k : String) (v : ℕ) (m : JsMap ℕ) → JsMap.has k (m ++ (k, v) ∷ []) ≡ true
unfolding JsMap.has
has-append k v [] = rw (str_eq_refl k) refl
has-append k v ((j, w) ∷ m) = ground (arith, has-append k v m)

first_differs :
    (k j : String) (w : ℕ) (m : JsMap ℕ)
    → JsMap.has k ((j, w) ∷ m) ≡ false
    → (str_eq k j ≡ false) × (JsMap.has k m ≡ false)
unfolding JsMap.has
first_differs k j w m h = ground (arith, eq_iff k j, eq_iff j k)

-- The last key survives, as long as the limit leaves room for one.
trim_keys-last :
    (fuel limit : ℕ) (k : String) (v : ℕ) (m : JsMap ℕ)
    → 1 ≤ limit
    → JsMap.has k m ≡ false
    → JsMap.has k (trim_keys fuel limit (m ++ (k, v) ∷ [])) ≡ true
unfolding trim_keys
trim_keys-last zero limit k v m room h = has-append k v m
trim_keys-last (suc fuel) limit k v [] room h = rw (ltb_of_le limit 1 room) (has-append k v [])
trim_keys-last (suc fuel) limit k v ((j, w) ∷ m) room h =
    elim (Bool-cases (ltb limit (JsMap.size ((j, w) ∷ (m ++ (k, v) ∷ []))))) [
      | inr small ↦ rw small (has-append k v ((j, w) ∷ m))
      | inl large ↦
          let (differs, rest) = first_differs k j w m h in
          rw large (
            subst (λ l. JsMap.has k (trim_keys fuel limit l) ≡ true)
              (sym (delete-append j k v ((j, w) ∷ m) differs))
              (trim_keys-last fuel limit k v (JsMap.delete j ((j, w) ∷ m)) room (
                has-delete j k ((j, w) ∷ m)
                ∙ ap (λ (b : Bool). if b then false else JsMap.has k ((j, w) ∷ m))
                    (flip j k differs)
                ∙ h)))
    ]
  where
    flip : (j k : String) → str_eq k j ≡ false → str_eq j k ≡ false
    flip j k h = ground (arith, eq_iff k j, eq_iff j k)

-- Whatever was written before, after a write the adapter remembers at most 10000 keys, and the key
-- that was written is one of them.
pub tracked_bounded :
    {S D : Type 0} (ops : CacheStore S D) (c : CacheStoreCache S) (now : ℕ) (url etag : String)
    (body : D) (headers : JsMap String) (ttl : Option ℕ)
    → (let c' = set ops c now url etag body headers ttl in
        (JsMap.size c'.keys ≤ max_tracked_keys) × (JsMap.has url c'.keys ≡ true))
unfolding set track
tracked_bounded ops c now url etag body headers ttl =
    let cleared = JsMap.delete url c.keys in
    let out : JsMap.has url cleared ≡ false =
      has-delete url url c.keys
      ∙ ap (λ (b : Bool). if b then false else JsMap.has url c.keys) (str_eq_refl url) in
    let more = JsMap.set url now cleared in
    (
      trim_keys-le (JsMap.size more) max_tracked_keys more (omega arith),
      subst (λ l. JsMap.has url (trim_keys (JsMap.size more) max_tracked_keys l) ≡ true)
          (sym (set-append url now cleared out))
          (trim_keys-last (JsMap.size more) max_tracked_keys url now cleared (omega arith) out),
    )
