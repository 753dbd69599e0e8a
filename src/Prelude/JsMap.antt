-- ===== src/Prelude/JsMap.antt =====
-- JavaScript's `Map` with string keys: entries in the order of insertion. Setting a present key
-- keeps its place; deleting a key and setting it again moves it to the end.
pub mod Every
use Prim.Native.Nat.{ℕ, suc, ◌≤◌}
use Prim.Native.String.{String}
use mathlib.Core.Path.{◌≡◌, refl}
use mathlib.Core.Bool.{Bool, true, false}
use mathlib.Core.Option.{Option, none, some}
use mathlib.Core.List.{List, [], ◌∷◌}
use native.Mathlib.Omega.{arith}
use text.Mathlib.Text.{◌==◌ as str_eq}
use text.Mathlib.TextEquality.{eq_iff}
use text.Mathlib.TextPositions.{eq_refl}
use esi_ts.Prelude.Tests.{if◌then◌else◌}
use esi_ts.Prelude.Lists.{length}

abbrev pub JsMap {ℓ} : Type ℓ → Type ℓ
JsMap V = List (String × V)

module _ {ℓ} {V : Type ℓ} where
  unfoldable pub get : String → JsMap V → Option V
  get k [] = none
  get k ((j, v) ∷ m) = if str_eq j k then some v else get k m

  unfoldable pub has : String → JsMap V → Bool
  has k [] = false
  has k ((j, v) ∷ m) = if str_eq j k then true else has k m

  unfoldable pub set : String → V → JsMap V → JsMap V
  set k v [] = (k, v) ∷ []
  set k v ((j, w) ∷ m) = if str_eq j k then (k, v) ∷ m else (j, w) ∷ set k v m

  unfoldable pub delete : String → JsMap V → JsMap V
  delete k [] = []
  delete k ((j, v) ∷ m) = let rest = delete k m in if str_eq j k then rest else (j, v) ∷ rest

  abbrev pub size : JsMap V → ℕ
  size m = length m

  -- The entries that a loop over the map keeps.
  unfoldable pub keep : (String → V → Bool) → JsMap V → JsMap V
  keep p [] = []
  keep p ((j, v) ∷ m) = let rest = keep p m in if p j v then (j, v) ∷ rest else rest

  -- No key occurs twice, as in every `Map`.
  abbrev pub Distinct : JsMap V → Type 0
  Distinct [] = Unit
  Distinct ((k, v) ∷ m) = (has k m ≡ false) × Distinct m

  pub get-set :
      (k j : String) (v : V) (m : JsMap V)
      → get j (set k v m) ≡ (if str_eq k j then some v else get j m)
  unfolding get set
  get-set k j v [] = refl
  get-set k j v ((i, w) ∷ m) = ground (arith, eq_iff k j, eq_iff i k, eq_iff i j, get-set k j v m)

  pub get-delete :
      (k j : String) (m : JsMap V) → get j (delete k m) ≡ (if str_eq k j then none else get j m)
  unfolding get delete
  get-delete k j [] = ground arith
  get-delete k j ((i, w) ∷ m) = ground (arith, eq_iff k j, eq_iff i k, eq_iff i j, get-delete k j m)

  pub has-set :
      (k j : String) (v : V) (m : JsMap V)
      → has j (set k v m) ≡ (if str_eq k j then true else has j m)
  unfolding has set
  has-set k j v [] = refl
  has-set k j v ((i, w) ∷ m) = ground (arith, eq_iff k j, eq_iff i k, eq_iff i j, has-set k j v m)

  pub has-delete :
      (k j : String) (m : JsMap V) → has j (delete k m) ≡ (if str_eq k j then false else has j m)
  unfolding has delete
  has-delete k j [] = ground arith
  has-delete k j ((i, w) ∷ m) = ground (arith, eq_iff k j, eq_iff i k, eq_iff i j, has-delete k j m)

  pub size-set :
      (k : String) (v : V) (m : JsMap V)
      → size (set k v m) ≡ (if has k m then size m else suc (size m))
  unfolding has set
  size-set k v [] = refl
  size-set k v ((i, w) ∷ m) = ground (arith, size-set k v m)

  pub size-delete-le : (k : String) (m : JsMap V) → size (delete k m) ≤ size m
  unfolding delete
  size-delete-le k [] = omega arith
  size-delete-le k ((i, w) ∷ m) = ground (arith, size-delete-le k m)

  -- Deleting a present key shrinks the map.
  pub size-delete-lt :
      (k : String) (m : JsMap V) → has k m ≡ true → suc (size (delete k m)) ≤ size m
  unfolding has delete
  size-delete-lt k [] h = ground arith
  size-delete-lt k ((i, w) ∷ m) h = ground (arith, size-delete-lt k m, size-delete-le k m)

  pub size-keep-le : (p : String → V → Bool) (m : JsMap V) → size (keep p m) ≤ size m
  unfolding keep
  size-keep-le p [] = omega arith
  size-keep-le p ((i, w) ∷ m) = ground (arith, size-keep-le p m)

  pub has-keep-false :
      (p : String → V → Bool) (k : String) (m : JsMap V)
      → has k m ≡ false
      → has k (keep p m) ≡ false
  unfolding has keep
  has-keep-false p k [] h = refl
  has-keep-false p k ((i, w) ∷ m) h = ground (arith, has-keep-false p k m)

  pub get-none_of_has : (k : String) (m : JsMap V) → has k m ≡ false → get k m ≡ none
  unfolding has get
  get-none_of_has k [] h = refl
  get-none_of_has k ((i, w) ∷ m) h = ground (arith, get-none_of_has k m)

  pub has-get : (k : String) (m : JsMap V) (v : V) → get k m ≡ some v → has k m ≡ true
  unfolding has get
  has-get k [] v h = cc
  has-get k ((i, w) ∷ m) v h = ground (arith, has-get k m v)

  -- What a filter of the entries leaves at a key.
  pub get-keep :
      (p : String → V → Bool) (k : String) (m : JsMap V)
      → Distinct m
      → get k (keep p m) ≡ elim (get k m) [ none ↦ none | some v ↦ if p k v then some v else none ]
  unfolding get keep
  get-keep p k [] d = refl
  get-keep p k ((i, w) ∷ m) (fresh, d) =
      ground
        (arith, eq_iff i k, get-keep p k m d, get-none_of_has k (keep p m), has-keep-false p k m)

  pub Distinct-set : (k : String) (v : V) (m : JsMap V) → Distinct m → Distinct (set k v m)
  unfolding set has
  Distinct-set k v [] d = (refl, tt)
  Distinct-set k v ((i, w) ∷ m) (fresh, d) =
      ground (arith, eq_iff i k, Distinct-set k v m d, has-set k i v m, eq_iff k i)

  pub Distinct-delete : (k : String) (m : JsMap V) → Distinct m → Distinct (delete k m)
  unfolding delete
  Distinct-delete k [] d = tt
  Distinct-delete k ((i, w) ∷ m) (fresh, d) =
      ground (arith, Distinct-delete k m d, has-delete k i m)

  pub Distinct-keep : (p : String → V → Bool) (m : JsMap V) → Distinct m → Distinct (keep p m)
  unfolding keep
  Distinct-keep p [] d = tt
  Distinct-keep p ((i, w) ∷ m) (fresh, d) =
      ground (arith, Distinct-keep p m d, has-keep-false p i m)

  pub get-set_self : (k : String) (v : V) (m : JsMap V) → get k (set k v m) ≡ some v
  get-set_self k v m = simp (get-set, eq_refl)

pub ruleset map_laws = (get-set, get-delete, has-set, has-delete, eq_refl)
