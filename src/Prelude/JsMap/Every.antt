-- ===== src/Prelude/JsMap/Every.antt =====
-- A predicate that holds of every value of a map, and how the operations keep it.
use Prim.Native.String.{String}
use mathlib.Core.Bool.{Bool, true, false}
use mathlib.Core.Option.{Option, none, some}
use mathlib.Core.List.{[], ◌∷◌}
use text.Mathlib.Text.{◌==◌ as str_eq}
use esi_ts.Prelude.Tests.{if◌then◌else◌}
use esi_ts.Prelude.JsMap.{JsMap, get, set, delete, keep}

module _ {ℓ} {V : Type ℓ} (P : V → Type 0) where
  abbrev pub Every : JsMap V → Type 0
  Every [] = Unit
  Every ((k, v) ∷ m) = P v × Every m

  -- `P` of the value that a lookup finds.
  abbrev pub IfSome : Option V → Type 0
  IfSome none = Unit
  IfSome (some v) = P v

  IfSome-if : (b : Bool) (v : V) (o : Option V) → P v → IfSome o → IfSome (if b then some v else o)
  IfSome-if true v o p h = p
  IfSome-if false v o p h = h

  pub Every-get : (k : String) (m : JsMap V) → Every m → IfSome (get k m)
  unfolding get
  Every-get k [] h = tt
  Every-get k ((j, w) ∷ m) (p, h) = IfSome-if (str_eq j k) w (get k m) p (Every-get k m h)

  if_set :
      (b : Bool) (j k : String) (w v : V) (m n : JsMap V)
      → P w
      → P v
      → Every m
      → Every n
      → Every (if b then (k, v) ∷ m else (j, w) ∷ n)
  if_set true j k w v m n pw pv h h' = (pv, h)
  if_set false j k w v m n pw pv h h' = (pw, h')

  pub Every-set : (k : String) (v : V) (m : JsMap V) → P v → Every m → Every (set k v m)
  unfolding set
  Every-set k v [] p h = (p, tt)
  Every-set k v ((j, w) ∷ m) p (q, h) =
      if_set (str_eq j k) j k w v m (set k v m) q p h (Every-set k v m p h)

  if_drop :
      (b : Bool) (j : String) (w : V) (m : JsMap V)
      → P w
      → Every m
      → Every (if b then m else (j, w) ∷ m)
  if_drop true j w m p h = h
  if_drop false j w m p h = (p, h)

  pub Every-delete : (k : String) (m : JsMap V) → Every m → Every (delete k m)
  unfolding delete
  Every-delete k [] h = tt
  Every-delete k ((j, w) ∷ m) (p, h) = if_drop (str_eq j k) j w (delete k m) p (Every-delete k m h)

  if_keep :
      (b : Bool) (j : String) (w : V) (m : JsMap V)
      → P w
      → Every m
      → Every (if b then (j, w) ∷ m else m)
  if_keep true j w m p h = (p, h)
  if_keep false j w m p h = h

  pub Every-keep : (q : String → V → Bool) (m : JsMap V) → Every m → Every (keep q m)
  unfolding keep
  Every-keep q [] h = tt
  Every-keep q ((j, w) ∷ m) (p, h) = if_keep (q j w) j w (keep q m) p (Every-keep q m h)
