-- ===== src/Prelude/Text/Parts.antt =====
-- What a text includes: its prefixes, and what the ends of it include.
use Prim.Native.Nat.{ℕ}
use Prim.Native.Char.{code}
use Prim.Native.String.{String, [], ◌∷◌, ◌++◌}
use Prim.Native.String.append as append
use mathlib.Core.Path.{◌≡◌, refl, sym, ap, ◌∙◌}
use mathlib.Core.Bool.{Bool, true, ◌||◌}
use mathlib.Core.Logic.{inl, inr}
use native.Mathlib.Omega.{arith}
use text.Mathlib.Text.{starts_with}
use text.Mathlib.TextPositions.{starts_with-append}
use esi_ts.Prelude.Tests.{◌==◌, Bool-cases}
use esi_ts.Prelude.Text.{before, includes}

-- What comes before a separator is a prefix.
before-append : (sep : ℕ) (s : String) → (r : String) × (before sep s ++ r ≡ s)
unfolding before
before-append sep [] = ("", refl)
before-append sep (c ∷ s) = elim (Bool-cases (code c == sep)) [
  | inl e ↦ (c ∷ s, rw e (append.nil (c ∷ s)))
  | inr e ↦
      let (r, p) = before-append sep s in
      (r, rw e (append.cons c (before sep s) r ∙ ap (λ t. c ∷ t) p))
]

or_true : (a b : Bool) → b ≡ true → (a || b) ≡ true
or_true a b h = ground arith

pub includes-starts : (s p : String) → starts_with s p ≡ true → includes s p ≡ true
unfolding includes
includes-starts [] p h = h
includes-starts (c ∷ s) p h = rw h refl

pub includes-append : (s t p : String) → includes t p ≡ true → includes (s ++ t) p ≡ true
unfolding includes
includes-append [] t p h = ap (λ u. includes u p) (append.nil t) ∙ h
includes-append (c ∷ s) t p h =
    ap (λ u. includes u p) (append.cons c s t)
    ∙ or_true (starts_with (c ∷ (s ++ t)) p) (includes (s ++ t) p) (includes-append s t p h)

-- A text includes what comes before its first separator.
pub includes-before : (sep : ℕ) (s : String) → includes s (before sep s) ≡ true
includes-before sep s =
    let (r, p) = before-append sep s in
    includes-starts s (before sep s)
      (ap (λ t. starts_with t (before sep s)) (sym p) ∙ starts_with-append (before sep s) r)
