-- ===== src/Prelude/Text.antt =====
-- The string operations of the language that the program uses, on native strings.
pub mod Parts
use Prim.Native.Nat.{ℕ}
use Prim.Native.Char.{code}
use Prim.Native.String.{String, [], ◌∷◌}
use mathlib.Core.Path.{◌≡◌, ◌∙◌, sym}
use mathlib.Core.Bool.{Bool, true, false, ◌||◌}
use text.Mathlib.Text.{◌==◌ as str_eq, starts_with}
use text.Mathlib.TextPositions.{eq_refl}
use text.Mathlib.TextEquality.{eq_iff}
use esi_ts.Prelude.Tests.{◌==◌, if◌then◌else◌}

-- `s.split(c)[0]` for a separator of one character: the text before its first occurrence.
unfoldable pub before : ℕ → String → String
before sep [] = []
before sep (c ∷ s) = if code c == sep then [] else c ∷ before sep s

-- `s.includes(part)`.
unfoldable pub includes : String → String → Bool
includes [] part = starts_with [] part
includes (c ∷ s) part = starts_with (c ∷ s) part || includes s part

pub str_eq_refl : (s : String) → str_eq s s ≡ true
str_eq_refl s = eq_refl s

pub str_ne : (s t : String) → str_eq s t ≡ false → ¬ (s ≡ t)
str_ne s t h p = clash (sym ((eq_iff s t).1 p) ∙ h)
  where
    clash : ¬ (true ≡ false)
    clash q = cc
