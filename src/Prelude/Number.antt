-- ===== src/Prelude/Number.antt =====
-- How the language reads numbers from text: `parseInt` with radix 10, and a run of digits.
use Prim.Native.Nat.{ℕ, zero, suc, ◌+◌, ◌-◌, ◌*◌}
use Prim.Native.Char.{code}
use Prim.Native.String.{String, [], ◌∷◌}
use mathlib.Core.Bool.{Bool, true, false, ◌||◌, ◌&&◌}
use mathlib.Core.Option.{Option, none, some}
use esi_ts.Prelude.Tests.{leb, ◌==◌, if◌then◌else◌}
use esi_ts.Prelude.Int.{ℤ, pos, negsuc}

abbrev pub is_digit : ℕ → Bool
is_digit n = leb b'0' n && leb n b'9'

-- The value of the digits at the start of a text, if there is one; `value` is that of the digits
-- before, and `any` says that there were some.
unfoldable pub digits_from : ℕ → Bool → String → Option ℕ
digits_from value any [] = if any then some value else none
digits_from value any (c ∷ s) =
    let rest = digits_from (value * 10 + (code c - b'0')) true s in
    if is_digit (code c) then rest else if any then some value else none

abbrev pub digits : String → Option ℕ
digits s = digits_from 0 false s

abbrev positive : Option ℕ → Option ℤ
positive none = none
positive (some n) = some (pos n)

abbrev negative : Option ℕ → Option ℤ
negative none = none
negative (some zero) = some (pos 0)
negative (some (suc n)) = some (negsuc n)

-- A space, or one of the control characters from tab to carriage return.
abbrev is_space : ℕ → Bool
is_space n = n == b' ' || (leb 9 n && leb n 13)

-- `parseInt(s, 10)`; none is NaN.
unfoldable pub parse_int : String → Option ℤ
parse_int [] = none
parse_int (c ∷ s) =
    let rest = parse_int s in
    if is_space (code c)
    then rest
    else if code c == b'-'
    then negative (digits s)
    else if code c == b'+'
    then positive (digits s)
    else positive (digits (c ∷ s))
