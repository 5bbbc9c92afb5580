-- ===== src/Prelude/Parse.antt =====
-- `str::parse` of the standard library at `i64` and `bool`.
pub mod RoundTrip
use Prim.Native.Nat.{ℕ, zero, suc, ◌+◌, ◌-◌, ◌*◌}
use Prim.Native.Char.{code}
use Prim.Native.String.{String, ◌∷◌}
use mathlib.Core.Bool.{Bool, true, false, ◌&&◌}
use mathlib.Core.Option.{Option, none, some}
use text.Mathlib.Text.{◌==◌}
use i_ll.Prelude.Int.{ℤ, pos, negsuc}
use i_ll.Prelude.Tests.{nat_eq, leb, if◌then◌else◌}

-- `str::parse::<i64>`: an optional sign, then digits, within the range.
parse_digits : ℕ → String → Option ℕ
parse_digits acc String.[] = some acc
parse_digits acc (c ∷ s) =
    let rest = parse_digits (acc * 10 + (code c - b'0')) s in
    if leb b'0' (code c) && leb (code c) b'9' then rest else none

parse_magnitude : String → Option ℕ
unfolding parse_digits
parse_magnitude String.[] = none
parse_magnitude (c ∷ s) = parse_digits 0 (c ∷ s)

positive : Option ℕ → Option ℤ
positive none = none
positive (some n) = if leb n 9223372036854775807 then some (pos n) else none

negative : Option ℕ → Option ℤ
negative none = none
negative (some zero) = some (pos 0)
negative (some (suc n)) = if leb n 9223372036854775807 then some (negsuc n) else none

unfoldable pub parse_i64 : String → Option ℤ
unfolding parse_magnitude positive negative
parse_i64 String.[] = none
parse_i64 (c ∷ s) =
    if nat_eq (code c) b'-'
    then negative (parse_magnitude s)
    else if nat_eq (code c) b'+'
    then positive (parse_magnitude s)
    else positive (parse_magnitude (c ∷ s))

-- `str::parse::<bool>`.
unfoldable pub parse_bool : String → Option Bool
parse_bool s = if s == "true" then some true else if s == "false" then some false else none
