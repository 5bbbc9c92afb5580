-- ===== src/Lower/Expr/Literals.antt =====
-- The pieces of string literals (crates/ill-core/src/lower.rs).
use Prim.Native.Char.{code}
use Prim.Native.String.{◌∷◌}
use i_ll.Prelude.{String, ltb, Option, none, some, if◌then◌else◌}
use i_ll.Ast.{Expr}

-- `StringFragment`.
pub data StringFragment : Type 0 where
  text_fragment : String → StringFragment
  interpolated : Expr → StringFragment

-- `&raw[1..raw.len() - 1]`. The slice panics where its ends are not those of characters.
unfoldable pub without_last : String → Option String
without_last String.[] = none
without_last (c ∷ String.[]) = if ltb (code c) 128 then some "" else none
without_last (c ∷ d ∷ s) = elim (without_last (d ∷ s)) [ none ↦ none | some t ↦ some (c ∷ t) ]

unfoldable pub strip_quotes : String → Option String
unfolding without_last
strip_quotes String.[] = none
strip_quotes (c ∷ s) = if ltb (code c) 128 then without_last s else none
