-- ===== src/Squiggle.antt =====
-- Squiggles: tagged string literals and their registry (crates/ill-core/src/runtime/squiggle). What a
-- squiggle makes of its rendered fragments is here; rendering them is `concat_fragments` of Eval.
pub mod Utf8
pub mod Hex
pub mod Honest
use i_ll.Prelude.{
  String, ◌<>◌, Bool, Option, none, some, List, [], ◌∷◌, Result, ok, err, ◌>>=◌, map_ok, find,
  if◌then◌else◌, ◌==◌,
}
use i_ll.Value.{Value, ValueType, type_name, is_of_type}
use i_ll.Errors.{RuntimeError}
use i_ll.Squiggle.Hex.{decode_hex}
use i_ll.Squiggle.Utf8.{into_bytes}

pub data Squiggle : Type 0 where
  sql json hex bytes re : Squiggle

unfoldable pub squiggle_name : Squiggle → String
squiggle_name sql = "sql"
squiggle_name json = "json"
squiggle_name hex = "hex"
squiggle_name bytes = "b"
squiggle_name re = "re"

unfoldable pub output_type : Squiggle → ValueType
output_type hex = ValueType.bytes
output_type bytes = ValueType.bytes
output_type s = ValueType.string

-- `Registry::build` and `Registry::get`.
abbrev registered : List Squiggle
registered = sql ∷ json ∷ hex ∷ bytes ∷ re ∷ []

unfoldable pub get_squiggle : String → Option Squiggle
unfolding squiggle_name
get_squiggle name = find (λ s. squiggle_name s == name) registered

-- `Squiggle::eval`, given what `concat_fragments` returns: by default a string.
unfoldable pub eval_squiggle : Squiggle → Result RuntimeError String → Result RuntimeError Value
unfolding into_bytes
eval_squiggle hex rendered = do s ← rendered; map_ok Value.bytes (decode_hex s)
eval_squiggle bytes rendered = do s ← rendered; ok (Value.bytes (into_bytes s))
eval_squiggle s rendered = map_ok Value.string rendered

-- `Debug` of a type.
unfoldable pub debug_type : ValueType → String
debug_type ValueType.string = "String"
debug_type ValueType.number = "Number"
debug_type ValueType.float = "Float"
debug_type ValueType.bool = "Bool"
debug_type ValueType.atom = "Atom"
debug_type ValueType.bytes = "Bytes"
debug_type ValueType.dict = "Dict"
debug_type ValueType.null = "Null"
debug_type ValueType.dynamic = "Dynamic"
debug_type ValueType.unknown = "Unknown"
