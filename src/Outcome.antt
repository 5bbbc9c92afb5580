-- ===== src/Outcome.antt =====
-- The shapes of outcomes that `define_outcome!` declares
-- (crates/ill-core/src/actor_type/outcome.rs).
pub mod Schema
use i_ll.Prelude.{ℕ, String, Bool, List, [], ◌∷◌, map}
use i_ll.Prelude.Int.{ℤ}
use i_ll.Value.{Value, ValueType, Dict}
use i_ll.Value.Dicts.{insert}
use i_ll.Actor.Command.{OutcomeField, out}

-- The kinds that a field can be declared with.
pub data Kind : Type 0 where
  number string bool atom bytes dict : Kind

unfoldable pub RustType : Kind → Type 0
RustType number = ℤ
RustType string = String
RustType bool = Bool
RustType atom = String
RustType bytes = List ℕ
RustType dict = Dict

unfoldable pub outcome_wrap : (k : Kind) → RustType k → Value
unfolding RustType
outcome_wrap number e = Value.number e
outcome_wrap string e = Value.string e
outcome_wrap bool e = Value.bool e
outcome_wrap atom e = Value.atom e
outcome_wrap bytes e = Value.bytes e
outcome_wrap dict e = Value.dict e

unfoldable pub value_type : Kind → ValueType
value_type number = ValueType.number
value_type string = ValueType.string
value_type bool = ValueType.bool
value_type atom = ValueType.atom
value_type bytes = ValueType.bytes
value_type dict = ValueType.dict

-- A declaration: the fields in order, each with its kind.
abbrev pub Declaration : Type 0
Declaration = List (String × Kind)

-- The structure that it declares.
unfoldable pub Struct : Declaration → Type 0
unfolding RustType
Struct [] = Unit
Struct ((name, kind) ∷ fields) = RustType kind × Struct fields

-- `FIELDS`.
unfoldable pub fields_of : Declaration → List OutcomeField
unfolding value_type
fields_of [] = []
fields_of ((name, kind) ∷ fields) = out name (value_type kind) ∷ fields_of fields

insert_fields : (fields : Declaration) → Struct fields → Dict → Dict
unfolding Struct outcome_wrap insert
insert_fields [] s m = m
insert_fields ((name, kind) ∷ fields) (e, s) m =
    insert_fields fields s (insert name (outcome_wrap kind e) m)

unfoldable pub into_dict : (fields : Declaration) → Struct fields → Dict
unfolding insert_fields
into_dict fields s = insert_fields fields s Dict.empty
