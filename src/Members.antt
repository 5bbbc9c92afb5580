-- ===== src/Members.antt =====
-- The declared member variables of an actor (crates/ill-core/src/runtime/members.rs).
pub mod Slots
use Prim.Native.String.{compare}
use i_ll.Prelude.{
  String, Bool, true, false, Option, none, some, List, [], ◌∷◌, Result, ok, err, Ordering,
}
use i_ll.Prelude.Maps.{Map, lookup}
use i_ll.Value.{Value, Dict}
use i_ll.Value.Dicts.{insert}
use i_ll.Runtime.{DeclaredVar}

-- A `BTreeMap`: its entries in the order of the keys.
abbrev pub Members : Type 0
Members = Map (Option Value)

-- `BTreeMap::insert`.
unfoldable pub insert_slot : String → Option Value → Members → Members
insert_slot k v [] = (k, v) ∷ []
insert_slot k v ((j, w) ∷ m) =
    let rest = insert_slot k v m in
    elim (compare k j) [
      | Ordering.lt ↦ (k, v) ∷ (j, w) ∷ m
      | Ordering.eq ↦ (k, v) ∷ m
      | Ordering.gt ↦ (j, w) ∷ rest
    ]

add_declared : List DeclaredVar → Members → Members
add_declared [] slots = slots
add_declared (v ∷ vs) slots = add_declared vs (insert_slot v.name v.default slots)

unfoldable pub from_declarations : List DeclaredVar → Members
unfolding add_declared
from_declarations vars = add_declared vars []

slot_value : Option (Option Value) → Option Value
slot_value none = none
slot_value (some slot) = slot

unfoldable pub get : Members → String → Option Value
unfolding slot_value
get slots name = slot_value (lookup name slots)

is_some : Option (Option Value) → Bool
is_some none = false
is_some (some slot) = true

unfoldable pub is_declared : Members → String → Bool
unfolding is_some
is_declared slots name = is_some (lookup name slots)

pub data Undeclared : Type 0 where
  undeclared : Undeclared

assign : String → Value → Option (Option Value) → Members → Result Undeclared Members
assign name v none slots = err undeclared
assign name v (some slot) slots = ok (insert_slot name (some v) slots)

unfoldable pub set : Members → String → Value → Result Undeclared Members
unfolding assign
set slots name v = assign name v (lookup name slots) slots

with_slot : String → Option Value → Dict → Dict
with_slot name none out = out
with_slot name (some v) out = insert name v out

view_from : Members → Dict → Dict
unfolding with_slot
view_from [] out = out
view_from ((name, slot) ∷ slots) out = view_from slots (with_slot name slot out)

unfoldable pub assigned_view : Members → Dict
unfolding view_from
assigned_view slots = view_from slots Dict.empty
