-- ===== src/Members/Slots.antt =====
-- The slots of an actor under declaration and assignment (crates/ill-core/src/runtime/members.rs).
use Prim.Native.String.{compare}
use text.Mathlib.Text.{is_eq}
use i_ll.Prelude.{
  String, Bool, true, false, ◌||◌, Option, none, some, List, [], ◌∷◌, ok, Ordering, any, ◌≡◌, refl,
  ◌∙◌, arith, ap, if◌then◌else◌, ◌==◌, eq_iff,
}
use i_ll.Prelude.Maps.{lookup}
use i_ll.Value.{Value}
use i_ll.Runtime.{DeclaredVar}
use i_ll.Members.{
  Members, insert_slot, add_declared, from_declarations, get, slot_value, is_declared, is_some, set,
  assign,
}

lookup-insert_slot :
    (j k : String) (v : Option Value) (m : Members)
    → lookup j (insert_slot k v m) ≡ (if k == j then some v else lookup j m)
unfolding lookup insert_slot
lookup-insert_slot j k v [] = refl
lookup-insert_slot j k v ((i, w) ∷ m) =
    choose (compare k i) (λ e. (eq_iff k i).0 (ap is_eq e)) (ap is_eq) (lookup-insert_slot j k v m)
  where
    choose :
        (o : Ordering)
        → (o ≡ Ordering.eq → k ≡ i)
        → (o ≡ Ordering.gt → (k == i) ≡ false)
        → lookup j (insert_slot k v m) ≡ (if k == j then some v else lookup j m)
        → lookup j (elim o as (λ _. Members) [
          | Ordering.lt ↦ (k, v) ∷ (i, w) ∷ m
          | Ordering.eq ↦ (k, v) ∷ m
          | Ordering.gt ↦ (i, w) ∷ insert_slot k v m
        ])
          ≡ (if k == j then some v else if i == j then some w else lookup j m)
    choose Ordering.lt same apart later = refl
    choose Ordering.eq same apart later = rw (same refl) (ground arith)
    choose Ordering.gt same apart later =
        ground (arith, later, apart refl, eq_iff k j, eq_iff i j, eq_iff k i)

add_declared-declared :
    (vars : List DeclaredVar) (slots : Members) (name : String)
    → is_declared (add_declared vars slots) name
      ≡ (any (λ (v : DeclaredVar). v.name == name) vars || is_declared slots name)
unfolding add_declared is_declared is_some
add_declared-declared [] slots name = refl
add_declared-declared (v ∷ vs) slots name =
    add_declared-declared vs (insert_slot v.name v.default slots) name
    ∙ ground (arith, lookup-insert_slot name v.name v.default slots)

or_false : (b : Bool) → (b || false) ≡ b
or_false true = refl
or_false false = refl

-- A slot is there exactly for the names that have a declaration.
pub from_declarations-declared :
    (vars : List DeclaredVar) (name : String)
    → is_declared (from_declarations vars) name ≡ any (λ (v : DeclaredVar). v.name == name) vars
unfolding from_declarations is_declared lookup is_some
from_declarations-declared vars name = add_declared-declared vars [] name ∙ or_false _

declared_slot :
    (o : Option (Option Value)) → is_some o ≡ true → (slot : Option Value) × (o ≡ some slot)
unfolding is_some
declared_slot none h = cc
declared_slot (some slot) h = (slot, refl)

-- An assignment to a declared name succeeds: it gives the name its value, leaves what every other
-- name has, and declares nothing.
pub set-declared :
    (slots : Members) (name : String) (v : Value)
    → is_declared slots name ≡ true
    → (after : Members) × (set slots name v ≡ ok after)
      × ((other : String)
          → (get after other ≡ (if name == other then some v else get slots other))
            × (is_declared after other ≡ is_declared slots other))
unfolding set assign is_declared get slot_value is_some
set-declared slots name v h =
    let (slot, found) = declared_slot (lookup name slots) h in
    (
      insert_slot name (some v) slots,
      rw (found) refl,
      λ other. (
        ground (arith, lookup-insert_slot other name (some v) slots),
        ground (arith, lookup-insert_slot other name (some v) slots, eq_iff name other, h),
      ),
    )
