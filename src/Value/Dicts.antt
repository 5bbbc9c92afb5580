-- ===== src/Value/Dicts.antt =====
-- `Dict`, the `IndexMap` of crates/ill-core/src/runtime/value.rs: the operations that the code calls,
-- over the entries in insertion order, and their laws.
use i_ll.Prelude.{
  ℕ, zero, suc, String, ◌≡◌, refl, Bool, false, ◌||◌, Option, none, some, arith, if◌then◌else◌,
  ◌==◌, eq_iff, eq_refl,
}
use i_ll.Value.{Value, Values, Dict, empty, entry, get}

-- `IndexMap::insert`: an old key keeps its place and takes the new value, a new key comes last.
unfoldable pub insert : String → Value → Dict → Dict
insert k v empty = entry k v empty
insert k v (entry j w d) = if j == k then entry j v d else entry j w (insert k v d)

-- `IndexMap::get_index`, the value alone.
unfoldable pub get_index : Dict → ℕ → Option Value
get_index empty i = none
get_index (entry k v d) zero = some v
get_index (entry k v d) (suc i) = get_index d i

-- `Vec::get`, `Vec::len` and the collection of a `Vec` of values.
unfoldable pub get_value? : Values → ℕ → Option Value
get_value? Values.nil i = none
get_value? (Values.cons v vs) zero = some v
get_value? (Values.cons v vs) (suc i) = get_value? vs i

unfoldable pub count : Values → ℕ
count Values.nil = 0
count (Values.cons v vs) = suc (count vs)

-- `IndexMap::contains_key`.
abbrev pub has_key : String → Dict → Bool
has_key k empty = false
has_key k (entry j v d) = j == k || has_key k d

pub get-empty : (k : String) → get k empty ≡ none
unfolding get
get-empty k = refl

pub get-insert :
    (j k : String) (v : Value) (d : Dict)
    → get j (insert k v d) ≡ (if k == j then some v else get j d)
unfolding get insert
get-insert j k v empty = refl
get-insert j k v (entry i w d) =
    ground (arith, get-insert j k v d, eq_iff i k, eq_iff i j, eq_iff k j)

pub get-insert_self : (k : String) (v : Value) (d : Dict) → get k (insert k v d) ≡ some v
get-insert_self k v d = simp (get-insert, eq_refl)
