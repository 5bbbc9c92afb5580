-- ===== src/Value.antt =====
-- Runtime values and the ordered dictionaries inside them (crates/ill-core/src/runtime/value.rs),
-- with the static types of crates/ill-core/src/actor_type/mod.rs.
pub mod Dicts
pub mod Display
pub mod Equality
use i_ll.Prelude.{
  ℕ, zero, suc, String, Bool, true, false, not, ◌&&◌, ◌||◌, Option, none, some, List, ◌/◌, ◌%◌, ltb,
  nat_eq, if◌then◌else◌, ◌==◌,
}
use i_ll.Prelude.Int.{ℤ, int_eq}

-- `Array` is a `Vec<Value>` and `Dict` an `IndexMap<String, Value>`: its entries in insertion order.
-- An `f64` is its bit pattern, a number below 2 ^ 64. A `String` is a text, a byte a number below 256.
mutual
  pub data Value : Type 0 where
    string : String → Value
    number : ℤ → Value
    float : ℕ → Value
    bool : Bool → Value
    atom : String → Value
    bytes : List ℕ → Value
    array : Values → Value
    dict : Dict → Value
    null : Value

  pub data Values : Type 0 where
    nil : Values
    cons : Value → Values → Values

  pub data Dict : Type 0 where
    empty : Dict
    entry : String → Value → Dict → Dict

pub data ValueType : Type 0 where
  string number float bool atom bytes dict null dynamic unknown : ValueType

unfoldable pub type_name : Value → String
type_name (Value.string s) = "string"
type_name (Value.number n) = "number"
type_name (Value.float x) = "float"
type_name (Value.bool b) = "bool"
type_name (Value.atom a) = "atom"
type_name (Value.bytes b) = "bytes"
type_name (Value.array vs) = "array"
type_name (Value.dict d) = "dict"
type_name Value.null = "null"

unfoldable pub is_of_type : Value → ValueType → Bool
is_of_type v ValueType.dynamic = true
is_of_type v ValueType.unknown = true
is_of_type (Value.string s) ValueType.string = true
is_of_type (Value.number n) ValueType.number = true
is_of_type (Value.float x) ValueType.float = true
is_of_type (Value.bool b) ValueType.bool = true
is_of_type (Value.atom a) ValueType.atom = true
is_of_type (Value.bytes b) ValueType.bytes = true
is_of_type (Value.dict d) ValueType.dict = true
is_of_type Value.null ValueType.null = true
is_of_type v t = false

-- IEEE 754 on bit patterns, the sign dropped: a NaN lies above infinity, 2047 * 2 ^ 52.
abbrev pub is_nan : ℕ → Bool
is_nan x = ltb 9218868437227405312 (x % 9223372036854775808)

abbrev pub is_zero : ℕ → Bool
is_zero x = nat_eq (x % 9223372036854775808) 0

-- `==` of `f64`.
abbrev pub float_eq : ℕ → ℕ → Bool
float_eq x y = not (is_nan x) && (not (is_nan y) && (nat_eq x y || (is_zero x && is_zero y)))

abbrev pub bytes_eq : List ℕ → List ℕ → Bool
bytes_eq List.[] List.[] = true
bytes_eq (List.◌∷◌ a as') (List.◌∷◌ b bs) = nat_eq a b && bytes_eq as' bs
bytes_eq _ _ = false

-- `IndexMap::get` and `IndexMap::len`.
unfoldable pub get : String → Dict → Option Value
get k empty = none
get k (entry j v d) = if j == k then some v else get k d

unfoldable pub len : Dict → ℕ
len empty = 0
len (entry j v d) = suc (len d)

-- The value is there and passes the test.
abbrev pub holds : (Value → Bool) → Option Value → Bool
holds p none = false
holds p (some v) = p v

-- `==` of values, as derived. Two dictionaries are equal if they are as long and each entry of the
-- first has an equal value in the second, whatever the order.
unfoldable mutual
  pub value_eq : Value → Value → Bool
  value_eq (Value.string s) (Value.string t) = s == t
  value_eq (Value.number m) (Value.number n) = int_eq m n
  value_eq (Value.float x) (Value.float y) = float_eq x y
  value_eq (Value.bool true) (Value.bool b) = b
  value_eq (Value.bool false) (Value.bool b) = not b
  value_eq (Value.atom a) (Value.atom b) = a == b
  value_eq (Value.bytes a) (Value.bytes b) = bytes_eq a b
  value_eq (Value.array xs) (Value.array ys) = values_eq xs ys
  value_eq (Value.dict d) (Value.dict e) = nat_eq (len d) (len e) && entries_eq d e
  value_eq Value.null Value.null = true
  value_eq _ _ = false

  pub values_eq : Values → Values → Bool
  values_eq Values.nil Values.nil = true
  values_eq (Values.cons v vs) (Values.cons w ws) = value_eq v w && values_eq vs ws
  values_eq _ _ = false

  pub entries_eq : Dict → Dict → Bool
  entries_eq empty e = true
  entries_eq (entry k v d) e = holds (value_eq v) (get k e) && entries_eq d e
