-- ===== src/Value/Equality.antt =====
-- `==` of values is reflexive but for NaN (crates/ill-core/src/runtime/value.rs).
use i_ll.Prelude.{ℕ, ◌≡◌, refl, String, true, false, some, List, [], ◌∷◌, arith, eq_iff, eq_refl}
use i_ll.Prelude.Int.{int_eq_iff}
use i_ll.Value.{
  Value, Values, Dict, empty, entry, get, is_nan, float_eq, bytes_eq, value_eq, values_eq,
  entries_eq,
}
use i_ll.Value.Dicts.{has_key}

-- No NaN at any depth, and no key twice in a dictionary.
unfoldable mutual
  pub IsPlain : Value → Type 0
  IsPlain (Value.float x) = is_nan x ≡ false
  IsPlain (Value.array vs) = ArePlain vs
  IsPlain (Value.dict d) = HasPlain d
  IsPlain _ = Unit

  pub ArePlain : Values → Type 0
  ArePlain Values.nil = Unit
  ArePlain (Values.cons v vs) = IsPlain v × ArePlain vs

  pub HasPlain : Dict → Type 0
  HasPlain empty = Unit
  HasPlain (entry k v d) = (has_key k d ≡ false) × IsPlain v × HasPlain d

bytes_eq_refl : (b : List ℕ) → bytes_eq b b ≡ true
bytes_eq_refl [] = refl
bytes_eq_refl (x ∷ b) = ground (arith, bytes_eq_refl b)

float_eq_refl : (x : ℕ) → is_nan x ≡ false → float_eq x x ≡ true
float_eq_refl x h = ground arith

-- Every entry of `d` is one of `e`.
abbrev Includes : Dict → Dict → Type 0
Includes d e = (k : String) (v : Value) → get k d ≡ some v → get k e ≡ some v

has_key-get : (j : String) (w : Value) (d : Dict) → get j d ≡ some w → has_key j d ≡ true
unfolding get
has_key-get j w empty h = cc
has_key-get j w (entry k v d) h = ground (arith, has_key-get j w d)

Includes-rest :
    (k : String) (v : Value) (d e : Dict)
    → has_key k d ≡ false
    → Includes (entry k v d) e
    → Includes d e
unfolding get
Includes-rest k v d e fresh sub j w h = sub j w (ground (arith, has_key-get j w d h, eq_iff k j))

get_first : (k : String) (v : Value) (d : Dict) → get k (entry k v d) ≡ some v
unfolding get
get_first k v d = rw eq_refl

mutual
  unfolding IsPlain value_eq

  value_refl : (v : Value) → IsPlain v → value_eq v v ≡ true
  value_refl (Value.string s) h = eq_refl s
  value_refl (Value.number n) h = (int_eq_iff n n).1 refl
  value_refl (Value.float x) h = float_eq_refl x h
  value_refl (Value.bool true) h = refl
  value_refl (Value.bool false) h = refl
  value_refl (Value.atom a) h = eq_refl a
  value_refl (Value.bytes b) h = bytes_eq_refl b
  value_refl (Value.array vs) h = values_refl vs h
  value_refl (Value.dict d) h = rw (entries_refl d d h (λ k v p. p)) (ground arith)
  value_refl Value.null h = refl

  values_refl : (vs : Values) → ArePlain vs → values_eq vs vs ≡ true
  values_refl Values.nil h = refl
  values_refl (Values.cons v vs) (hv, hvs) = rw (value_refl v hv) (values_refl vs hvs)

  entries_refl : (d e : Dict) → HasPlain d → Includes d e → entries_eq d e ≡ true
  entries_refl empty e h sub = refl
  entries_refl (entry k v d) e (fresh, hv, hd) sub =
      rw (sub k v (get_first k v d), value_refl v hv)
        (entries_refl d e hd (Includes-rest k v d e fresh sub))

-- A value that holds no NaN and repeats no key is equal to itself.
pub value_eq_refl : (v : Value) → IsPlain v → value_eq v v ≡ true
value_eq_refl v h = value_refl v h
