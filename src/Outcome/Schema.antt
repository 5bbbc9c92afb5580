-- ===== src/Outcome/Schema.antt =====
-- What an outcome holds against what it declares (crates/ill-core/src/actor_type/outcome.rs).
use i_ll.Prelude.{
  suc, ◌+◌, String, Bool, true, false, not, ◌&&◌, ◌||◌, some, [], ◌∷◌, all, any, length, nat_eq_iff,
  ◌≡◌, refl, sym, ◌∙◌, ap, arith, ◌==◌, eq_iff,
}
use i_ll.Value.{Value, Dict, get, len, holds, is_of_type}
use i_ll.Value.Dicts.{insert, has_key, get-insert, get-insert_self}
use i_ll.Actor.Command.{OutcomeField}
use i_ll.Exec.Outcomes.{fits}
use i_ll.Outcome.{
  Kind, number, string, bool, atom, bytes, dict, RustType, outcome_wrap, value_type, Declaration,
  Struct, fields_of, insert_fields, into_dict,
}

taken : String → Declaration → Bool
taken name fields = any (λ (f : String × Kind). f.0 == name) fields

-- No two fields have the same name.
unfoldable pub is_distinct : Declaration → Bool
unfolding taken
is_distinct [] = true
is_distinct (f ∷ fields) = not (taken f.0 fields) && is_distinct fields

-- None of the fields is in the dictionary.
free : Declaration → Dict → Bool
free fields m = all (λ (f : String × Kind). not (has_key f.0 m)) fields

has_key-insert_other :
    (j k : String) (v : Value) (m : Dict) → has_key j (insert k v m) ≡ (k == j || has_key j m)
unfolding insert
has_key-insert_other j k v Dict.empty = refl
has_key-insert_other j k v (Dict.entry i w d) =
    ground (arith, has_key-insert_other j k v d, eq_iff i k, eq_iff i j, eq_iff k j)

len-insert :
    (k : String) (v : Value) (m : Dict) → has_key k m ≡ false → len (insert k v m) ≡ suc (len m)
unfolding insert len
len-insert k v Dict.empty h = refl
len-insert k v (Dict.entry i w d) h = ground (arith, len-insert k v d)

free-insert :
    (k : String) (v : Value) (fields : Declaration) (m : Dict)
    → taken k fields ≡ false
    → free fields m ≡ true
    → free fields (insert k v m) ≡ true
unfolding free taken
free-insert k v [] m h h' = refl
free-insert k v ((j, kind) ∷ fields) m h h' =
    ground (arith, free-insert k v fields m, has_key-insert_other j k v m, eq_iff j k, eq_iff k j)

fields-get :
    (name : String) (fields : Declaration) (s : Struct fields) (m : Dict)
    → taken name fields ≡ false
    → get name (insert_fields fields s m) ≡ get name m
unfolding insert_fields Struct taken
fields-get name [] s m h = refl
fields-get name ((j, kind) ∷ fields) (e, s) m h =
    fields-get name fields s (insert j (outcome_wrap kind e) m) (ground arith)
    ∙ get-insert name j (outcome_wrap kind e) m
    ∙ ground arith

fields-len :
    (fields : Declaration) (s : Struct fields) (m : Dict)
    → is_distinct fields ≡ true
    → free fields m ≡ true
    → len (insert_fields fields s m) ≡ length fields + len m
unfolding insert_fields Struct is_distinct free
fields-len [] s m h h' = omega arith
fields-len ((j, kind) ∷ fields) (e, s) m h h' =
    let v = outcome_wrap kind e in
    let more =
      fields-len fields s (insert j v m) (ground arith)
        (free-insert j v fields m (ground arith) (ground arith)) in
    let one = len-insert j v m (ground arith) in omega (arith, more, one)

wrap-typed : (k : Kind) (e : RustType k) → is_of_type (outcome_wrap k e) (value_type k) ≡ true
unfolding RustType outcome_wrap value_type is_of_type
wrap-typed number e = refl
wrap-typed string e = refl
wrap-typed bool e = refl
wrap-typed atom e = refl
wrap-typed bytes e = refl
wrap-typed dict e = refl

fields-all :
    (fields : Declaration) (s : Struct fields) (m : Dict)
    → is_distinct fields ≡ true
    → all
        (λ (f : OutcomeField).
          holds (λ v. is_of_type v f.ty) (get f.name (insert_fields fields s m)))
        (fields_of fields)
      ≡ true
unfolding insert_fields Struct is_distinct fields_of
fields-all [] s m h = refl
fields-all ((j, kind) ∷ fields) (e, s) m h =
    let v = outcome_wrap kind e in
    let found : get j (insert_fields fields s (insert j v m)) ≡ some v =
      fields-get j fields s (insert j v m) (ground arith) ∙ get-insert_self j v m in
    let rest = fields-all fields s (insert j v m) (ground arith) in
    rw (found, wrap-typed kind e) rest

length-fields_of : (fields : Declaration) → length (fields_of fields) ≡ length fields
unfolding fields_of
length-fields_of [] = refl
length-fields_of ((j, kind) ∷ fields) = ap suc (length-fields_of fields)

free-empty : (fields : Declaration) → free fields Dict.empty ≡ true
unfolding free
free-empty [] = refl
free-empty (f ∷ fields) = free-empty fields

-- What an outcome becomes has exactly the fields that its declaration lists for the static
-- description, each with its type, if no two of them have the same name.
pub into_dict-fits :
    (fields : Declaration) (s : Struct fields)
    → is_distinct fields ≡ true
    → fits (fields_of fields) (into_dict fields s) ≡ true
unfolding into_dict fits
into_dict-fits fields s h =
    let count : length (fields_of fields) ≡ len (insert_fields fields s Dict.empty) =
      length-fields_of fields
      ∙ sym (fields-len fields s Dict.empty h (free-empty fields) ∙ unfold len in omega arith) in
    rw ((nat_eq_iff _ _).1 count) (fields-all fields s Dict.empty h)
