-- ===== src/Args/Members.antt =====
-- The members that `args_actor` exposes
-- (crates/ill-core/src/actor_type/args_actor/runtime.rs).
use i_ll.Prelude.{
  String, Bool, true, false, ◌||◌, Option, none, some, List, ok, >>=-eq-ok, ◌≡◌, refl, ◌∙◌, ap,
  arith, ◌==◌, eq_iff,
}
use i_ll.Prelude.Int.{ℤ}
use i_ll.Prelude.Parse.{parse_i64, parse_bool}
use i_ll.Prelude.Maps.{Map, lookup}
use i_ll.Value.{Value, Dict, type_name}
use i_ll.Value.Dicts.{insert, has_key}
use i_ll.Runtime.{DeclaredVar, ConstructArgs}
use i_ll.Args.{
  coerce_to, as_number, as_bool, resolve_var, declares, undeclared, resolve_vars, construct_unless,
  construct,
}

number-named :
    (raw name : String) (o : Option ℤ) (v : Value)
    → as_number raw name o ≡ ok v
    → type_name v ≡ "number"
unfolding as_number type_name
number-named raw name none v h = cc
number-named raw name (some n) v h = cc

bool-named :
    (raw name : String) (o : Option Bool) (v : Value)
    → as_bool raw name o ≡ ok v
    → type_name v ≡ "bool"
unfolding as_bool type_name
bool-named raw name none v h = cc
bool-named raw name (some b) v h = cc

-- What is read from the command line has the type of the default that it replaces.
pub coerce_to-type_name :
    (raw : String) (target : Value) (name : String) (v : Value)
    → coerce_to raw target name ≡ ok v
    → type_name v ≡ type_name target
unfolding coerce_to type_name
coerce_to-type_name raw (Value.string s) name v h = cc
coerce_to-type_name raw (Value.number n) name v h = number-named raw name (parse_i64 raw) v h
coerce_to-type_name raw (Value.bool b) name v h = bool-named raw name (parse_bool raw) v h
coerce_to-type_name raw (Value.atom a) name v h = cc
coerce_to-type_name raw _ name v h = cc

has_key-insert :
    (j k : String) (v : Value) (d : Dict) → has_key j (insert k v d) ≡ (k == j || has_key j d)
unfolding insert
has_key-insert j k v Dict.empty = refl
has_key-insert j k v (Dict.entry i w d) =
    ground (arith, has_key-insert j k v d, eq_iff i k, eq_iff i j, eq_iff k j)

resolve_vars-has_key :
    (vars : List DeclaredVar) (cli : Map String) (start members : Dict) (name : String)
    → resolve_vars vars cli start ≡ ok members
    → has_key name members ≡ (declares vars name || has_key name start)
unfolding resolve_vars
resolve_vars-has_key List.[] cli start members name h = cc
resolve_vars-has_key (List.◌∷◌ v vs) cli start members name h =
    let (value, later, resolved) =
      >>=-eq-ok _ (resolve_var v.name (lookup v.name cli) v.default) h in
    resolve_vars-has_key vs cli (insert v.name value start) members name later
    ∙ ground (arith, has_key-insert name v.name value start)

undeclared-none :
    (vars : List DeclaredVar) (cli : Map String) (key raw : String)
    → undeclared vars cli ≡ none
    → lookup key cli ≡ some raw
    → declares vars key ≡ true
unfolding undeclared lookup
undeclared-none vars List.[] key raw h found = cc
undeclared-none vars (List.◌∷◌ (k, r) cli) key raw h found =
    ground (arith, undeclared-none vars cli key raw, eq_iff k key, ap (declares vars))

constructed :
    (missing : Option String) (args : ConstructArgs) (cli : Map String) (members : Dict)
    → construct_unless missing args cli ≡ ok members
    → (missing ≡ none) × (resolve_vars args.vars cli Dict.empty ≡ ok members)
unfolding construct_unless
constructed none args cli members h = (refl, h)
constructed (some key) args cli members h = cc

or_false : (b : Bool) → (b || false) ≡ b
or_false true = refl
or_false false = refl

-- An actor that is constructed has exactly the variables that it declares as members.
pub construct-has_key :
    (args : ConstructArgs) (cli : Map String) (members : Dict) (name : String)
    → construct args cli ≡ ok members
    → has_key name members ≡ declares args.vars name
unfolding construct
construct-has_key args cli members name h =
    let (complete, resolved) = constructed (undeclared args.vars cli) args cli members h in
    resolve_vars-has_key args.vars cli Dict.empty members name resolved
    ∙ or_false (declares args.vars name)

-- Every argument that the command line gives is a member of an actor that is constructed.
pub construct-supplied :
    (args : ConstructArgs) (cli : Map String) (members : Dict) (key raw : String)
    → construct args cli ≡ ok members
    → lookup key cli ≡ some raw
    → has_key key members ≡ true
unfolding construct
construct-supplied args cli members key raw h found =
    construct-has_key args cli members key h
    ∙ undeclared-none args.vars cli key raw
        (constructed (undeclared args.vars cli) args cli members h).0 found
