-- ===== src/Args.antt =====
-- The `args_actor` at run time (crates/ill-core/src/actor_type/args_actor/runtime.rs).
pub mod Members
use Prim.Native.Char.{code}
use Prim.Native.String.{◌∷◌}
use i_ll.Prelude.{
  ℕ, zero, suc, ◌+◌, ◌-◌, ◌*◌, String, ◌<>◌, Bool, true, false, ◌&&◌, ◌||◌, Option, none, some,
  List, Result, ok, err, ◌>>=◌, any, nat_eq, leb, if◌then◌else◌, ◌==◌,
}
use i_ll.Prelude.Int.{ℤ, pos, negsuc}
use i_ll.Prelude.Parse.{parse_i64, parse_bool}
use i_ll.Prelude.Maps.{Map, lookup}
use i_ll.Value.{Value, Dict, type_name}
use i_ll.Value.Dicts.{insert}
use i_ll.Errors.{RuntimeError}
use i_ll.Runtime.{DeclaredVar, ConstructArgs, CommandArgs, RunOutcome, TeardownOutcome, teardown_ok}

-- The text without a leading colon.
strip_colon : String → String
strip_colon String.[] = ""
strip_colon (c ∷ s) = if nat_eq (code c) b':' then s else c ∷ s

refused {ℓ} : {A : Type ℓ} → String → String → Result RuntimeError A
refused name what = err (RuntimeError.construct ("--arg `" <> (name <> what)))

as_number : String → String → Option ℤ → Result RuntimeError Value
unfolding refused
as_number raw name none = refused name ("`: cannot parse `" <> (raw <> "` as a number"))
as_number raw name (some n) = ok (Value.number n)

as_bool : String → String → Option Bool → Result RuntimeError Value
unfolding refused
as_bool raw name none = refused name ("`: expected `true` or `false`, got `" <> (raw <> "`"))
as_bool raw name (some b) = ok (Value.bool b)

unfoldable pub coerce_to : String → Value → String → Result RuntimeError Value
unfolding as_number as_bool strip_colon refused parse_i64 parse_bool
coerce_to raw (Value.string s) name = ok (Value.string raw)
coerce_to raw (Value.number n) name = as_number raw name (parse_i64 raw)
coerce_to raw (Value.bool b) name = as_bool raw name (parse_bool raw)
coerce_to raw (Value.atom a) name = ok (Value.atom (strip_colon raw))
coerce_to raw other name =
    refused name
      ("`: default has type " <> (type_name other <> ", which cannot be set from the command line"))

-- The value of one variable.
unfoldable pub resolve_var : String → Option String → Option Value → Result RuntimeError Value
unfolding coerce_to
resolve_var name (some raw) (some default) = coerce_to raw default name
resolve_var name (some raw) none = ok (Value.string raw)
resolve_var name none (some default) = ok default
resolve_var name none none =
    err (RuntimeError.construct ("missing required --arg `" <> (name <> "`")))

abbrev pub declares : List DeclaredVar → String → Bool
declares vars key = any (λ (v : DeclaredVar). v.name == key) vars

-- The first key, in the order of the map, that is no declared variable.
unfoldable pub undeclared : List DeclaredVar → Map String → Option String
undeclared vars List.[] = none
undeclared vars (List.◌∷◌ (key, raw) cli) =
    if declares vars key then undeclared vars cli else some key

unfoldable pub resolve_vars : List DeclaredVar → Map String → Dict → Result RuntimeError Dict
unfolding resolve_var
resolve_vars List.[] cli members = ok members
resolve_vars (List.◌∷◌ v vs) cli members = do
  value ← resolve_var v.name (lookup v.name cli) v.default
  resolve_vars vs cli (insert v.name value members)

construct_unless : Option String → ConstructArgs → Map String → Result RuntimeError Dict
construct_unless (some key) args cli =
    err
      (RuntimeError.construct ("--arg `" <> (key <> "` is not a declared var on this args_actor")))
construct_unless none args cli = resolve_vars args.vars cli Dict.empty

-- `ArgsActorInstance::construct`: an instance is its members. `cli` is sorted by key.
unfoldable pub construct : ConstructArgs → Map String → Result RuntimeError Dict
unfolding construct_unless
construct args cli = construct_unless (undeclared args.vars cli) args cli

unfoldable pub execute : Dict → String → CommandArgs → RunOutcome
execute members cmd args =
    if cmd == "check" then RunOutcome.ok Dict.empty else RunOutcome.not_implemented "args_actor" cmd

unfoldable pub teardown : Dict → TeardownOutcome
teardown members = teardown_ok

unfoldable pub self_view : Dict → Option Dict
self_view members = some members
