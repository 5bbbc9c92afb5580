-- ===== src/Harness/Args.antt =====
-- The arguments of commands and declarations, evaluated (crates/ill-core/src/runtime/harness.rs).
use i_ll.Prelude.{ℕ, String, ◌<>◌, Option, none, some, List, [], ◌∷◌, drop, ok, ◌>>=◌, map_ok}
use i_ll.Ast.{Expr, KeywordArg, KeywordValue, VarDeclaration, Command}
use i_ll.Value.{Value, Dict, type_name}
use i_ll.Value.Dicts.{insert}
use i_ll.Eval.{Scope, Eval, fail, eval}
use i_ll.Runtime.{DeclaredVar, CommandArgs}

-- The key that a value makes.
key_of_value : Value → Eval String
key_of_value (Value.string s) = ok s
key_of_value (Value.atom a) = ok a
key_of_value v = fail ("map key must be identifier, string, or atom, got " <> type_name v)

module _ (scope : Scope) where
  -- A bare identifier is a literal key.
  unfoldable pub map_key : Expr → Eval String
  unfolding key_of_value
  map_key (Expr.ident x) = ok x.name
  map_key e = do v ← eval scope e; key_of_value v

  unfoldable pub eval_pairs : List (Expr × Expr) → Dict → Eval Dict
  unfolding map_key insert
  eval_pairs [] rec = ok rec
  eval_pairs ((k, v) ∷ pairs) rec = do
    key ← map_key k
    value ← eval scope v
    eval_pairs pairs (insert key value rec)

  unfoldable pub eval_keyword_value : KeywordValue → Eval Value
  unfolding eval_pairs
  eval_keyword_value (KeywordValue.expr e) = eval scope e
  eval_keyword_value (KeywordValue.map pairs) = map_ok Value.dict (eval_pairs pairs Dict.empty)

  eval_keyword_from : List KeywordArg → Dict → Eval Dict
  eval_keyword_from [] out = ok out
  eval_keyword_from (kw ∷ kws) out = do
    v ← eval_keyword_value kw.value
    eval_keyword_from kws (insert kw.key.name v out)

  unfoldable pub eval_keyword_args : List KeywordArg → Eval Dict
  unfolding eval_keyword_from eval_keyword_value insert
  eval_keyword_args args = eval_keyword_from args Dict.empty

  unfoldable pub eval_positional : List Expr → Eval (List Value)
  eval_positional [] = ok []
  eval_positional (e ∷ es) = do v ← eval scope e; vs ← eval_positional es; ok (v ∷ vs)

  -- The first `consumed` arguments are part of the command's name.
  unfoldable pub eval_command_args : Command → ℕ → Eval CommandArgs
  unfolding eval_positional eval_keyword_args
  eval_command_args cmd consumed = do
    positional ← eval_positional (drop consumed cmd.positional_args)
    keyword ← eval_keyword_args cmd.keyword_args
    ok (record { positional = positional; keyword = keyword })

  eval_default : Option Expr → Eval (Option Value)
  eval_default none = ok none
  eval_default (some e) = map_ok some (eval scope e)

  -- The declared variables of an actor.
  unfoldable pub eval_vars : List VarDeclaration → Eval (List DeclaredVar)
  unfolding eval_default
  eval_vars [] = ok []
  eval_vars (v ∷ vs) = do
    default ← eval_default v.default
    rest ← eval_vars vs
    ok (record { name = v.name.name; default = default } ∷ rest)
