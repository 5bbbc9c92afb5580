-- ===== src/Validate.antt =====
-- The validator: declarations first, then the `as` blocks in order
-- (crates/ill-core/src/validate.rs).
pub mod Expr
pub mod Command
pub mod Block
pub mod Modes
use i_ll.Prelude.{String, ◌<>◌, Option, none, some, List, [], ◌∷◌, ◌++◌}
use i_ll.Prelude.Maps.{Map, lookup, insert}
use i_ll.Ast.{ActorDeclaration, VarDeclaration, TopLevel, SourceFile}
use i_ll.Value.{ValueType}
use i_ll.Actor.{ActorType, initial_mode, constructor_keyword, get_actor_type}
use i_ll.Diagnostic.{Diagnostic, report, unknown_actor_type, duplicate_actor}
use i_ll.Validate.Expr.{check_squiggles, expr_type}
use i_ll.Validate.Command.{check_keyword_args, check_kwvalues}
use i_ll.Validate.Block.{ActorState, healthy, errored, Actors, check_as_block}

-- The actors that are declared, and what has been pushed.
abbrev pub State : Type 0
State = Actors × List Diagnostic

-- A variable is as its default is; without one its type is unknown.
declare_vars : List VarDeclaration → Map ValueType → Map ValueType
declare_vars [] vars = vars
declare_vars (v ∷ vs) vars =
    declare_vars vs
      (insert v.name.name (elim v.default [ none ↦ ValueType.unknown | some e ↦ expr_type e ]) vars)

check_defaults : List VarDeclaration → List Diagnostic
check_defaults [] = []
check_defaults (v ∷ vs) =
    elim v.default [ none ↦ [] | some e ↦ check_squiggles e ] ++ check_defaults vs

declare_as : ActorDeclaration → Option ActorType → State → State
unfolding declare_vars check_defaults check_kwvalues check_keyword_args
declare_as decl none (actors, ds) = (
  insert decl.name.name errored actors,
  ds
      ++ report decl.actor_type.span unknown_actor_type
          ("unknown actor type `" <> (decl.actor_type.name <> "`")),
)
declare_as decl (some t) (actors, ds) = (
  insert decl.name.name
      (healthy (record { type_def = t; mode = initial_mode t; vars = declare_vars decl.vars [] }))
      actors,
  ds
      ++ (check_keyword_args none decl.keyword_args (constructor_keyword t) decl.span
          ++ (check_kwvalues decl.keyword_args ++ check_defaults decl.vars)),
)

-- A healthy actor of that name makes this one a duplicate; an errored one gives way to it.
register_over : ActorDeclaration → Option ActorState → State → State
unfolding declare_as
register_over decl (some (healthy h)) (actors, ds) = (
  actors,
  ds
      ++ report decl.name.span duplicate_actor
          ("actor `" <> (decl.name.name <> "` is already declared")),
)
register_over decl o s = declare_as decl (get_actor_type decl.actor_type.name) s

unfoldable pub register_actor : ActorDeclaration → State → State
unfolding register_over
register_actor decl (actors, ds) = register_over decl (lookup decl.name.name actors) (actors, ds)

unfoldable pub register_all : List TopLevel → State → State
unfolding register_actor
register_all [] s = s
register_all (TopLevel.actor_declaration d ∷ items) s = register_all items (register_actor d s)
register_all (TopLevel.as_block b ∷ items) s = register_all items s

unfoldable pub check_blocks : List TopLevel → State → State
unfolding check_as_block
check_blocks [] s = s
check_blocks (TopLevel.actor_declaration d ∷ items) s = check_blocks items s
check_blocks (TopLevel.as_block b ∷ items) (actors, ds) =
    check_blocks items (check_as_block b actors ds)

-- `validate`: the diagnostics, in the order in which they are pushed.
unfoldable pub validate : SourceFile → List Diagnostic
unfolding register_all check_blocks
validate source = (check_blocks source.items (register_all source.items ([], []))).1
