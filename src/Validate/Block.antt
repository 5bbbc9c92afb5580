-- ===== src/Validate/Block.antt =====
-- The validator's walk over the statements of an `as` block (crates/ill-core/src/validate.rs).
pub mod Modes
use i_ll.Prelude.{
  String, ◌<>◌, Bool, true, false, ◌||◌, Option, none, some, List, [], ◌∷◌, ◌++◌, if◌then◌else◌,
  ◌==◌,
}
use i_ll.Prelude.Maps.{Map, lookup, insert}
use i_ll.Ast.{Span, Expr, Statement, LetValue, Let, Command, AsBlock}
use i_ll.Value.{ValueType}
use i_ll.Actor.Command.{Mode, OutcomeField, ErrorTypeDef}
use i_ll.Diagnostic.{Diagnostic, report, unknown_actor}
use i_ll.Validate.Expr.{
  check_squiggles, expr_starts_with_ident, CommandOutcome, implied_ok, is_ok, advance_outcome,
  expr_type_in_actor,
}
use i_ll.Validate.Command.{HealthyActor, check_command}

-- A declared actor; `errored` is a declaration that was reported already.
pub data ActorState : Type 0 where
  healthy : HealthyActor → ActorState
  errored : ActorState

abbrev pub Actors : Type 0
Actors = Map ActorState

unfoldable pub as_healthy : Option ActorState → Option HealthyActor
as_healthy (some (healthy h)) = some h
as_healthy o = none

change : String → (HealthyActor → HealthyActor) → Option HealthyActor → Actors → Actors
change name f none actors = actors
change name f (some h) actors = insert name (healthy (f h)) actors

-- `if let Some(state) = self.healthy_mut(name) { … }`.
unfoldable pub with_healthy : String → (HealthyActor → HealthyActor) → Actors → Actors
unfolding change
with_healthy name f actors = change name f (as_healthy (lookup name actors)) actors

-- The local variables of `check_as_block`, with the actors and what has been pushed.
pub record BlockState : Type 0 where
  pub actors : Actors
  pub ok_fields : List OutcomeField
  pub error_types : List ErrorTypeDef
  pub outcome : CommandOutcome
  pub pending : Option Mode
  pub diagnostics : List Diagnostic

unfoldable pub push_all : BlockState → List Diagnostic → BlockState
push_all s ds = record s { diagnostics = s.diagnostics ++ ds }

enter : String → Option Mode → Actors → Actors
enter name none actors = actors
enter name (some m) actors = with_healthy name (λ h. record h { mode = m }) actors

-- The mode transition that waits is made if the last command succeeded.
unfoldable pub apply_pending : String → BlockState → Actors
unfolding enter
apply_pending name s = if is_ok s.outcome then enter name s.pending s.actors else s.actors

-- A reference to `ok` or to `error` settles the outcome of the last command.
unfoldable pub advance : Bool → Span → BlockState → BlockState
unfolding push_all
advance ok_ref span s =
    let (outcome, ds) = advance_outcome s.outcome ok_ref span in
    record s { outcome = outcome; diagnostics = s.diagnostics ++ ds }

unfoldable pub note_let : Expr → Span → BlockState → BlockState
note_let e span s =
    if expr_starts_with_ident e "ok"
    then advance true span s
    else if expr_starts_with_ident e "error"
    then advance false span s
    else s

unfoldable pub note_assert : Expr → Span → BlockState → BlockState
note_assert e span s =
    let asserts_ok = expr_starts_with_ident e "ok" in
    if asserts_ok || expr_starts_with_ident e "error" then advance asserts_ok span s else s

vars_of : Option HealthyActor → Map ValueType
vars_of none = []
vars_of (some h) = h.vars

-- The format of a `parse`.
parsed_type : String → ValueType
parsed_type format = if format == "json" then ValueType.dynamic else ValueType.unknown

set_var : String → String → ValueType → BlockState → BlockState
set_var actor name ty s = record s {
  actors = with_healthy actor (λ h. record h { vars = insert name ty h.vars }) s.actors;
}

module _ (actor : String) where
  unfoldable pub check_let : Let → LetValue → BlockState → BlockState
  unfolding note_let push_all vars_of parsed_type set_var
  check_let l (LetValue.expr e) s =
      let noted = push_all (note_let e l.span s) (check_squiggles e) in
      set_var actor l.name.name
        (expr_type_in_actor (vars_of (as_healthy (lookup actor noted.actors))) noted.ok_fields
          noted.error_types e)
        noted
  check_let l (LetValue.parse source format) s =
      set_var actor l.name.name (parsed_type format.name) (push_all s (check_squiggles source))

  unfoldable pub check_new_command : Command → BlockState → BlockState
  unfolding apply_pending
  check_new_command cmd s =
      let actors = apply_pending actor s in
      let checked = check_command (as_healthy (lookup actor actors)) cmd in
      record {
        actors = actors;
        ok_fields = checked.ok_fields;
        error_types = checked.error_types;
        outcome = implied_ok;
        pending = checked.transition;
        diagnostics = s.diagnostics ++ checked.diagnostics;
      }

  right_squiggles : Option Expr → List Diagnostic
  right_squiggles none = []
  right_squiggles (some e) = check_squiggles e

  unfoldable pub check_statement : Statement → BlockState → BlockState
  unfolding check_let check_new_command note_assert push_all right_squiggles
  check_statement (Statement.command cmd) s = check_new_command cmd s
  check_statement (Statement.let_ l) s = check_let l l.value s
  check_statement (Statement.assignment a) s =
      push_all s (check_squiggles a.target ++ check_squiggles a.value)
  check_statement (Statement.assert a) s =
      push_all (note_assert a.left a.span s) (check_squiggles a.left ++ right_squiggles a.right)

  unfoldable pub check_body : List Statement → BlockState → BlockState
  check_body [] s = s
  check_body (stmt ∷ stmts) s = check_body stmts (check_statement stmt s)

abbrev pub block_start : Actors → List Diagnostic → BlockState
block_start actors ds = record {
  actors = actors;
  ok_fields = [];
  error_types = [];
  outcome = implied_ok;
  pending = none;
  diagnostics = ds;
}

check_found : AsBlock → Option ActorState → Actors → List Diagnostic → Actors × List Diagnostic
check_found block none actors ds = (
  actors,
  ds ++ report block.actor.span unknown_actor ("unknown actor `" <> (block.actor.name <> "`")),
)
check_found block (some errored) actors ds = (actors, ds)
check_found block (some (healthy h)) actors ds =
    let end = check_body block.actor.name block.body (block_start actors ds) in
    (apply_pending block.actor.name end, end.diagnostics)

unfoldable pub check_as_block : AsBlock → Actors → List Diagnostic → Actors × List Diagnostic
unfolding check_found check_body check_statement apply_pending
check_as_block block actors ds = check_found block (lookup block.actor.name actors) actors ds
