-- ===== src/Harness/Block/Kept.antt =====
-- What an `as` block leaves true of the world (crates/ill-core/src/runtime/harness.rs).
use i_ll.Prelude.{String, Option, none, some, List, [], ◌∷◌, Result, ok, err}
use i_ll.Ast.{Span, Statement, Command, AsBlock}
use i_ll.Actor.{ActorType, get_actor_type, resolve_command, Resolved}
use i_ll.Actor.Command.{CommandDef}
use i_ll.Eval.{Scope, Eval, unbind}
use i_ll.Assertion.{Regex}
use i_ll.Runtime.{ActorRuntime, ConstructArgs, CommandArgs}
use i_ll.Harness.Args.{eval_command_args}
use i_ll.Harness.Actors.{Live, get_actor, bind_self}
use i_ll.Harness.Block.{
  StatementReport, dispatch, with_args, with_command, run_command, run_statement, go_on, run_body,
  run_with_type, run_with_instance, run_as_block,
}

-- The operations of the actors keep a property of the world.
pub record Keeps (R : ActorRuntime) (P : R.World → Type 0) : Type 0 where
  pub constructs :
      (name : String) (args : ConstructArgs) (w : R.World) → P w → P (R.construct name args w).1
  pub executes :
      (inst : R.Instance) (name : String) (args : CommandArgs) (w : R.World)
      → P w
      → P (R.execute inst name args w).2
  pub teardowns : (inst : R.Instance) (w : R.World) → P w → P (R.teardown inst w).1

module _ (R : ActorRuntime) (regex : String → Regex) (P : R.World → Type 0) (kept : Keeps R P) where
  module _ (actor : String) where
    dispatch-Kept :
        (cmd : Command) (rest : List Statement) (scope : Scope) (def : CommandDef)
        (args : CommandArgs) (inst : Option R.Instance) (m : Live R × R.World)
        → P m.1
        → P (dispatch R regex actor cmd rest scope def args inst m).1.1
    unfolding dispatch
    dispatch-Kept cmd rest scope def args none m h = h
    dispatch-Kept cmd rest scope def args (some inst) (actors, w) h =
        kept.executes inst def.name args w h

    with_args-Kept :
        (cmd : Command) (rest : List Statement) (scope : Scope) (def : CommandDef)
        (args : Eval CommandArgs) (m : Live R × R.World)
        → P m.1
        → P (with_args R regex actor cmd rest scope def args m).1.1
    unfolding with_args
    with_args-Kept cmd rest scope def (err e) m h = h
    with_args-Kept cmd rest scope def (ok args) (actors, w) h =
        dispatch-Kept cmd rest scope def args (get_actor R actor actors) (actors, w) h

    with_command-Kept :
        (t : ActorType) (cmd : Command) (rest : List Statement) (scope : Scope) (found : Resolved)
        (m : Live R × R.World)
        → P m.1
        → P (with_command R regex actor t cmd rest scope found m).1.1
    unfolding with_command
    with_command-Kept t cmd rest scope none m h = h
    with_command-Kept t cmd rest scope (some (def, consumed)) m h =
        with_args-Kept cmd rest scope def (eval_command_args scope cmd consumed) m h

    run_statement-Kept :
        (t : ActorType) (span : Span) (stmt : Statement) (rest : List Statement) (scope : Scope)
        (m : Live R × R.World)
        → P m.1
        → P (run_statement R regex actor t span stmt rest scope m).1.1
    unfolding run_statement run_command
    run_statement-Kept t span (Statement.command cmd) rest scope m h =
        with_command-Kept t cmd rest (unbind "error" (unbind "ok" scope))
          (resolve_command t cmd.name.name cmd.positional_args) m h
    run_statement-Kept t span (Statement.let_ l) rest scope m h = h
    run_statement-Kept t span (Statement.assignment a) rest scope m h = h
    run_statement-Kept t span (Statement.assert a) rest scope m h = h

    go_on-Kept :
        (step : Result StatementReport Scope × (Live R × R.World))
        (k : Scope → Live R × R.World → Option StatementReport × (Live R × R.World))
        → P step.1.1
        → ((scope : Scope) (m : Live R × R.World) → P m.1 → P (k scope m).1.1)
        → P (go_on R regex actor step k).1.1
    go_on-Kept (ok scope, m) k h next = next scope m h
    go_on-Kept (err report, m) k h next = h

    run_body-Kept :
        (t : ActorType) (span : Span) (stmts : List Statement) (scope : Scope)
        (m : Live R × R.World)
        → P m.1
        → P (run_body R regex actor t span stmts scope m).1.1
    unfolding run_body
    run_body-Kept t span [] scope m h = h
    run_body-Kept t span (stmt ∷ rest) scope (actors, w) h =
        let bound = bind_self R scope actors actor in
        go_on-Kept (run_statement R regex actor t span stmt rest bound (actors, w))
          (run_body R regex actor t span rest)
          (run_statement-Kept t span stmt rest bound (actors, w) h) (run_body-Kept t span rest)

    with_type-Kept :
        (block : AsBlock) (name : String) (found : Option ActorType) (m : Live R × R.World)
        → P m.1
        → P (run_with_type R regex actor block name found m).1.1
    unfolding run_with_type
    with_type-Kept block name none m h = h
    with_type-Kept block name (some t) m h = run_body-Kept t block.span block.body [] m h

    with_instance-Kept :
        (block : AsBlock) (found : Option R.Instance) (m : Live R × R.World)
        → P m.1
        → P (run_with_instance R regex actor block found m).1.1
    unfolding run_with_instance
    with_instance-Kept block none m h = h
    with_instance-Kept block (some inst) m h =
        with_type-Kept block (R.type_name inst) (get_actor_type (R.type_name inst)) m h

  pub run_as_block-Kept :
      (block : AsBlock) (m : Live R × R.World) → P m.1 → P (run_as_block R regex block m).1.1
  unfolding run_as_block
  run_as_block-Kept block (actors, w) h =
      with_instance-Kept block.actor.name block (get_actor R block.actor.name actors) (actors, w) h
