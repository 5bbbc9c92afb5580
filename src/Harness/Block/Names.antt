-- ===== src/Harness/Block/Names.antt =====
-- What an `as` block leaves unchanged (crates/ill-core/src/runtime/harness.rs): the names of the live
-- actors and their order.
use i_ll.Prelude.{String, Option, none, some, List, [], ◌∷◌, Result, ok, err, map, ◌≡◌, refl, ◌∙◌}
use i_ll.Ast.{Span, Statement, Command, AsBlock}
use i_ll.Actor.{ActorType, get_actor_type, resolve_command, Resolved}
use i_ll.Actor.Command.{CommandDef}
use i_ll.Eval.{Scope, Eval, unbind}
use i_ll.Assertion.{Regex}
use i_ll.Runtime.{ActorRuntime, CommandArgs}
use i_ll.Harness.Args.{eval_command_args}
use i_ll.Harness.Actors.{Live, get_actor, bind_self}
use i_ll.Harness.Actors.Teardown.{set_actor-names}
use i_ll.Harness.Block.{
  StatementReport, dispatch, with_args, with_command, run_command, run_statement, go_on, run_body,
  run_with_type, run_with_instance, run_as_block,
}

module _ (R : ActorRuntime) (regex : String → Regex) (actor : String) where
  abbrev names : Live R × R.World → List String
  names m = map (λ a. a.0) m.0

  dispatch-names :
      (cmd : Command) (rest : List Statement) (scope : Scope) (def : CommandDef)
      (args : CommandArgs) (inst : Option R.Instance) (m : Live R × R.World)
      → names (dispatch R regex actor cmd rest scope def args inst m).1 ≡ names m
  unfolding dispatch
  dispatch-names cmd rest scope def args none m = refl
  dispatch-names cmd rest scope def args (some inst) (actors, w) = set_actor-names R actor _ actors

  with_args-names :
      (cmd : Command) (rest : List Statement) (scope : Scope) (def : CommandDef)
      (args : Eval CommandArgs) (m : Live R × R.World)
      → names (with_args R regex actor cmd rest scope def args m).1 ≡ names m
  unfolding with_args
  with_args-names cmd rest scope def (err e) m = refl
  with_args-names cmd rest scope def (ok args) (actors, w) =
      dispatch-names cmd rest scope def args (get_actor R actor actors) (actors, w)

  with_command-names :
      (t : ActorType) (cmd : Command) (rest : List Statement) (scope : Scope) (found : Resolved)
      (m : Live R × R.World)
      → names (with_command R regex actor t cmd rest scope found m).1 ≡ names m
  unfolding with_command
  with_command-names t cmd rest scope none m = refl
  with_command-names t cmd rest scope (some (def, consumed)) m =
      with_args-names cmd rest scope def (eval_command_args scope cmd consumed) m

  run_statement-names :
      (t : ActorType) (span : Span) (stmt : Statement) (rest : List Statement) (scope : Scope)
      (m : Live R × R.World)
      → names (run_statement R regex actor t span stmt rest scope m).1 ≡ names m
  unfolding run_statement run_command
  run_statement-names t span (Statement.command cmd) rest scope m =
      with_command-names t cmd rest (unbind "error" (unbind "ok" scope))
        (resolve_command t cmd.name.name cmd.positional_args) m
  run_statement-names t span (Statement.let_ l) rest scope m = refl
  run_statement-names t span (Statement.assignment a) rest scope m = refl
  run_statement-names t span (Statement.assert a) rest scope m = refl

  go_on-names :
      (step : Result StatementReport Scope × (Live R × R.World))
      (k : Scope → Live R × R.World → Option StatementReport × (Live R × R.World))
      → ((scope : Scope) (m : Live R × R.World) → names (k scope m).1 ≡ names m)
      → names (go_on R regex actor step k).1 ≡ names step.1
  go_on-names (ok scope, m) k kept = kept scope m
  go_on-names (err report, m) k kept = refl

  run_body-names :
      (t : ActorType) (span : Span) (stmts : List Statement) (scope : Scope) (m : Live R × R.World)
      → names (run_body R regex actor t span stmts scope m).1 ≡ names m
  unfolding run_body
  run_body-names t span [] scope m = refl
  run_body-names t span (stmt ∷ rest) scope (actors, w) =
      let bound = bind_self R scope actors actor in
      go_on-names (run_statement R regex actor t span stmt rest bound (actors, w))
        (run_body R regex actor t span rest) (run_body-names t span rest)
      ∙ run_statement-names t span stmt rest bound (actors, w)

  with_type-names :
      (block : AsBlock) (name : String) (found : Option ActorType) (m : Live R × R.World)
      → names (run_with_type R regex actor block name found m).1 ≡ names m
  unfolding run_with_type
  with_type-names block name none m = refl
  with_type-names block name (some t) m = run_body-names t block.span block.body [] m

  with_instance-names :
      (block : AsBlock) (found : Option R.Instance) (m : Live R × R.World)
      → names (run_with_instance R regex actor block found m).1 ≡ names m
  unfolding run_with_instance
  with_instance-names block none m = refl
  with_instance-names block (some inst) m =
      with_type-names block (R.type_name inst) (get_actor_type (R.type_name inst)) m

-- A block neither adds nor removes an actor, whether it fails or not.
pub run_as_block-names :
    (R : ActorRuntime) (regex : String → Regex) (block : AsBlock) (m : Live R × R.World)
    → map (λ a. a.0) (run_as_block R regex block m).1.0 ≡ map (λ a. a.0) m.0
unfolding run_as_block
run_as_block-names R regex block (actors, w) =
    with_instance-names R regex block.actor.name block (get_actor R block.actor.name actors)
      (actors, w)
