-- ===== src/Harness/Block.antt =====
-- The run of one `as` block (`run_as_block` of crates/ill-core/src/runtime/harness.rs).
pub mod Names
pub mod Kept
pub mod Expected
use i_ll.Prelude.{
  String, ◌<>◌, Option, none, some, List, [], ◌∷◌, Result, ok, err, map_err, if◌then◌else◌,
}
use i_ll.Ast.{Span, Statement, Command, Let, LetValue, Assert, Annotation, AsBlock, ComparisonOp}
use i_ll.Value.{Value, Dict}
use i_ll.Value.Dicts.{insert}
use i_ll.Errors.{show_error}
use i_ll.Eval.{Scope, Eval, fail, bind, unbind, eval}
use i_ll.Assertion.{Regex, AssertResult, eval_assert}
use i_ll.Actor.{
  ActorType, actor_type_name, get_actor_type, resolve_command, Resolved, unknown_command_message,
}
use i_ll.Actor.Command.{CommandDef}
use i_ll.Diagnostic.{Diagnostic}
use i_ll.Runtime.{ActorRuntime, CommandArgs, RunOutcome}
use i_ll.Harness.Args.{eval_command_args}
use i_ll.Harness.Window.{has_error_ref}
use i_ll.Harness.Actors.{Live, get_actor, set_actor, bind_self}

-- crates/ill-core/src/runtime/report.rs
pub data StatementReport : Type 0 where
  validation_failure : List Diagnostic → StatementReport
  parse_failure : List Diagnostic → StatementReport
  construct_failure : String → String → Span → StatementReport
  command_failure : String → String → Span → Dict → Option String → StatementReport
  command_not_implemented : String → String → Span → StatementReport
  assert_failure :
      String → Span → Value → Option Value → Option ComparisonOp → Option String → StatementReport
  eval_error : String → Span → String → StatementReport

-- The scope-visible `error`.
unfoldable pub build_error_dict : String → Dict → Dict
unfolding insert
build_error_dict variant fields =
    insert variant (Value.dict fields) (insert "type" (Value.atom variant) Dict.empty)

unfoldable pub expect_of : Option Annotation → Option String
expect_of none = none
expect_of (some a) = a.value

let_value : LetValue → Scope → Eval Value
let_value (LetValue.expr e) scope = eval scope e
let_value (LetValue.parse source format) scope =
    fail "`let ... parse as ...` is not yet supported in runtime"

bind_value : String → Scope → Eval Value → Eval Scope
bind_value name scope (ok v) = ok (bind name v scope)
bind_value name scope (err e) = err e

unfoldable pub run_let : Let → Scope → Eval Scope
unfolding let_value bind_value
run_let l scope = bind_value l.name.name scope (let_value l.value scope)

-- An error of the evaluation, as `map_err` turns it into a report.
unfoldable pub as_eval_error : {A : Type 0} → String → Span → Eval A → Result StatementReport A
as_eval_error actor span r = map_err (λ e. eval_error actor span (show_error e)) r

module _ (actor : String) where
  judged : Assert → Scope → AssertResult → Result StatementReport Scope
  judged a scope r =
      if r.passed
      then ok scope
      else err (assert_failure actor a.span r.left r.right r.op (expect_of a.annotation))

  after_assert : Assert → Scope → Result StatementReport AssertResult → Result StatementReport Scope
  unfolding judged
  after_assert a scope (ok r) = judged a scope r
  after_assert a scope (err report) = err report

  -- An error is expected if a statement that follows, before the next command, refers to `error`.
  unfoldable pub settle :
      Command → List Statement → Scope → RunOutcome → Result StatementReport Scope
  unfolding build_error_dict expect_of
  settle cmd rest scope (RunOutcome.ok fields) = ok (bind "ok" (Value.dict fields) scope)
  settle cmd rest scope (RunOutcome.error variant fields) =
      if has_error_ref rest
      then ok (bind "error" (Value.dict (build_error_dict variant fields)) scope)
      else err (
          command_failure actor cmd.name.name cmd.span (build_error_dict variant fields)
            (expect_of cmd.annotation))
  settle cmd rest scope (RunOutcome.not_implemented a c) =
      err (command_not_implemented a c cmd.span)

module _ (R : ActorRuntime) (regex : String → Regex) (actor : String) where
  -- The actors and the world, which stay changed when a statement fails.
  abbrev pub Machine : Type 0
  Machine = Live R × R.World

  no_instance : Span → StatementReport
  no_instance span = eval_error actor span ("actor `" <> (actor <> "` has no live instance"))

  dispatch :
      Command
      → List Statement
      → Scope
      → CommandDef
      → CommandArgs
      → Option R.Instance
      → Machine
      → Result StatementReport Scope × Machine
  unfolding no_instance
  dispatch cmd rest scope def args none m = (err (no_instance cmd.span), m)
  dispatch cmd rest scope def args (some inst) (actors, w) =
      let (outcome, inst', w') = R.execute inst def.name args w in
      (settle actor cmd rest scope outcome, (set_actor R actor inst' actors, w'))

  with_args :
      Command
      → List Statement
      → Scope
      → CommandDef
      → Eval CommandArgs
      → Machine
      → Result StatementReport Scope × Machine
  unfolding dispatch
  with_args cmd rest scope def (err e) m = (err (eval_error actor cmd.span (show_error e)), m)
  with_args cmd rest scope def (ok args) (actors, w) =
      dispatch cmd rest scope def args (get_actor R actor actors) (actors, w)

  with_command :
      ActorType
      → Command
      → List Statement
      → Scope
      → Resolved
      → Machine
      → Result StatementReport Scope × Machine
  unfolding with_args
  with_command t cmd rest scope none m = (
    err (
        eval_error actor cmd.span
          (unknown_command_message (actor_type_name t) cmd.name.name cmd.positional_args)),
    m,
  )
  with_command t cmd rest scope (some (def, consumed)) m =
      with_args cmd rest scope def (eval_command_args scope cmd consumed) m

  unfoldable pub run_command :
      ActorType
      → Command
      → List Statement
      → Scope
      → Machine
      → Result StatementReport Scope × Machine
  unfolding with_command
  run_command t cmd rest scope m =
      with_command t cmd rest (unbind "error" (unbind "ok" scope))
        (resolve_command t cmd.name.name cmd.positional_args) m

  -- One statement, in a scope where the views of the actors are bound; `rest` follows it.
  unfoldable pub run_statement :
      ActorType
      → Span
      → Statement
      → List Statement
      → Scope
      → Machine
      → Result StatementReport Scope × Machine
  unfolding after_assert
  run_statement t span (Statement.command cmd) rest scope m = run_command t cmd rest scope m
  run_statement t span (Statement.let_ l) rest scope m =
      (as_eval_error actor l.span (run_let l scope), m)
  run_statement t span (Statement.assignment a) rest scope m =
      (err (eval_error actor span "assignment statements are not yet supported in runtime"), m)
  run_statement t span (Statement.assert a) rest scope m =
      (after_assert actor a scope (as_eval_error actor a.span (eval_assert regex a scope)), m)

  abbrev pub go_on :
      Result StatementReport Scope × Machine
      → (Scope → Machine → Option StatementReport × Machine)
      → Option StatementReport × Machine
  go_on (ok scope, m) k = k scope m
  go_on (err report, m) k = (some report, m)

  -- The statements in order, up to the first that fails.
  unfoldable pub run_body :
      ActorType → Span → List Statement → Scope → Machine → Option StatementReport × Machine
  run_body t span [] scope m = (none, m)
  run_body t span (stmt ∷ rest) scope (actors, w) =
      go_on (run_statement t span stmt rest (bind_self R scope actors actor) (actors, w))
        (run_body t span rest)

  unknown_type : Span → String → StatementReport
  unknown_type span name =
      eval_error actor span ("unknown actor type `" <> (name <> "` in registry"))

  run_with_type : AsBlock → String → Option ActorType → Machine → Option StatementReport × Machine
  unfolding unknown_type run_body run_statement run_command
  run_with_type block name none m = (some (unknown_type block.span name), m)
  run_with_type block name (some t) m = run_body t block.span block.body [] m

  run_with_instance : AsBlock → Option R.Instance → Machine → Option StatementReport × Machine
  unfolding no_instance run_with_type
  run_with_instance block none m = (some (no_instance block.span), m)
  run_with_instance block (some inst) m =
      run_with_type block (R.type_name inst) (get_actor_type (R.type_name inst)) m

-- `run_as_block`: the failure that stops the test, if there is one.
unfoldable pub run_as_block :
    (R : ActorRuntime)
    → (String → Regex)
    → AsBlock
    → Live R × R.World
    → Option StatementReport × (Live R × R.World)
unfolding run_with_instance
run_as_block R regex block (actors, w) =
    run_with_instance R regex block.actor.name block (get_actor R block.actor.name actors)
      (actors, w)
