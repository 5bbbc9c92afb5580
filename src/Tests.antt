-- ===== src/Tests.antt =====
-- Example runs: concrete files, values and actors on which the theorems are applied.
mod Broker
mod Drivers
mod Lowering
mod Terminal
use mathlib.Core.Path.{subst}
use i_ll.Prelude.{
  String, true, false, none, some, List, [], ◌∷◌, ◌++◌, Result, ok, err, ◌>>=◌, map_ok, map, not, ℕ,
  ◌&&◌, Bool, false≢true, ap, if◌then◌else◌, ◌≡◌, ◌≢◌, refl, ◌≤◌, ◌↔◌, length, arith,
}
use i_ll.Prelude.Int.{pos, negsuc}
use i_ll.Ast.{
  Span, Ident, Expr, Exprs, Fragments, ComparisonOp, Command, Statement, AsBlock, ActorDeclaration,
  TopLevel, SourceFile,
}
use i_ll.Value.{Value, Values, Dict, value_eq, is_of_type}
use i_ll.Value.Equality.{value_eq_refl, IsPlain}
use i_ll.Squiggle.Hex.{decode_hex}
use i_ll.Squiggle.Hex.RoundTrip.{
  encode_hex, decode_hex-encode_hex, without_blanks, decode_hex-without_blanks,
}
use i_ll.Eval.{eval, render, concat_fragments}
use i_ll.Eval.Typing.{eval-expr_type}
use i_ll.Eval.Registered.{blames_squiggle, check_squiggles-eval}
use i_ll.Eval.Splicing.{eval-render}
use i_ll.Eval.Indexing.{joined, eval-index-joined}
use i_ll.Squiggle.{Squiggle, output_type, eval_squiggle, get_squiggle}
use i_ll.Squiggle.Honest.{run_squiggle-honest}
use i_ll.Eval.{run_squiggle}
use i_ll.Assertion.{Regex, compare_values}
use i_ll.Assertion.Laws.{opposite, compare_values-opposite}
use i_ll.Actor.{ActorType, actor_type_name, get_actor_type, command, resolve_command, owns_target}
use i_ll.Actor.Command.{exec_stopped, same_mode}
use i_ll.Actor.Mqtt.{receive_publish}
use i_ll.Actor.Laws.{get_actor_type_iff, resolve_command_sound, resolve_command-owns_target}
use i_ll.Diagnostic.{Diagnostic, error_at}
use i_ll.Runtime.{ActorRuntime, RunOutcome, teardown_ok, Joined}
use i_ll.Validate.{validate, register_all, check_blocks}
use i_ll.Prelude.Maps.{lookup}
use i_ll.Validate.Expr.{
  expr_type, is_ok, expr_starts_with_ident, advance_outcome, check_squiggles, for_each_expr,
  visit_squiggle,
}
use i_ll.Validate.Command.{check_command, check_arguments}
use i_ll.Validate.Block.{
  ActorState, BlockState, block_start, check_body, check_statement, check_new_command, advance,
  as_healthy,
}
use i_ll.Validate.Block.Modes.{AllWellModed}
use i_ll.Validate.Modes.{validated-AllWellModed}
use i_ll.Runtime.{CommandArgs}
use i_ll.Actor.Process.{exec_run}
use i_ll.Exec
use i_ll.Exec.{Os, Waited, ExecInstance, ExecMode, mode_of, teardown}
use i_ll.Exec.Modes.{succeeded, target_or, execute-mode_of, teardown-teardown}
use i_ll.Exec.Outcomes.{conforms, execute-conforms}
use i_ll.Args
use i_ll.Args.{coerce_to, declares, undeclared, resolve_vars, resolve_var}
use i_ll.Args.Members.{coerce_to-type_name, construct-has_key, construct-supplied}
use i_ll.Members
use i_ll.Members.{Members, is_declared, from_declarations, set}
use i_ll.Members.Slots.{from_declarations-declared, set-declared}
use i_ll.Harness.{construct_actor, construct_args}
use i_ll.Harness.Reports.{passed-teardown}
use i_ll.Harness.Actors.Teardown.{later_first}
use i_ll.Prelude.{◌==◌}
use i_ll.Value.Dicts.{has_key, insert}
use i_ll.Prelude.Maps.{Map}
use i_ll.Runtime.{ConstructArgs}
use i_ll.Value.{type_name}
use i_ll.Harness.Window.{has_error_ref}
use i_ll.Harness.Window.Agreement.{window, window_agreement}
use i_ll.Harness.Actors.{Live, push, outcome_of, teardown_all}
use i_ll.Harness.Actors.Teardown.{and_then, teardown_all-push}
use i_ll.Harness.Block.{settle, run_as_block}
use i_ll.Harness.Block.Expected.{goes_on, settle_agreement}
use i_ll.Harness.Block.Names.{run_as_block-names}
use i_ll.Harness.{walk, execute, errors_of}
use i_ll.Harness.Reports.{declared, execute-passed, execute-teardown}

abbrev no_span : Span
no_span = record { start = 0; end = 0 }

abbrev named : String → Ident
named s = record { name = s; span = no_span }

abbrev sample : Value
sample = Value.dict (
    Dict.entry "a" (Value.array (Values.cons (Value.number (negsuc 4)) Values.nil))
      (Dict.entry "b" (Value.float 4607182418800017408) Dict.empty))

decode_hex-encode_hex_example : decode_hex (encode_hex (222 ∷ 173 ∷ [])) ≡ ok (222 ∷ 173 ∷ [])
decode_hex-encode_hex_example =
    decode_hex-encode_hex (222 ∷ 173 ∷ []) (omega arith, (omega arith, tt))

-- Evaluation.
abbrev word : String → Expr
word s = Expr.string_lit (Fragments.text s Fragments.end) no_span

abbrev hex_literal : Expr
hex_literal = Expr.squiggle (named "hex") (Fragments.text "ff" Fragments.end) no_span

eval-expr_type_example : is_of_type (Value.bytes (255 ∷ [])) (expr_type hex_literal) ≡ true
unfolding eval get_squiggle run_squiggle eval_squiggle concat_fragments decode_hex is_of_type
    output_type
eval-expr_type_example = eval-expr_type [] hex_literal (Value.bytes (255 ∷ [])) refl

abbrev greeting : Fragments
greeting = Fragments.text "hi " (Fragments.interpolation (Expr.number (pos 7)) Fragments.end)

eval-render_example :
    ((eval [] (Expr.string_lit greeting no_span) >>= render) ≡ concat_fragments [] greeting)
    × ((eval [] (Expr.squiggle (record { name = "b"; span = no_span }) greeting no_span) >>= render)
        ≡ concat_fragments [] greeting)
eval-render_example = eval-render [] greeting no_span no_span

abbrev one_item : Exprs
one_item = Exprs.cons (Expr.number (pos 0)) Exprs.nil

abbrev nested : Expr
nested = Expr.array (Exprs.cons (Expr.array one_item) Exprs.nil)

abbrev pub any_regex : String → Regex
any_regex p = Regex.valid λ s. true

-- Commands.

abbrev publish_word : List Expr
publish_word = Expr.ident (named "publish") ∷ []

resolve_command_sound_example :
    (1 ≤ length publish_word)
    × (command ActorType.mqtt_client receive_publish.name ≡ some receive_publish)
unfolding resolve_command command
resolve_command_sound_example =
    resolve_command_sound ActorType.mqtt_client "receive" publish_word receive_publish 1 refl

resolve_command-owns_target_example :
    owns_target ActorType.mqtt_client receive_publish.transitions_to ≡ true
unfolding resolve_command command
resolve_command-owns_target_example =
    resolve_command-owns_target ActorType.mqtt_client "receive" publish_word receive_publish 1 refl

-- Runs. The world is a log; an instance carries the name of its type, its command fails always, and
-- its teardown is logged.
abbrev pub logging : ActorRuntime
logging = record {
  World = List String;
  Instance = String;
  type_name = λ inst. inst;
  self_view = λ inst. none;
  construct = λ name args w. (ok name, name ∷ w);
  execute = λ inst cmd args w. (RunOutcome.error "exit" Dict.empty, inst, cmd ∷ w);
  teardown = λ inst w. (Joined.done teardown_ok, inst ∷ w);
}

abbrev run_it : Command
run_it = record {
  annotation = none;
  name = named "run";
  positional_args = [];
  keyword_args = [];
  span = no_span;
}

-- `assert error.type == :exit`.
abbrev expects_error : Statement
expects_error = Statement.assert (record {
  annotation = none;
  left = Expr.member_access (Expr.ident (named "error")) (named "type") no_span;
  op = some ComparisonOp.eq;
  right = some (Expr.atom (named "exit"));
  span = no_span;
})

abbrev block : AsBlock
block = record {
  actor = named "e";
  body = Statement.command run_it ∷ expects_error ∷ [];
  span = no_span;
}

abbrev e_declared : ActorDeclaration
e_declared = record {
  name = named "e";
  actor_type = named "exec";
  keyword_args = [];
  vars = [];
  span = no_span;
}

abbrev file : SourceFile
file = record { items = TopLevel.actor_declaration e_declared ∷ TopLevel.as_block block ∷ [] }

abbrev started : BlockState
started =
    block_start
      ((
        "e",
        ActorState.healthy (record { type_def = ActorType.exec; mode = exec_stopped; vars = [] }),
      )
        ∷ [])
      []

window_agreement_example :
    is_ok (check_body "e" (window (expects_error ∷ [])) started).outcome
    ≡ (is_ok started.outcome && not (has_error_ref (expects_error ∷ [])))
unfolding check_body window check_statement expr_starts_with_ident advance advance_outcome
    check_squiggles for_each_expr visit_squiggle
window_agreement_example = window_agreement "e" (expects_error ∷ []) started refl

settle_agreement_example :
    goes_on (settle "e" run_it (expects_error ∷ []) [] (RunOutcome.error "exit" Dict.empty))
    ≡ not (
        is_ok
          (check_body "e"
            (window (expects_error ∷ []))
            (check_new_command "e" run_it started)).outcome)
unfolding check_body window check_statement expr_starts_with_ident advance check_command as_healthy
    lookup is_ok resolve_command command same_mode check_arguments advance_outcome check_squiggles
    for_each_expr visit_squiggle
settle_agreement_example =
    settle_agreement "e" run_it (expects_error ∷ []) [] "exit" Dict.empty started refl

validated-AllWellModed_example :
    AllWellModed (check_blocks file.items (register_all file.items ([], []))).0
validated-AllWellModed_example = validated-AllWellModed file.items file.items

abbrev live : Live logging
live = ("a", "exec") ∷ []

teardown_all-push_example :
    teardown_all logging (push logging "b" "container" live) []
    ≡ and_then logging
        (record { actor = "b"; outcome = teardown_ok })
        (teardown_all logging live ("container" ∷ []))
unfolding outcome_of
teardown_all-push_example = teardown_all-push logging "b" "container" live []

run_as_block-names_example :
    map (λ a. a.0) (run_as_block logging any_regex block (live, [])).1.0 ≡ "a" ∷ []
run_as_block-names_example = run_as_block-names logging any_regex block (live, [])

execute-passed_example :
    (length (execute logging any_regex "t.ill" file "." []).0.statements ≤ 1)
    × (((execute logging any_regex "t.ill" file "." []).0.passed ≡ true)
        ↔ ((execute logging any_regex "t.ill" file "." []).0.statements ≡ []))
execute-passed_example = execute-passed logging any_regex "t.ill" file "." []

execute-teardown_example :
    (map (λ r. r.actor) (execute logging any_regex "t.ill" file "." []).0.teardown
      ≡ map (λ a. a.0) (walk logging any_regex "." file.items ([], [])).1.0)
    × ((missing : List String) × (map
              (λ r. r.actor)
              (execute logging any_regex "t.ill" file "." []).0.teardown
            ++ missing
          ≡ declared file.items))
execute-teardown_example = execute-teardown logging any_regex "t.ill" file "." []

-- A file that only declares passes.
abbrev quiet_file : SourceFile
quiet_file = record { items = TopLevel.actor_declaration e_declared ∷ [] }

passed-teardown_example :
    let live : Live logging × List String =
      (walk logging any_regex "." quiet_file.items ([], [])).1 in
    (map (λ a. a.0) live.0 ≡ declared quiet_file.items)
    × ((
      (execute logging any_regex "t.ill" quiet_file "." []).0.teardown,
      (execute logging any_regex "t.ill" quiet_file "." []).1,
    )
        ≡ later_first logging live.0 live.1)
unfolding execute walk construct_actor get_actor_type construct_args
passed-teardown_example = passed-teardown logging any_regex "t.ill" quiet_file "." [] refl

-- The log is never emptied.
abbrev has_entry : List String → Bool
has_entry [] = false
has_entry (l ∷ ls) = true

-- `exec` on a system that starts every program as process 7 and logs what it does.
abbrev unix : Os
unix = record {
  World = List String;
  Child = ℕ;
  split = λ s. some (s ∷ []);
  is_dir = λ path w. true;
  spawn = λ program rest dir env w. (ok 7, program ∷ w);
  id = λ child. some child;
  sigterm = λ pid w. "sigterm" ∷ w;
  wait = λ child w. (Waited.timed_out, w);
  start_kill = λ child w. (none, "sigkill" ∷ w);
  reap = λ child w. "reaped" ∷ w;
}

abbrev server : ExecInstance unix
server = record {
  target = "./server";
  source_dir = "tests";
  working_dir = "tests";
  mode = ExecMode.stopped;
}

abbrev no_args : CommandArgs
no_args = record { positional = []; keyword = Dict.empty }

execute-mode_of_example : mode_of unix (Exec.execute unix server "run" no_args []).1.mode ≡ (
    if succeeded (Exec.execute unix server "run" no_args []).0
    then target_or exec_run.transitions_to (mode_of unix server.mode)
    else mode_of unix server.mode)
execute-mode_of_example = execute-mode_of unix server "run" no_args []

abbrev busy : ExecInstance unix
busy = record server { mode = ExecMode.running 7 }

execute-conforms_example :
    conforms exec_run (Exec.execute unix server exec_run.name no_args []).0 ≡ true
execute-conforms_example = execute-conforms unix server no_args []

-- `"${a[~hex`ff`]}"`, which has a squiggle below an index.
abbrev deep_squiggle : Expr
deep_squiggle =
    Expr.string_lit
      (Fragments.interpolation
        (Expr.index (Expr.ident (named "a")) (Exprs.cons hex_literal Exprs.nil) no_span)
        Fragments.end)
      no_span

check_squiggles-eval_example : blames_squiggle (eval [] deep_squiggle) ≡ false
unfolding check_squiggles for_each_expr visit_squiggle get_squiggle
check_squiggles-eval_example = check_squiggles-eval deep_squiggle [] refl

-- `args_actor` with two variables, one of them given on the command line.
abbrev two_vars : ConstructArgs
two_vars = record {
  keyword = Dict.empty;
  source_dir = ".";
  vars =
      record { name = "port"; default = some (Value.number (pos 80)) }
      ∷ record { name = "host"; default = some (Value.string "db") }
      ∷ [];
}

abbrev port_arg : Map String
port_arg = ("port", "8080") ∷ []

abbrev two_members : Dict
two_members =
    Dict.entry "port" (Value.number (pos 8080)) (Dict.entry "host" (Value.string "db") Dict.empty)

construct-has_key_example : has_key "host" two_members ≡ declares two_vars.vars "host"
unfolding Args.construct undeclared resolve_vars lookup insert resolve_var coerce_to
construct-has_key_example = construct-has_key two_vars port_arg two_members "host" refl

construct-supplied_example : has_key "port" two_members ≡ true
unfolding Args.construct undeclared resolve_vars lookup insert resolve_var coerce_to
construct-supplied_example =
    construct-supplied two_vars port_arg two_members "port" "8080" refl refl

abbrev port_slot : Members
port_slot = ("port", none) ∷ []

set-declared_example :
    (after : Members) × (set port_slot "port" Value.null ≡ ok after)
    × ((other : String)
        → (Members.get after other
            ≡ (if "port" == other then some Value.null else Members.get port_slot other))
          × (is_declared after other ≡ is_declared port_slot other))
unfolding is_declared lookup
set-declared_example = set-declared port_slot "port" Value.null refl
