-- ===== src/Harness.antt =====
-- The test harness: construct, run, tear down (crates/ill-core/src/runtime/harness.rs).
pub mod Args
pub mod Window
pub mod Actors
pub mod Block
pub mod Reports
pub mod Kept
use i_ll.Prelude.{
  String, ◌<>◌, Bool, true, false, Option, none, some, List, [], ◌∷◌, Result, ok, err, ◌>>=◌,
  map_err, if◌then◌else◌,
}
use i_ll.Prelude.Text.{is_empty}
use i_ll.Ast.{ActorDeclaration, TopLevel, SourceFile}
use i_ll.Errors.{RuntimeError, show_error}
use i_ll.Assertion.{Regex}
use i_ll.Actor.{ActorType, actor_type_name, get_actor_type}
use i_ll.Diagnostic.{Diagnostic, is_error}
use i_ll.Runtime.{ActorRuntime, ConstructArgs, DeclaredVar}
use i_ll.Validate.{validate}
use i_ll.Harness.Args.{eval_keyword_args, eval_vars}
use i_ll.Harness.Actors.{Live, push, TeardownReport, teardown_all}
use i_ll.Harness.Block.{
  StatementReport, validation_failure, parse_failure, construct_failure, run_as_block,
}

-- crates/ill-core/src/runtime/report.rs
pub record TestReport : Type 0 where
  pub path : String
  pub passed : Bool
  pub statements : List StatementReport
  pub teardown : List TeardownReport

-- The arguments of a construction, evaluated where no name is bound.
unfoldable pub construct_args : ActorDeclaration → String → Result RuntimeError ConstructArgs
unfolding eval_keyword_args eval_vars
construct_args decl source_dir = do
  keyword ← eval_keyword_args [] decl.keyword_args
  vars ← eval_vars [] decl.vars
  ok (record { keyword = keyword; source_dir = source_dir; vars = vars })

unfoldable pub errors_of : List Diagnostic → List Diagnostic
unfolding is_error
errors_of [] = []
errors_of (d ∷ ds) = if is_error d.severity then d ∷ errors_of ds else errors_of ds

module _ (R : ActorRuntime) (regex : String → Regex) where
  construct_with :
      ActorType → Result RuntimeError ConstructArgs → R.World → Result String R.Instance × R.World
  construct_with t (err e) w = (err (show_error e), w)
  construct_with t (ok args) w =
      let (made, w') = R.construct (actor_type_name t) args w in (map_err show_error made, w')

  construct_as :
      ActorDeclaration → String → Option ActorType → R.World → Result String R.Instance × R.World
  unfolding construct_with
  construct_as decl source_dir none w =
      (err ("unknown actor type `" <> (decl.actor_type.name <> "`")), w)
  construct_as decl source_dir (some t) w = construct_with t (construct_args decl source_dir) w

  unfoldable pub construct_actor :
      ActorDeclaration → String → R.World → Result String R.Instance × R.World
  unfolding construct_as construct_args
  construct_actor decl source_dir w =
      construct_as decl source_dir (get_actor_type decl.actor_type.name) w

  -- The failures and the machine after the items; a failure ends the walk.
  abbrev pub Walk : Type 0
  Walk = List StatementReport × (Live R × R.World)

  after_construct :
      ActorDeclaration
      → Result String R.Instance × R.World
      → Live R
      → (Live R × R.World → Walk)
      → Walk
  after_construct decl (ok inst, w) actors k = k (push R decl.name.name inst actors, w)
  after_construct decl (err msg, w) actors k =
      (construct_failure decl.name.name msg decl.span ∷ [], (actors, w))

  after_block : Option StatementReport × (Live R × R.World) → (Live R × R.World → Walk) → Walk
  after_block (none, m) k = k m
  after_block (some report, m) k = (report ∷ [], m)

  -- The items in source order.
  unfoldable pub walk : String → List TopLevel → Live R × R.World → Walk
  unfolding after_construct after_block
  walk source_dir [] m = ([], m)
  walk source_dir (TopLevel.actor_declaration decl ∷ items) (actors, w) =
      after_construct decl (construct_actor decl source_dir w) actors (walk source_dir items)
  walk source_dir (TopLevel.as_block block ∷ items) m =
      after_block (run_as_block R regex block m) (walk source_dir items)

  none_failed : List StatementReport → Bool
  none_failed [] = true
  none_failed (r ∷ rs) = false

  unfoldable pub execute : String → SourceFile → String → R.World → TestReport × R.World
  unfolding walk none_failed
  execute path source source_dir w =
      let (statements, (actors, w')) = walk source_dir source.items ([], w) in
      let (teardown, w'') = teardown_all R actors w' in
      (
        record {
          path = path;
          passed = none_failed statements;
          statements = statements;
          teardown = teardown;
        },
        w'',
      )

  -- The directory of the file, or the current one; `parent` is `Path::parent` of the path.
  source_dir_of : Option String → String
  source_dir_of none = "."
  source_dir_of (some p) = if is_empty p then "." else p

  unfoldable pub run_validated_test_file :
      String → Option String → SourceFile → R.World → TestReport × R.World
  unfolding execute source_dir_of
  run_validated_test_file path parent ast w = execute path ast (source_dir_of parent) w

  not_run : String → StatementReport → R.World → TestReport × R.World
  not_run path report w =
      (record { path = path; passed = false; statements = report ∷ []; teardown = [] }, w)

  unfoldable pub run_unless :
      String → Option String → SourceFile → List Diagnostic → R.World → TestReport × R.World
  unfolding not_run
  run_unless path parent ast [] w = run_validated_test_file path parent ast w
  run_unless path parent ast errors w = not_run path (validation_failure errors) w

  -- `run_test_file`, given what `lower` makes of the source.
  unfoldable pub run_test_file :
      String → Option String → Result (List Diagnostic) SourceFile → R.World → TestReport × R.World
  unfolding run_unless not_run errors_of
  run_test_file path parent (err errors) w = not_run path (parse_failure errors) w
  run_test_file path parent (ok ast) w = run_unless path parent ast (errors_of (validate ast)) w
