-- ===== src/Cli.antt =====
-- The command line: `ill check` and `ill test` (crates/ill/src/main.rs).
pub mod Arguments
pub mod Files
pub mod Check
pub mod Gate
use mathlib.Core.Option
use i_ll.Prelude.{
  ℕ, suc, String, ◌<>◌, Bool, true, false, Option, none, some, List, [], ◌∷◌, ◌++◌, any, length,
  Result, ok, err, ltb, if◌then◌else◌,
}
use i_ll.Prelude.Int.{show_ℕ}
use i_ll.Prelude.Maps.{Map}
use i_ll.Ast.{SourceFile}
use i_ll.Assertion.{Regex}
use i_ll.Diagnostic.{Diagnostic, is_error}
use i_ll.Runtime.{ActorRuntime}
use i_ll.Lower.Tree.{Node}
use i_ll.Harness.{TestReport, errors_of, run_validated_test_file}
use i_ll.Cli.Arguments.{parse_cli_args}
use i_ll.Cli.Files.{FileSystem, resolve_files}
use i_ll.Cli.Check.{
  Line, CheckedFile, CheckedSuite, check_files, reading_errors, as_lines, run_check,
}

-- What the parser of the command line (clap) gives.
pub data Commands (P : Type 0) : Type 0 where
  test : List P → List String → Commands P
  check : List P → Commands P

-- Whether a file has a diagnostic that is an error.
unfoldable pub has_error : List Diagnostic → Bool
unfolding is_error
has_error ds = any (λ d. is_error d.severity) ds

module _ (F : FileSystem) (parse : String → Option Node) (R : ActorRuntime)
    (regex : String → Regex) where
  -- What is printed, the exit code, and the world. `none` is a panic.
  abbrev pub Run : Type 0
  Run = List (Line F.PathBuf) × ℕ × R.World

  -- `partition`: the files with an error and the others.
  unfoldable pub failing : List (CheckedFile F.PathBuf) → List (CheckedFile F.PathBuf)
  unfolding has_error
  failing [] = []
  failing (f ∷ fs) = let rest = failing fs in if has_error f.diags then f ∷ rest else rest

  unfoldable pub clean : List (CheckedFile F.PathBuf) → List (CheckedFile F.PathBuf)
  unfolding has_error
  clean [] = []
  clean (f ∷ fs) = let rest = clean fs in if has_error f.diags then rest else f ∷ rest

  names_of : List (CheckedFile F.PathBuf) → List (Line F.PathBuf)
  names_of [] = []
  names_of (f ∷ fs) = Line.stderr ("  " <> F.display f.path) ∷ names_of fs

  errors_shown : List (CheckedFile F.PathBuf) → List (Line F.PathBuf)
  unfolding errors_of
  errors_shown [] = []
  errors_shown (f ∷ fs) = Line.diagnostics f.path f.src (errors_of f.diags) ∷ errors_shown fs

  -- The files that failed validation.
  failures : List (CheckedFile F.PathBuf) → List (Line F.PathBuf)
  unfolding names_of errors_shown show_ℕ
  failures [] = []
  failures (f ∷ []) =
      Line.stderr ("ill: " <> (F.display f.path <> " failed validation"))
      ∷ Line.stderr ""
      ∷ errors_shown (f ∷ [])
  failures (f ∷ g ∷ fs) =
      Line.stderr ("ill: " <> (show_ℕ (length (f ∷ g ∷ fs)) <> " files failed validation:"))
      ∷ (names_of (f ∷ g ∷ fs) ++ Line.stderr "" ∷ errors_shown (f ∷ g ∷ fs))

  refused : List (F.PathBuf × String) → List (CheckedFile F.PathBuf) → R.World → Run
  unfolding failures reading_errors
  refused read_errors failing w = (
    reading_errors F parse read_errors
        ++ (failures failing ++ Line.stderr "ill: not running tests" ∷ []),
    1,
    w,
  )

  -- What is printed of a report.
  report_line : CheckedFile F.PathBuf → TestReport → Line F.PathBuf
  report_line f report =
      if report.passed
      then Line.stdout ("PASS " <> F.display f.path)
      else Line.failed_report report f.src

  ran_first : Line F.PathBuf → Option Run → Option Run
  ran_first line rest = Option.map (λ r. (line ∷ r.0, r.1, r.2)) rest

  run_file : CheckedFile F.PathBuf → SourceFile → R.World → TestReport × R.World
  unfolding run_validated_test_file
  run_file f ast w = run_validated_test_file R regex (F.display f.path) (F.parent f.path) ast w

  -- The files one after another, with the numbers of those that passed and failed so far.
  unfoldable pub run_files : List (CheckedFile F.PathBuf) → ℕ → ℕ → R.World → Option Run
  unfolding run_file report_line ran_first show_ℕ
  run_files [] passed failed w = some (
    Line.stdout (show_ℕ passed <> (" passed, " <> (show_ℕ failed <> " failed"))) ∷ [],
    if ltb 0 failed then 1 else 0,
    w,
  )
  run_files (f ∷ fs) passed failed w = elim f.ast [
    | none ↦ none
    | some ast ↦
        let (report, w') = run_file f ast w in
        ran_first (report_line f report) (
          if report.passed
          then run_files fs (suc passed) failed w'
          else run_files fs passed (suc failed) w')
  ]

  -- The gate, given the failing files.
  gate :
      List (F.PathBuf × String)
      → List (CheckedFile F.PathBuf)
      → List (CheckedFile F.PathBuf)
      → R.World
      → Option Run
  unfolding refused run_files
  gate [] [] clean w = run_files clean 0 0 w
  gate (e ∷ es) failing clean w = some (refused (e ∷ es) failing w)
  gate [] (f ∷ fs) clean w = some (refused [] (f ∷ fs) w)

  unfoldable pub test_suite : R.World → CheckedSuite F.PathBuf → Option Run
  unfolding gate failing clean
  test_suite w s = gate s.read_errors (failing s.files) (clean s.files) w

  said_first : List String → Option Run → Option Run
  unfolding as_lines
  said_first said r = Option.map (λ r. (as_lines F parse said ++ r.0, r.1, r.2)) r

  test_checked : R.World → Option (CheckedSuite F.PathBuf) → Option Run
  unfolding test_suite
  test_checked w none = none
  test_checked w (some s) = test_suite w s

  test_found : List String × List F.PathBuf → R.World → Option Run
  unfolding test_checked check_files as_lines said_first
  test_found (said, []) w =
      some (as_lines F parse said ++ Line.stderr "ill: no .ill files found" ∷ [], 1, w)
  test_found (said, p ∷ ps) w = said_first said (test_checked w (check_files F parse (p ∷ ps)))

  unfoldable pub run_test : List F.PathBuf → R.World → Option Run
  unfolding test_found resolve_files
  run_test paths w = test_found (resolve_files F paths) w

  test_with :
      List F.PathBuf
      → (Map String → R.World → R.World)
      → Result String (Map String)
      → R.World
      → Option Run
  unfolding run_test
  test_with paths set_cli_args (err msg) w = some (Line.stderr ("ill: " <> msg) ∷ [], 1, w)
  test_with paths set_cli_args (ok cli_args) w = run_test paths (set_cli_args cli_args w)

  -- `main`. The slot that `set_cli_args` writes is a part of the world.
  unfoldable pub main : (Map String → R.World → R.World) → Commands F.PathBuf → R.World → Option Run
  unfolding test_with run_check parse_cli_args
  main set_cli_args (Commands.test paths args) w =
      test_with paths set_cli_args (parse_cli_args args) w
  main set_cli_args (Commands.check paths) w =
      Option.map (λ r. (r.0, r.1, w)) (run_check F parse paths)
