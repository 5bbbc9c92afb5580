-- ===== src/Cli/Check.antt =====
-- Reading, lowering and validating the files, and what `ill check` prints of it
-- (crates/ill/src/main.rs).
use i_ll.Prelude.{
  ℕ, suc, String, ◌<>◌, Bool, ◌&&◌, Option, none, some, List, [], ◌∷◌, ◌++◌, length, Result, ok,
  err, ltb, nat_eq, if◌then◌else◌,
}
use mathlib.Core.Option
use i_ll.Prelude.Int.{show_ℕ}
use i_ll.Prelude.Text.{join}
use i_ll.Ast.{SourceFile}
use i_ll.Diagnostic.{Diagnostic, Severity, error, warning, info, hint}
use i_ll.Validate.{validate}
use i_ll.Lower.Tree.{Node}
use i_ll.Lower.{lower}
use i_ll.Harness.{TestReport}
use i_ll.Cli.Files.{FileSystem, resolve_files}

-- What the program prints: a line of its own, or what `render_or_fallback` and `print_failed_report`
-- make of diagnostics and of a report, with the source.
pub data Line (P : Type 0) : Type 0 where
  stdout stderr : String → Line P
  diagnostics : P → String → List Diagnostic → Line P
  failed_report : TestReport → String → Line P

pub record CheckedFile (P : Type 0) : Type 0 where
  pub path : P
  pub src : String
  pub ast : Option SourceFile
  pub diags : List Diagnostic

pub record CheckedSuite (P : Type 0) : Type 0 where
  pub files : List (CheckedFile P)
  pub read_errors : List (P × String)

-- The four counters of `run_check`.
pub record Counts : Type 0 where
  pub error_count : ℕ
  pub warning_count : ℕ
  pub info_count : ℕ
  pub hint_count : ℕ

unfoldable pub count : Severity → Counts → Counts
count error c = record c { error_count = suc c.error_count }
count warning c = record c { warning_count = suc c.warning_count }
count info c = record c { info_count = suc c.info_count }
count hint c = record c { hint_count = suc c.hint_count }

unfoldable pub count_diagnostics : List Diagnostic → Counts → Counts
unfolding count
count_diagnostics [] c = c
count_diagnostics (d ∷ ds) c = count_diagnostics ds (count d.severity c)

part : ℕ → String → String → List String
part n one many =
    if ltb 0 n then (show_ℕ n <> (" " <> (if nat_eq n 1 then one else many))) ∷ [] else []

is_clean : Counts → Bool
is_clean c =
    nat_eq c.error_count 0
    && (nat_eq c.warning_count 0 && (nat_eq c.info_count 0 && nat_eq c.hint_count 0))

-- The last line of `ill check`.
unfoldable pub summary : ℕ → Counts → String
unfolding part is_clean show_ℕ
summary file_count c =
    let files = show_ℕ file_count <> (if nat_eq file_count 1 then " file" else " files") in
    if is_clean c
    then "ok — " <> (files <> " checked")
    else join ", " (
        part c.error_count "error" "errors"
        ++ (part c.warning_count "warning" "warnings"
            ++ (part c.info_count "info" "info" ++ part c.hint_count "hint" "hints")))
      <> (" in " <> files)

module _ (F : FileSystem) (parse : String → Option Node) where
  unfoldable pub checked_as :
      F.PathBuf → String → Result (List Diagnostic) SourceFile → CheckedFile F.PathBuf
  checked_as path src (ok ast) = record {
    path = path;
    src = src;
    ast = some ast;
    diags = validate ast;
  }
  checked_as path src (err errors) = record { path = path; src = src; ast = none; diags = errors }

  unfoldable pub add_file : CheckedFile F.PathBuf → CheckedSuite F.PathBuf → CheckedSuite F.PathBuf
  add_file f s = record s { files = f ∷ s.files }

  add_read_error : F.PathBuf × String → CheckedSuite F.PathBuf → CheckedSuite F.PathBuf
  add_read_error e s = record s { read_errors = e ∷ s.read_errors }

  -- A file that is read. `none` is a panic of `lower`.
  unfoldable pub check_source :
      F.PathBuf
      → String
      → Option (Result (List Diagnostic) SourceFile)
      → Option (CheckedSuite F.PathBuf)
      → Option (CheckedSuite F.PathBuf)
  unfolding checked_as add_file
  check_source path src none rest = none
  check_source path src (some r) rest = Option.map (add_file (checked_as path src r)) rest

  unfoldable pub check_file :
      F.PathBuf
      → Result String String
      → Option (CheckedSuite F.PathBuf)
      → Option (CheckedSuite F.PathBuf)
  unfolding check_source add_read_error lower
  check_file path (err e) rest = Option.map (add_read_error (path, e)) rest
  check_file path (ok src) rest = check_source path src (lower parse src) rest

  unfoldable pub check_files : List F.PathBuf → Option (CheckedSuite F.PathBuf)
  unfolding check_file
  check_files [] = some (record { files = []; read_errors = [] })
  check_files (path ∷ paths) = check_file path (F.read_to_string path) (check_files paths)

  unfoldable pub reading_error : F.PathBuf × String → Line F.PathBuf
  reading_error (path, e) = Line.stderr ("ill: error reading " <> (F.display path <> (": " <> e)))

  unfoldable pub count_read_errors : List (F.PathBuf × String) → Counts → Counts
  unfolding count
  count_read_errors [] c = c
  count_read_errors (e ∷ es) c = count_read_errors es (count error c)

  unfoldable pub count_files : List (CheckedFile F.PathBuf) → Counts → Counts
  unfolding count_diagnostics
  count_files [] c = c
  count_files (f ∷ fs) c = count_files fs (count_diagnostics f.diags c)

  shown : List (CheckedFile F.PathBuf) → List (Line F.PathBuf)
  shown [] = []
  shown (f ∷ fs) = Line.diagnostics f.path f.src f.diags ∷ shown fs

  unfoldable pub reading_errors : List (F.PathBuf × String) → List (Line F.PathBuf)
  unfolding reading_error
  reading_errors [] = []
  reading_errors (e ∷ es) = reading_error e ∷ reading_errors es

  unfoldable pub counted : CheckedSuite F.PathBuf → Counts
  unfolding count_read_errors count_files
  counted s = count_files s.files (
      count_read_errors s.read_errors
        (record { error_count = 0; warning_count = 0; info_count = 0; hint_count = 0 }))

  -- What is printed, and the exit code.
  abbrev pub Ended : Type 0
  Ended = List (Line F.PathBuf) × ℕ

  unfoldable pub no_files : List (Line F.PathBuf) → Ended
  no_files printed = (printed ++ Line.stderr "ill: no .ill files found" ∷ [], 1)

  unfoldable pub check_suite : ℕ → CheckedSuite F.PathBuf → Ended
  unfolding counted shown reading_errors summary
  check_suite file_count s =
      let c = counted s in
      (
        reading_errors s.read_errors ++ (shown s.files ++ Line.stdout (summary file_count c) ∷ []),
        if ltb 0 c.error_count then 1 else 0,
      )

  unfoldable pub as_lines : List String → List (Line F.PathBuf)
  as_lines [] = []
  as_lines (s ∷ ss) = Line.stderr s ∷ as_lines ss

  unfoldable pub printed_first : List (Line F.PathBuf) → Ended → Ended
  printed_first printed (lines, code) = (printed ++ lines, code)

  unfoldable pub check_found : List String × List F.PathBuf → Option Ended
  unfolding no_files check_files check_suite as_lines printed_first
  check_found (said, []) = some (no_files (as_lines said))
  check_found (said, p ∷ ps) =
      Option.map (λ s. printed_first (as_lines said) (check_suite (length (p ∷ ps)) s))
        (check_files (p ∷ ps))

  -- `run_check`, where `none` is a panic.
  unfoldable pub run_check : List F.PathBuf → Option Ended
  unfolding check_found resolve_files
  run_check paths = check_found (resolve_files F paths)
