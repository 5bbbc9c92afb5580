-- ===== src/Cli/Gate.antt =====
-- The gate of `ill test`: what `ill check` counts decides whether a test runs
-- (crates/ill/src/main.rs, `run_test` and `run_check`).
pub mod Open
pub mod Returns
use mathlib.Core.Option
use i_ll.Prelude.{
  ℕ, String, Bool, true, false, ◌||◌, Option, none, some, List, [], ◌∷◌, any, ltb, length, ◌≡◌,
  refl, sym, ◌∙◌, ap, arith, if◌then◌else◌, ◌⊎◌, inl, inr, Bool-cases,
}
use i_ll.Assertion.{Regex}
use i_ll.Diagnostic.{Diagnostic, Severity, error, warning, info, hint, is_error}
use i_ll.Runtime.{ActorRuntime}
use i_ll.Lower.Tree.{Node}
use i_ll.Cli.Files.{FileSystem, resolve_files}
use i_ll.Cli.Check.{
  Line, CheckedFile, CheckedSuite, Counts, Ended, count, count_diagnostics, count_read_errors,
  count_files, counted, check_suite, check_files, check_found, run_check, printed_first, as_lines,
}
use i_ll.Cli.{
  has_error, Run, failing, clean, gate, refused, test_suite, test_found, run_files, said_first,
  test_checked, run_test,
}

count-errors :
    (v : Severity) (c : Counts)
    → ltb 0 (count v c).error_count ≡ (is_error v || ltb 0 c.error_count)
unfolding count is_error
count-errors error c = ground arith
count-errors warning c = refl
count-errors info c = refl
count-errors hint c = refl

count_diagnostics-errors :
    (ds : List Diagnostic) (c : Counts)
    → ltb 0 (count_diagnostics ds c).error_count ≡ (has_error ds || ltb 0 c.error_count)
unfolding count_diagnostics has_error
count_diagnostics-errors [] c = refl
count_diagnostics-errors (d ∷ ds) c =
    ground (arith, count_diagnostics-errors ds (count d.severity c), count-errors d.severity c)

or-false : (b : Bool) → (b || false) ≡ b
or-false true = refl
or-false false = refl

if-one : (b : Bool) → ◌≡◌ {A = ℕ} (if b then 1 else 0) 1 → b ≡ true
if-one true h = refl
if-one false h = absurd (cc h)

module _ (F : FileSystem) (parse : String → Option Node) where
  unfoldable pub any_error : List (CheckedFile F.PathBuf) → Bool
  any_error fs = any (λ (f : CheckedFile F.PathBuf). has_error f.diags) fs

  abbrev pub any_read : List (F.PathBuf × String) → Bool
  any_read [] = false
  any_read (e ∷ es) = true

  count_read_errors-errors :
      (es : List (F.PathBuf × String)) (c : Counts)
      → ltb 0 (count_read_errors F parse es c).error_count ≡ (any_read es || ltb 0 c.error_count)
  unfolding count_read_errors
  count_read_errors-errors [] c = refl
  count_read_errors-errors (e ∷ es) c =
      ground (arith, count_read_errors-errors es (count error c), count-errors error c, is_error)

  count_files-errors :
      (fs : List (CheckedFile F.PathBuf)) (c : Counts)
      → ltb 0 (count_files F parse fs c).error_count ≡ (any_error fs || ltb 0 c.error_count)
  unfolding count_files any_error
  count_files-errors [] c = refl
  count_files-errors (f ∷ fs) c = ground (
    arith,
    count_files-errors fs (count_diagnostics f.diags c),
    count_diagnostics-errors f.diags c,
  )

  -- Whether the gate is closed.
  unfoldable pub refuses : CheckedSuite F.PathBuf → Bool
  refuses s = any_error s.files || any_read s.read_errors

  counted-errors : (s : CheckedSuite F.PathBuf) → ltb 0 (counted F parse s).error_count ≡ refuses s
  unfolding counted refuses
  counted-errors s =
      count_files-errors s.files _
      ∙ ap (λ b. any_error s.files || b)
          (count_read_errors-errors s.read_errors _ ∙ or-false (any_read s.read_errors))

  code_of : Option (Ended F parse) → ℕ
  code_of none = 0
  code_of (some (lines, code)) = code

  check_suite-code :
      (said : List (Line F.PathBuf)) (n : ℕ) (s : CheckedSuite F.PathBuf)
      → (printed_first F parse said (check_suite F parse n s)).1 ≡ (if refuses s then 1 else 0)
  unfolding printed_first check_suite
  check_suite-code said n s = ap (λ b. if b then 1 else 0) (counted-errors s)

  module _ (R : ActorRuntime) (regex : String → Regex) where
    failing-none :
        (fs : List (CheckedFile F.PathBuf))
        → any_error fs ≡ false
        → (failing F parse R regex fs ≡ []) × (clean F parse R regex fs ≡ fs)
    unfolding any_error failing clean
    failing-none [] h = (refl, refl)
    failing-none (f ∷ fs) h = ground (arith, failing-none fs)

    any_file : List (CheckedFile F.PathBuf) → Bool
    any_file [] = false
    any_file (f ∷ fs) = true

    failing-any_file :
        (fs : List (CheckedFile F.PathBuf)) → any_file (failing F parse R regex fs) ≡ any_error fs
    unfolding any_error failing any_file
    failing-any_file [] = refl
    failing-any_file (f ∷ fs) = ground (arith, failing-any_file fs)

    gate-open :
        (es : List (F.PathBuf × String)) (fs cs : List (CheckedFile F.PathBuf)) (w : R.World)
        → any_read es ≡ false
        → fs ≡ []
        → gate F parse R regex es fs cs w ≡ run_files F parse R regex cs 0 0 w
    unfolding gate
    gate-open [] [] cs w h h' = refl
    gate-open [] (f ∷ fs) cs w h h' = absurd (cc h')
    gate-open (e ∷ es) fs cs w h h' = absurd (cc h)

    gate-closed :
        (es : List (F.PathBuf × String)) (fs cs : List (CheckedFile F.PathBuf)) (w : R.World)
        → (any_file fs || any_read es) ≡ true
        → (lines : List (Line F.PathBuf)) × (gate F parse R regex es fs cs w ≡ some (lines, 1, w))
    unfolding gate refused any_file
    gate-closed [] [] cs w h = absurd (cc h)
    gate-closed [] (f ∷ fs) cs w h = (_, refl)
    gate-closed (e ∷ es) fs cs w h = (_, refl)

    -- An open gate lets every file run.
    pub test_suite-open :
        (s : CheckedSuite F.PathBuf) (w : R.World)
        → refuses s ≡ false
        → test_suite F parse R regex w s ≡ run_files F parse R regex s.files 0 0 w
    unfolding refuses test_suite
    test_suite-open s w h =
        let (empty, all) = failing-none s.files (ground (arith, h)) in
        gate-open s.read_errors _ _ w (ground (arith, h)) empty
        ∙ ap (λ cs. run_files F parse R regex cs 0 0 w) all

    -- A closed gate ends the program with the exit code 1, and the world is as it was.
    pub test_suite-closed :
        (s : CheckedSuite F.PathBuf) (w : R.World)
        → refuses s ≡ true
        → (lines : List (Line F.PathBuf)) × (test_suite F parse R regex w s ≡ some (lines, 1, w))
    unfolding refuses test_suite
    test_suite-closed s w h =
        gate-closed s.read_errors _ _ w
          (ap (λ b. b || any_read s.read_errors) (failing-any_file s.files) ∙ h)

    found-refused :
        (said : List String) (files : List F.PathBuf) (lines : List (Line F.PathBuf)) (w : R.World)
        → check_found F parse (said, files) ≡ some (lines, 1)
        → (lines' : List (Line F.PathBuf)) × (test_found F parse R regex (said, files) w
            ≡ some (lines', 1, w))
    unfolding check_found test_found code_of said_first
    found-refused said [] lines w h = (_, refl)
    found-refused said (p ∷ ps) lines w h = checked (check_files F parse (p ∷ ps)) h
      where
        checked :
            (o : Option (CheckedSuite F.PathBuf))
            → Option.map
                (λ s.
                  printed_first F parse
                    (as_lines F parse said)
                    (check_suite F parse (length (p ∷ ps)) s))
                o
              ≡ some (lines, 1)
            → (lines' : List (Line F.PathBuf)) × (said_first F parse R regex said
                  (test_checked F parse R regex w o)
                ≡ some (lines', 1, w))
        checked none e = absurd (cc e)
        checked (some s) e =
            let shut : refuses s ≡ true =
              if-one (refuses s) (
                sym (check_suite-code (as_lines F parse said) (length (p ∷ ps)) s)
                ∙ ap code_of e) in
            let (out, done) = test_suite-closed s w shut in
            (_, ap (said_first F parse R regex said) done)

    -- If `ill check` ends with the exit code 1, then `ill test` on the same paths ends with it too and
    -- runs nothing: the world is as it was.
    pub run_test-refused :
        (paths : List F.PathBuf) (lines : List (Line F.PathBuf)) (w : R.World)
        → run_check F parse paths ≡ some (lines, 1)
        → (lines' : List (Line F.PathBuf)) × (run_test F parse R regex paths w
            ≡ some (lines', 1, w))
    unfolding run_check run_test
    run_test-refused paths lines w h =
        found-refused (resolve_files F paths).0 (resolve_files F paths).1 lines w h
