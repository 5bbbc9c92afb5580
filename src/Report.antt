-- ===== src/Report.antt =====
-- The failure of a test on the terminal (crates/ill-core/src/report_format.rs).
pub mod Render
use i_ll.Prelude.{ℕ, String, ◌<>◌, Option, none, some, List, [], ◌∷◌, ◌++◌, if◌then◌else◌}
use i_ll.Ast.{Span, ComparisonOp, show_op}
use i_ll.Value.{Value, Dict}
use i_ll.Value.Display.{show_value}
use i_ll.Diagnostic.{Diagnostic, runtime_failure, error_at, with_note}
use i_ll.Harness.{TestReport}
use i_ll.Harness.Actors.{TeardownReport}
use i_ll.Harness.Block.{
  StatementReport, validation_failure, parse_failure, construct_failure, command_failure,
  command_not_implemented, assert_failure, eval_error,
}
use i_ll.Report.Render.{Written, line, Emitter, render_with_fallback}

with_notes : Diagnostic → List String → Diagnostic
unfolding with_note
with_notes d [] = d
with_notes d (n ∷ ns) = with_notes (with_note d n) ns

unfoldable pub synth_diag : Span → String → List String → Diagnostic
unfolding with_notes error_at
synth_diag span message notes = with_notes (error_at span runtime_failure message) notes

expect_note : Option String → List String
expect_note none = []
expect_note (some e) = ("@expect " <> e) ∷ []

module _ (debug : String → String) (show_float : ℕ → String) where
  error_notes : Dict → List String
  unfolding show_value
  error_notes Dict.empty = []
  error_notes (Dict.entry k v d) =
      ("error." <> (k <> (" = " <> show_value debug show_float v))) ∷ error_notes d

  assert_notes : Value → Option ComparisonOp → Option Value → List String
  unfolding show_value show_op
  assert_notes left (some op) (some right) =
      ("left:  " <> show_value debug show_float left)
      ∷ ("op:    " <> show_op op)
      ∷ ("right: " <> show_value debug show_float right)
      ∷ []
  assert_notes left op right =
      ("value: " <> (show_value debug show_float left <> " (not truthy)")) ∷ []

  -- The diagnostics of one statement that failed.
  unfoldable pub statement_diagnostics : StatementReport → List Diagnostic
  unfolding synth_diag error_notes assert_notes expect_note
  statement_diagnostics (validation_failure ds) = ds
  statement_diagnostics (parse_failure ds) = ds
  statement_diagnostics (construct_failure actor message span) =
      synth_diag span ("construction failed for `" <> (actor <> ("`: " <> message))) [] ∷ []
  statement_diagnostics (command_failure actor command span fields expect) =
      synth_diag span (actor <> (": `" <> (command <> "` failed")))
        (error_notes fields ++ expect_note expect)
      ∷ []
  statement_diagnostics (command_not_implemented actor command span) =
      synth_diag span (actor <> (": `" <> (command <> "` has no runtime implementation"))) [] ∷ []
  statement_diagnostics (assert_failure actor span left right op expect) =
      synth_diag span (actor <> ": assertion failed")
        (assert_notes left op right ++ expect_note expect)
      ∷ []
  statement_diagnostics (eval_error actor span message) =
      synth_diag span (actor <> (": " <> message)) [] ∷ []

  unfoldable pub report_diagnostics : List StatementReport → List Diagnostic
  unfolding statement_diagnostics
  report_diagnostics [] = []
  report_diagnostics (r ∷ rs) = statement_diagnostics r ++ report_diagnostics rs

  message_or : Option String → String
  message_or none = "failed"
  message_or (some m) = m

  teardown_lines : List TeardownReport → List Written
  unfolding message_or
  teardown_lines [] = []
  teardown_lines (t ∷ ts) =
      let rest = teardown_lines ts in
      if t.outcome.ok
      then rest
      else line ("  teardown " <> (t.actor <> (": " <> message_or t.outcome.message))) ∷ rest

  rendered : Emitter → String → String → List Diagnostic → List Written
  unfolding render_with_fallback
  rendered E path src [] = []
  rendered E path src (d ∷ ds) = render_with_fallback E path src (d ∷ ds)

  -- `write_failure`, where writing itself does not fail.
  unfoldable pub write_failure : Emitter → TestReport → String → List Written
  unfolding report_diagnostics rendered teardown_lines
  write_failure E report src =
      line ("FAIL " <> report.path)
      ∷ (rendered E report.path src (report_diagnostics report.statements)
          ++ teardown_lines report.teardown)
