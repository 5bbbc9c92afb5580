-- ===== src/Report/Render.antt =====
-- Diagnostics on the terminal (crates/ill-core/src/render.rs).
use i_ll.Prelude.{suc, String, ◌<>◌, Option, none, some, List, [], ◌∷◌, ◌++◌, nat_eq, if◌then◌else◌}
use i_ll.Ast.{Span}
use i_ll.Diagnostic.{Diagnostic, Severity, error, warning, info, hint, show_diagnostic}

-- A diagnostic of the crate codespan_reporting, as far as the code makes one: it has one label.
pub data CsrSeverity : Type 0 where
  csr_error csr_warning csr_note csr_help : CsrSeverity

pub record CsrDiagnostic : Type 0 where
  pub severity : CsrSeverity
  pub message : String
  pub label : Span
  pub notes : List String

csr_severity : Severity → CsrSeverity
csr_severity error = csr_error
csr_severity warning = csr_warning
csr_severity info = csr_note
csr_severity hint = csr_help

-- An empty span is made one byte wide.
unfoldable pub label_range : Span → Span
label_range s =
    if nat_eq s.start s.end
    then record { start = s.start; end = suc s.end }
    else record { start = s.start; end = s.end }

unfoldable pub to_csr : Diagnostic → CsrDiagnostic
unfolding csr_severity label_range
to_csr d = record {
  severity = csr_severity d.severity;
  message = d.message;
  label = label_range d.span;
  notes = d.notes;
}

-- What is written, in order: a text or a line of its own, or a diagnostic as the crate renders it.
pub data Written : Type 0 where
  line : String → Written
  snippet : String → CsrDiagnostic → Written

-- `emit` writes a snippet for the path and the source, or fails after what it has written.
pub record Emitter : Type 0 where
  pub emit : String → String → CsrDiagnostic → Option String

module _ (E : Emitter) where
  -- `render`: what is written, and the error with which it ends if it does.
  unfoldable pub render : String → String → List Diagnostic → List Written × Option String
  unfolding to_csr
  render path source [] = ([], none)
  render path source (d ∷ ds) =
      let (written, failure) = render path source ds in
      elim (E.emit path source (to_csr d)) [
        | none ↦ (snippet path (to_csr d) ∷ written, failure)
        | some e ↦ ([], some e)
      ]

  note_lines : List String → List Written
  note_lines [] = []
  note_lines (n ∷ ns) = line ("    " <> n) ∷ note_lines ns

  plain_lines : List Diagnostic → List Written
  unfolding show_diagnostic note_lines
  plain_lines [] = []
  plain_lines (d ∷ ds) = line ("  " <> show_diagnostic d) ∷ (note_lines d.notes ++ plain_lines ds)

  fallback : List Diagnostic → List Written × Option String → List Written
  unfolding plain_lines
  fallback ds (written, none) = written
  fallback ds (written, some e) =
      written ++ line ("  failed to render diagnostics: " <> e) ∷ plain_lines ds

  unfoldable pub render_with_fallback : String → String → List Diagnostic → List Written
  unfolding fallback render
  render_with_fallback path source ds = fallback ds (render path source ds)
