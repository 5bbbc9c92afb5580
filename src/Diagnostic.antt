-- ===== src/Diagnostic.antt =====
-- Diagnostics (crates/ill-core/src/diagnostic.rs).
use i_ll.Prelude.{String, Bool, true, false, ◌<>◌, List, [], ◌∷◌, ◌++◌}
use i_ll.Prelude.Int.{show_ℕ}
use i_ll.Ast.{Span}

pub data Severity : Type 0 where
  error warning info hint : Severity

-- `severity == Severity::Error`.
unfoldable pub is_error : Severity → Bool
is_error error = true
is_error warning = false
is_error info = false
is_error hint = false

pub data DiagnosticCode : Type 0 where
  parse_error missing_token unexpected_node missing_field invalid_literal : DiagnosticCode
  invalid_escape unknown_actor_type unknown_actor duplicate_actor unknown_command : DiagnosticCode
  command_not_valid_in_mode missing_required_arg unknown_keyword_arg : DiagnosticCode
  conflicting_outcome_asserts type_mismatch unknown_squiggle runtime_failure : DiagnosticCode

unfoldable pub as_str : DiagnosticCode → String
as_str parse_error = "E0001"
as_str missing_token = "E0002"
as_str unexpected_node = "E0003"
as_str missing_field = "E0004"
as_str invalid_literal = "E0005"
as_str invalid_escape = "E0006"
as_str unknown_actor_type = "E0101"
as_str unknown_actor = "E0102"
as_str duplicate_actor = "E0103"
as_str unknown_command = "E0201"
as_str command_not_valid_in_mode = "E0202"
as_str missing_required_arg = "E0203"
as_str unknown_keyword_arg = "E0204"
as_str conflicting_outcome_asserts = "E0205"
as_str type_mismatch = "E0301"
as_str unknown_squiggle = "E0401"
as_str runtime_failure = "E0501"

pub record Diagnostic : Type 0 where
  pub span : Span
  pub severity : Severity
  pub code : DiagnosticCode
  pub message : String
  pub notes : List String

-- `Diagnostic::error`, and the list of one that a check pushes.
unfoldable pub error_at : Span → DiagnosticCode → String → Diagnostic
error_at span code message = record {
  span = span;
  severity = Severity.error;
  code = code;
  message = message;
  notes = [];
}

unfoldable pub with_note : Diagnostic → String → Diagnostic
with_note d note = record d { notes = d.notes ++ note ∷ [] }

abbrev pub report : Span → DiagnosticCode → String → List Diagnostic
report span code message = error_at span code message ∷ []

unfoldable pub show_severity : Severity → String
show_severity error = "error"
show_severity warning = "warning"
show_severity info = "info"
show_severity hint = "hint"

-- `Display` of a diagnostic.
unfoldable pub show_diagnostic : Diagnostic → String
unfolding show_severity show_ℕ
show_diagnostic d =
    show_severity d.severity
    <> (" at [" <> (show_ℕ d.span.start <> (".." <> (show_ℕ d.span.end <> ("]: " <> d.message)))))
