-- ===== src/Lower/Reports.antt =====
-- The errors of the parser (crates/ill-core/src/lower.rs, `collect_errors`).
pub mod Order
use i_ll.Prelude.{String, ◌<>◌, Bool, ◌||◌, List, [], ◌∷◌, ◌++◌, ◌==◌, if◌then◌else◌}
use i_ll.Prelude.Text.{is_empty, trim, take_chars, is_longer}
use i_ll.Diagnostic.{Diagnostic, DiagnosticCode, error_at, report, with_note}
use i_ll.Lower.Tree.{Node, Children, node, nil, child, NodeInfo}

preview : String → String
preview trimmed = take_chars 40 trimmed <> (if is_longer 40 trimmed then "…" else "")

at_top : String → Bool
at_top parent_kind = is_empty parent_kind || parent_kind == "source_file"

message_of : String → String → String
unfolding preview at_top
message_of trimmed parent_kind =
    if is_empty trimmed
    then if at_top parent_kind
      then "unexpected input here"
      else "unexpected input inside `" <> (parent_kind <> "`")
    else "unexpected `" <> (preview trimmed <> "`")

-- `LowerCtx::error_diagnostic`. The kind of the parent is "" if there is none.
unfoldable pub error_diagnostic : String → NodeInfo → Diagnostic
unfolding message_of error_at with_note at_top trim
error_diagnostic parent_kind i =
    let d = error_at i.span DiagnosticCode.parse_error (message_of (trim i.text) parent_kind) in
    if at_top parent_kind then d else with_note d ("while parsing a `" <> (parent_kind <> "`"))

unfoldable pub missing_message : String → String
missing_message k = if is_empty k then "missing token here" else "missing `" <> (k <> "` here")

-- `LowerCtx::collect_errors` of a node whose parent has the kind.
unfoldable mutual
  unfolding error_diagnostic missing_message

  pub collect_errors : String → Node → List Diagnostic
  collect_errors parent_kind (node i cs) =
      let below = collect_errors_in i.kind cs in
      if i.is_missing
      then report i.span DiagnosticCode.missing_token (missing_message i.kind)
      else if i.is_error
      then error_diagnostic parent_kind i ∷ []
      else below

  pub collect_errors_in : String → Children → List Diagnostic
  collect_errors_in parent_kind nil = []
  collect_errors_in parent_kind (child f n cs) =
      collect_errors parent_kind n ++ collect_errors_in parent_kind cs
