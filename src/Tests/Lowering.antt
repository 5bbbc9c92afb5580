-- ===== src/Tests/Lowering.antt =====
-- Example runs of the lowering of a text.
use i_ll.Prelude.{
  String, true, false, false≢true, none, some, List, [], ◌∷◌, ◌++◌, Result, ok, err, ◌≡◌, refl,
  if◌then◌else◌,
}
use i_ll.Prelude.Int.{negsuc, show_ℤ}
use i_ll.Prelude.Parse.RoundTrip.{in_i64}
use i_ll.Ast.{Span, Expr, Fragments, ComparisonOp, SourceFile, TopLevel, Statement}
use i_ll.Lower.Statement.{lower_assert, lower_comparison_op, op_of}
use i_ll.Prelude.Parse.{parse_i64}
use i_ll.Lower.Expr.Literals.{strip_quotes, without_last}
use i_ll.Diagnostic.{Diagnostic, DiagnosticCode}
use i_ll.Lower.Tree.{
  Node, node, Children, nil, child, NodeInfo, done, give, refuse, each, named_children, field, fold,
  first_named, by_field, children_by_field, ident_from_node, named, size,
}
use i_ll.Lower.Escape.{escape, unescape}
use i_ll.Lower.Escape.RoundTrip.{unescape-escape}
use i_ll.Lower.Expr.{
  lower_number, lower_expression, expression_step, lower_ident_field, shape, lower_primary,
  fragments_of, is_expression, lower_string, primary_shape,
}
use i_ll.Lower.Expr.Numbers.{lower_number-show_ℤ}
use i_ll.Lower.Returns.{IsQuoted, is_quoted}
use i_ll.Lower.Declaration.{lower_source_file, lower_as_block, lower_block}
use i_ll.Lower.Reports.{collect_errors}
use i_ll.Lower.Reports.Order.{starts, is_ascending, positions}
use i_ll.Lower.{lower, lower_root}
use i_ll.Lower.Outcome.{
  is_sound, is_nil, Reported, lower_returns, lower_ok-is_sound, lower_err-collect_errors,
}

unescape-escape_example : unescape (escape "a\t\"$\\") ≡ ok "a\t\"$\\"
unescape-escape_example = unescape-escape "a\t\"$\\"

abbrev here : Span
here = record { start = 0; end = 0 }

abbrev info_of : String → String → NodeInfo
info_of k t = record {
  kind = k;
  is_named = true;
  is_error = false;
  is_missing = false;
  span = here;
  text = t;
}

abbrev leaf : String → String → Node
leaf k t = node (info_of k t) nil

abbrev branch : String → Children → Node
branch k cs = node (info_of k "") cs

abbrev only : Node → Children
only n = child none n nil

abbrev wrapped_number : Node
wrapped_number = branch "primary_expression" (only (leaf "number" "-42"))

abbrev quoted : Node
quoted =
    branch "primary_expression" (only (branch "string" (only (leaf "single_quoted_string" "'x'"))))

abbrev assertion : Node
assertion = branch "assert_statement" (
    child (some "left") wrapped_number
      (child (some "operator") (leaf "comparison_operator" "==") (child (some "right") quoted nil)))

abbrev tree : Node
tree = branch "source_file" (
    only (
      branch "as_block"
        (child (some "actor") (leaf "identifier" "a") (only (branch "block" (only assertion))))))

abbrev broken : Node
broken =
    branch "source_file"
      (child none (node (record (info_of "ERROR" " as as ") { is_error = true }) nil) (only tree))

lower_number-show_ℤ_example : lower_number (leaf "number" "-42") ≡ (
    if in_i64 (negsuc 41)
    then give (Expr.number (negsuc 41))
    else refuse here DiagnosticCode.invalid_literal "`-42` is not a valid integer")
lower_number-show_ℤ_example =
    lower_number-show_ℤ (negsuc 41) (leaf "number" "-42") (unfold show_ℤ in refl)

abbrev file : SourceFile
file = record {
  items =
      TopLevel.as_block (record {
        actor = record { name = "a"; span = here };
        body =
            Statement.assert (record {
              annotation = none;
              left = Expr.number (negsuc 41);
              op = some ComparisonOp.eq;
              right = some (Expr.string_lit (Fragments.text "x" Fragments.end) here);
              span = here;
            })
            ∷ [];
        span = here;
      })
      ∷ [];
}

tree-lower : lower (λ s. some tree) "as a:\n  assert -42 == 'x'\n" ≡ some (ok file)
unfolding lower lower_source_file each named_children lower_as_block lower_ident_field field fold
    lower_block lower_assert lower_expression expression_step shape first_named lower_primary
    lower_number parse_i64 lower_comparison_op strip_quotes without_last fragments_of is_expression
    lower_string primary_shape collect_errors op_of by_field children_by_field ident_from_node named
    size lower_root
tree-lower = refl

tree-IsQuoted : IsQuoted tree
unfolding IsQuoted is_quoted
tree-IsQuoted = (
  (λ e. absurd (false≢true e)),
  (
    (
      (λ e. absurd (false≢true e)),
      (
        ((λ e. absurd (false≢true e)), tt),
        (
          (
            (λ e. absurd (false≢true e)),
            (
              (
                (λ e. absurd (false≢true e)),
                (
                  ((λ e. absurd (false≢true e)), (((λ e. absurd (false≢true e)), tt), tt)),
                  (
                    ((λ e. absurd (false≢true e)), tt),
                    (
                      (
                        (λ e. absurd (false≢true e)),
                        (((λ e. absurd (false≢true e)), (((λ e. refl), tt), tt)), tt),
                      ),
                      tt,
                    ),
                  ),
                ),
              ),
              tt,
            ),
          ),
          tt,
        ),
      ),
    ),
    tt,
  ),
)

broken-IsQuoted : IsQuoted broken
unfolding IsQuoted
broken-IsQuoted =
    ((λ e. absurd (false≢true e)), (((λ e. absurd (false≢true e)), tt), (tree-IsQuoted, tt)))

lower_ok-is_sound_example : (is_sound tree ≡ true) × (lower_source_file tree ≡ done file [])
lower_ok-is_sound_example =
    lower_ok-is_sound (λ s. some tree) "as a:\n  assert -42 == 'x'\n" tree file refl tree-lower

lower_err-collect_errors_example :
    (es ds : List Diagnostic) × (lower (λ s. some broken) "as as\n" ≡ some (err (es ++ ds)))
    × (es ≡ collect_errors "" broken)
    × (is_nil es ≡ false)
    × (is_ascending (positions es) ≡ true)
lower_err-collect_errors_example =
    lower_err-collect_errors (λ s. some broken) "as as\n" broken refl broken-IsQuoted
      (unfold is_sound in refl) (unfold is_ascending starts in refl)

lower_returns_example :
    (r : Result (List Diagnostic) SourceFile) × (lower (λ s. some tree) "as a:\n" ≡ some r)
    × Reported r
lower_returns_example = lower_returns (λ s. some tree) "as a:\n" tree refl tree-IsQuoted
