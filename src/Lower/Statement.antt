-- ===== src/Lower/Statement.antt =====
-- Lowering of annotations, keyword arguments and statements (crates/ill-core/src/lower.rs).
pub mod Operators
pub mod Safe
use i_ll.Prelude.{
  ℕ, String, ◌<>◌, Bool, true, false, ◌||◌, Option, none, some, List, [], ◌∷◌, ◌++◌, find, ◌==◌,
  if◌then◌else◌,
}
use i_ll.Ast.{
  Ident, Expr, ComparisonOp, Annotation, KeywordValue, KeywordArg, Command, Assert, LetValue, Let,
  Assignment, Statement,
}
use i_ll.Diagnostic.{Diagnostic, DiagnosticCode, report}
use i_ll.Lower.Tree.{
  Node, kind, span, text, info, named_children, first_named, field, Log, panicked, done, Lowered,
  ◌>>=◌, chain, map_log, and_then, give, skip, from_option, total, refuse, each, fold,
  ident_from_node,
}
use i_ll.Lower.Expr.{lower_ident_field, is_expression, lower_expression}
use i_ll.Lower.Expr.Literals.{strip_quotes}

or_panic : Option String → Log String
or_panic none = panicked
or_panic (some s) = done s []

unfoldable pub content_text : List Node → String
content_text [] = ""
content_text (c ∷ cs) =
    let rest = content_text cs in if kind c == "string_content" then text c <> rest else rest

inner_text : Option Node → Log String
unfolding content_text or_panic
inner_text none = done "" []
inner_text (some inner) =
    if kind inner == "double_quoted_string"
    then done (content_text (named_children inner)) []
    else if kind inner == "single_quoted_string"
    then or_panic (strip_quotes (text inner))
    else done "" []

-- `LowerCtx::extract_string_text`.
unfoldable pub extract_string_text : Node → Log String
unfolding inner_text
extract_string_text n = inner_text (first_named n)

annotation_value : Option String → Node → Log (Option String)
annotation_value value inner =
    if kind inner == "identifier"
    then done (some (text inner)) []
    else if kind inner == "string"
    then map_log some (extract_string_text inner)
    else done value []

-- The local variables `name` and `value` of `lower_annotation`.
abbrev AnnotationParts : Type 0
AnnotationParts = Option Ident × Option String

annotation_part : AnnotationParts → Node → Log AnnotationParts
unfolding annotation_value
annotation_part (name, value) c =
    if kind c == "annotation_name"
    then done (some (ident_from_node c), value) []
    else if kind c == "annotation_value"
    then map_log (λ v. (name, v)) (fold annotation_value value (named_children c))
    else done (name, value) []

-- `LowerCtx::lower_annotation`.
unfoldable pub lower_annotation : Node → Lowered Annotation
unfolding annotation_part
lower_annotation n = do
  parts ← total (fold annotation_part (none, none) (named_children n))
  name ← from_option parts.0
  give (record { name = name; value = parts.1; span = span n })

-- `LowerCtx::lower_keyword_pair`.
unfoldable pub lower_keyword_pair : Node → Lowered (Expr × Expr)
lower_keyword_pair n = do
  key_node ← from_option (field n "key")
  value_node ← from_option (field n "value")
  key ← lower_expression key_node
  value ← lower_expression value_node
  give (key, value)

-- The children of the kind, lowered.
unfoldable pub each_of_kind {ℓ} : {A : Type ℓ} → String → (Node → Lowered A) → Node → Log (List A)
each_of_kind k f n = each (λ c. if kind c == k then f c else skip) (named_children n)

keyword_value : Node → List (Expr × Expr) → Lowered KeywordValue
keyword_value n (pair ∷ pairs) = give (KeywordValue.map (pair ∷ pairs))
keyword_value n [] = do
  value_node ← from_option (field n "value")
  value ← lower_expression value_node
  give (KeywordValue.expr value)

-- `LowerCtx::lower_keyword_arg`.
unfoldable pub lower_keyword_arg : Node → Lowered KeywordArg
unfolding keyword_value each_of_kind
lower_keyword_arg n = do
  key ← lower_ident_field n "key"
  pairs ← total (each_of_kind "keyword_pair" lower_keyword_pair n)
  value ← keyword_value n pairs
  give (record { key = key; value = value; span = span n })

-- `LowerCtx::collect_keyword_args`: what it pushes.
unfoldable pub collect_keyword_args : Node → Log (List KeywordArg)
unfolding each_of_kind
collect_keyword_args n = each_of_kind "keyword_arg" lower_keyword_arg n

-- The local variables of `lower_command`.
pub record CommandParts : Type 0 where
  pub annotation : Option Annotation
  pub positional_args : List Expr
  pub keyword_args : List KeywordArg

with_arg : CommandParts → Option Expr → CommandParts
with_arg parts none = parts
with_arg parts (some e) = record parts { positional_args = parts.positional_args ++ e ∷ [] }

unfoldable pub command_part : CommandParts → Node → Log CommandParts
unfolding with_arg
command_part parts c =
    if kind c == "annotation"
    then map_log (λ a. record parts { annotation = a }) (lower_annotation c)
    else if kind c == "keyword_block" || kind c == "inline_keyword_args"
    then map_log (λ args. record parts { keyword_args = parts.keyword_args ++ args })
        (collect_keyword_args c)
    else if is_expression c
    then map_log (with_arg parts) (lower_expression c)
    else done parts []

abbrev no_parts : CommandParts
no_parts = record { annotation = none; positional_args = []; keyword_args = [] }

-- `LowerCtx::lower_command`.
unfoldable pub lower_command : Node → Lowered Command
unfolding command_part
lower_command n = do
  name ← lower_ident_field n "name"
  parts ← total (fold command_part no_parts (named_children n))
  give (record {
    annotation = parts.annotation;
    name = name;
    positional_args = parts.positional_args;
    keyword_args = parts.keyword_args;
    span = span n;
  })

-- The operator that a text is.
unfoldable pub op_of : String → Option ComparisonOp
op_of t =
    if t == "=="
    then some ComparisonOp.eq
    else if t == "!="
    then some ComparisonOp.not_eq
    else if t == ">"
    then some ComparisonOp.gt
    else if t == ">="
    then some ComparisonOp.gte
    else if t == "<"
    then some ComparisonOp.lt
    else if t == "<="
    then some ComparisonOp.lte
    else if t == "contains"
    then some ComparisonOp.contains
    else if t == "!contains"
    then some ComparisonOp.not_contains
    else if t == "matches"
    then some ComparisonOp.matches
    else if t == "!matches"
    then some ComparisonOp.not_matches
    else none

op_or : Node → Option ComparisonOp → Lowered ComparisonOp
op_or n none =
    refuse (span n) DiagnosticCode.invalid_literal
      ("`" <> (text n <> "` is not a valid comparison operator"))
op_or n (some op) = give op

-- `LowerCtx::lower_comparison_op`.
unfoldable pub lower_comparison_op : Node → Lowered ComparisonOp
unfolding op_or op_of
lower_comparison_op n = op_or n (op_of (text n))

-- `LowerCtx::lower_assert`.
unfoldable pub lower_assert : Node → Lowered Assert
lower_assert n = do
  left_node ← from_option (field n "left")
  left ← lower_expression left_node
  op ← total (and_then (field n "operator") lower_comparison_op)
  right ← total (and_then (field n "right") lower_expression)
  annotation ←
      total (and_then (find (λ c. kind c == "annotation") (named_children n)) lower_annotation)
  give (record { annotation = annotation; left = left; op = op; right = right; span = span n })

-- `LowerCtx::lower_parse_expression`.
unfoldable pub lower_parse_expression : Node → Lowered LetValue
lower_parse_expression n = do
  source_node ← from_option (field n "source")
  format ← lower_ident_field n "format"
  source ← lower_expression source_node
  give (LetValue.parse source format)

let_value : Node → Lowered LetValue
let_value n =
    if kind n == "parse_expression"
    then lower_parse_expression n
    else (do e ← lower_expression n; give (LetValue.expr e))

-- `LowerCtx::lower_let`.
unfoldable pub lower_let : Node → Lowered Let
unfolding let_value
lower_let n = do
  name ← lower_ident_field n "name"
  value_node ← from_option (field n "value")
  value ← let_value value_node
  give (record { name = name; value = value; span = span n })

-- `LowerCtx::lower_assignment`.
unfoldable pub lower_assignment : Node → Lowered Assignment
lower_assignment n = do
  target_node ← from_option (field n "target")
  target ← lower_expression target_node
  value_node ← from_option (field n "value")
  value ← lower_expression value_node
  give (record { target = target; value = value; span = span n })
