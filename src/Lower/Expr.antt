-- ===== src/Lower/Expr.antt =====
-- Lowering of expressions (crates/ill-core/src/lower.rs).
pub mod Literals
pub mod Numbers
pub mod Recursion
pub mod Safe
use i_ll.Prelude.{
  ℕ, zero, suc, String, ◌<>◌, Bool, true, false, not, ◌&&◌, ◌||◌, Option, none, some, List, [], ◌∷◌,
  ◌++◌, Result, ok, err, ◌==◌, if◌then◌else◌,
}
use i_ll.Prelude.Int.{ℤ}
use i_ll.Prelude.Parse.{parse_i64}
use i_ll.Ast.{Span, Ident, Expr, Exprs, Fragments}
use i_ll.Diagnostic.{Diagnostic, DiagnosticCode, report}
use i_ll.Lower.Tree.{
  Node, node, kind, span, text, info, size, head, named_children, first_named, children_by_field,
  field, Log, panicked, done, Lowered, ◌>>=◌, chain, map_log, and_then, give, skip, from_option,
  total, refuse, each, fold, ident_from_node,
}
use i_ll.Lower.Escape.{unescape}
use i_ll.Lower.Expr.Literals.{StringFragment, text_fragment, interpolated, strip_quotes}

-- `Vec<Expr>` and `Vec<StringFragment>` as the syntax tree has them.
unfoldable pub exprs_of : List Expr → Exprs
exprs_of [] = Exprs.nil
exprs_of (e ∷ es) = Exprs.cons e (exprs_of es)

unfoldable pub fragments_of : List StringFragment → Fragments
fragments_of [] = Fragments.end
fragments_of (text_fragment s ∷ fs) = Fragments.text s (fragments_of fs)
fragments_of (interpolated e ∷ fs) = Fragments.interpolation e (fragments_of fs)

ident_or_missing : Node → String → Option Node → Lowered Ident
ident_or_missing n name none =
    refuse (span n) DiagnosticCode.missing_field
      ("`" <> (kind n <> ("` is missing required `" <> (name <> "`"))))
ident_or_missing n name (some c) = give (ident_from_node c)

-- `LowerCtx::lower_ident_field`.
unfoldable pub lower_ident_field : Node → String → Lowered Ident
unfolding ident_or_missing
lower_ident_field n name = ident_or_missing n name (field n name)

-- `LowerCtx::lower_ident_from_first_child`.
unfoldable pub lower_ident_from_first_child : Node → Lowered Ident
lower_ident_from_first_child n = do c ← from_option (first_named n); give (ident_from_node c)

-- A node that is no expression: the parser's own errors are reported elsewhere.
unfoldable pub unexpected : String → Node → Lowered Expr
unexpected what n =
    if (info n).is_error || (info n).is_missing
    then skip
    else refuse (span n) DiagnosticCode.unexpected_node
        ("expected " <> (what <> (", found `" <> (kind n <> "`"))))

number_or : Node → Option ℤ → Lowered Expr
number_or n none =
    refuse (span n) DiagnosticCode.invalid_literal ("`" <> (text n <> "` is not a valid integer"))
number_or n (some i) = give (Expr.number i)

-- The number literal.
unfoldable pub lower_number : Node → Lowered Expr
unfolding number_or
lower_number n = number_or n (parse_i64 (text n))

single_quoted : Node → Option String → Lowered Expr
single_quoted n none = panicked
single_quoted n (some content) =
    give (Expr.string_lit (Fragments.text content Fragments.end) (span n))

unescaped : Span → String → Result String String → Log StringFragment
unescaped at raw (ok s) = done (text_fragment s) []
unescaped at raw (err message) =
    done (text_fragment raw) (report at DiagnosticCode.invalid_escape message)

unescape_fragment : Span → StringFragment → Lowered StringFragment
unfolding unescaped
unescape_fragment at (text_fragment raw) = total (unescaped at raw (unescape raw))
unescape_fragment at (interpolated e) = give (interpolated e)

-- What `lower_expression` and `lower_primary` tell apart by the kind of a node.
pub data Shape : Type 0 where
  wrapped member indexed primary other : Shape

pub data PrimaryShape : Type 0 where
  identifier number boolean null atom string squiggle array other : PrimaryShape

unfoldable pub primary_shape : String → PrimaryShape
primary_shape k =
    if k == "identifier"
    then identifier
    else if k == "number"
    then number
    else if k == "boolean"
    then boolean
    else if k == "null"
    then null
    else if k == "atom"
    then atom
    else if k == "string"
    then string
    else if k == "squiggle"
    then squiggle
    else if k == "array"
    then array
    else PrimaryShape.other

is_other : PrimaryShape → Bool
is_other PrimaryShape.other = true
is_other s = false

unfoldable pub shape : String → Shape
unfolding is_other primary_shape
shape k =
    if k == "primary_expression"
    then wrapped
    else if k == "member_expression"
    then member
    else if k == "index_expression"
    then indexed
    else if is_other (primary_shape k)
    then Shape.other
    else primary

unfoldable pub is_expression : Node → Bool
is_expression c =
    kind c == "primary_expression"
    || (kind c == "member_expression" || kind c == "index_expression")

lower_atom : Node → Lowered Expr
lower_atom n = do c ← from_option (first_named n); give (Expr.atom (ident_from_node c))

-- The methods that call `lower_expression`, which is `rec`.
module _ (rec : Node → Lowered Expr) where
  fragment : String → Node → Lowered StringFragment
  fragment text_kind c =
      if kind c == text_kind
      then give (text_fragment (text c))
      else if kind c == "interpolation"
      then (do e ← and_then (first_named c) rec; give (interpolated e))
      else skip

  unfoldable pub collect_fragments : Node → String → Log (List StringFragment)
  unfolding fragment
  collect_fragments n text_kind = each (fragment text_kind) (named_children n)

  unfoldable pub lower_string_fragments : Node → Log (List StringFragment)
  unfolding unescape_fragment
  lower_string_fragments n =
      chain (collect_fragments n "string_content") (each (unescape_fragment (span n)))

  double_quoted : Node → Node → Lowered Expr
  double_quoted n inner = do
    fragments ← total (lower_string_fragments inner)
    give (Expr.string_lit (fragments_of fragments) (span n))

  string_of : Node → Node → Lowered Expr
  unfolding double_quoted single_quoted
  string_of n inner =
      if kind inner == "double_quoted_string"
      then double_quoted n inner
      else if kind inner == "single_quoted_string"
      then single_quoted n (strip_quotes (text inner))
      else skip

  unfoldable pub lower_string : Node → Lowered Expr
  unfolding string_of
  lower_string n = do inner ← from_option (first_named n); string_of n inner

  unfoldable pub lower_squiggle : Node → Lowered Expr
  lower_squiggle n = do
    name ← from_option (field n "name")
    fragments ← total (collect_fragments n "squiggle_content")
    give (Expr.squiggle (ident_from_node name) (fragments_of fragments) (span n))

  unfoldable pub lower_array : Node → Lowered Expr
  unfolding is_expression
  lower_array n = do
    es ← total (each (λ c. if is_expression c then rec c else skip) (named_children n))
    give (Expr.array (exprs_of es))

  primary_of : PrimaryShape → Node → Lowered Expr
  unfolding lower_atom
  primary_of identifier n = give (Expr.ident (ident_from_node n))
  primary_of number n = lower_number n
  primary_of boolean n = give (Expr.bool (text n == "true"))
  primary_of null n = give Expr.null
  primary_of atom n = lower_atom n
  primary_of string n = lower_string n
  primary_of squiggle n = lower_squiggle n
  primary_of array n = lower_array n
  primary_of PrimaryShape.other n = unexpected "a value" n

  unfoldable pub lower_primary : Node → Lowered Expr
  unfolding primary_of
  lower_primary n = primary_of (primary_shape (kind n)) n

  unfoldable pub lower_member_expression : Node → Lowered Expr
  lower_member_expression n = do
    object_node ← from_option (field n "object")
    property ← lower_ident_field n "property"
    object ← rec object_node
    give (Expr.member_access object property (span n))

  unfoldable pub lower_index_expression : Node → Lowered Expr
  lower_index_expression n = do
    object_node ← from_option (field n "object")
    object ← rec object_node
    indices ← total (each rec (children_by_field n "index"))
    give (Expr.index object (exprs_of indices) (span n))

  expression_of : Shape → Node → Lowered Expr
  expression_of wrapped n = do c ← from_option (first_named n); lower_primary c
  expression_of member n = lower_member_expression n
  expression_of indexed n = lower_index_expression n
  expression_of primary n = lower_primary n
  expression_of Shape.other n = unexpected "an expression" n

  -- The body of `lower_expression`.
  unfoldable pub expression_step : Node → Lowered Expr
  unfolding expression_of
  expression_step n = expression_of (shape (kind n)) n

-- `LowerCtx::lower_expression`, on fuel: a call goes to a node below the caller's.
expression_at : ℕ → Node → Lowered Expr
expression_at zero n = panicked
expression_at (suc fuel) n = expression_step (expression_at fuel) n

unfoldable pub lower_expression : Node → Lowered Expr
unfolding expression_at size
lower_expression n = expression_at (size n) n
