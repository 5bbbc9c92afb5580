-- ===== src/Lower/Statement/Safe.antt =====
-- Lowering a statement does not panic (crates/ill-core/src/lower.rs).
use i_ll.Prelude.{
  String, Bool, true, false, Option, none, some, List, [], ◌∷◌, find, ◌≡◌, refl, All, ◌==◌,
  if◌then◌else◌,
}
use i_ll.Ast.{Ident, Expr, ComparisonOp}
use i_ll.Lower.Tree.{
  Node, kind, text, first_named, field, done, head, Lowered, ◌>>=◌, and_then, from_option, total,
}
use i_ll.Lower.Returns.{
  IsQuoted, children-IsQuoted, field-IsQuoted, Returns, bind-Returns, map-Returns, total-Returns,
  done-Returns, report-Returns, report-Returns, if-Returns, head-Returns, and_then-Returns,
  each-Returns, fold-Returns,
}
use i_ll.Lower.Expr.{lower_expression}
use i_ll.Lower.Expr.Literals.{strip_quotes}
use i_ll.Lower.Expr.Safe.{
  is_some, strip_quotes-is_some, quoted-text, lower_ident_field-Returns, lower_expression-Returns,
}
use i_ll.Lower.Statement.{
  or_panic, inner_text, extract_string_text, annotation_value, annotation_part, lower_annotation,
  lower_keyword_pair, each_of_kind, keyword_value, lower_keyword_arg, collect_keyword_args,
  CommandParts, command_part, lower_command, op_or, lower_comparison_op, lower_assert,
  lower_parse_expression, let_value, lower_let, lower_assignment,
}

or_panic-Returns : (o : Option String) → is_some o ≡ true → Returns (or_panic o)
unfolding or_panic
or_panic-Returns none h = absurd (cc h)
or_panic-Returns (some s) h = done-Returns _

single-Returns :
    (n : Node) (b : Bool)
    → (kind n == "single_quoted_string") ≡ b
    → IsQuoted n
    → Returns (if b then or_panic (strip_quotes (text n)) else done "" [])
single-Returns n true e q = or_panic-Returns _ (strip_quotes-is_some (text n) (quoted-text n q e))
single-Returns n false e q = done-Returns _

inner-Returns : (ns : List Node) → All IsQuoted ns → Returns (inner_text (head ns))
unfolding inner_text
inner-Returns [] h = done-Returns _
inner-Returns (n ∷ ns) (q, h) = if-Returns _ _ _ (done-Returns _) (single-Returns n _ refl q)

value-Returns : (v : Option String) (n : Node) → IsQuoted n → Returns (annotation_value v n)
unfolding annotation_value extract_string_text first_named
value-Returns v n q = if-Returns _ _ _ (done-Returns _) (
    if-Returns _ _ _ (map-Returns some _ (inner-Returns _ (children-IsQuoted n q)))
      (done-Returns _))

part-Returns :
    (p : Option Ident × Option String) (n : Node) → IsQuoted n → Returns (annotation_part p n)
unfolding annotation_part
part-Returns (name, value) n q = if-Returns _ _ _ (done-Returns _) (
    if-Returns _ _ _
      (map-Returns _ _
        (fold-Returns annotation_value value _ (children-IsQuoted n q) value-Returns))
      (done-Returns _))

pub lower_annotation-Returns : (n : Node) → IsQuoted n → Returns (lower_annotation n)
unfolding lower_annotation
lower_annotation-Returns n q =
    bind-Returns _ _
      (total-Returns _ (fold-Returns annotation_part _ _ (children-IsQuoted n q) part-Returns))
      (λ parts. bind-Returns _ _ (done-Returns parts.0) (λ name. done-Returns _))

-- A field that is lowered.
pub field-Returns :
    {B : Type 0} (n : Node) (name : String) (f : Node → Lowered B)
    → IsQuoted n
    → ((c : Node) → IsQuoted c → Returns (f c))
    → Returns (from_option (field n name) >>= f)
unfolding field
field-Returns n name f q r = head-Returns IsQuoted _ f (field-IsQuoted n name q) r

-- The same for a field that may be missing.
pub optional-Returns :
    {B : Type 0} (n : Node) (name : String) (f : Node → Lowered B)
    → IsQuoted n
    → ((c : Node) → IsQuoted c → Returns (f c))
    → Returns (total (and_then (field n name) f))
unfolding field
optional-Returns n name f q r =
    total-Returns _ (and_then-Returns IsQuoted _ f (field-IsQuoted n name q) r)

pub each_of_kind-Returns :
    {B : Type 0} (k : String) (f : Node → Lowered B) (n : Node)
    → IsQuoted n
    → ((c : Node) → IsQuoted c → Returns (f c))
    → Returns (each_of_kind k f n)
unfolding each_of_kind
each_of_kind-Returns k f n q r =
    each-Returns IsQuoted _ _ (children-IsQuoted n q)
      (λ c qc. if-Returns _ _ _ (r c qc) (done-Returns _))

pair-Returns : (n : Node) → IsQuoted n → Returns (lower_keyword_pair n)
unfolding lower_keyword_pair
pair-Returns n q = field-Returns n "key" _ q (λ c qc. field-Returns n "value" _ q (λ d qd.
    bind-Returns _ _ (lower_expression-Returns c qc)
      (λ key. bind-Returns _ _ (lower_expression-Returns d qd) (λ v. done-Returns _))))

keyword_value-Returns :
    (n : Node) (ps : List (Expr × Expr)) → IsQuoted n → Returns (keyword_value n ps)
unfolding keyword_value
keyword_value-Returns n (p ∷ ps) q = done-Returns _
keyword_value-Returns n [] q =
    field-Returns n "value" _ q
      (λ c qc. bind-Returns _ _ (lower_expression-Returns c qc) (λ v. done-Returns _))

keyword_arg-Returns : (n : Node) → IsQuoted n → Returns (lower_keyword_arg n)
unfolding lower_keyword_arg
keyword_arg-Returns n q = bind-Returns _ _ (lower_ident_field-Returns n "key") (λ key.
    bind-Returns _ _
      (total-Returns _ (each_of_kind-Returns "keyword_pair" lower_keyword_pair n q pair-Returns))
      (λ ps. bind-Returns _ _ (keyword_value-Returns n ps q) (λ v. done-Returns _)))

command_part-Returns : (p : CommandParts) (n : Node) → IsQuoted n → Returns (command_part p n)
unfolding command_part collect_keyword_args
command_part-Returns p n q = if-Returns _ _ _ (map-Returns _ _ (lower_annotation-Returns n q)) (
    if-Returns _ _ _
      (map-Returns _ _
        (each_of_kind-Returns "keyword_arg" lower_keyword_arg n q keyword_arg-Returns))
      (if-Returns _ _ _ (map-Returns _ _ (lower_expression-Returns n q)) (done-Returns _)))

pub lower_command-Returns : (n : Node) → IsQuoted n → Returns (lower_command n)
unfolding lower_command
lower_command-Returns n q = bind-Returns _ _ (lower_ident_field-Returns n "name") (λ name.
    bind-Returns _ _
      (total-Returns _ (fold-Returns command_part _ _ (children-IsQuoted n q) command_part-Returns))
      (λ parts. done-Returns _))

op-Returns : (n : Node) (o : Option ComparisonOp) → Returns (op_or n o)
unfolding op_or
op-Returns n none = report-Returns _ _ _ _
op-Returns n (some op) = done-Returns _

find-Returns :
    (p : Node → Bool) (ns : List Node)
    → All IsQuoted ns
    → Returns (and_then (find p ns) lower_annotation)
find-Returns p [] h = done-Returns _
find-Returns p (n ∷ ns) (q, h) =
    elim (p n)
      as (λ b. Returns (and_then (elim b [ true ↦ some n | false ↦ find p ns ]) lower_annotation)) [
        | true ↦ lower_annotation-Returns n q
        | false ↦ find-Returns p ns h
      ]

pub lower_assert-Returns : (n : Node) → IsQuoted n → Returns (lower_assert n)
unfolding lower_assert lower_comparison_op
lower_assert-Returns n q = field-Returns n "left" _ q (λ c qc.
    bind-Returns _ _ (lower_expression-Returns c qc) (λ left.
      bind-Returns _ _
        (optional-Returns n "operator" lower_comparison_op q (λ d qd. op-Returns d _))
        (λ op.
          bind-Returns _ _ (optional-Returns n "right" lower_expression q lower_expression-Returns)
            (λ right.
              bind-Returns _ _ (total-Returns _ (find-Returns _ _ (children-IsQuoted n q)))
                (λ annotation. done-Returns _)))))

parse-Returns : (n : Node) → IsQuoted n → Returns (lower_parse_expression n)
unfolding lower_parse_expression
parse-Returns n q = field-Returns n "source" _ q (λ c qc.
    bind-Returns _ _ (lower_ident_field-Returns n "format")
      (λ format. bind-Returns _ _ (lower_expression-Returns c qc) (λ v. done-Returns _)))

let_value-Returns : (n : Node) → IsQuoted n → Returns (let_value n)
unfolding let_value
let_value-Returns n q =
    if-Returns _ _ _ (parse-Returns n q)
      (bind-Returns _ _ (lower_expression-Returns n q) (λ e. done-Returns _))

pub lower_let-Returns : (n : Node) → IsQuoted n → Returns (lower_let n)
unfolding lower_let
lower_let-Returns n q = bind-Returns _ _ (lower_ident_field-Returns n "name") (λ name.
    field-Returns n "value" _ q
      (λ c qc. bind-Returns _ _ (let_value-Returns c qc) (λ v. done-Returns _)))

pub lower_assignment-Returns : (n : Node) → IsQuoted n → Returns (lower_assignment n)
unfolding lower_assignment
lower_assignment-Returns n q = field-Returns n "target" _ q (λ c qc.
    bind-Returns _ _ (lower_expression-Returns c qc) (λ target.
      field-Returns n "value" _ q
        (λ d qd. bind-Returns _ _ (lower_expression-Returns d qd) (λ v. done-Returns _))))
