-- ===== src/Lower/Declaration.antt =====
-- Lowering of actor declarations and `as` blocks (crates/ill-core/src/lower.rs).
pub mod Safe
use mathlib.Core.Option
use i_ll.Prelude.{
  String, ◌<>◌, Bool, true, false, ◌||◌, Option, none, some, List, [], ◌∷◌, ◌++◌, find, ◌==◌,
  if◌then◌else◌,
}
use i_ll.Ast.{
  KeywordValue, KeywordArg, VarDeclaration, ActorDeclaration, Statement, AsBlock, TopLevel,
  SourceFile,
}
use i_ll.Diagnostic.{Diagnostic, DiagnosticCode, report}
use i_ll.Lower.Tree.{
  Node, kind, span, info, named_children, field, Log, panicked, done, Lowered, ◌>>=◌, chain,
  map_log, and_then, give, skip, from_option, total, refuse, each, fold,
}
use i_ll.Lower.Expr.{lower_ident_field, lower_ident_from_first_child, lower_expression}
use i_ll.Lower.Statement.{
  lower_annotation, each_of_kind, lower_command, lower_assert, lower_let, lower_assignment,
}

-- `LowerCtx::lower_var_declaration`.
unfoldable pub lower_var_declaration : Node → Lowered VarDeclaration
lower_var_declaration n = do
  name ← lower_ident_field n "name"
  annotations ← total (each_of_kind "annotation" lower_annotation n)
  default ← total (and_then (field n "default") lower_expression)
  give (record { annotations = annotations; name = name; default = default; span = span n })

-- The vectors that the methods for the body of an actor push to.
pub record ActorParts : Type 0 where
  pub keyword_args : List KeywordArg
  pub vars : List VarDeclaration

-- `LowerCtx::lower_vars_block`.
unfoldable pub lower_vars_block : Node → List VarDeclaration → Log (List VarDeclaration)
lower_vars_block n vars =
    map_log (λ vs. vars ++ vs) (each_of_kind "var_declaration" lower_var_declaration n)

property_of : Node → Lowered KeywordArg
property_of n = do
  key ← lower_ident_field n "key"
  value_node ← from_option (field n "value")
  value ← lower_expression value_node
  give (record { key = key; value = KeywordValue.expr value; span = span n })

with_property : ActorParts → Option KeywordArg → ActorParts
with_property parts none = parts
with_property parts (some arg) = record parts { keyword_args = parts.keyword_args ++ arg ∷ [] }

property_or_vars : ActorParts → Node → Option Node → Log ActorParts
unfolding lower_vars_block property_of with_property
property_or_vars parts n (some block) =
    map_log (λ vs. record parts { vars = vs }) (lower_vars_block block parts.vars)
property_or_vars parts n none = map_log (with_property parts) (property_of n)

-- `LowerCtx::lower_actor_property`.
unfoldable pub lower_actor_property : ActorParts → Node → Log ActorParts
unfolding property_or_vars
lower_actor_property parts n =
    property_or_vars parts n (find (λ c. kind c == "vars_block") (named_children n))

-- A loop over the named children of one kind that changes the parts.
each_part : {S : Type 0} → String → (S → Node → Log S) → S → Node → Log S
each_part k f parts n =
    fold (λ s c. if kind c == k then f s c else done s []) parts (named_children n)

-- `LowerCtx::lower_actor_body`.
unfoldable pub lower_actor_body : ActorParts → Node → Log ActorParts
unfolding each_part
lower_actor_body parts n = each_part "actor_property" lower_actor_property parts n

-- `LowerCtx::lower_actor_declaration`.
unfoldable pub lower_actor_declaration : Node → Lowered ActorDeclaration
unfolding each_part
lower_actor_declaration n = do
  name ← lower_ident_field n "name"
  type_node ← from_option (field n "type")
  actor_type ← lower_ident_from_first_child type_node
  parts ←
      total (each_part "actor_body" lower_actor_body (record { keyword_args = []; vars = [] }) n)
  give (record {
    name = name;
    actor_type = actor_type;
    keyword_args = parts.keyword_args;
    vars = parts.vars;
    span = span n;
  })

-- A node that should not be there, unless the parser reported it.
unfoldable pub stray {ℓ} : {A : Type ℓ} → String → Node → Lowered A
stray place n =
    if (info n).is_error || (info n).is_missing
    then skip
    else refuse (span n) DiagnosticCode.unexpected_node
        ("unexpected `" <> (kind n <> ("` " <> place)))

statement_node : Node → Lowered Statement
unfolding stray
statement_node c =
    if kind c == "command"
    then map_log (Option.map Statement.command) (lower_command c)
    else if kind c == "assert_statement"
    then map_log (Option.map Statement.assert) (lower_assert c)
    else if kind c == "let_statement"
    then map_log (Option.map Statement.let_) (lower_let c)
    else if kind c == "assignment_statement"
    then map_log (Option.map Statement.assignment) (lower_assignment c)
    else if kind c == "INDENT"
        || (kind c == "DEDENT" || (kind c == "NEWLINE" || kind c == "comment"))
    then skip
    else stray "inside `as` block" c

-- `LowerCtx::lower_block`.
unfoldable pub lower_block : List Statement → Node → Log (List Statement)
unfolding statement_node
lower_block stmts n = map_log (λ ss. stmts ++ ss) (each statement_node (named_children n))

-- `LowerCtx::lower_as_block`.
unfoldable pub lower_as_block : Node → Lowered AsBlock
unfolding each_part
lower_as_block n = do
  actor ← lower_ident_field n "actor"
  body ← total (each_part "block" lower_block [] n)
  give (record { actor = actor; body = body; span = span n })

top_level : Node → Lowered TopLevel
top_level c =
    if kind c == "actor_declaration"
    then map_log (Option.map TopLevel.actor_declaration) (lower_actor_declaration c)
    else if kind c == "as_block"
    then map_log (Option.map TopLevel.as_block) (lower_as_block c)
    else if kind c == "NEWLINE" || kind c == "comment"
    then skip
    else stray "at top level" c

-- `LowerCtx::lower_source_file`.
unfoldable pub lower_source_file : Node → Log SourceFile
unfolding top_level
lower_source_file n =
    map_log (λ items. record { items = items }) (each top_level (named_children n))
