-- ===== src/Lower/Declaration/Safe.antt =====
-- Lowering a file does not panic (crates/ill-core/src/lower.rs).
use i_ll.Prelude.{String, Bool, true, false, some, List, [], ◌∷◌, find, All}
use i_ll.Ast.{Statement}
use i_ll.Lower.Tree.{Node, first_named, Log}
use i_ll.Lower.Returns.{
  IsQuoted, children-IsQuoted, Returns, bind-Returns, map-Returns, total-Returns, done-Returns,
  report-Returns, if-Returns, head-Returns, each-Returns, fold-Returns,
}
use i_ll.Lower.Expr.{lower_ident_from_first_child, lower_expression}
use i_ll.Lower.Expr.Safe.{lower_ident_field-Returns, lower_expression-Returns}
use i_ll.Lower.Statement.{lower_annotation}
use i_ll.Lower.Statement.Safe.{
  lower_annotation-Returns, field-Returns, optional-Returns, each_of_kind-Returns,
  lower_command-Returns, lower_assert-Returns, lower_let-Returns, lower_assignment-Returns,
}
use i_ll.Lower.Declaration.{
  lower_var_declaration, ActorParts, lower_vars_block, property_of, with_property, property_or_vars,
  lower_actor_property, each_part, lower_actor_body, lower_actor_declaration, stray, statement_node,
  lower_block, lower_as_block, top_level, lower_source_file,
}

var-Returns : (n : Node) → IsQuoted n → Returns (lower_var_declaration n)
unfolding lower_var_declaration
var-Returns n q = bind-Returns _ _ (lower_ident_field-Returns n "name") (λ name.
    bind-Returns _ _
      (total-Returns _
        (each_of_kind-Returns "annotation" lower_annotation n q lower_annotation-Returns))
      (λ annotations.
        bind-Returns _ _ (optional-Returns n "default" lower_expression q lower_expression-Returns)
          (λ default. done-Returns _)))

property-Returns : (n : Node) → IsQuoted n → Returns (property_of n)
unfolding property_of
property-Returns n q = bind-Returns _ _ (lower_ident_field-Returns n "key") (λ key.
    field-Returns n "value" _ q
      (λ c qc. bind-Returns _ _ (lower_expression-Returns c qc) (λ v. done-Returns _)))

vars-Returns :
    (parts : ActorParts) (n : Node) (p : Node → Bool) (ns : List Node)
    → IsQuoted n
    → All IsQuoted ns
    → Returns (property_or_vars parts n (find p ns))
unfolding property_or_vars lower_vars_block
vars-Returns parts n p [] q h = map-Returns (with_property parts) _ (property-Returns n q)
vars-Returns parts n p (c ∷ ns) q (qc, h) =
    elim (p c)
      as (λ b. Returns (property_or_vars parts n (elim b [ true ↦ some c | false ↦ find p ns ]))) [
        | true ↦ map-Returns _ _ (
            map-Returns _ _
              (each_of_kind-Returns "var_declaration" lower_var_declaration c qc var-Returns))
        | false ↦ vars-Returns parts n p ns q h
      ]

each_part-Returns :
    {S : Type 0} (k : String) (f : S → Node → Log S) (s : S) (n : Node)
    → IsQuoted n
    → ((t : S) (c : Node) → IsQuoted c → Returns (f t c))
    → Returns (each_part k f s n)
unfolding each_part
each_part-Returns k f s n q r =
    fold-Returns _ s _ (children-IsQuoted n q)
      (λ t c qc. if-Returns _ _ _ (r t c qc) (done-Returns _))

actor_property-Returns :
    (parts : ActorParts) (n : Node) → IsQuoted n → Returns (lower_actor_property parts n)
unfolding lower_actor_property
actor_property-Returns parts n q = vars-Returns parts n _ _ q (children-IsQuoted n q)

actor_body-Returns :
    (parts : ActorParts) (n : Node) → IsQuoted n → Returns (lower_actor_body parts n)
unfolding lower_actor_body
actor_body-Returns parts n q =
    each_part-Returns "actor_property" lower_actor_property parts n q actor_property-Returns

actor-Returns : (n : Node) → IsQuoted n → Returns (lower_actor_declaration n)
unfolding lower_actor_declaration lower_ident_from_first_child first_named
actor-Returns n q = bind-Returns _ _ (lower_ident_field-Returns n "name") (λ name.
    field-Returns n "type" _ q (λ c qc.
      bind-Returns _ _ (head-Returns IsQuoted _ _ (children-IsQuoted c qc) (λ d qd. done-Returns _))
        (λ actor_type.
          bind-Returns _ _
            (total-Returns _
              (each_part-Returns "actor_body" lower_actor_body _ n q actor_body-Returns))
            (λ parts. done-Returns _))))

stray-Returns : (A : Type 0) (place : String) (n : Node) → Returns (stray {A = A} place n)
unfolding stray
stray-Returns A place n = if-Returns _ _ _ (done-Returns _) (report-Returns _ _ _ _)

statement-Returns : (n : Node) → IsQuoted n → Returns (statement_node n)
unfolding statement_node
statement-Returns n q = if-Returns _ _ _ (map-Returns _ _ (lower_command-Returns n q)) (
    if-Returns _ _ _ (map-Returns _ _ (lower_assert-Returns n q)) (
      if-Returns _ _ _ (map-Returns _ _ (lower_let-Returns n q)) (
        if-Returns _ _ _ (map-Returns _ _ (lower_assignment-Returns n q))
          (if-Returns _ _ _ (done-Returns _) (stray-Returns _ "inside `as` block" n)))))

block-Returns : (ss : List Statement) (n : Node) → IsQuoted n → Returns (lower_block ss n)
unfolding lower_block
block-Returns ss n q =
    map-Returns _ _ (each-Returns IsQuoted _ _ (children-IsQuoted n q) statement-Returns)

as_block-Returns : (n : Node) → IsQuoted n → Returns (lower_as_block n)
unfolding lower_as_block
as_block-Returns n q = bind-Returns _ _ (lower_ident_field-Returns n "actor") (λ actor.
    bind-Returns _ _ (total-Returns _ (each_part-Returns "block" lower_block _ n q block-Returns))
      (λ body. done-Returns _))

top-Returns : (n : Node) → IsQuoted n → Returns (top_level n)
unfolding top_level
top-Returns n q = if-Returns _ _ _ (map-Returns _ _ (actor-Returns n q)) (
    if-Returns _ _ _ (map-Returns _ _ (as_block-Returns n q))
      (if-Returns _ _ _ (done-Returns _) (stray-Returns _ "at top level" n)))

pub lower_source_file-Returns : (n : Node) → IsQuoted n → Returns (lower_source_file n)
unfolding lower_source_file
lower_source_file-Returns n q =
    map-Returns _ _ (each-Returns IsQuoted _ _ (children-IsQuoted n q) top-Returns)
