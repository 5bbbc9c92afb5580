-- ===== src/Validate/Expr.antt =====
-- The validator's checks of single expressions (crates/ill-core/src/validate.rs).
pub mod Known
use i_ll.Prelude.{
  String, ◌<>◌, Bool, false, Option, none, some, List, [], ◌∷◌, ◌++◌, find, if◌then◌else◌, ◌==◌,
}
use i_ll.Prelude.Maps.{Map, lookup}
use i_ll.Ast.{Span, Expr, Exprs, Fragments, KeywordValue}
use i_ll.Value.{ValueType}
use i_ll.Squiggle.{get_squiggle, output_type, Squiggle}
use i_ll.Actor.Command.{OutcomeField, ErrorTypeDef}
use i_ll.Diagnostic.{Diagnostic, report, conflicting_outcome_asserts, unknown_squiggle}

-- `for_each_expr`: the visitor sees an expression before its parts, and threads what it collects.
module _ {S : Type 0} (visit : Expr → S → S) where
  unfoldable mutual
    pub for_each_expr : Expr → S → S
    for_each_expr (Expr.squiggle name frags span) s =
        for_each_fragment frags (visit (Expr.squiggle name frags span) s)
    for_each_expr (Expr.string_lit frags span) s =
        for_each_fragment frags (visit (Expr.string_lit frags span) s)
    for_each_expr (Expr.array items) s = for_each_item items (visit (Expr.array items) s)
    for_each_expr (Expr.member_access object property span) s =
        for_each_expr object (visit (Expr.member_access object property span) s)
    for_each_expr (Expr.index object indices span) s =
        for_each_item indices (for_each_expr object (visit (Expr.index object indices span) s))
    for_each_expr e s = visit e s

    for_each_item : Exprs → S → S
    for_each_item Exprs.nil s = s
    for_each_item (Exprs.cons e es) s = for_each_item es (for_each_expr e s)

    for_each_fragment : Fragments → S → S
    for_each_fragment Fragments.end s = s
    for_each_fragment (Fragments.text t frags) s = for_each_fragment frags s
    for_each_fragment (Fragments.interpolation e frags) s =
        for_each_fragment frags (for_each_expr e s)

unknown_unless : Span → String → Option Squiggle → List Diagnostic
unknown_unless span name none =
    report span unknown_squiggle ("unknown squiggle `~" <> (name <> "`"))
unknown_unless span name (some s) = []

-- What the visitor of `check_squiggles_in_expr` pushes.
unfoldable pub visit_squiggle : Expr → List Diagnostic → List Diagnostic
unfolding unknown_unless
visit_squiggle (Expr.squiggle name frags span) ds =
    ds ++ unknown_unless name.span name.name (get_squiggle name.name)
visit_squiggle e ds = ds

-- What `check_squiggles_in_expr` and `check_squiggles_in_kwvalue` push.
unfoldable pub check_squiggles : Expr → List Diagnostic
check_squiggles e = for_each_expr visit_squiggle e []

check_pairs : List (Expr × Expr) → List Diagnostic
check_pairs [] = []
check_pairs ((k, v) ∷ pairs) = check_squiggles k ++ (check_squiggles v ++ check_pairs pairs)

unfoldable pub check_squiggles_in_kwvalue : KeywordValue → List Diagnostic
unfolding check_pairs
check_squiggles_in_kwvalue (KeywordValue.expr e) = check_squiggles e
check_squiggles_in_kwvalue (KeywordValue.map pairs) = check_pairs pairs

-- `expr` is a chain rooted at an identifier of that name.
unfoldable pub expr_starts_with_ident : Expr → String → Bool
expr_starts_with_ident (Expr.ident x) name = x.name == name
expr_starts_with_ident (Expr.member_access object property span) name =
    expr_starts_with_ident object name
expr_starts_with_ident (Expr.index object indices span) name = expr_starts_with_ident object name
expr_starts_with_ident e name = false

pub data CommandOutcome : Type 0 where
  implied_ok explicit_ok explicit_error : CommandOutcome

unfoldable pub is_ok : CommandOutcome → Bool
is_ok explicit_error = false
is_ok o = Bool.true

conflict : Span → List Diagnostic
conflict span =
    report span conflicting_outcome_asserts
      "cannot mix `ok` and `error` references for the same command"

-- The new outcome and what is pushed, after a reference to `ok` (`true`) or to `error`.
unfoldable pub advance_outcome : CommandOutcome → Bool → Span → CommandOutcome × List Diagnostic
unfolding conflict
advance_outcome implied_ok Bool.true span = (explicit_ok, [])
advance_outcome implied_ok false span = (explicit_error, [])
advance_outcome explicit_ok false span = (explicit_ok, conflict span)
advance_outcome explicit_error Bool.true span = (explicit_error, conflict span)
advance_outcome o b span = (o, [])

type_of_squiggle : Option Squiggle → ValueType
type_of_squiggle none = ValueType.unknown
type_of_squiggle (some s) = output_type s

-- The type of an expression without its context.
unfoldable pub expr_type : Expr → ValueType
unfolding type_of_squiggle
expr_type (Expr.string_lit frags span) = ValueType.string
expr_type (Expr.number n) = ValueType.number
expr_type (Expr.bool b) = ValueType.bool
expr_type Expr.null = ValueType.null
expr_type (Expr.atom a) = ValueType.atom
expr_type (Expr.squiggle name frags span) = type_of_squiggle (get_squiggle name.name)
expr_type e = ValueType.unknown

field_type : String → List OutcomeField → Option ValueType
field_type name [] = none
field_type name (f ∷ fs) = if f.name == name then some f.ty else field_type name fs

find_variant : String → List ErrorTypeDef → Option ErrorTypeDef
find_variant name = find (λ v. v.name == name)

-- `error.<variant>` is there, and is no leaf.
variant_type : Option ErrorTypeDef → Option ValueType
variant_type none = none
variant_type (some v) = some ValueType.unknown

variant_field : String → Option ErrorTypeDef → Option ValueType
variant_field name none = none
variant_field name (some v) = field_type name v.fields

module _ (ok_fields : List OutcomeField) (error_types : List ErrorTypeDef) where
  unfoldable pub resolve_outcome_chain : Expr → Option ValueType
  unfolding field_type find_variant variant_type variant_field
  resolve_outcome_chain (Expr.member_access (Expr.ident root) property span) =
      if root.name == "ok"
      then field_type property.name ok_fields
      else if root.name == "error"
      then (if property.name == "type"
          then some ValueType.atom
          else variant_type (find_variant property.name error_types))
      else none
  resolve_outcome_chain
        (Expr.member_access (Expr.member_access (Expr.ident root) variant s) property span) =
      if root.name == "error"
      then variant_field property.name (find_variant variant.name error_types)
      else none
  resolve_outcome_chain e = none

or_unknown : Option ValueType → ValueType
or_unknown none = ValueType.unknown
or_unknown (some t) = t

-- `expr_type_in_actor`, given the variables of the enclosing actor.
unfoldable pub expr_type_in_actor :
    Map ValueType → List OutcomeField → List ErrorTypeDef → Expr → ValueType
unfolding or_unknown expr_type
expr_type_in_actor vars ok_fields error_types (Expr.member_access (Expr.ident root) property span) =
    if root.name == "self"
    then or_unknown (lookup property.name vars)
    else or_unknown (
        resolve_outcome_chain ok_fields error_types
          (Expr.member_access (Expr.ident root) property span))
expr_type_in_actor vars ok_fields error_types (Expr.member_access object property span) =
    or_unknown
      (resolve_outcome_chain ok_fields error_types (Expr.member_access object property span))
expr_type_in_actor vars ok_fields error_types (Expr.ident x) = or_unknown (lookup x.name vars)
expr_type_in_actor vars ok_fields error_types e = expr_type e
