-- ===== src/Validate/Expr/Known.antt =====
-- The validator's search for unknown squiggles (`check_squiggles_in_expr` of
-- crates/ill-core/src/validate.rs).
use i_ll.Prelude.{Option, none, some, List, [], ◌∷◌, ◌++◌, ◌≡◌, refl}
use i_ll.Ast.{Span, Expr, Exprs, Fragments}
use i_ll.Diagnostic.{Diagnostic}
use i_ll.Squiggle.{Squiggle, get_squiggle}
use i_ll.Validate.Expr.{
  check_squiggles, visit_squiggle, for_each_expr, for_each_item, for_each_fragment, unknown_unless,
}

unfoldable pub IsRegistered : Option Squiggle → Type 0
IsRegistered none = ⊥
IsRegistered (some s) = Unit

-- Every squiggle of the expression is registered, at any depth.
unfoldable mutual
  pub IsKnown : Expr → Type 0
  IsKnown (Expr.squiggle name frags span) = IsRegistered (get_squiggle name.name) × AreSpliced frags
  IsKnown (Expr.string_lit frags span) = AreSpliced frags
  IsKnown (Expr.array items) = AreKnown items
  IsKnown (Expr.member_access object property span) = IsKnown object
  IsKnown (Expr.index object indices span) = IsKnown object × AreKnown indices
  IsKnown e = Unit

  pub AreKnown : Exprs → Type 0
  AreKnown Exprs.nil = Unit
  AreKnown (Exprs.cons e es) = IsKnown e × AreKnown es

  pub AreSpliced : Fragments → Type 0
  AreSpliced Fragments.end = Unit
  AreSpliced (Fragments.text t frags) = AreSpliced frags
  AreSpliced (Fragments.interpolation e frags) = IsKnown e × AreSpliced frags

split_nil : (xs ys : List Diagnostic) → xs ++ ys ≡ [] → (xs ≡ []) × (ys ≡ [])
split_nil [] ys h = (refl, h)
split_nil (x ∷ xs) ys h = cc

unless-IsRegistered :
    (span : Span) (name : _) (o : Option Squiggle)
    → unknown_unless span name o ≡ []
    → IsRegistered o
unfolding unknown_unless IsRegistered
unless-IsRegistered span name none h = cc
unless-IsRegistered span name (some s) h = tt

mutual
  unfolding for_each_expr visit_squiggle IsKnown

  search_expr :
      (e : Expr) (ds : List Diagnostic)
      → for_each_expr visit_squiggle e ds ≡ []
      → (ds ≡ []) × IsKnown e
  search_expr (Expr.squiggle name frags span) ds h =
      let (before, spliced) = search_fragments frags _ h in
      let (start, here) = split_nil ds _ before in
      (start, (unless-IsRegistered name.span name.name _ here, spliced))
  search_expr (Expr.string_lit frags span) ds h = search_fragments frags ds h
  search_expr (Expr.array items) ds h = search_items items ds h
  search_expr (Expr.member_access object property span) ds h = search_expr object ds h
  search_expr (Expr.index object indices span) ds h =
      let (before, indices_known) = search_items indices _ h in
      let (start, object_known) = search_expr object ds before in
      (start, (object_known, indices_known))
  search_expr _ ds h = (h, tt)

  search_items :
      (es : Exprs) (ds : List Diagnostic)
      → for_each_item visit_squiggle es ds ≡ []
      → (ds ≡ []) × AreKnown es
  search_items Exprs.nil ds h = (h, tt)
  search_items (Exprs.cons e es) ds h =
      let (before, rest) = search_items es _ h in
      let (start, first) = search_expr e ds before in (start, (first, rest))

  search_fragments :
      (fs : Fragments) (ds : List Diagnostic)
      → for_each_fragment visit_squiggle fs ds ≡ []
      → (ds ≡ []) × AreSpliced fs
  search_fragments Fragments.end ds h = (h, tt)
  search_fragments (Fragments.text t frags) ds h = search_fragments frags ds h
  search_fragments (Fragments.interpolation e frags) ds h =
      let (before, rest) = search_fragments frags _ h in
      let (start, first) = search_expr e ds before in (start, (first, rest))

-- Where the validator reports no unknown squiggle, every squiggle of the expression is registered.
pub check_squiggles-IsKnown : (e : Expr) → check_squiggles e ≡ [] → IsKnown e
unfolding check_squiggles
check_squiggles-IsKnown e h = (search_expr e [] h).1
