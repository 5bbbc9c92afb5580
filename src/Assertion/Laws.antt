-- ===== src/Assertion/Laws.antt =====
-- How the comparison operators of assertions relate (`compare_values` of
-- crates/ill-core/src/runtime/assert.rs).
use i_ll.Prelude.{String, Bool, true, false, not, ok, err, map_ok, ◌≡◌, refl, arith}
use i_ll.Ast.{
  ComparisonOp, eq, not_eq, gt, gte, lt, lte, contains, not_contains, matches, not_matches,
}
use i_ll.Value.{Value, value_eq}
use i_ll.Eval.{Eval}
use i_ll.Assertion.{
  Regex, compare_values, compare_ord, contains_value, matches_regex, is_less, is_greater,
}

-- The operator that holds where the other does not.
unfoldable pub opposite : ComparisonOp → ComparisonOp
opposite eq = not_eq
opposite not_eq = eq
opposite gt = lte
opposite lte = gt
opposite gte = lt
opposite lt = gte
opposite contains = not_contains
opposite not_contains = contains
opposite matches = not_matches
opposite not_matches = matches

not-not : (r : Eval Bool) → r ≡ map_ok not (map_ok not r)
not-not (ok true) = refl
not-not (ok false) = refl
not-not (err e) = refl

negated :
    {A : Type 0} (f : A → Bool) (r : Eval A) → map_ok (λ a. not (f a)) r ≡ map_ok not (map_ok f r)
negated f (ok a) = refl
negated f (err e) = refl

undo :
    {A : Type 0} (f : A → Bool) (r : Eval A) → map_ok f r ≡ map_ok not (map_ok (λ a. not (f a)) r)
undo f (ok a) = ground arith
undo f (err e) = refl

-- Each operator and its opposite, on the same two values, both fail with the same message or give
-- opposite answers.
pub compare_values-opposite :
    (regex : String → Regex) (l r : Value) (op : ComparisonOp)
    → compare_values regex l r (opposite op) ≡ map_ok not (compare_values regex l r op)
unfolding compare_values opposite
compare_values-opposite regex l r eq = refl
compare_values-opposite regex l r not_eq = not-not (ok (value_eq l r))
compare_values-opposite regex l r gt = negated is_greater (compare_ord l r)
compare_values-opposite regex l r gte = undo is_less (compare_ord l r)
compare_values-opposite regex l r lt = negated is_less (compare_ord l r)
compare_values-opposite regex l r lte = undo is_greater (compare_ord l r)
compare_values-opposite regex l r contains = refl
compare_values-opposite regex l r not_contains = not-not (contains_value l r)
compare_values-opposite regex l r matches = refl
compare_values-opposite regex l r not_matches = not-not (matches_regex regex l r)
