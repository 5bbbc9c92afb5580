-- ===== src/Eval/Typing.antt =====
-- The static types that the validator gives to expressions (`expr_type` of
-- crates/ill-core/src/validate.rs) against the evaluator.
use i_ll.Prelude.{String, true, Option, none, some, ok, err, map_ok, >>=-eq-ok, ◌≡◌, refl, arith}
use i_ll.Ast.{Expr}
use i_ll.Value.{Value, ValueType, is_of_type}
use i_ll.Squiggle.{Squiggle, output_type, get_squiggle, eval_squiggle}
use i_ll.Eval.{Scope, Eval, eval, concat_fragments, run_squiggle, check_output}
use i_ll.Validate.Expr.{expr_type}

-- What a success carries has each property that is shown of the value itself.
typed_as :
    (t : ValueType) {u v : Value} (r : Eval Value)
    → r ≡ ok u
    → is_of_type u t ≡ true
    → r ≡ ok v
    → is_of_type v t ≡ true
typed_as t r returns fits h = cc

string-is_of_type :
    (r : Eval String) (v : Value)
    → map_ok Value.string r ≡ ok v
    → is_of_type v ValueType.string ≡ true
unfolding is_of_type
string-is_of_type (ok s) v h = typed_as ValueType.string _ refl refl h
string-is_of_type (err e) v h = cc

check_output-eq-ok :
    (s : Squiggle) (u v : Value) → check_output s u ≡ ok v → is_of_type v (output_type s) ≡ true
unfolding check_output
check_output-eq-ok s u v h = ground arith

run_squiggle-is_of_type :
    (name : String) (o : Option Squiggle) (r : Eval String) (v : Value)
    → run_squiggle name o r ≡ ok v
    → is_of_type v (elim o [ none ↦ ValueType.unknown | some s ↦ output_type s ]) ≡ true
unfolding run_squiggle is_of_type
run_squiggle-is_of_type name none r v h = cc
run_squiggle-is_of_type name (some s) r v h =
    let (u, checked, evaluated) = >>=-eq-ok (check_output s) (eval_squiggle s r) h in
    check_output-eq-ok s u v checked

-- A value that an expression evaluates to is of the type that the validator gives to the
-- expression, in every scope.
pub eval-expr_type :
    (scope : Scope) (e : Expr) (v : Value) → eval scope e ≡ ok v → is_of_type v (expr_type e) ≡ true
unfolding eval expr_type is_of_type
eval-expr_type scope (Expr.string_lit fragments span) v h = string-is_of_type _ v h
eval-expr_type scope (Expr.number n) v h = typed_as ValueType.number _ refl refl h
eval-expr_type scope (Expr.bool b) v h = typed_as ValueType.bool _ refl refl h
eval-expr_type scope Expr.null v h = typed_as ValueType.null _ refl refl h
eval-expr_type scope (Expr.atom a) v h = typed_as ValueType.atom _ refl refl h
eval-expr_type scope (Expr.squiggle name fragments span) v h =
    run_squiggle-is_of_type name.name (get_squiggle name.name) (concat_fragments scope fragments) v
      h
eval-expr_type scope _ v h = refl
