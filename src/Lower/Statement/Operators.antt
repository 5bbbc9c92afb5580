-- ===== src/Lower/Statement/Operators.antt =====
-- The operators of assertions in both directions (crates/ill-core/src/lower.rs and ast.rs).
use i_ll.Prelude.{some, ◌≡◌, refl, []}
use i_ll.Ast.{ComparisonOp, show_op}
use i_ll.Lower.Tree.{Node, text, done}
use i_ll.Lower.Statement.{op_of, op_or, lower_comparison_op}

op_of-show_op : (op : ComparisonOp) → op_of (show_op op) ≡ some op
unfolding op_of show_op
op_of-show_op ComparisonOp.eq = refl
op_of-show_op ComparisonOp.not_eq = refl
op_of-show_op ComparisonOp.gt = refl
op_of-show_op ComparisonOp.gte = refl
op_of-show_op ComparisonOp.lt = refl
op_of-show_op ComparisonOp.lte = refl
op_of-show_op ComparisonOp.contains = refl
op_of-show_op ComparisonOp.not_contains = refl
op_of-show_op ComparisonOp.matches = refl
op_of-show_op ComparisonOp.not_matches = refl

-- An operator node whose text is what an operator is displayed as is lowered to that operator,
-- without a diagnostic.
pub lower_comparison_op-show_op :
    (op : ComparisonOp) (n : Node) → text n ≡ show_op op → lower_comparison_op n ≡ done (some op) []
unfolding lower_comparison_op op_or
lower_comparison_op-show_op op n h = rw (h, op_of-show_op op) refl
