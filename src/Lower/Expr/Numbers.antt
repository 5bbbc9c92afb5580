-- ===== src/Lower/Expr/Numbers.antt =====
-- Number literals (crates/ill-core/src/lower.rs, `lower_primary`).
use i_ll.Prelude.{◌<>◌, Bool, true, false, none, some, ◌≡◌, refl, sym, if◌then◌else◌}
use i_ll.Prelude.Int.{ℤ, show_ℤ}
use i_ll.Prelude.Parse.RoundTrip.{in_i64, parse_i64-show_ℤ}
use i_ll.Ast.{Expr}
use i_ll.Diagnostic.{DiagnosticCode}
use i_ll.Lower.Tree.{Node, text, span, give, refuse}
use i_ll.Lower.Expr.{number_or, lower_number}

number_or-if :
    (n : Node) (b : Bool) (i : ℤ)
    → number_or n (if b then some i else none) ≡ (
        if b
        then give (Expr.number i)
        else refuse
            (span n)
            DiagnosticCode.invalid_literal
            ("`" <> (text n <> "` is not a valid integer")))
unfolding number_or
number_or-if n true i = refl
number_or-if n false i = refl

-- A number node whose text is the decimal print of an integer is lowered to that integer, without a
-- diagnostic, if the integer is an `i64`; if not, the literal is reported as invalid and there is no
-- expression.
pub lower_number-show_ℤ :
    (i : ℤ) (n : Node)
    → text n ≡ show_ℤ i
    → lower_number n ≡ (
        if in_i64 i
        then give (Expr.number i)
        else refuse
            (span n)
            DiagnosticCode.invalid_literal
            ("`" <> (text n <> "` is not a valid integer")))
unfolding lower_number
lower_number-show_ℤ i n h = rw (h, parse_i64-show_ℤ i, sym h) (number_or-if n (in_i64 i) i)
