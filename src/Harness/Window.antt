-- ===== src/Harness/Window.antt =====
-- The statements that follow a command, up to the next one
-- (crates/ill-core/src/runtime/harness.rs).
pub mod Agreement
use i_ll.Prelude.{String, Bool, true, false, List, [], ◌∷◌, ◌||◌}
use i_ll.Ast.{Statement, LetValue}
use i_ll.Validate.Expr.{expr_starts_with_ident}

let_refs_error : LetValue → Bool
let_refs_error (LetValue.expr e) = expr_starts_with_ident e "error"
let_refs_error (LetValue.parse source format) = false

-- `block_has_error_ref_after`, given the statements after the command.
unfoldable pub has_error_ref : List Statement → Bool
unfolding let_refs_error
has_error_ref [] = false
has_error_ref (Statement.command c ∷ stmts) = false
has_error_ref (Statement.assert a ∷ stmts) =
    expr_starts_with_ident a.left "error" || has_error_ref stmts
has_error_ref (Statement.let_ l ∷ stmts) = let_refs_error l.value || has_error_ref stmts
has_error_ref (Statement.assignment a ∷ stmts) = has_error_ref stmts
