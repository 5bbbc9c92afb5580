-- ===== src/Lower.antt =====
-- From a source text to the syntax tree (crates/ill-core/src/lower.rs). A text is parsed by
-- tree-sitter with the grammar of tree-sitter-ill: `parse` is `Parser::parse`.
pub mod Tree
pub mod Escape
pub mod Expr
pub mod Statement
pub mod Declaration
pub mod Reports
pub mod Normalize
pub mod Returns
pub mod Outcome
use i_ll.Prelude.{String, Option, none, some, List, [], ◌∷◌, Result, ok, err}
use i_ll.Ast.{SourceFile}
use i_ll.Diagnostic.{Diagnostic}
use i_ll.Lower.Tree.{Node, Log, panicked, done, pushed_before}
use i_ll.Lower.Declaration.{lower_source_file}
use i_ll.Lower.Reports.{collect_errors}
use i_ll.Lower.Normalize.{normalize}

verdict : SourceFile → List Diagnostic → Result (List Diagnostic) SourceFile
verdict file [] = ok file
verdict file (e ∷ es) = err (e ∷ es)

finish : Log SourceFile → Option (Result (List Diagnostic) SourceFile)
unfolding verdict
finish panicked = none
finish (done file es) = some (verdict file es)

-- The root node with what `collect_errors` pushes before the tree is lowered.
unfoldable pub lower_root : Node → Log SourceFile
lower_root root = pushed_before (collect_errors "" root) (lower_source_file root)

lower_parsed : Option Node → Option (Result (List Diagnostic) SourceFile)
unfolding finish lower_root
lower_parsed none = none
lower_parsed (some root) = finish (lower_root root)

-- `lower`, where `none` is a panic.
unfoldable pub lower :
    (String → Option Node) → String → Option (Result (List Diagnostic) SourceFile)
unfolding lower_parsed normalize
lower parse source = lower_parsed (parse (normalize source))
