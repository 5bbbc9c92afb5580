-- ===== src/Ast.antt =====
-- The syntax tree of a test file (crates/ill-core/src/ast.rs).
use i_ll.Prelude.{ℕ, String, Bool, Option, List}
use i_ll.Prelude.Int.{ℤ}

pub record Span : Type 0 where
  pub start : ℕ
  pub end : ℕ

pub record Ident : Type 0 where
  pub name : String
  pub span : Span

-- `Exprs` is `Vec<Expr>` and `Fragments` is `Vec<StringFragment>`. A string literal and a squiggle
-- carry the fields of `StringLit` and `Squiggle`.
mutual
  pub data Expr : Type 0 where
    ident : Ident → Expr
    string_lit : Fragments → Span → Expr
    number : ℤ → Expr
    bool : Bool → Expr
    null : Expr
    atom : Ident → Expr
    array : Exprs → Expr
    squiggle : Ident → Fragments → Span → Expr
    member_access : Expr → Ident → Span → Expr
    index : Expr → Exprs → Span → Expr

  pub data Exprs : Type 0 where
    nil : Exprs
    cons : Expr → Exprs → Exprs

  pub data Fragments : Type 0 where
    end : Fragments
    text : String → Fragments → Fragments
    interpolation : Expr → Fragments → Fragments

pub data ComparisonOp : Type 0 where
  eq not_eq gt gte lt lte contains not_contains matches not_matches : ComparisonOp

-- `Display` of an operator.
unfoldable pub show_op : ComparisonOp → String
show_op eq = "=="
show_op not_eq = "!="
show_op gt = ">"
show_op gte = ">="
show_op lt = "<"
show_op lte = "<="
show_op contains = "contains"
show_op not_contains = "!contains"
show_op matches = "matches"
show_op not_matches = "!matches"

pub record Annotation : Type 0 where
  pub name : Ident
  pub value : Option String
  pub span : Span

pub data KeywordValue : Type 0 where
  expr : Expr → KeywordValue
  map : List (Expr × Expr) → KeywordValue

pub record KeywordArg : Type 0 where
  pub key : Ident
  pub value : KeywordValue
  pub span : Span

pub record VarDeclaration : Type 0 where
  pub annotations : List Annotation
  pub name : Ident
  pub default : Option Expr
  pub span : Span

pub record ActorDeclaration : Type 0 where
  pub name : Ident
  pub actor_type : Ident
  pub keyword_args : List KeywordArg
  pub vars : List VarDeclaration
  pub span : Span

pub record Command : Type 0 where
  pub annotation : Option Annotation
  pub name : Ident
  pub positional_args : List Expr
  pub keyword_args : List KeywordArg
  pub span : Span

pub record Assert : Type 0 where
  pub annotation : Option Annotation
  pub left : Expr
  pub op : Option ComparisonOp
  pub right : Option Expr
  pub span : Span

pub data LetValue : Type 0 where
  expr : Expr → LetValue
  parse : Expr → Ident → LetValue

pub record Let : Type 0 where
  pub name : Ident
  pub value : LetValue
  pub span : Span

pub record Assignment : Type 0 where
  pub target : Expr
  pub value : Expr
  pub span : Span

pub data Statement : Type 0 where
  command : Command → Statement
  assert : Assert → Statement
  let_ : Let → Statement
  assignment : Assignment → Statement

pub record AsBlock : Type 0 where
  pub actor : Ident
  pub body : List Statement
  pub span : Span

pub data TopLevel : Type 0 where
  actor_declaration : ActorDeclaration → TopLevel
  as_block : AsBlock → TopLevel

pub record SourceFile : Type 0 where
  pub items : List TopLevel
