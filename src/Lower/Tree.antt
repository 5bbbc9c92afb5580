-- ===== src/Lower/Tree.antt =====
-- The concrete syntax tree that tree-sitter gives, and computations that push diagnostics, as the
-- methods of `LowerCtx` do (crates/ill-core/src/lower.rs).
use i_ll.Prelude.{
  ℕ, suc, ◌+◌, String, Bool, false, Option, none, some, List, [], ◌∷◌, ◌++◌, ◌==◌, if◌then◌else◌,
}
use i_ll.Ast.{Span, Ident}
use i_ll.Diagnostic.{Diagnostic, DiagnosticCode, report}

-- What a node answers to `kind`, `is_named`, `is_error`, `is_missing`, `start_byte`, `end_byte` and
-- `utf8_text`.
pub record NodeInfo : Type 0 where
  pub kind : String
  pub is_named : Bool
  pub is_error : Bool
  pub is_missing : Bool
  pub span : Span
  pub text : String

-- A node and its children in order, each with the name of its field if it has one.
mutual
  pub data Node : Type 0 where
    node : NodeInfo → Children → Node

  pub data Children : Type 0 where
    nil : Children
    child : Option String → Node → Children → Children

abbrev pub info : Node → NodeInfo
info (node i cs) = i

abbrev pub kind : Node → String
kind n = (info n).kind

abbrev pub span : Node → Span
span n = (info n).span

abbrev pub text : Node → String
text n = (info n).text

abbrev pub children : Node → Children
children (node i cs) = cs

-- The number of nodes below and including a node.
unfoldable mutual
  pub size : Node → ℕ
  size (node i cs) = suc (sizes cs)

  pub sizes : Children → ℕ
  sizes nil = 0
  sizes (child f n cs) = size n + sizes cs

-- `named_children`, `children_by_field_name` and `child_by_field_name`.
unfoldable pub named : Children → List Node
named nil = []
named (child f n cs) = if (info n).is_named then n ∷ named cs else named cs

abbrev has_name : Option String → String → Bool
has_name none name = false
has_name (some f) name = f == name

unfoldable pub by_field : String → Children → List Node
by_field name nil = []
by_field name (child f n cs) = if has_name f name then n ∷ by_field name cs else by_field name cs

abbrev pub head {ℓ} : {A : Type ℓ} → List A → Option A
head [] = none
head (x ∷ xs) = some x

unfoldable pub named_children : Node → List Node
unfolding named
named_children n = named (children n)

-- `named_child(0)`.
unfoldable pub first_named : Node → Option Node
unfolding named_children
first_named n = head (named_children n)

unfoldable pub children_by_field : Node → String → List Node
unfolding by_field
children_by_field n name = by_field name (children n)

unfoldable pub field : Node → String → Option Node
unfolding children_by_field
field n name = head (children_by_field n name)

-- A computation that returns a value and the diagnostics that it pushes, in order, or panics.
pub data Log {ℓ} (A : Type ℓ) : Type ℓ where
  panicked : Log A
  done : A → List Diagnostic → Log A

-- The return type `Option<A>`, whose `?` is the bind.
abbrev pub Lowered {ℓ} : Type ℓ → Type ℓ
Lowered A = Log (Option A)

abbrev pub pushed_before {ℓ} : {B : Type ℓ} → List Diagnostic → Log B → Log B
pushed_before es panicked = panicked
pushed_before es (done b ds) = done b (es ++ ds)

module _ {ℓ κ} {A : Type ℓ} {B : Type κ} where
  infixl 5 ◌>>=◌
  abbrev pub ◌>>=◌ : Lowered A → (A → Lowered B) → Lowered B
  panicked >>= f = panicked
  done none es >>= f = done none es
  done (some a) es >>= f = pushed_before es (f a)

  -- One step after another, and a value changed on its way.
  abbrev pub chain : Log A → (A → Log B) → Log B
  chain panicked f = panicked
  chain (done a es) f = pushed_before es (f a)

  abbrev pub map_log : (A → B) → Log A → Log B
  map_log f panicked = panicked
  map_log f (done a es) = done (f a) es

  -- `Option::and_then` with a computation.
  abbrev pub and_then : Option A → (A → Lowered B) → Lowered B
  and_then none f = done none []
  and_then (some a) f = f a

module _ {ℓ} {A : Type ℓ} where
  abbrev pub give : A → Lowered A
  give a = done (some a) []

  abbrev pub skip : Lowered A
  skip = done none []

  abbrev pub from_option : Option A → Lowered A
  from_option o = done o []

  -- A computation that always returns.
  abbrev pub total : Log A → Lowered A
  total panicked = panicked
  total (done a es) = done (some a) es

  -- A diagnostic is pushed and there is no result.
  abbrev pub refuse : Span → DiagnosticCode → String → Lowered A
  refuse at code message = done none (report at code message)

  abbrev pub push : Lowered A → Log (List A) → Log (List A)
  push panicked rest = panicked
  push (done o es) panicked = panicked
  push (done none es) (done xs ds) = done xs (es ++ ds)
  push (done (some x) es) (done xs ds) = done (x ∷ xs) (es ++ ds)

-- `for node in … { if let Some(x) = f(node) { v.push(x) } }`.
unfoldable pub each {ℓ κ} : {N : Type ℓ} {A : Type κ} → (N → Lowered A) → List N → Log (List A)
each f [] = done [] []
each f (n ∷ ns) = push (f n) (each f ns)

-- A loop over the nodes that changes a state.
unfoldable pub fold {ℓ κ} : {N : Type ℓ} {S : Type κ} → (S → N → Log S) → S → List N → Log S
fold f s [] = done s []
fold f s (n ∷ ns) = chain (f s n) (λ s'. fold f s' ns)

-- `LowerCtx::ident_from_node`.
unfoldable pub ident_from_node : Node → Ident
ident_from_node n = record { name = text n; span = span n }
