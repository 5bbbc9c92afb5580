-- ===== src/Lower/Expr/Recursion.antt =====
-- From the size of the node on, more fuel makes no difference to `lower_expression`
-- (crates/ill-core/src/lower.rs).
use i_ll.Prelude.{
  ℕ, zero, suc, ◌≤◌, String, true, false, none, some, List, [], ◌∷◌, ◌≡◌, refl, All, arith, ◌==◌,
  if◌then◌else◌,
}
use i_ll.Ast.{Expr}
use i_ll.Lower.Tree.{
  Node, Children, node, nil, child, size, sizes, named, by_field, head, named_children, first_named,
  children_by_field, field, Lowered, ◌>>=◌, and_then, from_option, skip, each, info,
}
use i_ll.Lower.Expr.{
  Shape, PrimaryShape, fragment, collect_fragments, lower_string_fragments, double_quoted,
  string_of, lower_string, lower_squiggle, lower_array, is_expression, primary_of, lower_primary,
  lower_member_expression, lower_index_expression, expression_of, expression_step, expression_at,
  lower_expression,
}

-- Nodes of at most the size `k`.
unfoldable pub Small : ℕ → List Node → Type 0
Small k ns = All (λ (c : Node). size c ≤ k) ns

named-Small : (cs : Children) (k : ℕ) → sizes cs ≤ k → Small k (named cs)
unfolding Small named sizes
named-Small nil k h = tt
named-Small (child f n cs) k h =
    elim (info n).is_named as (λ b. Small k (if b then n ∷ named cs else named cs)) [
      | true ↦ (omega arith, named-Small cs k (omega arith))
      | false ↦ named-Small cs k (omega arith)
    ]

by_field-Small : (name : String) (cs : Children) (k : ℕ) → sizes cs ≤ k → Small k (by_field name cs)
unfolding Small by_field sizes
by_field-Small name nil k h = tt
by_field-Small name (child none n cs) k h = by_field-Small name cs k (omega arith)
by_field-Small name (child (some f) n cs) k h =
    elim (f == name) as (λ b. Small k (if b then n ∷ by_field name cs else by_field name cs)) [
      | true ↦ (omega arith, by_field-Small name cs k (omega arith))
      | false ↦ by_field-Small name cs k (omega arith)
    ]

pub children-Small : (n : Node) (k : ℕ) → size n ≤ suc k → Small k (named_children n)
unfolding named_children size
children-Small (node i cs) k h = named-Small cs k (omega arith)

pub field-Small :
    (n : Node) (name : String) (k : ℕ) → size n ≤ suc k → Small k (children_by_field n name)
unfolding children_by_field size
field-Small (node i cs) name k h = by_field-Small name cs k (omega arith)

All-imp :
    {A : Type 0} {P Q : A → Type 0} (xs : List A) → ((x : A) → P x → Q x) → All P xs → All Q xs
All-imp [] f h = tt
All-imp (x ∷ xs) f (h, hs) = (f x h, All-imp xs f hs)

module _ {B : Type 0} (f g : Node → Lowered B) where
  Same : List Node → Type 0
  Same ns = All (λ (c : Node). f c ≡ g c) ns

  each_congr : (ns : List Node) → Same ns → each f ns ≡ each g ns
  unfolding Same each
  each_congr [] h = refl
  each_congr (n ∷ ns) (h, hs) = cc (h, each_congr ns hs)

  head_congr :
      (ns : List Node) → Same ns → (from_option (head ns) >>= f) ≡ (from_option (head ns) >>= g)
  unfolding Same
  head_congr [] h = refl
  head_congr (n ∷ ns) (h, hs) = rw h refl

  and_then_congr : (ns : List Node) → Same ns → and_then (head ns) f ≡ and_then (head ns) g
  unfolding Same
  and_then_congr [] h = refl
  and_then_congr (n ∷ ns) (h, hs) = h

-- Two recursive calls that agree on the nodes of at most the size `k`.
module _ (f g : Node → Lowered Expr) (k : ℕ) (agree : (n : Node) → size n ≤ k → f n ≡ g n) where
  Small-Same : (ns : List Node) → Small k ns → Same f g ns
  unfolding Small Same
  Small-Same ns = All-imp ns agree

  fragment_agree :
      (text_kind : String) (c : Node) → size c ≤ k → fragment f text_kind c ≡ fragment g text_kind c
  unfolding fragment first_named
  fragment_agree text_kind c h =
      rw
        (and_then_congr f g (named_children c)
          (Small-Same _ (children-Small c k (omega (arith, h)))))
        refl

  collect_agree :
      (n : Node) (text_kind : String)
      → size n ≤ suc k
      → collect_fragments f n text_kind ≡ collect_fragments g n text_kind
  unfolding collect_fragments Small Same
  collect_agree n text_kind h =
      each_congr _ _ (named_children n)
        (All-imp (named_children n) (fragment_agree text_kind) (children-Small n k h))

  string_agree : (n c : Node) → size c ≤ k → string_of f n c ≡ string_of g n c
  unfolding string_of double_quoted lower_string_fragments
  string_agree n c h = rw (collect_agree c "string_content" (omega (arith, h))) refl

  array_agree : (n : Node) → size n ≤ suc k → lower_array f n ≡ lower_array g n
  unfolding lower_array Small Same
  array_agree n h =
      rw
        (each_congr (λ c. if is_expression c then f c else skip)
          (λ c. if is_expression c then g c else skip) (named_children n)
          (All-imp (named_children n) (λ c small. rw (agree c small) refl) (children-Small n k h)))
        refl

  squiggle_agree : (n : Node) → size n ≤ suc k → lower_squiggle f n ≡ lower_squiggle g n
  unfolding lower_squiggle
  squiggle_agree n h = rw (collect_agree n "squiggle_content" h) refl

  lower_string_agree : (n : Node) → size n ≤ suc k → lower_string f n ≡ lower_string g n
  unfolding lower_string first_named Small Same
  lower_string_agree n h =
      head_congr (string_of f n) (string_of g n) (named_children n)
        (All-imp (named_children n) (string_agree n) (children-Small n k h))

  primary_of_agree :
      (s : PrimaryShape) (n : Node) → size n ≤ suc k → primary_of f s n ≡ primary_of g s n
  unfolding primary_of
  primary_of_agree PrimaryShape.string n h = lower_string_agree n h
  primary_of_agree PrimaryShape.squiggle n h = squiggle_agree n h
  primary_of_agree PrimaryShape.array n h = array_agree n h
  primary_of_agree s n h = refl

  primary_agree : (n : Node) → size n ≤ suc k → lower_primary f n ≡ lower_primary g n
  unfolding lower_primary
  primary_agree n h = primary_of_agree _ n h

  member_agree :
      (n : Node) → size n ≤ suc k → lower_member_expression f n ≡ lower_member_expression g n
  unfolding lower_member_expression field Small Same
  member_agree n h =
      head_congr _ _ (children_by_field n "object")
        (All-imp _ (λ c small. rw (agree c small) refl) (field-Small n "object" k h))

  index_agree :
      (n : Node) → size n ≤ suc k → lower_index_expression f n ≡ lower_index_expression g n
  unfolding lower_index_expression field Small Same
  index_agree n h = rw (each_congr f g _ (Small-Same _ (field-Small n "index" k h))) (
      head_congr _ _ (children_by_field n "object")
        (All-imp _ (λ c small. rw (agree c small) refl) (field-Small n "object" k h)))

  expression_of_agree :
      (s : Shape) (n : Node) → size n ≤ suc k → expression_of f s n ≡ expression_of g s n
  unfolding expression_of first_named Small Same
  expression_of_agree Shape.wrapped n h =
      head_congr (lower_primary f) (lower_primary g) (named_children n) (
        All-imp (named_children n) (λ c small. primary_agree c (omega (arith, small)))
          (children-Small n k h))
  expression_of_agree Shape.member n h = member_agree n h
  expression_of_agree Shape.indexed n h = index_agree n h
  expression_of_agree Shape.primary n h = primary_agree n h
  expression_of_agree Shape.other n h = refl

expression_at_agree :
    (l m : ℕ) (n : Node) → size n ≤ l → size n ≤ m → expression_at l n ≡ expression_at m n
unfolding expression_at size expression_step
expression_at_agree zero m (node i cs) h h' = absurd (omega arith)
expression_at_agree (suc l) zero (node i cs) h h' = absurd (omega arith)
expression_at_agree (suc l) (suc m) (node i cs) h h' =
    expression_of_agree (expression_at l) (expression_at m) (sizes cs)
      (λ c small. expression_at_agree l m c (omega arith) (omega arith)) _ (node i cs) (omega arith)

-- Lowering an expression at a node does what the body of `lower_expression` does there with
-- `lower_expression` itself as the recursive call.
lower_expression_step : (n : Node) → lower_expression n ≡ expression_step lower_expression n
unfolding lower_expression expression_step expression_at size
lower_expression_step (node i cs) =
    expression_of_agree (expression_at (sizes cs)) lower_expression (sizes cs)
      (λ c small. expression_at_agree (sizes cs) (size c) c small (omega arith)) _ (node i cs)
      (omega arith)
