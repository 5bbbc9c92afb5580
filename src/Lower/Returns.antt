-- ===== src/Lower/Returns.antt =====
-- Lowering returns (crates/ill-core/src/lower.rs): the slices that drop the quotes do not panic.

use Prim.Native.Char.{code}
use Prim.Native.String.{◌∷◌}
use i_ll.Prelude.{
  String, Bool, true, false, ◌&&◌, none, some, List, [], ◌∷◌, ◌++◌, ◌≡◌, refl, All, all, arith,
  nat_eq, ◌==◌, if◌then◌else◌,
}
use i_ll.Ast.{Span}
use i_ll.Diagnostic.{Diagnostic, DiagnosticCode, report, error_at, is_error}
use i_ll.Lower.Tree.{
  Node, Children, node, nil, child, info, named, by_field, head, named_children, children_by_field,
  Log, panicked, done, Lowered, ◌>>=◌, chain, map_log, and_then, from_option, total, each, fold,
  push, pushed_before,
}

-- The text ends with a quote.
unfoldable pub ends_quoted : String → Bool
ends_quoted String.[] = false
ends_quoted (c ∷ String.[]) = nat_eq (code c) b'\''
ends_quoted (c ∷ d ∷ s) = ends_quoted (d ∷ s)

-- It starts with a quote and another one ends it, as the grammar has it.
unfoldable pub is_quoted : String → Bool
unfolding ends_quoted
is_quoted String.[] = false
is_quoted (c ∷ s) = nat_eq (code c) b'\'' && ends_quoted s

-- Every single-quoted string of the tree is quoted.
unfoldable mutual
  pub IsQuoted : Node → Type 0
  IsQuoted (node i cs) =
      (((i.kind == "single_quoted_string") ≡ true) → is_quoted i.text ≡ true) × AreQuoted cs

  pub AreQuoted : Children → Type 0
  AreQuoted nil = Unit
  AreQuoted (child f n cs) = IsQuoted n × AreQuoted cs

named-IsQuoted : (cs : Children) → AreQuoted cs → All IsQuoted (named cs)
unfolding named AreQuoted
named-IsQuoted nil h = tt
named-IsQuoted (child f n cs) (h, hs) =
    elim (info n).is_named as (λ b. All IsQuoted (if b then n ∷ named cs else named cs)) [
      | true ↦ (h, named-IsQuoted cs hs)
      | false ↦ named-IsQuoted cs hs
    ]

by_field-IsQuoted : (name : String) (cs : Children) → AreQuoted cs → All IsQuoted (by_field name cs)
unfolding by_field AreQuoted
by_field-IsQuoted name nil h = tt
by_field-IsQuoted name (child none n cs) (h, hs) = by_field-IsQuoted name cs hs
by_field-IsQuoted name (child (some f) n cs) (h, hs) =
    elim (f == name) as (λ b. All IsQuoted (if b then n ∷ by_field name cs else by_field name cs)) [
      | true ↦ (h, by_field-IsQuoted name cs hs)
      | false ↦ by_field-IsQuoted name cs hs
    ]

pub children-IsQuoted : (n : Node) → IsQuoted n → All IsQuoted (named_children n)
unfolding named_children IsQuoted
children-IsQuoted (node i cs) (q, h) = named-IsQuoted cs h

pub field-IsQuoted :
    (n : Node) (name : String) → IsQuoted n → All IsQuoted (children_by_field n name)
unfolding children_by_field IsQuoted
field-IsQuoted (node i cs) name (q, h) = by_field-IsQuoted name cs h

-- Every diagnostic is an error.
abbrev pub only_errors : List Diagnostic → Bool
only_errors ds = all (λ (d : Diagnostic). is_error d.severity) ds

pub append-only_errors :
    (es ds : List Diagnostic)
    → only_errors es ≡ true
    → only_errors ds ≡ true
    → only_errors (es ++ ds) ≡ true
append-only_errors [] ds h h' = h'
append-only_errors (e ∷ es) ds h h' = ground (arith, append-only_errors es ds)

-- The computation does not panic, and what it pushes are errors.
unfoldable pub Returns {ℓ} : {A : Type ℓ} → Log A → Type 0
Returns panicked = ⊥
Returns (done a es) = only_errors es ≡ true

pub pushed-Returns :
    {A : Type 0} (es : List Diagnostic) (m : Log A)
    → only_errors es ≡ true
    → Returns m
    → Returns (pushed_before es m)
unfolding Returns
pushed-Returns es panicked h r = r
pushed-Returns es (done a ds) h r = append-only_errors es ds h r

pub done-Returns : {A : Type 0} (a : A) → Returns (done a [])
unfolding Returns
done-Returns a = refl

-- One diagnostic.
pub report-Returns :
    {A : Type 0} (a : A) (at : Span) (code : DiagnosticCode) (message : String)
    → Returns (done a (report at code message))
unfolding Returns is_error error_at
report-Returns a at code message = refl

module _ {A B : Type 0} where
  pub bind-Returns :
      (m : Lowered A) (f : A → Lowered B)
      → Returns m
      → ((a : A) → Returns (f a))
      → Returns (m >>= f)
  unfolding Returns
  bind-Returns panicked f h k = h
  bind-Returns (done none es) f h k = h
  bind-Returns (done (some a) es) f h k = pushed-Returns es (f a) h (k a)

  pub chain-Returns :
      (m : Log A) (f : A → Log B) → Returns m → ((a : A) → Returns (f a)) → Returns (chain m f)
  unfolding Returns
  chain-Returns panicked f h k = h
  chain-Returns (done a es) f h k = pushed-Returns es (f a) h (k a)

  pub map-Returns : (f : A → B) (m : Log A) → Returns m → Returns (map_log f m)
  unfolding Returns
  map-Returns f panicked h = h
  map-Returns f (done a es) h = h

module _ {A : Type 0} where
  pub total-Returns : (m : Log A) → Returns m → Returns (total m)
  unfolding Returns
  total-Returns panicked h = h
  total-Returns (done a es) h = h

  pub if-Returns :
      (b : Bool) (m m' : Log A) → Returns m → Returns m' → Returns (if b then m else m')
  if-Returns true m m' h h' = h
  if-Returns false m m' h h' = h'

  -- The first node of a list, if there is one.
  pub head-Returns :
      (P : Node → Type 0) (ns : List Node) (f : Node → Lowered A)
      → All P ns
      → ((n : Node) → P n → Returns (f n))
      → Returns (from_option (head ns) >>= f)
  unfolding Returns
  head-Returns P [] f h k = refl
  head-Returns P (n ∷ ns) f (h, hs) k =
      bind-Returns (done (some n) []) (λ c. f n) (done-Returns (some n)) (λ c. k n h)

  pub and_then-Returns :
      (P : Node → Type 0) (ns : List Node) (f : Node → Lowered A)
      → All P ns
      → ((n : Node) → P n → Returns (f n))
      → Returns (and_then (head ns) f)
  unfolding Returns
  and_then-Returns P [] f h k = refl
  and_then-Returns P (n ∷ ns) f (h, hs) k = k n h

  pub each-Returns :
      {N : Type 0} (P : N → Type 0) (f : N → Lowered A) (ns : List N)
      → All P ns
      → ((n : N) → P n → Returns (f n))
      → Returns (each f ns)
  unfolding each Returns
  each-Returns P f [] h k = refl
  each-Returns P f (n ∷ ns) (h, hs) k = pushed (f n) (each f ns) (k n h) (each-Returns P f ns hs k)
    where
      pushed : (m : Lowered A) (r : Log (List A)) → Returns m → Returns r → Returns (push m r)
      pushed panicked r h h' = h
      pushed (done o es) panicked h h' = h'
      pushed (done none es) (done xs ds) h h' = append-only_errors es ds h h'
      pushed (done (some x) es) (done xs ds) h h' = append-only_errors es ds h h'

  pub fold-Returns :
      (f : A → Node → Log A) (s : A) (ns : List Node)
      → All IsQuoted ns
      → ((t : A) (n : Node) → IsQuoted n → Returns (f t n))
      → Returns (fold f s ns)
  unfolding fold
  fold-Returns f s [] h k = unfold Returns in refl
  fold-Returns f s (n ∷ ns) (h, hs) k =
      chain-Returns (f s n) (λ s'. fold f s' ns) (k s n h) (λ s'. fold-Returns f s' ns hs k)
