-- ===== src/Lower/Expr/Safe.antt =====
-- Lowering an expression does not panic (crates/ill-core/src/lower.rs).
use Prim.Native.String.{◌∷◌}
use i_ll.Prelude.{
  ℕ, zero, suc, ◌≤◌, String, Bool, true, false, Option, none, some, List, Result, ok, err, ◌≡◌,
  refl, All, ◌==◌, if◌then◌else◌, arith, ◌⊎◌, inl, inr, Bool-cases,
}
use i_ll.Prelude.Parse.{parse_i64}
use i_ll.Prelude.Int.{ℤ}
use i_ll.Ast.{Span, Expr}
use i_ll.Diagnostic.{DiagnosticCode}
use i_ll.Lower.Tree.{
  Node, node, kind, text, size, named_children, first_named, children_by_field, field, Lowered,
  ◌>>=◌, and_then, from_option, skip,
}
use i_ll.Lower.Returns.{
  ends_quoted, is_quoted, IsQuoted, children-IsQuoted, field-IsQuoted, Returns, bind-Returns,
  chain-Returns, total-Returns, done-Returns, report-Returns, if-Returns, head-Returns,
  and_then-Returns, each-Returns,
}
use i_ll.Lower.Escape.{unescape}
use i_ll.Lower.Expr.Literals.{
  StringFragment, text_fragment, interpolated, strip_quotes, without_last,
}
use i_ll.Lower.Expr.{
  ident_or_missing, lower_ident_field, unexpected, number_or, lower_number, single_quoted,
  unescaped, unescape_fragment, fragment, collect_fragments, lower_string_fragments, double_quoted,
  string_of, lower_string, lower_squiggle, lower_array, is_expression, lower_atom, PrimaryShape,
  primary_of, lower_primary, lower_member_expression, lower_index_expression, Shape, expression_of,
  expression_step, expression_at, lower_expression,
}
use i_ll.Lower.Expr.Recursion.{Small, children-Small, field-Small}

-- The quotes of a quoted text can be dropped.
abbrev pub is_some : Option String → Bool
is_some none = false
is_some (some s) = true

without_last-is_some : (s : String) → ends_quoted s ≡ true → is_some (without_last s) ≡ true
unfolding ends_quoted without_last
without_last-is_some String.[] h = h
without_last-is_some (c ∷ String.[]) h = ground (arith, h)
without_last-is_some (c ∷ d ∷ s) h = ground (arith, without_last-is_some (d ∷ s) h)

pub strip_quotes-is_some : (s : String) → is_quoted s ≡ true → is_some (strip_quotes s) ≡ true
unfolding is_quoted strip_quotes
strip_quotes-is_some String.[] h = h
strip_quotes-is_some (c ∷ s) h = ground (arith, h, without_last-is_some s)

ident-Returns : (n : Node) (name : String) (o : Option Node) → Returns (ident_or_missing n name o)
unfolding ident_or_missing
ident-Returns n name none = report-Returns _ _ _ _
ident-Returns n name (some c) = done-Returns _

pub lower_ident_field-Returns : (n : Node) (name : String) → Returns (lower_ident_field n name)
unfolding lower_ident_field
lower_ident_field-Returns n name = ident-Returns n name (field n name)

unexpected-Returns : (what : String) (n : Node) → Returns (unexpected what n)
unfolding unexpected
unexpected-Returns what n = if-Returns _ _ _ (done-Returns none) (report-Returns _ _ _ _)

number-Returns : (n : Node) (o : Option ℤ) → Returns (number_or n o)
unfolding number_or
number-Returns n none = report-Returns _ _ _ _
number-Returns n (some i) = done-Returns _

single-Returns : (n : Node) (o : Option String) → is_some o ≡ true → Returns (single_quoted n o)
unfolding single_quoted
single-Returns n none h = absurd (cc h)
single-Returns n (some s) h = done-Returns _

unescape-Returns : (at : Span) (f : StringFragment) → Returns (unescape_fragment at f)
unfolding unescape_fragment
unescape-Returns at (text_fragment raw) = total-Returns _ (unescaped-Returns (unescape raw))
  where
    unescaped-Returns : (r : Result String String) → Returns (unescaped at raw r)
    unescaped-Returns (ok s) = unfold unescaped in done-Returns (text_fragment s)
    unescaped-Returns (err e) =
        unfold unescaped in report-Returns (text_fragment raw) at DiagnosticCode.invalid_escape e
unescape-Returns at (interpolated e) = done-Returns (some (interpolated e))

All-same : (fs : List StringFragment) → All (λ f. f ≡ f) fs
All-same List.[] = tt
All-same (List.◌∷◌ f fs) = (refl, All-same fs)

-- A quoted tree of at most the size `k`.
Fit : ℕ → Node → Type 0
Fit k n = (size n ≤ k) × IsQuoted n

All-zip :
    {A : Type 0} {P Q R : A → Type 0} (xs : List A)
    → ((x : A) → P x → Q x → R x)
    → All P xs
    → All Q xs
    → All R xs
All-zip List.[] f h h' = tt
All-zip (List.◌∷◌ x xs) f (h, hs) (h', hs') = (f x h h', All-zip xs f hs hs')

children-Fit : (n : Node) (k : ℕ) → size n ≤ suc k → IsQuoted n → All (Fit k) (named_children n)
unfolding Fit Small
children-Fit n k h q = All-zip _ (λ c a b. (a, b)) (children-Small n k h) (children-IsQuoted n q)

field-Fit :
    (n : Node) (name : String) (k : ℕ)
    → size n ≤ suc k
    → IsQuoted n
    → All (Fit k) (children_by_field n name)
unfolding Fit Small
field-Fit n name k h q =
    All-zip _ (λ c a b. (a, b)) (field-Small n name k h) (field-IsQuoted n name q)

pub quoted-text :
    (n : Node) → IsQuoted n → (kind n == "single_quoted_string") ≡ true → is_quoted (text n) ≡ true
unfolding IsQuoted
quoted-text (node i cs) (q, h) e = q e

module _ (rec : Node → Lowered Expr) (k : ℕ) (h : (n : Node) → Fit k n → Returns (rec n)) where
  fragment-Returns :
      (text_kind : String) (c : Node)
      → size c ≤ suc k
      → IsQuoted c
      → Returns (fragment rec text_kind c)
  unfolding fragment first_named
  fragment-Returns text_kind c small q = if-Returns _ _ _ (done-Returns _) (
      if-Returns _ _ _
        (bind-Returns (and_then (first_named c) rec) _
          (and_then-Returns (Fit k) _ rec (children-Fit c k small q) h) (λ e. done-Returns _))
        (done-Returns _))

  collect-Returns :
      (n : Node) (text_kind : String)
      → size n ≤ suc k
      → IsQuoted n
      → Returns (collect_fragments rec n text_kind)
  unfolding collect_fragments Fit
  collect-Returns n text_kind small q =
      each-Returns (Fit k) _ _ (children-Fit n k small q)
        (λ c fit. fragment-Returns text_kind c (omega (arith, fit.0)) fit.1)

  double-Returns :
      (n inner : Node) → size inner ≤ suc k → IsQuoted inner → Returns (double_quoted rec n inner)
  unfolding double_quoted lower_string_fragments
  double-Returns n inner small q =
      bind-Returns _ _
        (total-Returns _ (
          chain-Returns _ _ (collect-Returns inner "string_content" small q)
            (λ fs. each-Returns (λ f. f ≡ f) _ fs (All-same fs) (λ f u. unescape-Returns _ f))))
        (λ fs. done-Returns _)

  string-Returns : (n inner : Node) → Fit k inner → Returns (string_of rec n inner)
  unfolding string_of Fit
  string-Returns n inner (small, q) =
      if-Returns _ _ _ (double-Returns n inner (omega (arith, small)) q)
        (single (Bool-cases (kind inner == "single_quoted_string")))
    where
      single :
          ((kind inner == "single_quoted_string") ≡ true)
            ⊎ ((kind inner == "single_quoted_string") ≡ false)
          → Returns (
              if kind inner == "single_quoted_string"
              then single_quoted n (strip_quotes (text inner))
              else skip)
      single (inl e) =
          if-Returns _ _ _
            (single-Returns n _ (strip_quotes-is_some (text inner) (quoted-text inner q e)))
            (done-Returns _)
      single (inr e) = rw e (done-Returns none)

  lower_string-Returns : (n : Node) → size n ≤ suc k → IsQuoted n → Returns (lower_string rec n)
  unfolding lower_string first_named
  lower_string-Returns n small q =
      head-Returns (Fit k) _ (string_of rec n) (children-Fit n k small q) (string-Returns n)

  field-Returns :
      {B : Type 0} (n : Node) (name : String) (f : Node → Lowered B)
      → size n ≤ suc k
      → IsQuoted n
      → ((c : Node) → Fit k c → Returns (f c))
      → Returns (from_option (field n name) >>= f)
  unfolding field
  field-Returns n name f small q r = head-Returns (Fit k) _ f (field-Fit n name k small q) r

  primary_of-Returns :
      (s : PrimaryShape) (n : Node) → size n ≤ suc k → IsQuoted n → Returns (primary_of rec s n)
  unfolding primary_of lower_number lower_atom first_named lower_squiggle lower_array
  primary_of-Returns PrimaryShape.identifier n small q = done-Returns _
  primary_of-Returns PrimaryShape.number n small q = number-Returns n (parse_i64 (text n))
  primary_of-Returns PrimaryShape.boolean n small q = done-Returns _
  primary_of-Returns PrimaryShape.null n small q = done-Returns _
  primary_of-Returns PrimaryShape.atom n small q =
      head-Returns (Fit k) _ _ (children-Fit n k small q) (λ c fit. done-Returns _)
  primary_of-Returns PrimaryShape.string n small q = lower_string-Returns n small q
  primary_of-Returns PrimaryShape.squiggle n small q = field-Returns n "name" _ small q (λ c fit.
      bind-Returns _ _ (total-Returns _ (collect-Returns n "squiggle_content" small q))
        (λ fs. done-Returns _))
  primary_of-Returns PrimaryShape.array n small q =
      bind-Returns _ _
        (total-Returns _ (
          each-Returns (Fit k) _ _ (children-Fit n k small q)
            (λ c fit. if-Returns (is_expression c) _ _ (h c fit) (done-Returns none))))
        (λ es. done-Returns _)
  primary_of-Returns PrimaryShape.other n small q = unexpected-Returns "a value" n

  primary-Returns : (n : Node) → size n ≤ suc k → IsQuoted n → Returns (lower_primary rec n)
  unfolding lower_primary
  primary-Returns n small q = primary_of-Returns _ n small q

  expression_of-Returns :
      (s : Shape) (n : Node) → size n ≤ suc k → IsQuoted n → Returns (expression_of rec s n)
  unfolding expression_of first_named lower_member_expression lower_index_expression Fit
  expression_of-Returns Shape.wrapped n small q =
      head-Returns (Fit k) _ (lower_primary rec) (children-Fit n k small q)
        (λ c fit. primary-Returns c (omega (arith, fit.0)) fit.1)
  expression_of-Returns Shape.member n small q = field-Returns n "object" _ small q (λ c fit.
      bind-Returns _ _ (lower_ident_field-Returns n "property")
        (λ property. bind-Returns _ _ (h c fit) (λ object. done-Returns _)))
  expression_of-Returns Shape.indexed n small q = field-Returns n "object" _ small q (λ c fit.
      bind-Returns _ _ (h c fit) (λ object.
        bind-Returns _ _
          (total-Returns _ (each-Returns (Fit k) rec _ (field-Fit n "index" k small q) h))
          (λ is. done-Returns _)))
  expression_of-Returns Shape.primary n small q = primary-Returns n small q
  expression_of-Returns Shape.other n small q = unexpected-Returns "an expression" n

expression_at-Returns :
    (fuel : ℕ) (n : Node) → size n ≤ fuel → IsQuoted n → Returns (expression_at fuel n)
unfolding expression_at size expression_step Fit
expression_at-Returns zero (node i cs) small q = absurd (omega arith)
expression_at-Returns (suc fuel) n small q =
    expression_of-Returns (expression_at fuel) fuel
      (λ c fit. expression_at-Returns fuel c fit.0 fit.1) _ n small q

pub lower_expression-Returns : (n : Node) → IsQuoted n → Returns (lower_expression n)
unfolding lower_expression
lower_expression-Returns n q = expression_at-Returns (size n) n (omega arith) q
