-- ===== src/Lower/Reports/Order.antt =====
-- The order of what the parser's errors give (crates/ill-core/src/lower.rs, `collect_errors`).
use i_ll.Prelude.{
  ℕ, String, Bool, true, false, ◌&&◌, List, [], ◌∷◌, ◌++◌, all, leb, ◌≡◌, refl, sym, arith,
  if◌then◌else◌,
}
use mathlib.Core.Path.{subst}
use i_ll.Diagnostic.{Diagnostic, error_at, with_note}
use i_ll.Lower.Tree.{Node, Children, NodeInfo, node, nil, child}
use i_ll.Lower.Reports.{error_diagnostic, collect_errors, collect_errors_in}

-- Where the nodes of a tree begin, a node before its children and these in their order.
unfoldable mutual
  pub starts : Node → List ℕ
  starts (node i cs) = i.span.start ∷ starts_in cs

  pub starts_in : Children → List ℕ
  starts_in nil = []
  starts_in (child f n cs) = starts n ++ starts_in cs

-- No number comes before a smaller one.
unfoldable pub is_ascending : List ℕ → Bool
is_ascending [] = true
is_ascending (x ∷ xs) = all (leb x) xs && is_ascending xs

-- Where the diagnostics point.
unfoldable pub positions : List Diagnostic → List ℕ
positions [] = []
positions (d ∷ ds) = d.span.start ∷ positions ds

-- The first list is the second with some elements left out.
data Part : List ℕ → List ℕ → Type 0 where
  end : Part [] []
  skip : {x : ℕ} {xs ys : List ℕ} → Part xs ys → Part xs (x ∷ ys)
  keep : {x : ℕ} {xs ys : List ℕ} → Part xs ys → Part (x ∷ xs) (x ∷ ys)

none_of : (ys : List ℕ) → Part [] ys
none_of [] = end
none_of (y ∷ ys) = skip (none_of ys)

append-Part : {a b c d : List ℕ} → Part a b → Part c d → Part (a ++ c) (b ++ d)
append-Part end q = q
append-Part (skip p) q = skip (append-Part p q)
append-Part (keep p) q = keep (append-Part p q)

all-Part : {xs ys : List ℕ} (p : ℕ → Bool) → Part xs ys → all p ys ≡ true → all p xs ≡ true
all-Part p end h = h
all-Part p (skip s) h = all-Part p s (ground (arith, h))
all-Part p (keep s) h = ground (arith, h, all-Part p s)

ascending-Part : {xs ys : List ℕ} → Part xs ys → is_ascending ys ≡ true → is_ascending xs ≡ true
unfolding is_ascending
ascending-Part end h = h
ascending-Part (skip s) h = ascending-Part s (ground (arith, h))
ascending-Part (keep {x = x} s) h = ground (arith, h, all-Part (leb x) s, ascending-Part s)

append-positions : (ds es : List Diagnostic) → positions (ds ++ es) ≡ positions ds ++ positions es
unfolding positions
append-positions [] es = refl
append-positions (d ∷ ds) es = rw (append-positions ds es) refl

if-Part :
    (b : Bool) (ds es : List Diagnostic) (ys : List ℕ)
    → Part (positions ds) ys
    → Part (positions es) ys
    → Part (positions (if b then ds else es)) ys
if-Part true ds es ys p q = p
if-Part false ds es ys p q = q

error-position : (k : String) (i : NodeInfo) → (error_diagnostic k i).span.start ≡ i.span.start
unfolding error_diagnostic error_at with_note
error-position k i = ground arith

mutual
  unfolding collect_errors starts positions error_at

  collected-Part : (k : String) (n : Node) → Part (positions (collect_errors k n)) (starts n)
  collected-Part k (node i cs) =
      if-Part i.is_missing _ _ (starts (node i cs)) (keep (none_of (starts_in cs))) (
        if-Part i.is_error _ _ (starts (node i cs))
          (subst (λ x. Part (x ∷ []) (starts (node i cs))) (sym (error-position k i))
            (keep (none_of (starts_in cs))))
          (skip (collected_in-Part i.kind cs)))

  collected_in-Part :
      (k : String) (cs : Children) → Part (positions (collect_errors_in k cs)) (starts_in cs)
  collected_in-Part k nil = end
  collected_in-Part k (child f n cs) =
      subst (λ ps. Part ps (starts n ++ starts_in cs))
        (sym (append-positions (collect_errors k n) (collect_errors_in k cs)))
        (append-Part (collected-Part k n) (collected_in-Part k cs))

-- In a tree whose nodes begin in the order of the source, so do the errors.
pub collect_errors-is_ascending :
    (k : String) (n : Node)
    → is_ascending (starts n) ≡ true
    → is_ascending (positions (collect_errors k n)) ≡ true
collect_errors-is_ascending k n h = ascending-Part (collected-Part k n) h
