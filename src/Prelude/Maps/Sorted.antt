-- ===== src/Prelude/Maps/Sorted.antt =====
-- `BTreeMap` with text keys: the entries in the order of the keys, which is that of their characters.
use Prim.Native.Nat.{compare, Ordering, lt, eq, gt}
use Prim.Native.Char.{code}
use Prim.Native.String.{String, ◌∷◌}
use mathlib.Core.Path.{◌≡◌, refl}
use mathlib.Core.Bool.{Bool, true, false, ◌&&◌}
use mathlib.Core.Option.{some}
use mathlib.Core.List.{List}
use native.Mathlib.Omega.{arith}
use text.Mathlib.Text.{◌==◌}
use text.Mathlib.TextEquality.{eq_iff, Char-path}
use i_ll.Prelude.Tests.{if◌then◌else◌}
use i_ll.Prelude.Maps.{Map, lookup}

-- `Ord` of `str`.
unfoldable pub text_compare : String → String → Ordering
text_compare String.[] String.[] = eq
text_compare String.[] (d ∷ t) = lt
text_compare (c ∷ s) String.[] = gt
text_compare (c ∷ s) (d ∷ t) = elim (compare (code c) (code d)) [
  | lt ↦ lt
  | eq ↦ text_compare s t
  | gt ↦ gt
]

abbrev pub before : String → String → Bool
before s t = elim (text_compare s t) [ lt ↦ true | _ ↦ false ]

pub compare-eq : (s t : String) → text_compare s t ≡ eq → s ≡ t
unfolding text_compare
compare-eq String.[] String.[] h = refl
compare-eq String.[] (d ∷ t) h = cc
compare-eq (c ∷ s) String.[] h = cc
compare-eq (c ∷ s) (d ∷ t) h = ground (arith, compare-eq s t, Char-path c d)

pub compare-gt : (s t : String) → text_compare s t ≡ gt → before t s ≡ true
unfolding text_compare
compare-gt String.[] String.[] h = cc
compare-gt String.[] (d ∷ t) h = cc
compare-gt (c ∷ s) String.[] h = refl
compare-gt (c ∷ s) (d ∷ t) h = ground (arith, compare-gt s t)

pub compare_refl : (s : String) → text_compare s s ≡ eq
unfolding text_compare
compare_refl String.[] = refl
compare_refl (c ∷ s) = ground (arith, compare_refl s)

module _ {ℓ} {V : Type ℓ} where
  -- `BTreeMap::insert`.
  unfoldable pub insert : String → V → Map V → Map V
  insert k v List.[] = List.◌∷◌ (k, v) List.[]
  insert k v (List.◌∷◌ (j, w) m) =
      let rest = insert k v m in
      elim (text_compare k j) [
        | lt ↦ List.◌∷◌ (k, v) (List.◌∷◌ (j, w) m)
        | eq ↦ List.◌∷◌ (k, v) m
        | gt ↦ List.◌∷◌ (j, w) rest
      ]

  pub lookup-insert :
      (j k : String) (v : V) (m : Map V)
      → lookup j (insert k v m) ≡ (if k == j then some v else lookup j m)
  unfolding lookup insert
  lookup-insert j k v List.[] = refl
  lookup-insert j k v (List.◌∷◌ (i, w) m) = ground (
    arith,
    lookup-insert j k v m,
    eq_iff i k,
    eq_iff i j,
    eq_iff k j,
    compare-eq k i,
    compare_refl k,
  )

  -- The keys ascend, so that none is there twice.
  unfoldable pub is_ascending : Map V → Bool
  is_ascending List.[] = true
  is_ascending (List.◌∷◌ e List.[]) = true
  is_ascending (List.◌∷◌ e (List.◌∷◌ f m)) = before e.0 f.0 && is_ascending (List.◌∷◌ f m)

  pub insert-is_ascending :
      (k : String) (v : V) (m : Map V) → is_ascending m ≡ true → is_ascending (insert k v m) ≡ true
  unfolding insert is_ascending
  insert-is_ascending k v List.[] h = refl
  insert-is_ascending k v (List.◌∷◌ e List.[]) h =
      ground (arith, compare-gt k e.0, compare-eq k e.0)
  insert-is_ascending k v (List.◌∷◌ e (List.◌∷◌ f m)) h =
      ground (arith, insert-is_ascending k v (List.◌∷◌ f m), compare-gt k e.0, compare-eq k e.0)
