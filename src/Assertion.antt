-- ===== src/Assertion.antt =====
-- Assertions (crates/ill-core/src/runtime/assert.rs). The crate `regex` is the parameter `regex`.
pub mod Laws
use Prim.Native.Char.{code}
use Prim.Native.String.{compare}
use i_ll.Prelude.{
  ℕ, zero, String, ◌<>◌, Bool, true, false, not, ◌||◌, Option, none, some, List, [], ◌∷◌, Result,
  ok, err, ◌>>=◌, map_ok, nat_eq, Ordering,
}
use i_ll.Prelude.Int.{ℤ, pos, int_eq, int_cmp}
use i_ll.Prelude.Text.{is_empty, contains_str}
use i_ll.Ast.{
  Expr, Assert, ComparisonOp, eq, not_eq, gt, gte, lt, lte, contains, not_contains, matches,
  not_matches,
}
use i_ll.Value.{Value, Values, Dict, is_zero, value_eq, type_name}
use i_ll.Errors.{RuntimeError}
use i_ll.Eval.{Scope, Eval, fail, eval}

-- `regex::Regex::new` followed by `is_match`: the message of a pattern that is refused, or the test.
pub data Regex : Type 0 where
  invalid : String → Regex
  valid : (String → Bool) → Regex

pub record AssertResult : Type 0 where
  pub passed : Bool
  pub left : Value
  pub right : Option Value
  pub op : Option ComparisonOp

-- `!= 0.0`; a NaN is not zero.
unfoldable pub is_truthy : Value → Bool
is_truthy (Value.bool b) = b
is_truthy (Value.number n) = not (int_eq n (pos 0))
is_truthy (Value.float x) = not (is_zero x)
is_truthy (Value.string s) = not (is_empty s)
is_truthy (Value.array Values.nil) = false
is_truthy (Value.array (Values.cons v vs)) = true
is_truthy (Value.dict Dict.empty) = false
is_truthy (Value.dict (Dict.entry k v d)) = true
is_truthy (Value.bytes []) = false
is_truthy (Value.bytes (b ∷ bs)) = true
is_truthy (Value.atom a) = true
is_truthy Value.null = false

-- `items.iter().any(|item| item == needle)`.
unfoldable pub has_member : Value → Values → Bool
has_member needle Values.nil = false
has_member needle (Values.cons v vs) = value_eq v needle || has_member needle vs

unfoldable pub contains_value : Value → Value → Eval Bool
unfolding has_member
contains_value (Value.string h) (Value.string n) = ok (contains_str h n)
contains_value (Value.array vs) needle = ok (has_member needle vs)
contains_value h n = fail ("cannot test whether " <> (type_name h <> (" contains " <> type_name n)))

unfoldable pub compare_ord : Value → Value → Eval Ordering
compare_ord (Value.number x) (Value.number y) = ok (int_cmp x y)
compare_ord (Value.string x) (Value.string y) = ok (compare x y)
compare_ord a b = fail ("cannot order-compare " <> (type_name a <> (" and " <> type_name b)))

abbrev pub is_greater : Ordering → Bool
is_greater Ordering.gt = true
is_greater _ = false

abbrev pub is_less : Ordering → Bool
is_less Ordering.lt = true
is_less _ = false

module _ (regex : String → Regex) where
  matched : String → String → Regex → Eval Bool
  matched s p (invalid e) = fail ("invalid regex `" <> (p <> ("`: " <> e)))
  matched s p (valid is_match) = ok (is_match s)

  unfoldable pub matches_regex : Value → Value → Eval Bool
  unfolding matched
  matches_regex (Value.string s) (Value.string p) = matched s p (regex p)
  matches_regex subject pattern = fail (
      "`matches` requires string left and string regex right, got "
      <> (type_name subject <> (" and " <> type_name pattern)))

  unfoldable pub compare_values : Value → Value → ComparisonOp → Eval Bool
  compare_values l r eq = ok (value_eq l r)
  compare_values l r not_eq = ok (not (value_eq l r))
  compare_values l r gt = map_ok is_greater (compare_ord l r)
  compare_values l r gte = map_ok (λ o. not (is_less o)) (compare_ord l r)
  compare_values l r lt = map_ok is_less (compare_ord l r)
  compare_values l r lte = map_ok (λ o. not (is_greater o)) (compare_ord l r)
  compare_values l r contains = contains_value l r
  compare_values l r not_contains = map_ok not (contains_value l r)
  compare_values l r matches = matches_regex l r
  compare_values l r not_matches = map_ok not (matches_regex l r)

  right_side : Scope → Option Expr → Eval Value
  right_side scope none = fail "assert has comparison operator but no right-hand side"
  right_side scope (some e) = eval scope e

  -- A bare `assert e` is the test whether the value of `e` is truthy.
  judge : Scope → Value → Option ComparisonOp → Option Expr → Eval AssertResult
  unfolding right_side
  judge scope left none right_expr =
      ok (record { passed = is_truthy left; left = left; right = none; op = none })
  judge scope left (some op) right_expr = do
    right ← right_side scope right_expr
    passed ← compare_values left right op
    ok (record { passed = passed; left = left; right = some right; op = some op })

  unfoldable pub eval_assert : Assert → Scope → Eval AssertResult
  unfolding judge
  eval_assert a scope = do left ← eval scope a.left; judge scope left a.op a.right
