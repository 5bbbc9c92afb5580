-- ===== src/Eval.antt =====
-- The expression evaluator (crates/ill-core/src/runtime/eval.rs), with the rendering of fragments
-- (`concat_fragments` of crates/ill-core/src/runtime/squiggle/mod.rs).
pub mod Typing
pub mod Registered
pub mod Splicing
pub mod Indexing
use i_ll.Prelude.{
  ℕ, String, ◌<>◌, true, false, Option, none, some, Result, ok, err, ◌>>=◌, map_ok, if◌then◌else◌,
}
use i_ll.Prelude.Int.{ℤ, pos, negsuc, show_ℕ, show_ℤ}
use i_ll.Prelude.Maps.{Map, lookup, insert, remove}
use i_ll.Ast.{Expr, Exprs, Fragments}
use i_ll.Value.{Value, Values, type_name, is_of_type, get, len}
use i_ll.Value.Dicts.{get_index, get_value?, count}
use i_ll.Errors.{RuntimeError}
use i_ll.Squiggle.{Squiggle, squiggle_name, output_type, get_squiggle, eval_squiggle, debug_type}
use i_ll.Squiggle.Utf8.{from_utf8}

-- `Scope`: the names that are bound, `ok`, `error` and `self` among them.
abbrev pub Scope : Type 0
Scope = Map Value

unfoldable pub bind : String → Value → Scope → Scope
bind name v s = insert name v s

unfoldable pub unbind : String → Scope → Scope
unbind name s = remove name s

abbrev pub Eval : Type 0 → Type 0
Eval A = Result RuntimeError A

abbrev pub fail {ℓ} : {A : Type ℓ} → String → Result RuntimeError A
fail msg = err (RuntimeError.eval msg)

-- `ok_or_else`.
abbrev pub or_fail {ℓ} : {A : Type ℓ} → Option A → String → Result RuntimeError A
or_fail none msg = fail msg
or_fail (some a) msg = ok a

no_field : String → String
no_field name = "no field `" <> (name <> "` on dict")

unfoldable pub member : Value → String → Eval Value
unfolding no_field
member (Value.dict d) name = or_fail (get name d) (no_field name)
member v name = fail ("cannot access `." <> (name <> ("` on " <> type_name v)))

out_of_bounds : String → ℕ → ℕ → String
out_of_bounds what i n =
    what <> (" index " <> (show_ℕ i <> (" out of bounds (length " <> (show_ℕ n <> ")"))))

negative : String → ℤ → String
negative what n = what <> (" index must be non-negative, got " <> show_ℤ n)

-- One level of indexing.
unfoldable pub index_into : Value → Value → Eval Value
unfolding no_field out_of_bounds negative
index_into (Value.array vs) (Value.number (pos i)) =
    or_fail (get_value? vs i) (out_of_bounds "array" i (count vs))
index_into (Value.array vs) (Value.number (negsuc i)) = fail (negative "array" (negsuc i))
index_into (Value.dict d) (Value.string key) = or_fail (get key d) (no_field key)
index_into (Value.dict d) (Value.number (pos i)) =
    or_fail (get_index d i) (out_of_bounds "dict" i (len d))
index_into (Value.dict d) (Value.number (negsuc i)) = fail (negative "dict" (negsuc i))
index_into v w = fail ("cannot index " <> (type_name v <> (" with " <> type_name w)))

-- What a `${…}` of this value puts into the text.
unfoldable pub render : Value → Eval String
render (Value.string s) = ok s
render (Value.number n) = ok (show_ℤ n)
render (Value.bool true) = ok "true"
render (Value.bool false) = ok "false"
render (Value.atom a) = ok a
render (Value.bytes b) = or_fail (from_utf8 b) "cannot interpolate non-UTF-8 bytes into string"
render v = fail ("cannot interpolate " <> (type_name v <> " into string"))

-- The value of a squiggle must have the type that the squiggle declares.
unfoldable pub check_output : Squiggle → Value → Eval Value
check_output s v =
    if is_of_type v (output_type s)
    then ok v
    else fail (
        "squiggle `~"
        <> (squiggle_name s
            <> ("` declared "
                <> (debug_type (output_type s) <> (" but produced " <> type_name v)))))

-- A squiggle by its name, given what its fragments render to.
unfoldable pub run_squiggle : String → Option Squiggle → Eval String → Eval Value
unfolding check_output
run_squiggle name none rendered = fail ("unknown squiggle `~" <> (name <> "`"))
run_squiggle name (some s) rendered = do value ← eval_squiggle s rendered; check_output s value

module _ (scope : Scope) where
  unfoldable mutual
    pub eval : Expr → Eval Value
    eval (Expr.number n) = ok (Value.number n)
    eval (Expr.bool b) = ok (Value.bool b)
    eval Expr.null = ok Value.null
    eval (Expr.atom a) = ok (Value.atom a.name)
    eval (Expr.string_lit fragments span) = map_ok Value.string (concat_fragments fragments)
    eval (Expr.ident x) = or_fail (lookup x.name scope) ("undefined name `" <> (x.name <> "`"))
    eval (Expr.member_access object property span) = do obj ← eval object; member obj property.name
    eval (Expr.array items) = map_ok Value.array (eval_all items)
    eval (Expr.squiggle name fragments span) =
        run_squiggle name.name (get_squiggle name.name) (concat_fragments fragments)
    eval (Expr.index object indices span) = do current ← eval object; eval_indices indices current

    -- The items of an array, in order.
    pub eval_all : Exprs → Eval Values
    eval_all Exprs.nil = ok Values.nil
    eval_all (Exprs.cons e es) = do v ← eval e; vs ← eval_all es; ok (Values.cons v vs)

    -- The loop over the indices.
    pub eval_indices : Exprs → Value → Eval Value
    eval_indices Exprs.nil current = ok current
    eval_indices (Exprs.cons e es) current = do
      idx ← eval e
      next ← index_into current idx
      eval_indices es next

    pub concat_fragments : Fragments → Eval String
    concat_fragments Fragments.end = ok ""
    concat_fragments (Fragments.text t frags) = do rest ← concat_fragments frags; ok (t <> rest)
    concat_fragments (Fragments.interpolation e frags) = do
      v ← eval e
      s ← render v
      rest ← concat_fragments frags
      ok (s <> rest)
