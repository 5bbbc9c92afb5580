-- ===== src/Pg/Rows/Transposed.antt =====
-- The two views of a query's result (crates/ill-core/src/actor_type/pg_client/convert.rs).
use mathlib.Core.List.{append_assoc, append-nil}
use i_ll.Prelude.{
  ℕ, zero, suc, ◌+◌, String, false, Option, none, some, List, [], ◌∷◌, ◌++◌, map, any, get_elem?,
  ◌≡◌, refl, sym, ap, ◌∙◌, arith, ◌==◌,
}
use i_ll.Value.{Value, Dict, get}
use i_ll.Value.Dicts.{insert, get_value?, get-insert, get-insert_self}
use i_ll.Pg.Rows.{
  Row, values_of, cell_to_value, push_row, push_rows, col_dict, columns, build_result_dict,
}

-- No name stands twice.
unfoldable pub AreDistinct : List String → Type 0
AreDistinct [] = Unit
AreDistinct (n ∷ ns) = (any (λ m. m == n) ns ≡ false) × AreDistinct ns

in_array : ℕ → Option Value → Option Value
in_array i (some (Value.array vs)) = get_value? vs i
in_array i v = none

in_dict : String → Option Value → Option Value
in_dict name (some (Value.dict d)) = get name d
in_dict name v = none

-- `row[i][j]` and `col[name][i]` of a result.
unfoldable pub at_row : Dict → ℕ → ℕ → Option Value
unfolding in_array get
at_row d i j = in_array j (in_array i (get "row" d))

unfoldable pub at_col : Dict → String → ℕ → Option Value
unfolding in_array in_dict get
at_col d name i = in_array i (in_dict name (get "col" d))

values_of-get : (vs : List Value) (i : ℕ) → get_value? (values_of vs) i ≡ get_elem? vs i
unfolding get_value? values_of
values_of-get [] i = refl
values_of-get (v ∷ vs) zero = refl
values_of-get (v ∷ vs) (suc i) = values_of-get vs i

get_elem-map :
    {A B : Type 0} (f : A → B) (xs : List A) (i : ℕ) (x : A)
    → get_elem? xs i ≡ some x
    → get_elem? (map f xs) i ≡ some (f x)
get_elem-map f [] i x h = absurd (cc h)
get_elem-map f (y ∷ xs) zero x h = cc h
get_elem-map f (y ∷ xs) (suc i) x h = get_elem-map f xs i x h

-- A name that is not among the columns is not touched.
col_dict-other :
    (name : String) (names : List String) (bs : List (List Value)) (d : Dict)
    → any (λ m. m == name) names ≡ false
    → get name (col_dict names bs d) ≡ get name d
unfolding col_dict
col_dict-other name [] bs d h = refl
col_dict-other name (n ∷ ns) [] d h = refl
col_dict-other name (n ∷ ns) (b ∷ bs) d h = grind (
  arith,
  h,
  col_dict-other name ns bs (insert n (Value.array (values_of b)) d),
  get-insert name n (Value.array (values_of b)) d,
)

col_dict-get :
    (names : List String) (bs : List (List Value)) (d : Dict) (j : ℕ) (name : String)
    (b : List Value)
    → AreDistinct names
    → get_elem? names j ≡ some name
    → get_elem? bs j ≡ some b
    → get name (col_dict names bs d) ≡ some (Value.array (values_of b))
unfolding AreDistinct col_dict
col_dict-get [] bs d j name b distinct h h' = absurd (cc h)
col_dict-get (n ∷ ns) [] d j name b distinct h h' = absurd (cc h')
col_dict-get (n ∷ ns) (c ∷ bs) d zero name b (fresh, distinct) h h' =
    let kept = col_dict-other n ns bs (insert n (Value.array (values_of c)) d) fresh in
    cc (h, h', kept, get-insert_self n (Value.array (values_of c)) d)
col_dict-get (n ∷ ns) (c ∷ bs) d (suc j) name b (fresh, distinct) h h' =
    col_dict-get ns bs _ j name b distinct h h'

module _ (widen : ℕ → ℕ) where
  value_at : Row → ℕ → Value
  value_at row j = cell_to_value widen (row.cell j)

  push_row-cells :
      (row : Row) (k : ℕ) (bs : List (List Value)) (j : ℕ) (b : List Value)
      → get_elem? bs j ≡ some b
      → get_elem? (push_row widen row k bs).1 j ≡ some (value_at row (k + j))
  unfolding push_row value_at
  push_row-cells row k [] j b h = absurd (cc h)
  push_row-cells row k (c ∷ bs) zero b h =
      ap (λ (m : ℕ). some (cell_to_value widen (row.cell m))) (omega arith)
  push_row-cells row k (c ∷ bs) (suc j) b h =
      push_row-cells row (suc k) bs j b h
      ∙ ap (λ (m : ℕ). some (cell_to_value widen (row.cell m))) (omega arith)

  push_row-buckets :
      (row : Row) (k : ℕ) (bs : List (List Value)) (j : ℕ) (b : List Value)
      → get_elem? bs j ≡ some b
      → get_elem? (push_row widen row k bs).0 j ≡ some (b ++ value_at row (k + j) ∷ [])
  unfolding push_row value_at
  push_row-buckets row k [] j b h = absurd (cc h)
  push_row-buckets row k (c ∷ bs) zero b h =
      let same : k ≡ k + 0 = omega arith in
      cc (h, ap (λ (m : ℕ). cell_to_value widen (row.cell m)) same)
  push_row-buckets row k (c ∷ bs) (suc j) b h =
      push_row-buckets row (suc k) bs j b h
      ∙ ap (λ (m : ℕ). some (b ++ cell_to_value widen (row.cell m) ∷ [])) (omega arith)

  push_rows-buckets :
      (rows : List Row) (bs : List (List Value)) (j : ℕ) (b : List Value)
      → get_elem? bs j ≡ some b
      → get_elem? (push_rows widen bs rows).0 j ≡ some (b ++ map (λ r. value_at r j) rows)
  unfolding push_rows
  push_rows-buckets [] bs j b h = h ∙ ap some (sym (append-nil b))
  push_rows-buckets (row ∷ rows) bs j b h =
      push_rows-buckets rows (push_row widen row 0 bs).0 j _ (push_row-buckets row 0 bs j b h)
      ∙ ap (λ (m : ℕ). some ((b ++ value_at row m ∷ []) ++ map (λ r. value_at r j) rows))
          (omega arith)
      ∙ ap some (append_assoc b (value_at row j ∷ []) (map (λ r. value_at r j) rows))

  push_rows-arrays :
      (rows : List Row) (bs : List (List Value)) (i j : ℕ) (row : Row) (b : List Value)
      → get_elem? rows i ≡ some row
      → get_elem? bs j ≡ some b
      → in_array j (get_elem? (push_rows widen bs rows).1 i) ≡ some (value_at row j)
  unfolding push_rows in_array
  push_rows-arrays [] bs i j row b h h' = absurd (cc h)
  push_rows-arrays (r ∷ rows) bs zero j row b h h' =
      let same : 0 + j ≡ j = omega arith in
      values_of-get (push_row widen r 0 bs).1 j
      ∙ push_row-cells r 0 bs j b h'
      ∙ ap (λ (m : ℕ). some (value_at r m)) same
      ∙ cc h
  push_rows-arrays (r ∷ rows) bs (suc i) j row b h h' =
      push_rows-arrays rows (push_row widen r 0 bs).0 i j row _ h (push_row-buckets r 0 bs j b h')

  -- The bucket of a column is empty at first.
  no_values : String → List Value
  no_values n = []

  empty_bucket :
      (names : List String) (j : ℕ) (name : String)
      → get_elem? names j ≡ some name
      → get_elem? (map (λ n. []) names) j ≡ some (no_values name)
  unfolding no_values
  empty_bucket names j name h = get_elem-map (λ (n : String). no_values n) names j name h

  -- In the result of a query whose columns have different names, `row[i][j]` and the `i`th value of
  -- `col` under the name of the `j`th column are both the value of the `j`th cell of the `i`th row.
  pub build_result_dict-transposed :
      (rows : List Row) (i j : ℕ) (row : Row) (name : String)
      → AreDistinct (columns rows)
      → get_elem? rows i ≡ some row
      → get_elem? (columns rows) j ≡ some name
      → (at_row (build_result_dict widen rows) i j ≡ some (cell_to_value widen (row.cell j)))
        × (at_col (build_result_dict widen rows) name i ≡ some (cell_to_value widen (row.cell j)))
  unfolding build_result_dict at_row at_col insert in_array in_dict no_values value_at
  build_result_dict-transposed rows i j row name distinct h h' =
      let names = columns rows in
      let empty = empty_bucket names j name h' in
      (
        rw (values_of-get (push_rows widen (map (λ n. []) names) rows).1 i)
            (unfold value_at in push_rows-arrays rows (map (λ n. []) names) i j row [] h empty),
        rw
            (col_dict-get names (push_rows widen (map (λ n. []) names) rows).0 Dict.empty j name
              (map (λ r. value_at r j) rows) distinct h'
              (push_rows-buckets rows (map (λ n. []) names) j [] empty))
            (values_of-get _ i ∙ unfold value_at in get_elem-map (λ r. value_at r j) rows i row h),
      )
