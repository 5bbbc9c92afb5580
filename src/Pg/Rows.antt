-- ===== src/Pg/Rows.antt =====
-- The result of a query as values (crates/ill-core/src/actor_type/pg_client/convert.rs).
pub mod Transposed
use i_ll.Prelude.{ℕ, suc, String, ◌<>◌, Bool, Option, none, some, List, [], ◌∷◌, ◌++◌, map, length}
use i_ll.Prelude.Int.{ℤ, pos}
use i_ll.Squiggle.Utf8.{encode, from_utf8}
use i_ll.Value.{Value, Values, Dict}
use i_ll.Value.Dicts.{insert}

-- A cell by the type of its column, with what `try_get` gives for the Rust type that the code asks
-- for: `none` for NULL and for an error. An `f32` is its bit pattern, a `char` of postgres a byte. For
-- a type that is not in the list, the attempt to read a text may fail.
pub data TextRead : Type 0 where
  read : Option String → TextRead
  unreadable : TextRead

pub data Cell : Type 0 where
  bool : Option Bool → Cell
  char : Option ℕ → Cell
  int : Option ℤ → Cell
  float4 : Option ℕ → Cell
  float8 : Option ℕ → Cell
  text : Option String → Cell
  bytea : Option (List ℕ) → Cell
  other : String → TextRead → Cell

-- A row: the names of its columns, and the cell at an index below their number. The rows of one
-- result have the same columns.
pub record Row : Type 0 where
  pub names : List String
  pub cell : ℕ → Cell

or_null {ℓ} : {A : Type ℓ} → (A → Value) → Option A → Value
or_null f none = Value.null
or_null f (some a) = f a

text_or_empty : Option String → String
text_or_empty none = ""
text_or_empty (some s) = s

-- `n as u8 as char`, as a text.
latin1 : ℕ → String
unfolding text_or_empty
latin1 n = text_or_empty (from_utf8 (encode n []))

unfoldable pub values_of : List Value → Values
values_of [] = Values.nil
values_of (v ∷ vs) = Values.cons v (values_of vs)

-- The dictionary of the columns.
unfoldable pub col_dict : List String → List (List Value) → Dict → Dict
unfolding insert
col_dict [] buckets d = d
col_dict (name ∷ names) [] d = d
col_dict (name ∷ names) (b ∷ bs) d = col_dict names bs (insert name (Value.array (values_of b)) d)

unfoldable pub columns : List Row → List String
columns [] = []
columns (row ∷ rows) = row.names

-- `widen` is the conversion of an `f32` to an `f64`.
module _ (widen : ℕ → ℕ) where
  unfoldable pub cell_to_value : Cell → Value
  unfolding or_null latin1
  cell_to_value (Cell.bool b) = or_null Value.bool b
  cell_to_value (Cell.char n) = or_null (λ c. Value.string (latin1 c)) n
  cell_to_value (Cell.int n) = or_null Value.number n
  cell_to_value (Cell.float4 x) = or_null (λ y. Value.float (widen y)) x
  cell_to_value (Cell.float8 x) = or_null Value.float x
  cell_to_value (Cell.text s) = or_null Value.string s
  cell_to_value (Cell.bytea b) = or_null Value.bytes b
  cell_to_value (Cell.other ty (read s)) = or_null Value.string s
  cell_to_value (Cell.other ty unreadable) = Value.string ("<unsupported pg type " <> (ty <> ">"))

  -- The cells of a row from an index on, each pushed to the bucket of its column.
  unfoldable pub push_row : Row → ℕ → List (List Value) → List (List Value) × List Value
  unfolding cell_to_value
  push_row row i [] = ([], [])
  push_row row i (b ∷ bs) =
      let v = cell_to_value (row.cell i) in
      let (bs', cells) = push_row row (suc i) bs in ((b ++ v ∷ []) ∷ bs', v ∷ cells)

  unfoldable pub push_rows : List (List Value) → List Row → List (List Value) × List Value
  push_rows buckets [] = (buckets, [])
  push_rows buckets (row ∷ rows) =
      let (buckets', cells) = push_row row 0 buckets in
      let (all_buckets, arrays) = push_rows buckets' rows in
      (all_buckets, Value.array (values_of cells) ∷ arrays)

  unfoldable pub build_result_dict : List Row → Dict
  unfolding columns insert
  build_result_dict rows =
      let names = columns rows in
      let (buckets, arrays) = push_rows (map (λ n. []) names) rows in
      insert "col_count" (Value.number (pos (length names))) (
        insert "row_count" (Value.number (pos (length rows))) (
          insert "col" (Value.dict (col_dict names buckets Dict.empty))
            (insert "row" (Value.array (values_of arrays)) Dict.empty)))
