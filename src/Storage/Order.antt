-- ===== src/Storage/Order.antt =====
-- src/storage.c: ORDER BY.
use jungle_w8_minisql_server.Prelude.{
  ℕ, zero, suc, Bool, Option, none, some, List, [], ◌∷◌, length, get_elem?, Text, if◌then◌else◌,
}
use Prim.Native.Nat.{Ordering}
use jungle_w8_minisql_server.Parser.Syntax.{ParsedSql, OrderBy}
use jungle_w8_minisql_server.Storage.Values.{
  ColDef, ColumnType, int_type, varchar_type, float_type, boolean_type, date_type, datetime_type,
  Doubles, strcmp, parse_long_value, parse_double_value, parse_boolean_value, compare_longs,
  compare_bools, compare_doubles, compare_both, is_gt, is_lt,
}
use jungle_w8_minisql_server.Storage.Where.{find_schema_index, strip_optional_quotes, is_empty_text}

-- `compare_cells_by_type`, once the quotes are off.
unfoldable pub compare_stripped : Doubles → ColumnType → Text → Text → Option Ordering
compare_stripped doubles int_type lhs rhs =
    compare_both compare_longs (parse_long_value lhs) (parse_long_value rhs)
compare_stripped doubles float_type lhs rhs =
    compare_both (compare_doubles doubles) (parse_double_value doubles lhs)
      (parse_double_value doubles rhs)
compare_stripped doubles boolean_type lhs rhs =
    compare_both compare_bools (parse_boolean_value lhs) (parse_boolean_value rhs)
compare_stripped doubles date_type lhs rhs = some (strcmp lhs rhs)
compare_stripped doubles varchar_type lhs rhs = some (strcmp lhs rhs)
compare_stripped doubles datetime_type lhs rhs = some (strcmp lhs rhs)

-- `compare_cells_by_type`
unfoldable pub compare_cells_by_type : Doubles → ColumnType → Text → Text → Option Ordering
compare_cells_by_type doubles type left right =
    compare_stripped doubles type (strip_optional_quotes 256 left) (strip_optional_quotes 256 right)

-- A cell of a row that is as wide as the schema.
unfoldable pub cell_at : ℕ → List Text → Text
cell_at i [] = []
cell_at zero (cell ∷ row) = cell
cell_at (suc i) (cell ∷ row) = cell_at i row

abbrev pub or_else : Option Ordering → Ordering → Ordering
or_else none o = o
or_else (some c) o = c

-- `compare_rows_for_order`, at the type of the column.
unfoldable pub compare_rows_for_order : Doubles → ColumnType → ℕ → List Text → List Text → Ordering
compare_rows_for_order doubles type i left right =
    or_else (compare_cells_by_type doubles type (cell_at i left) (cell_at i right))
      (strcmp (cell_at i left) (cell_at i right))

-- `comparison * multiplier > 0`
unfoldable pub is_after : Bool → Ordering → Bool
is_after asc cmp = if asc then is_gt cmp else is_lt cmp

-- The inner loop of `sort_selection`: the row at `row_index` and those behind it, after the swaps.
unfoldable pub settle_row : {A : Type 0} → (A → A → Bool) → A → List A → A × List A
settle_row after x [] = (x, [])
settle_row after x (y ∷ ys) =
    let swaps = after x y in
    let r = settle_row after (if swaps then y else x) ys in (r.0, (if swaps then x else y) ∷ r.1)

-- The outer loop, for as many rows as there are.
unfoldable pub sort_loop : {A : Type 0} → (A → A → Bool) → ℕ → List A → List A
sort_loop after zero rows = rows
sort_loop after (suc n) [] = []
sort_loop after (suc n) (x ∷ rows) = let r = settle_row after x rows in r.0 ∷ sort_loop after n r.1

abbrev pub row_is_after : Doubles → ColumnType → ℕ → Bool → List Text → List Text → Bool
row_is_after doubles type i asc left right =
    is_after asc (compare_rows_for_order doubles type i left right)

-- `sort_selection` by this column, if the schema has it.
unfoldable pub sort_by :
    Doubles → List ColDef → OrderBy → List (List Text) → Option (List (List Text))
sort_by doubles schema order rows = elim (find_schema_index schema order.column) [
  | none ↦ none
  | some i ↦ elim (get_elem? schema i) [
    | none ↦ none
    | some c ↦ some (sort_loop (row_is_after doubles c.type i order.asc) (length rows) rows)
  ]
]

-- `sort_selection`
unfoldable pub sort_selection :
    Doubles → List ColDef → ParsedSql → List (List Text) → Option (List (List Text))
sort_selection doubles schema sql rows = elim sql.order_by [
  | none ↦ some rows
  | some order ↦ if is_empty_text order.column then some rows else sort_by doubles schema order rows
]
