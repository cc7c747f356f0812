-- ===== src/Storage/Insert.antt =====
-- src/storage.c: the row of an INSERT, and the count of the rows of a file.
use jungle_w8_minisql_server.Prelude.{
  ℕ, zero, suc, Option, none, some, List, [], ◌∷◌, length, get_elem?, replicate, Text, text_eq,
  ◌==◌, if◌then◌else◌, ℤ, pos, ltz,
}
use jungle_w8_minisql_server.Parser.Statements.{atoi}
use jungle_w8_minisql_server.Storage.Csv.{
  malformed, end_of_file, read_one, read_csv_record, parse_csv_record,
}
use jungle_w8_minisql_server.Storage.Values.{ColDef}
use jungle_w8_minisql_server.Storage.Where.{find_schema_index, is_empty_text}

-- A row whose cells may still be NULL.
abbrev pub PartialRow : Type 0
PartialRow = List (Option Text)

-- A row behind a cell.
abbrev pub behind : Option Text → Option PartialRow → Option PartialRow
behind cell none = none
behind cell (some row) = some (cell ∷ row)

-- `row[index] = value` where the cell is NULL; `none` where it is not, or where there is no cell.
unfoldable pub fill_cell : PartialRow → ℕ → Text → Option PartialRow
fill_cell [] i value = none
fill_cell (none ∷ row) zero value = some (some value ∷ row)
fill_cell (some old ∷ row) zero value = none
fill_cell (none ∷ row) (suc i) value = behind none (fill_cell row i value)
fill_cell (some old ∷ row) (suc i) value = behind (some old) (fill_cell row i value)

-- One round of the second loop of `build_row_in_schema_order`.
unfoldable pub place_value : List ColDef → PartialRow → Text → Text → Option PartialRow
place_value schema row column value =
    if is_empty_text column
    then none
    else elim (find_schema_index schema column) [ none ↦ none | some i ↦ fill_cell row i value ]

-- The loop, over the columns and their values.
unfoldable pub place_values :
    List ColDef → Option PartialRow → List Text → List Text → Option PartialRow
place_values schema none columns values = none
place_values schema (some row) [] values = some row
place_values schema (some row) (c ∷ columns) [] = some row
place_values schema (some row) (c ∷ columns) (v ∷ values) =
    place_values schema (place_value schema row c v) columns values

abbrev pub before_cells : Text → Option (List Text) → Option (List Text)
before_cells cell none = none
before_cells cell (some cells) = some (cell ∷ cells)

-- The last loop: every cell has to be there.
unfoldable pub all_cells : PartialRow → Option (List Text)
all_cells [] = some []
all_cells (none ∷ row) = none
all_cells (some cell ∷ row) = before_cells cell (all_cells row)

abbrev pub all_cells_of : Option PartialRow → Option (List Text)
all_cells_of none = none
all_cells_of (some row) = all_cells row

-- `build_row_in_schema_order`; the columns may be NULL, and otherwise there are as many as values.
unfoldable pub build_row_in_schema_order :
    List ColDef → Option (List Text) → List Text → Option (List Text)
build_row_in_schema_order schema none values =
    if length values == length schema then some values else none
build_row_in_schema_order schema (some columns) values =
    if length values == length schema
    then all_cells_of (place_values schema (some (replicate (length schema) none)) columns values)
    else none

-- `count_csv_rows`, on fuel.
unfoldable pub count_rows : ℕ → Text → ℕ
count_rows zero file = 0
count_rows (suc fuel) file = elim (read_csv_record file) [
  | malformed ↦ 0
  | end_of_file ↦ 0
  | read_one record' rest ↦ suc (count_rows fuel rest)
]

unfoldable pub count_csv_rows : Text → ℕ
count_csv_rows file = count_rows (suc (length file)) file

-- The greatest id so far, after a record's fields; a column that is not there is `none`.
unfoldable pub max_after : Option ℕ → ℤ → Option (List Text) → ℤ
max_after none max_id fields = max_id
max_after (some i) max_id none = max_id
max_after (some i) max_id (some fields) = elim (get_elem? fields i) [
  | none ↦ max_id
  | some field ↦ if ltz max_id (atoi field) then atoi field else max_id
]

-- The loop of `scan_csv_meta`, on fuel, with its two variables.
unfoldable pub scan_from : ℕ → Option ℕ → ℤ → ℕ → Text → ℤ × ℕ
scan_from zero id_column max_id row_count file = (max_id, row_count)
scan_from (suc fuel) id_column max_id row_count file = elim (read_csv_record file) [
  | malformed ↦ (max_id, row_count)
  | end_of_file ↦ (max_id, row_count)
  | read_one record' rest ↦
      scan_from fuel id_column (max_after id_column max_id (parse_csv_record record'))
        (suc row_count) rest
]

-- `scan_csv_meta`: the greatest id, for ids that an `int` holds, and the number of rows.
unfoldable pub scan_csv_meta : Option ℕ → Text → ℤ × ℕ
scan_csv_meta id_column file = scan_from (suc (length file)) id_column (pos 0) 0 file

-- An entry of `s_meta`.
pub record StorageMetaCache : Type 0 where
  pub table : Text
  pub next_id : ℤ
  pub next_row_idx : ℕ

-- `invalidate_meta_cache`
unfoldable pub invalidate_meta_cache : List StorageMetaCache → Text → List StorageMetaCache
invalidate_meta_cache [] table = []
invalidate_meta_cache (m ∷ metas) table =
    let rest = invalidate_meta_cache metas table in
    if text_eq m.table table
    then record { table = m.table; next_id = pos 0; next_row_idx = 0 } ∷ metas
    else m ∷ rest
