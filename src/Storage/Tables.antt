-- ===== src/Storage/Tables.antt =====
-- src/storage.c: the loops over the rows of a table file, and the rewriting of the file.
use jungle_w8_minisql_server.Prelude.{
  ℕ, zero, suc, ◌-◌, Bool, true, false, Option, none, some, List, [], ◌∷◌, map, length, Text, ◌==◌,
  if◌then◌else◌,
}
use jungle_w8_minisql_server.Parser.Syntax.{ParsedSql}
use jungle_w8_minisql_server.Storage.Csv.{
  ReadStatus, malformed, end_of_file, read_one, read_csv_record, parse_csv_record, write_csv_row,
}
use jungle_w8_minisql_server.Storage.Values.{ColDef, Doubles}
use jungle_w8_minisql_server.Storage.Where.{cons_if, row_matches, apply_update_to_row}

pub data NextRow : Type 0 where
  bad : NextRow
  at_end : NextRow
  got : List Text → Text → NextRow

-- A record's fields, if there are as many as the schema has columns.
unfoldable pub checked_row : ℕ → Option (List Text) → Text → NextRow
checked_row count none rest = bad
checked_row count (some row) rest = if length row == count then got row rest else bad

unfoldable pub row_status : ℕ → ReadStatus → NextRow
row_status count malformed = bad
row_status count end_of_file = at_end
row_status count (read_one record' rest) = checked_row count (parse_csv_record record') rest

-- The first half of a round of the loops of `load_table_rows`, `load_row_at_index`,
-- `delete_rows_from_table` and `update_rows_from_table`: a record is read, parsed and counted.
unfoldable pub next_row : ℕ → Text → NextRow
next_row count file = row_status count (read_csv_record file)

-- The loop of `load_table_rows`, on fuel.
unfoldable pub load_rows : ℕ → ℕ → Text → Option (List (List Text))
load_rows zero count file = none
load_rows (suc fuel) count file = elim (next_row count file) [
  | bad ↦ none
  | at_end ↦ some []
  | got row rest ↦ cons_if true row (load_rows fuel count rest)
]

-- `load_table_rows`; a record takes one character at least.
unfoldable pub load_table_rows : ℕ → Text → Option (List (List Text))
load_table_rows count file = if count == 0 then none else load_rows (suc (length file)) count file

-- The loop of `load_row_at_index`, counting down to the index: what it leaves in `selection`.
unfoldable pub row_at_from : ℕ → ℕ → ℕ → Text → Option (List (List Text))
row_at_from zero count index file = none
row_at_from (suc fuel) count index file = elim (next_row count file) [
  | bad ↦ none
  | at_end ↦ some []
  | got row rest ↦
      let later = row_at_from fuel count (index - 1) rest in
      if index == 0 then some (row ∷ []) else later
]

-- `load_row_at_index`, for an index that is not negative.
unfoldable pub load_row_at_index : ℕ → ℕ → Text → Option (List (List Text))
load_row_at_index count index file =
    if count == 0 then none else row_at_from (suc (length file)) count index file

unfoldable pub write_row : List Text → Text → Text
write_row row out = write_csv_row (map some row) out

-- The second half of a round of `delete_rows_from_table`, with what the later rounds write.
abbrev pub delete_written : List Text → Option Bool → Option Text → Option Text
delete_written row none later = none
delete_written row (some matches) none = none
delete_written row (some matches) (some later) =
    some (if matches then later else write_row row later)

-- The loop of `delete_rows_from_table`: what it writes to the other file.
unfoldable pub delete_loop : ℕ → Doubles → List ColDef → ParsedSql → Text → Option Text
delete_loop zero doubles schema sql file = none
delete_loop (suc fuel) doubles schema sql file = elim (next_row (length schema) file) [
  | bad ↦ none
  | at_end ↦ some []
  | got row rest ↦
      delete_written row (row_matches doubles schema sql row)
        (delete_loop fuel doubles schema sql rest)
]

-- `delete_rows_from_table`: the new contents of the table's file. The file stays as it is when
-- there are none.
unfoldable pub delete_rows_from_table : Doubles → List ColDef → ParsedSql → Text → Option Text
delete_rows_from_table doubles schema sql file =
    delete_loop (suc (length file)) doubles schema sql file

-- The row that a round of `update_rows_from_table` writes.
abbrev pub updated_if : List Text → Option Bool → Option (List Text) → Option (List Text)
updated_if row none updated = none
updated_if row (some true) updated = updated
updated_if row (some false) updated = some row

unfoldable pub updated_row :
    Doubles → List ColDef → ParsedSql → List ℕ → List Text → Option (List Text)
updated_row doubles schema sql indexes row =
    updated_if row (row_matches doubles schema sql row)
      (apply_update_to_row row sql.set_clauses indexes)

abbrev pub update_written : Option (List Text) → Option Text → Option Text
update_written none later = none
update_written (some row) none = none
update_written (some row) (some later) = some (write_row row later)

-- The loop of `update_rows_from_table`.
unfoldable pub update_loop : ℕ → Doubles → List ColDef → ParsedSql → List ℕ → Text → Option Text
update_loop zero doubles schema sql indexes file = none
update_loop (suc fuel) doubles schema sql indexes file = elim (next_row (length schema) file) [
  | bad ↦ none
  | at_end ↦ some []
  | got row rest ↦
      update_written (updated_row doubles schema sql indexes row)
        (update_loop fuel doubles schema sql indexes rest)
]

-- `update_rows_from_table`
unfoldable pub update_rows_from_table :
    Doubles → List ColDef → ParsedSql → List ℕ → Text → Option Text
update_rows_from_table doubles schema sql indexes file =
    update_loop (suc (length file)) doubles schema sql indexes file
