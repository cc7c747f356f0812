-- ===== src/Storage/Columns.antt =====
-- src/storage.c: the types of columns by name, and the columns that a SELECT returns.
use jungle_w8_minisql_server.Prelude.{
  ℕ, ◌+◌, Bool, true, false, not, ◌&&◌, Option, none, some, List, [], ◌∷◌, length, Text, bytes,
  text_eq, ◌==◌, if◌then◌else◌,
}
use jungle_w8_minisql_server.Parser.Tokens.{ieq}
use jungle_w8_minisql_server.Parser.Syntax.{ParsedSql, WhereClause}
use jungle_w8_minisql_server.Storage.Values.{
  ColDef, ColumnType, int_type, varchar_type, float_type, boolean_type, date_type, datetime_type,
}
use jungle_w8_minisql_server.Storage.Where.{find_schema_index, is_empty_text, cons_if}

-- `parse_column_type`
unfoldable pub parse_column_type : Text → Option ColumnType
parse_column_type text =
    if ieq text (bytes "INT")
    then some int_type
    else if ieq text (bytes "VARCHAR")
    then some varchar_type
    else if ieq text (bytes "FLOAT")
    then some float_type
    else if ieq text (bytes "BOOLEAN")
    then some boolean_type
    else if ieq text (bytes "DATE")
    then some date_type
    else if ieq text (bytes "DATETIME")
    then some datetime_type
    else none

-- `is_select_all`
unfoldable pub is_select_all : List Text → Bool
is_select_all [] = true
is_select_all (c ∷ []) = text_eq c (bytes "*")
is_select_all (c ∷ d ∷ columns) = false

-- The indexes of all columns, from this one on.
unfoldable pub all_indexes : ℕ → List ColDef → List ℕ
all_indexes i [] = []
all_indexes i (c ∷ schema) = i ∷ all_indexes (i + 1) schema

-- The loop of `resolve_selected_columns`.
unfoldable pub column_indexes : List ColDef → List Text → Option (List ℕ)
column_indexes schema [] = some []
column_indexes schema (c ∷ columns) = elim (find_schema_index schema c) [
  | none ↦ none
  | some i ↦ cons_if true i (column_indexes schema columns)
]

-- `resolve_selected_columns`
unfoldable pub resolve_selected_columns : List ColDef → ParsedSql → Option (List ℕ)
resolve_selected_columns schema sql =
    if is_select_all sql.columns
    then some (all_indexes 0 schema)
    else column_indexes schema sql.columns

-- The loop of `validate_delete_input` and of `validate_update_input`.
unfoldable pub conditions_are_named : List WhereClause → Bool
conditions_are_named [] = true
conditions_are_named (w ∷ ws) =
    not (is_empty_text w.column) && not (is_empty_text w.op) && conditions_are_named ws

-- `validate_delete_input`
unfoldable pub validate_delete_input : Text → ParsedSql → Bool
validate_delete_input table sql = not (is_empty_text table) && conditions_are_named sql.conditions

-- `validate_update_input`
unfoldable pub validate_update_input : Text → ParsedSql → Bool
validate_update_input table sql =
    not (is_empty_text table)
    && not (length sql.set_clauses == 0)
    && conditions_are_named sql.conditions

-- `validate_insert_input`
unfoldable pub validate_insert_input : Text → List Text → Bool
validate_insert_input table values = not (is_empty_text table) && not (length values == 0)
