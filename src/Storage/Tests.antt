-- ===== src/Storage/Tests.antt =====
-- src/storage.c: runs on a small table, and the theorems at it.
use jungle_w8_minisql_server.Prelude.{
  ℕ, ◌<◌, ◌≡◌, refl, ◌↔◌, true, false, none, some, List, [], ◌∷◌, ◌++◌, length, get_elem?, take,
  drop, Text, bytes, text_eq, arith, ltb, pos, negsuc, pos_part, neg_part,
}
use jungle_w8_minisql_server.Parser.Tokens.{starts, ieq, to_lower, span, is_space}
use jungle_w8_minisql_server.Parser.Syntax.{ParsedSql, OrderBy, delete_query, parsed_new}
use jungle_w8_minisql_server.Storage.Csv.{
  text_or_empty, is_special, needs_quotes, double_quotes, write_csv_field, write_csv_row,
}
use jungle_w8_minisql_server.Storage.Values.{
  ColDef, Doubles, int_type, varchar_type, like_match, like_pattern, any_suffix, is_end, value_of,
  is_digit, parse_long_value, signed_value, unsigned_value, validate_date_text,
}
use jungle_w8_minisql_server.Storage.Where.{find_schema_index, find_column_from, row_matches}
use jungle_w8_minisql_server.Storage.Tables.{
  load_table_rows, load_row_at_index, delete_rows_from_table, update_rows_from_table,
}
use jungle_w8_minisql_server.Storage.Loading.{
  write_rows, all_wide, load_table_rows-write_rows, load_row_at_index-write_rows,
}
use jungle_w8_minisql_server.Storage.Rewrite.{
  if_some, write_all, rows_without, updated_rows, delete_rows_from_table-load_table_rows,
  update_rows_from_table-load_table_rows,
}
use jungle_w8_minisql_server.Storage.Groups.{conditions_value, row_matches-conditions_value}
use jungle_w8_minisql_server.Storage.Like.{Matches, like_match-Matches}
use jungle_w8_minisql_server.Storage.Where.{set_index, set_indexes, contains, apply_update_to_row}
use jungle_w8_minisql_server.Storage.Values.{boolean_type, validate_update_value_for_type}
use jungle_w8_minisql_server.Parser.Syntax.{SetClause}
use jungle_w8_minisql_server.Storage.Insert.{
  build_row_in_schema_order, place_values, place_value, fill_cell, all_cells,
}
use jungle_w8_minisql_server.Storage.Placed.{build_row_in_schema_order-values}
use jungle_w8_minisql_server.Storage.Assign.{is_set, apply_update_to_row-set_indexes}
use jungle_w8_minisql_server.Storage.Columns.{
  parse_column_type, resolve_selected_columns, is_select_all, column_indexes,
}
use jungle_w8_minisql_server.Parser.Statements.{atoi, signed, digits}
use jungle_w8_minisql_server.Storage.Csv.{
  read_csv_record, read_record_from, quotes_after, is_pair, after_newline, parse_csv_record,
  parse_fields, parse_char, parse_end, append_char, push_field,
}
use jungle_w8_minisql_server.Storage.Insert.{scan_csv_meta, scan_from, max_after}

-- Whole numbers in place of `double`.
abbrev whole_numbers : Doubles
whole_numbers = record {
  Double = ℕ;
  strtod = value_of 0;
  strtod_end = λ t. (span is_digit t).1;
  strtod_failed = λ t. false;
  greater = λ a b. ltb b a;
}

abbrev id_column : ColDef
id_column = record { name = bytes "id"; type = int_type }

abbrev people_schema : List ColDef
people_schema = id_column ∷ record { name = bytes "name"; type = varchar_type } ∷ []

abbrev people : List (List Text)
people = (bytes "10" ∷ bytes "Kim, J" ∷ []) ∷ (bytes "9" ∷ bytes "Lee" ∷ []) ∷ []

-- DELETE FROM people WHERE id > 9
abbrev over_nine : ParsedSql
over_nine = record (parsed_new delete_query) {
  conditions =
      record { column = bytes "ID"; op = bytes ">"; value = bytes "9"; value_to = [] } ∷ [];
}

abbrev by_id : OrderBy
by_id = record { column = bytes "id"; asc = true }

written_field :
    write_csv_row (some (bytes "a") ∷ some (34 ∷ 44 ∷ []) ∷ none ∷ []) []
    ≡ 97 ∷ 44 ∷ 34 ∷ 34 ∷ 34 ∷ 44 ∷ 34 ∷ 44 ∷ 10 ∷ []
unfolding write_csv_row write_csv_field text_or_empty needs_quotes is_special double_quotes
written_field = refl

number_read : parse_long_value (bytes " -12") ≡ some (negsuc 11)
unfolding parse_long_value signed_value unsigned_value value_of is_digit span is_space
number_read = refl

number_refused : parse_long_value (bytes "12a") ≡ none
unfolding parse_long_value signed_value unsigned_value value_of is_digit span is_space
number_refused = refl

date_accepted : validate_date_text (bytes "2026-02-31") ≡ true
unfolding validate_date_text is_digit
date_accepted = refl

like_found : like_match (bytes "banana") (bytes "b%n_") ≡ true
unfolding like_match like_pattern any_suffix is_end starts
like_found = refl

positive : 0 < length people_schema
positive = omega arith

wide : all_wide 2 people ≡ true
unfolding all_wide
wide = refl

load_table_rows-write_rows_example : load_table_rows 2 (write_rows people) ≡ some people
load_table_rows-write_rows_example = load_table_rows-write_rows 2 people (omega arith) wide

load_row_at_index-write_rows_example :
    load_row_at_index 2 1 (write_rows people) ≡ some (take 1 (drop 1 people))
load_row_at_index-write_rows_example = load_row_at_index-write_rows 2 1 people (omega arith) wide

delete_rows_from_table-load_table_rows_example :
    delete_rows_from_table whole_numbers people_schema over_nine (write_rows people)
    ≡ write_all (
        if_some
          (rows_without whole_numbers people_schema over_nine)
          (load_table_rows (length people_schema) (write_rows people)))
delete_rows_from_table-load_table_rows_example =
    delete_rows_from_table-load_table_rows whole_numbers people_schema over_nine (write_rows people)
      positive

-- SET name = 'Park'
abbrev renaming : SetClause
renaming = record { column = bytes "name"; value = bytes "Park" }

-- UPDATE people SET name = 'Park' WHERE id > 9
abbrev over_nine_renamed : ParsedSql
over_nine_renamed = record over_nine { set_clauses = renaming ∷ [] }

update_rows_from_table-load_table_rows_example :
    update_rows_from_table whole_numbers people_schema over_nine_renamed
      (1 ∷ [])
      (write_rows people)
    ≡ write_all (
        if_some
          (updated_rows whole_numbers people_schema over_nine_renamed (1 ∷ []))
          (load_table_rows (length people_schema) (write_rows people)))
update_rows_from_table-load_table_rows_example =
    update_rows_from_table-load_table_rows whole_numbers people_schema over_nine_renamed (1 ∷ [])
      (write_rows people) positive

row_matches-conditions_value_example :
    row_matches whole_numbers people_schema over_nine (bytes "9" ∷ bytes "Lee" ∷ [])
    ≡ conditions_value whole_numbers people_schema
        (bytes "9" ∷ bytes "Lee" ∷ [])
        over_nine
        over_nine.conditions
row_matches-conditions_value_example =
    row_matches-conditions_value whole_numbers people_schema (bytes "9" ∷ bytes "Lee" ∷ [])
      over_nine

like_match-Matches_example :
    (like_match (bytes "banana") (bytes "b%n_") ≡ true) ↔ Matches (bytes "b%n_") (bytes "banana")
like_match-Matches_example = like_match-Matches (bytes "banana") (bytes "b%n_")

name_found : find_schema_index people_schema (bytes "NAME") ≡ some 1
unfolding find_schema_index find_column_from ieq to_lower
name_found = refl

built :
    build_row_in_schema_order people_schema
      (some (bytes "NAME" ∷ bytes "id" ∷ []))
      (bytes "Lee" ∷ bytes "9" ∷ [])
    ≡ some (bytes "9" ∷ bytes "Lee" ∷ [])
unfolding build_row_in_schema_order place_values place_value fill_cell all_cells find_schema_index
    find_column_from ieq to_lower
built = refl

build_row_in_schema_order-values_example :
    get_elem? (bytes "9" ∷ bytes "Lee" ∷ []) 1 ≡ some (bytes "Lee")
build_row_in_schema_order-values_example =
    build_row_in_schema_order-values people_schema (bytes "NAME" ∷ bytes "id" ∷ [])
      (bytes "Lee" ∷ bytes "9" ∷ []) (bytes "9" ∷ bytes "Lee" ∷ []) 0 1 (bytes "NAME") (bytes "Lee")
      built refl refl name_found

checked : set_indexes whole_numbers people_schema [] (renaming ∷ []) ≡ some (1 ∷ [])
unfolding set_indexes set_index contains find_schema_index find_column_from ieq to_lower
    validate_update_value_for_type
checked = refl

renamed :
    apply_update_to_row (bytes "9" ∷ bytes "Lee" ∷ []) (renaming ∷ []) (1 ∷ [])
    ≡ some (bytes "9" ∷ bytes "Park" ∷ [])
unfolding apply_update_to_row
renamed = refl

name_found_lower : find_schema_index people_schema (bytes "name") ≡ some 1
unfolding find_schema_index find_column_from ieq to_lower
name_found_lower = refl

not_renamed : is_set people_schema (renaming ∷ []) 0 ≡ false
unfolding is_set find_schema_index find_column_from ieq to_lower
not_renamed = refl

apply_update_to_row-set_indexes_example :
    (get_elem? (bytes "9" ∷ bytes "Park" ∷ []) 1 ≡ some (bytes "Park"))
    × (get_elem? (bytes "9" ∷ bytes "Park" ∷ []) 0 ≡ get_elem? (bytes "9" ∷ bytes "Lee" ∷ []) 0)
apply_update_to_row-set_indexes_example =
    apply_update_to_row-set_indexes whole_numbers people_schema (bytes "9" ∷ bytes "Lee" ∷ [])
      (bytes "9" ∷ bytes "Park" ∷ []) (renaming ∷ []) (1 ∷ []) 0 1 0 renaming checked renamed refl
      name_found_lower not_renamed

type_read : parse_column_type (bytes "Boolean") ≡ some boolean_type
unfolding parse_column_type ieq to_lower
type_read = refl

name_selected :
    resolve_selected_columns people_schema
      (record (parsed_new delete_query) { columns = bytes "Name" ∷ [] })
    ≡ some (1 ∷ [])
unfolding resolve_selected_columns is_select_all column_indexes text_eq find_schema_index
    find_column_from ieq to_lower
name_selected = refl

abbrev not_over_nine : List (List Text)
not_over_nine = (bytes "9" ∷ bytes "Lee" ∷ []) ∷ []

meta_scanned :
    scan_csv_meta (some 0) (bytes "7,a" ++ (10 ∷ bytes "12,b" ++ (10 ∷ []))) ≡ (pos 12, 2)
unfolding scan_csv_meta scan_from max_after read_csv_record read_record_from quotes_after is_pair
    after_newline starts parse_csv_record parse_fields parse_char parse_end append_char push_field
    atoi signed digits span is_space pos_part neg_part
meta_scanned = refl
