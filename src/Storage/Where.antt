-- ===== src/Storage/Where.antt =====
-- src/storage.c: the schema's columns, and the conditions of a statement on a row.
use jungle_w8_minisql_server.Prelude.{
  ℕ, ◌+◌, ◌-◌, Bool, true, false, not, ◌&&◌, ◌||◌, Option, none, some, List, [], ◌∷◌, ◌++◌, length,
  get_elem?, set, take, drop, Text, bytes, ltb, leb, ◌==◌, if◌then◌else◌,
}
use jungle_w8_minisql_server.Parser.Tokens.{ieq}
use jungle_w8_minisql_server.Parser.Syntax.{clip, ParsedSql, WhereClause, SetClause}
use jungle_w8_minisql_server.Storage.Values.{
  ColDef, ColumnType, Doubles, is_supported_operator, is_supported_operator_for_type,
  validate_literal_for_type, validate_update_value_for_type, compare_value_by_type,
}

-- The loop of `find_schema_index`, from this index on.
unfoldable pub find_column_from : ℕ → List ColDef → Text → Option ℕ
find_column_from i [] column = none
find_column_from i (c ∷ schema) column =
    let rest = find_column_from (i + 1) schema column in if ieq c.name column then some i else rest

-- `find_schema_index`
unfoldable pub find_schema_index : List ColDef → Text → Option ℕ
find_schema_index schema column = find_column_from 0 schema column

unfoldable pub char_is : Option ℕ → ℕ → Bool
char_is none q = false
char_is (some c) q = c == q

-- Whether a text begins and ends with this quote.
unfoldable pub in_quote : ℕ → Text → Bool
in_quote q input = char_is (get_elem? input 0) q && char_is (get_elem? input (length input - 1)) q

-- `strip_optional_quotes`, with the size of the output.
unfoldable pub strip_optional_quotes : ℕ → Text → Text
strip_optional_quotes size input =
    if leb 2 (length input) && (in_quote 39 input || in_quote 34 input)
    then clip size (take (length input - 2) (drop 1 input))
    else clip size input

-- The checks of `evaluate_select_clause` on a literal, and the comparison.
unfoldable pub evaluate_cell : Doubles → ColumnType → Text → Text → Text → Option Bool
evaluate_cell doubles type cell op literal =
    if not (is_supported_operator op)
    then none
    else if not (is_supported_operator_for_type type op)
    then none
    else if not (validate_literal_for_type doubles type literal)
    then none
    else compare_value_by_type doubles type cell op literal

-- `evaluate_select_clause` at the column's definition and the row's cell, if both are there.
unfoldable pub evaluate_at : Doubles → Option ColDef → Option Text → WhereClause → Option Bool
evaluate_at doubles none cell clause = none
evaluate_at doubles (some c) none clause = none
evaluate_at doubles (some c) (some cell) clause =
    evaluate_cell doubles c.type cell clause.op (strip_optional_quotes 256 clause.value)

-- `evaluate_select_clause`
unfoldable pub evaluate_select_clause :
    Doubles → List ColDef → List Text → WhereClause → Option Bool
evaluate_select_clause doubles schema row clause = elim (find_schema_index schema clause.column) [
  | none ↦ none
  | some i ↦ evaluate_at doubles (get_elem? schema i) (get_elem? row i) clause
]

-- `resolve_where_link`; the links are those that `parse_where` leaves.
unfoldable pub resolve_where_link : ParsedSql → ℕ → Text
resolve_where_link sql index =
    elim (if ltb index (length sql.conditions - 1) then get_elem? sql.where_links index else none) [
      | none ↦ link_fallback sql.where_logic
      | some link ↦ link
    ]
  where
    link_fallback : Text → Text
    link_fallback [] = bytes "AND"
    link_fallback (c ∷ logic) = c ∷ logic

-- The loop of `row_matches_delete` from a condition on, with the variables `*out_match` and
-- `group_match`, and its last assignment.
unfoldable pub match_from :
    Doubles → List ColDef → List Text → ParsedSql → Bool → Bool → ℕ → List WhereClause → Option Bool
match_from doubles schema row sql out_match group_match index [] = some (out_match || group_match)
match_from doubles schema row sql out_match group_match index (w ∷ ws) =
    elim (evaluate_select_clause doubles schema row w) [
      | none ↦ none
      | some clause_match ↦
          let link = resolve_where_link sql (index - 1) in
          let is_and = ieq link (bytes "AND") in
          let rest =
            match_from doubles schema row sql
              (if is_and then out_match else (out_match || group_match))
              (if is_and then (group_match && clause_match) else clause_match) (index + 1) ws in
          if is_and || ieq link (bytes "OR") then rest else none
    ]

-- `row_matches_delete` at the conditions.
unfoldable pub conditions_match :
    Doubles → List ColDef → List Text → ParsedSql → List WhereClause → Option Bool
conditions_match doubles schema row sql [] = some true
conditions_match doubles schema row sql (w ∷ ws) =
    elim (evaluate_select_clause doubles schema row w) [
      | none ↦ none
      | some group_match ↦ match_from doubles schema row sql false group_match 1 ws
    ]

-- `row_matches_delete`, which is `row_matches_select`
unfoldable pub row_matches : Doubles → List ColDef → ParsedSql → List Text → Option Bool
row_matches doubles schema sql row = conditions_match doubles schema row sql sql.conditions

abbrev pub cons_if : {A : Type 0} → Bool → A → Option (List A) → Option (List A)
cons_if keep a none = none
cons_if true a (some rows) = some (a ∷ rows)
cons_if false a (some rows) = some rows

abbrev pub cons_matched : {A : Type 0} → Option Bool → A → Option (List A) → Option (List A)
cons_matched none a rows = none
cons_matched (some matched) a rows = cons_if matched a rows

-- `collect_matching_rows`
unfoldable pub collect_matching_rows :
    Doubles → List ColDef → ParsedSql → List (List Text) → Option (List (List Text))
collect_matching_rows doubles schema sql [] = some []
collect_matching_rows doubles schema sql (row ∷ rows) =
    let rest = collect_matching_rows doubles schema sql rows in
    cons_matched (row_matches doubles schema sql row) row rest

-- One round of `validate_delete_clause`, at a condition and whether it is the last one.
unfoldable pub clause_is_valid : Doubles → List ColDef → ParsedSql → ℕ → WhereClause → Bool
clause_is_valid doubles schema sql index w = elim (find_schema_index schema w.column) [
  | none ↦ false
  | some i ↦ elim (get_elem? schema i) [
    | none ↦ false
    | some c ↦
        is_supported_operator w.op
        && is_supported_operator_for_type c.type w.op
        && validate_literal_for_type doubles c.type w.value
        && (leb (length sql.conditions) (index + 1)
            || ieq (resolve_where_link sql index) (bytes "AND")
            || ieq (resolve_where_link sql index) (bytes "OR"))
  ]
]

unfoldable pub clauses_are_valid : Doubles → List ColDef → ParsedSql → ℕ → List WhereClause → Bool
clauses_are_valid doubles schema sql index [] = true
clauses_are_valid doubles schema sql index (w ∷ ws) =
    let rest = clauses_are_valid doubles schema sql (index + 1) ws in
    clause_is_valid doubles schema sql index w && rest

-- `validate_delete_clause`
unfoldable pub validate_delete_clause : Doubles → List ColDef → ParsedSql → Bool
validate_delete_clause doubles schema sql = clauses_are_valid doubles schema sql 0 sql.conditions

unfoldable pub contains : ℕ → List ℕ → Bool
contains i [] = false
contains i (j ∷ js) = i == j || contains i js

abbrev pub is_empty_text : Text → Bool
is_empty_text [] = true
is_empty_text (c ∷ s) = false

-- One round of `validate_update_set_clause`: the column's index, given those before it.
unfoldable pub set_index : Doubles → List ColDef → List ℕ → SetClause → Option ℕ
set_index doubles schema before s =
    if is_empty_text s.column then none else elim (find_schema_index schema s.column) [
      | none ↦ none
      | some i ↦ if contains i before then none else elim (get_elem? schema i) [
        | none ↦ none
        | some c ↦ if validate_update_value_for_type doubles c.type s.value then some i else none
      ]
    ]

-- `validate_update_set_clause`, with the indexes before a clause.
unfoldable pub set_indexes : Doubles → List ColDef → List ℕ → List SetClause → Option (List ℕ)
set_indexes doubles schema before [] = some []
set_indexes doubles schema before (s ∷ ss) = elim (set_index doubles schema before s) [
  | none ↦ none
  | some i ↦ cons_if true i (set_indexes doubles schema (before ++ (i ∷ [])) ss)
]

-- `apply_update_to_row`: what is left of the set clauses and of the indexes.
unfoldable pub apply_update_to_row : List Text → List SetClause → List ℕ → Option (List Text)
apply_update_to_row row [] indexes = some row
apply_update_to_row row (s ∷ ss) [] = none
apply_update_to_row row (s ∷ ss) (i ∷ indexes) =
    let rest = apply_update_to_row (set row i s.value) ss indexes in
    if leb (length row) i then none else rest
