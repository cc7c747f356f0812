-- ===== src/Parser/Changes.antt =====
-- src/parser.c: INSERT, DELETE and UPDATE statements written as tokens are read back.
use jungle_w8_minisql_server.Prelude.{
  ℕ, suc, ◌<◌, ◌-◌, ltb, if_both, arith, ◌≤◌, ◌≡◌, refl, ap, ◌∙◌, true, false, ◌||◌, none, some,
  List, [], ◌∷◌, length, take_all, Text, bytes, text_eq,
}
use jungle_w8_minisql_server.Parser.Tokens.{ieq, to_lower}
use jungle_w8_minisql_server.Parser.Syntax.{
  insert_query, delete_query, update_query, SetClause, ParsedSql, parsed_new, clip, copy_unset,
  match_kw, optional_where, connective,
}
use jungle_w8_minisql_server.Parser.Statements.{
  insert_values, insert_into, parse_insert, table_name, parse_delete, copy_set, set_loop,
  parse_update, parse_tokens,
}
use jungle_w8_minisql_server.Parser.Conditions.{copy_unset_room}
use jungle_w8_minisql_server.Parser.Lists.{
  list_before, AllNot, is_close, ident_list_before, Filter, IsFilter, filter_before, with_filter,
  optional_where_before,
}

unfoldable pub insert_tokens : Text → Text → List Text → Text → List Text → List Text
insert_tokens table column columns value values =
    bytes "INSERT"
    ∷ bytes "INTO"
    ∷ table
    ∷ bytes "("
    ∷ list_before column columns (
        bytes ")"
        ∷ bytes "VALUES"
        ∷ bytes "("
        ∷ list_before value values (bytes ")" ∷ bytes ";" ∷ []))

values_of :
    (sql : ParsedSql) (value : Text) (values : List Text)
    → AllNot is_close (value ∷ values)
    → insert_values sql
        (bytes "VALUES" ∷ bytes "(" ∷ list_before value values (bytes ")" ∷ bytes ";" ∷ []))
      ≡ record sql { values = value ∷ values }
unfolding insert_values match_kw ieq to_lower
values_of sql value values h =
    ap (λ (r : List Text × List Text). record sql { values = r.0 })
      (ident_list_before value values (bytes ";" ∷ []) h)

-- The tokens of an INSERT with one column or more and one value or more, none of them `)`, parse
-- to that statement, where the table name fits its array.
pub parse-insert_tokens :
    (table column : Text) (columns : List Text) (value : Text) (values : List Text)
    → length table ≤ 63
    → AllNot is_close (column ∷ columns)
    → AllNot is_close (value ∷ values)
    → parse_tokens (insert_tokens table column columns value values)
      ≡ some (record (parsed_new insert_query) {
        table = table;
        columns = column ∷ columns;
        values = value ∷ values;
      })
unfolding parse_tokens parse_insert insert_into insert_tokens match_kw ieq to_lower
parse-insert_tokens table column columns value values size hc hv =
    let tail = bytes "VALUES" ∷ bytes "(" ∷ list_before value values (bytes ")" ∷ bytes ";" ∷ []) in
    let sql : ParsedSql = record (parsed_new insert_query) { table = clip 64 table } in
    ap some (
      ap (λ (r : List Text × List Text). insert_values (record sql { columns = r.0 }) r.1)
        (ident_list_before column columns tail hc)
      ∙ values_of (record sql { columns = column ∷ columns }) value values hv
      ∙ ap
          (λ t. record (parsed_new insert_query) {
            table = t;
            columns = column ∷ columns;
            values = value ∷ values;
          })
          (take_all 63 table size))

unfoldable pub delete_tokens : Text → Filter → List Text
delete_tokens table f = bytes "DELETE" ∷ bytes "FROM" ∷ table ∷ filter_before f (bytes ";" ∷ [])

-- The tokens of a DELETE with a WHERE part or none parse to that statement, where the table name
-- fits its array and the parts of the conditions fit theirs with a zero byte that strncpy writes
-- behind them.
pub parse-delete_tokens :
    (table : Text) (f : Filter)
    → length table ≤ 63
    → IsFilter f
    → parse_tokens (delete_tokens table f)
      ≡ some (with_filter f (record (parsed_new delete_query) { table = table }))
unfolding parse_tokens parse_delete delete_tokens table_name match_kw ieq to_lower connective
parse-delete_tokens table f size h =
    ap (λ (r : ParsedSql × List Text). some r.0)
      (optional_where_before (record (parsed_new delete_query) { table = clip 64 table }) f
        (bytes ";" ∷ []) refl refl h)
    ∙ ap (λ t. some (with_filter f (record (parsed_new delete_query) { table = t })))
        (take_all 63 table size)

-- The pairs of SET before the tokens that follow.
unfoldable pub sets_before : SetClause → List SetClause → List Text → List Text
sets_before s [] ts = s.column ∷ bytes "=" ∷ s.value ∷ ts
sets_before s (u ∷ us) ts = s.column ∷ bytes "=" ∷ s.value ∷ bytes "," ∷ sets_before u us ts

-- What the arrays of a pair hold with a zero behind it that strncpy writes; the column is no WHERE
-- and no `;`.
pub record IsPair (s : SetClause) : Type 0 where
  pub column : length s.column ≤ 62
  pub value : length s.value ≤ 254
  pub name : (ieq s.column (bytes "WHERE") || text_eq s.column (bytes ";")) ≡ false

abbrev pub AllPairs : List SetClause → Type 0
AllPairs [] = Unit
AllPairs (s ∷ us) = IsPair s × AllPairs us

room : (n : ℕ) (t : Text) → length t ≤ n → suc (length t) < suc (suc n)
room n t h = omega arith

comma : ieq (bytes ",") (bytes ",") ≡ true
unfolding ieq to_lower
comma = refl

copy_set_room : (index size : ℕ) (t : Text) → suc (length t) < size → copy_set index size t ≡ t
unfolding copy_set
copy_set_room index size t h =
    if_both (λ r. r ≡ t) (ltb index 4) (clip size t) (copy_unset size t)
      (take_all (size - 1) t (omega arith)) (copy_unset_room size t h)

set_loop_before :
    (count : ℕ) (s : SetClause) (us : List SetClause) (t : Text) (ts : List Text)
    → ieq t (bytes ",") ≡ false
    → AllPairs (s ∷ us)
    → set_loop count (sets_before s us (t ∷ ts)) ≡ (s ∷ us, t ∷ ts)
unfolding set_loop sets_before
set_loop_before count s [] t ts e h =
    rw
      (
        h.0.name,
        e,
        copy_set_room count 64 s.column (room 62 s.column h.0.column),
        copy_set_room count 256 s.value (room 254 s.value h.0.value),
      )
      refl
set_loop_before count s (u ∷ us) t ts e h =
    rw
      (
        h.0.name,
        set_loop_before (suc count) u us t ts e h.1,
        comma,
        copy_set_room count 64 s.column (room 62 s.column h.0.column),
        copy_set_room count 256 s.value (room 254 s.value h.0.value),
      )
      refl

sets_before_filter :
    (s : SetClause) (us : List SetClause) (f : Filter)
    → AllPairs (s ∷ us)
    → set_loop 0 (sets_before s us (filter_before f (bytes ";" ∷ [])))
      ≡ (s ∷ us, filter_before f (bytes ";" ∷ []))
unfolding filter_before ieq to_lower
sets_before_filter s us none h = set_loop_before 0 s us (bytes ";") [] refl h
sets_before_filter s us (some (w, ls)) h = set_loop_before 0 s us (bytes "WHERE") _ refl h

unfoldable pub update_tokens : Text → SetClause → List SetClause → Filter → List Text
update_tokens table s us f =
    bytes "UPDATE" ∷ table ∷ bytes "SET" ∷ sets_before s us (filter_before f (bytes ";" ∷ []))

-- The tokens of an UPDATE with one pair or more and a WHERE part or none parse to that statement,
-- where the parts fit their arrays, those of the pairs and conditions with a zero byte that
-- strncpy writes behind them, and no set column is WHERE or `;`.
pub parse-update_tokens :
    (table : Text) (s : SetClause) (us : List SetClause) (f : Filter)
    → length table ≤ 63
    → AllPairs (s ∷ us)
    → IsFilter f
    → parse_tokens (update_tokens table s us f)
      ≡ some
          (with_filter f (record (parsed_new update_query) { table = table; set_clauses = s ∷ us }))
unfolding parse_tokens parse_update update_tokens table_name match_kw ieq to_lower connective
parse-update_tokens table s us f size hs h =
    let sql : ParsedSql = record (parsed_new update_query) { table = clip 64 table } in
    ap
      (λ (r : List SetClause × List Text).
        some (optional_where (record sql { set_clauses = r.0 }) r.1).0)
      (sets_before_filter s us f hs)
    ∙ ap (λ (r : ParsedSql × List Text). some r.0)
        (optional_where_before (record sql { set_clauses = s ∷ us }) f (bytes ";" ∷ []) refl refl h)
    ∙ ap
        (λ t.
          some
            (with_filter f (record (parsed_new update_query) { table = t; set_clauses = s ∷ us })))
        (take_all 63 table size)
