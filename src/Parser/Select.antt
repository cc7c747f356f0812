-- ===== src/Parser/Select.antt =====
-- src/parser.c: SELECT statements written as tokens are read back.
use jungle_w8_minisql_server.Prelude.{
  lez, pos, negsuc, true, ◌≤◌, ◌≡◌, refl, ap, ◌∙◌, Bool, true, false, Option, none, some, List, [],
  ◌∷◌, length, drop, take_all, Text, bytes,
}
use jungle_w8_minisql_server.Parser.Tokens.{ieq, to_lower}
use jungle_w8_minisql_server.Parser.Syntax.{
  select_query, OrderBy, ParsedSql, parsed_new, match_kw, skip_kw, connective,
}
use jungle_w8_minisql_server.Parser.Statements.{
  column_loop, atoi, order_column, parse_order, optional_order, parse_limit, optional_limit,
  table_name, select_rest, parse_select, select_from, parse_tokens,
}
use jungle_w8_minisql_server.Parser.Lists.{
  list_before, list_before_longer, AllColumns, column_loop_before, Filter, IsFilter, filter_before,
  with_filter, optional_where_before,
}

-- A SELECT whose columns are single tokens; the limit is a token too.
pub record Select : Type 0 where
  pub first : Text
  pub others : List Text
  pub table : Text
  pub filter : Filter
  pub order : Option OrderBy
  pub limit : Option Text

unfoldable pub limit_tokens : Option Text → List Text
limit_tokens none = bytes ";" ∷ []
limit_tokens (some n) = bytes "LIMIT" ∷ n ∷ bytes ";" ∷ []

unfoldable pub direction : Bool → Text
direction true = bytes "ASC"
direction false = bytes "DESC"

unfoldable pub order_before : Option OrderBy → List Text → List Text
order_before none ts = ts
order_before (some o) ts = bytes "ORDER" ∷ bytes "BY" ∷ o.column ∷ direction o.asc ∷ ts

unfoldable pub select_tokens : Select → List Text
select_tokens s =
    bytes "SELECT"
    ∷ list_before s.first s.others (
        bytes "FROM"
        ∷ s.table
        ∷ filter_before s.filter (order_before s.order (limit_tokens s.limit)))

abbrev IsOrder : Option OrderBy → Type 0
IsOrder none = Unit
IsOrder (some o) = length o.column ≤ 63

-- Whether the limit is a number that an `int` holds.
abbrev IsLimit : Option Text → Type 0
IsLimit none = Unit
IsLimit (some n) =
    (lez (negsuc 2147483647) (atoi n) ≡ true) × (lez (atoi n) (pos 2147483647) ≡ true)

-- What the arrays of the statement and the limit hold.
pub record IsSelect (s : Select) : Type 0 where
  pub columns : AllColumns (s.first ∷ s.others)
  pub table : length s.table ≤ 63
  pub filter : IsFilter s.filter
  pub order : IsOrder s.order
  pub limit : IsLimit s.limit

unfoldable pub with_order : Option OrderBy → ParsedSql → ParsedSql
with_order none sql = sql
with_order (some o) sql = record sql { order_by = some o }

unfoldable pub with_limit : Option Text → ParsedSql → ParsedSql
with_limit none sql = sql
with_limit (some n) sql = record sql { limit = atoi n }

-- The statement that the tokens stand for.
unfoldable pub select_statement : Select → ParsedSql
select_statement s = with_limit s.limit (
    with_order s.order (
      with_filter s.filter
        (record (parsed_new select_query) { columns = s.first ∷ s.others; table = s.table })))

after_filter :
    (o : Option OrderBy) (n : Option Text)
    → (match_kw (bytes "WHERE") (order_before o (limit_tokens n)) ≡ none)
      × (connective (order_before o (limit_tokens n)) ≡ none)
unfolding match_kw connective ieq to_lower order_before limit_tokens
after_filter none none = (refl, refl)
after_filter none (some n) = (refl, refl)
after_filter (some o) n = (refl, refl)

optional_order_before :
    (sql : ParsedSql) (o : Option OrderBy) (n : Option Text)
    → IsOrder o
    → optional_order sql (order_before o (limit_tokens n)) ≡ (with_order o sql, limit_tokens n)
unfolding optional_order parse_order order_column order_before with_order direction match_kw skip_kw
    ieq to_lower limit_tokens
optional_order_before sql none none h = refl
optional_order_before sql none (some n) h = refl
optional_order_before sql (some o) n h = go o.asc
  where
    go :
        (a : Bool)
        → optional_order sql
            (order_before (some (record { column = o.column; asc = a })) (limit_tokens n))
          ≡ (with_order (some (record { column = o.column; asc = a })) sql, limit_tokens n)
    go true = rw (take_all 63 o.column h) refl
    go false = rw (take_all 63 o.column h) refl

optional_limit_before :
    (sql : ParsedSql) (n : Option Text) → optional_limit sql (limit_tokens n) ≡ with_limit n sql
unfolding optional_limit parse_limit with_limit limit_tokens match_kw ieq to_lower
optional_limit_before sql none = refl
optional_limit_before sql (some n) = refl

select_rest_before :
    (sql : ParsedSql) (s : Select)
    → IsSelect s
    → select_rest sql (filter_before s.filter (order_before s.order (limit_tokens s.limit)))
      ≡ with_limit s.limit (with_order s.order (with_filter s.filter sql))
unfolding select_rest
select_rest_before sql s h =
    let (a, b) = after_filter s.order s.limit in
    rw
      (
        optional_where_before sql s.filter (order_before s.order (limit_tokens s.limit)) a b
            h.filter,
        optional_order_before (with_filter s.filter sql) s.order s.limit h.order,
      )
      (optional_limit_before (with_order s.order (with_filter s.filter sql)) s.limit)

after_columns :
    (ts columns tail : List Text)
    → column_loop (length ts) ts ≡ (columns, bytes "FROM" ∷ tail)
    → parse_select ts
      ≡ select_rest
          (record (parsed_new select_query) { columns = columns; table = table_name tail })
          (drop 1 tail)
unfolding parse_select select_from match_kw ieq to_lower
after_columns ts columns tail e = ap select_from e

pub parse-select_tokens :
    (s : Select) → IsSelect s → parse_tokens (select_tokens s) ≡ some (select_statement s)
unfolding parse_tokens select_tokens select_statement table_name ieq to_lower
parse-select_tokens s h =
    let tail = s.table ∷ filter_before s.filter (order_before s.order (limit_tokens s.limit)) in
    let list = list_before s.first s.others (bytes "FROM" ∷ tail) in
    let columns =
      column_loop_before (length list) s.first s.others tail
        (list_before_longer s.first s.others (bytes "FROM" ∷ tail)) h.columns in
    ap some (
      after_columns list (s.first ∷ s.others) tail columns
      ∙ rw (take_all 63 s.table h.table) (
          select_rest_before
            (record (parsed_new select_query) { columns = s.first ∷ s.others; table = s.table }) s
            h))
