-- ===== src/Parser/Statements.antt =====
-- src/parser.c: the parsers of the statements and `parse_sql`.
use jungle_w8_minisql_server.Prelude.{
  ltb, ℕ, zero, suc, ◌+◌, ◌-◌, ◌*◌, Bool, true, false, ◌&&◌, ◌||◌, Option, none, some, List, [],
  ◌∷◌, ◌++◌, length, take, drop, Text, bytes, text_eq, leb, ◌==◌, if◌then◌else◌, ℤ, pos, negsuc,
}
use jungle_w8_minisql_server.Parser.Tokens.{ieq, is_space, span, tokenize}
use jungle_w8_minisql_server.Parser.Syntax.{
  create_query, insert_query, select_query, delete_query, update_query, unknown_query, SetClause,
  ParsedSql, parsed_new, clip, copy_unset, match_kw, skip_kw, parse_ident_list, optional_where,
}

-- The loop of `parse_create`. What `snprintf` writes into `buf` is cut at 159 bytes.
unfoldable pub col_def_loop : List Text → List Text
col_def_loop [] = []
col_def_loop (name ∷ []) = []
col_def_loop (name ∷ type ∷ []) =
    if text_eq name (bytes ")") then [] else clip 160 (name ++ (32 ∷ type)) ∷ []
col_def_loop (name ∷ type ∷ c ∷ ts) =
    let rest = col_def_loop ts in
    if text_eq name (bytes ")")
    then []
    else if ieq c (bytes ",")
    then clip 160 (name ++ (32 ∷ type)) ∷ rest
    else clip 160 (name ++ (32 ∷ type)) ∷ []

unfoldable pub create_table : ParsedSql → List Text → ParsedSql
create_table sql [] = sql
create_table sql (name ∷ ts) =
    let named : ParsedSql = record sql { table = clip 64 name } in
    elim (match_kw (bytes "(") ts) [
      | none ↦ named
      | some ts' ↦ record named { col_defs = col_def_loop ts' }
    ]

unfoldable pub parse_create : List Text → ParsedSql
parse_create ts =
    let sql = parsed_new create_query in
    elim (match_kw (bytes "TABLE") ts) [ none ↦ sql | some ts' ↦ create_table sql ts' ]

-- `parse_insert` after the column list.
unfoldable pub insert_values : ParsedSql → List Text → ParsedSql
insert_values sql ts = elim (match_kw (bytes "VALUES") ts) [
  | none ↦ sql
  | some ts' ↦ elim (match_kw (bytes "(") ts') [
    | none ↦ sql
    | some ts'' ↦ record sql { values = (parse_ident_list ts'').0 }
  ]
]

unfoldable pub insert_into : ParsedSql → List Text → ParsedSql
insert_into sql [] = sql
insert_into sql (name ∷ ts) =
    let named : ParsedSql = record sql { table = clip 64 name } in
    elim (match_kw (bytes "(") ts) [
      | none ↦ named
      | some ts' ↦
          let r = parse_ident_list ts' in insert_values (record named { columns = r.0 }) r.1
    ]

unfoldable pub parse_insert : List Text → ParsedSql
parse_insert ts =
    let sql = parsed_new insert_query in
    elim (match_kw (bytes "INTO") ts) [ none ↦ sql | some ts' ↦ insert_into sql ts' ]

-- A piece is appended to `colbuf` as far as its 159 bytes go.
unfoldable pub append_clip : Text → Text → Text
append_clip buf t = take 159 (buf ++ t)

-- The inner loop of `parse_select`, over the tokens of a call such as COUNT(*), to its `)`.
unfoldable pub call_loop : Text → List Text → Text × List Text
call_loop buf [] = (buf, [])
call_loop buf (t ∷ ts) =
    let rest = call_loop (append_clip buf t) ts in
    if text_eq t (bytes ")")
    then (append_clip buf (bytes ")"), ts)
    else if text_eq t (bytes ";")
    then (buf, t ∷ ts)
    else rest

-- One column, after its first token.
unfoldable pub read_column : Text → List Text → Text × List Text
read_column first [] = (append_clip [] first, [])
read_column first (t ∷ ts) =
    let buf = append_clip [] first in
    let call = call_loop (append_clip buf (bytes "(")) ts in
    if text_eq t (bytes "(") then call else (buf, t ∷ ts)

unfoldable pub is_select_stop_token : Text → Bool
is_select_stop_token tok =
    ieq tok (bytes "FROM")
    || ieq tok (bytes "WHERE")
    || ieq tok (bytes "ORDER")
    || ieq tok (bytes "LIMIT")
    || text_eq tok (bytes ")")
    || text_eq tok (bytes ";")

-- The outer loop of `parse_select`, on fuel.
unfoldable pub column_loop : ℕ → List Text → List Text × List Text
column_loop zero ts = ([], ts)
column_loop (suc fuel) [] = ([], [])
column_loop (suc fuel) (t ∷ ts) =
    let r = read_column t ts in
    if is_select_stop_token t then ([], t ∷ ts) else elim (match_kw (bytes ",") r.1) [
      | none ↦ (r.0 ∷ [], r.1)
      | some ts' ↦ let rest = column_loop fuel ts' in (r.0 ∷ rest.0, rest.1)
    ]

-- The value of the digits that a text starts with, after the value so far.
unfoldable pub digits : ℕ → Text → ℕ
digits n [] = n
digits n (c ∷ cs) =
    let rest = digits (10 * n + (c - 48)) cs in if leb 48 c && leb c 57 then rest else n

unfoldable pub negate : ℕ → ℤ
negate zero = pos 0
negate (suc n) = negsuc n

-- `atoi`, for numbers that an `int` holds.
unfoldable pub signed : Text → ℤ
signed [] = pos 0
signed (c ∷ cs) =
    if c == 45
    then negate (digits 0 cs)
    else if c == 43
    then pos (digits 0 cs)
    else pos (digits 0 (c ∷ cs))

unfoldable pub atoi : Text → ℤ
atoi t = signed (span is_space t).1

-- The token that ORDER BY or LIMIT names: missing at the end of the input.
unfoldable pub order_column : List Text → Text
order_column [] = []
order_column (t ∷ ts) = clip 64 t

unfoldable pub parse_order : ParsedSql → List Text → ParsedSql × List Text
parse_order sql ts =
    let named = drop 1 (skip_kw (bytes "BY") ts) in
    let column = order_column (skip_kw (bytes "BY") ts) in
    elim (match_kw (bytes "DESC") named) [
      | none ↦ (
        record sql { order_by = some (record { column = column; asc = true }) },
        skip_kw (bytes "ASC") named,
      )
      | some ts' ↦ (record sql { order_by = some (record { column = column; asc = false }) }, ts')
    ]

unfoldable pub optional_order : ParsedSql → List Text → ParsedSql × List Text
optional_order sql ts = elim (match_kw (bytes "ORDER") ts) [
  | none ↦ (sql, ts)
  | some ts' ↦ parse_order sql ts'
]

unfoldable pub parse_limit : ParsedSql → List Text → ParsedSql
parse_limit sql [] = sql
parse_limit sql (n ∷ ts) = record sql { limit = atoi n }

unfoldable pub optional_limit : ParsedSql → List Text → ParsedSql
optional_limit sql ts = elim (match_kw (bytes "LIMIT") ts) [
  | none ↦ sql
  | some ts' ↦ parse_limit sql ts'
]

-- The table name that SELECT, DELETE and UPDATE take if it is there.
unfoldable pub table_name : List Text → Text
table_name [] = []
table_name (name ∷ ts) = clip 64 name

-- `parse_select` after the table name.
unfoldable pub select_rest : ParsedSql → List Text → ParsedSql
select_rest sql ts =
    let filtered = optional_where sql ts in
    let ordered = optional_order filtered.0 filtered.1 in optional_limit ordered.0 ordered.1

-- `parse_select` after the column list.
unfoldable pub select_from : List Text × List Text → ParsedSql
select_from (columns, ts) =
    let sql : ParsedSql = record (parsed_new select_query) { columns = columns } in
    elim (match_kw (bytes "FROM") ts) [
      | none ↦ sql
      | some ts' ↦ select_rest (record sql { table = table_name ts' }) (drop 1 ts')
    ]

unfoldable pub parse_select : List Text → ParsedSql
parse_select ts = select_from (column_loop (length ts) ts)

unfoldable pub parse_delete : List Text → ParsedSql
parse_delete ts =
    let sql = parsed_new delete_query in
    elim (match_kw (bytes "FROM") ts) [
      | none ↦ sql
      | some ts' ↦ (optional_where (record sql { table = table_name ts' }) (drop 1 ts')).0
    ]

-- The copy into an array of the pair with this index: the first four pairs are zeroed memory, the
-- later ones are not.
unfoldable pub copy_set : ℕ → ℕ → Text → Text
copy_set index size t = if ltb index 4 then clip size t else copy_unset size t

-- The loop of `parse_update` from this `set_count` on, and the tokens left.
unfoldable pub set_loop : ℕ → List Text → List SetClause × List Text
set_loop count [] = ([], [])
set_loop count (col ∷ []) =
    if ieq col (bytes "WHERE") || text_eq col (bytes ";") then ([], col ∷ []) else ([], [])
set_loop count (col ∷ eq ∷ []) =
    if ieq col (bytes "WHERE") || text_eq col (bytes ";") then ([], col ∷ eq ∷ []) else ([], [])
set_loop count (col ∷ eq ∷ val ∷ []) =
    if ieq col (bytes "WHERE") || text_eq col (bytes ";")
    then ([], col ∷ eq ∷ val ∷ [])
    else (record { column = copy_set count 64 col; value = copy_set count 256 val } ∷ [], [])
set_loop count (col ∷ eq ∷ val ∷ c ∷ ts) =
    let rest = set_loop (suc count) ts in
    let s : SetClause = record { column = copy_set count 64 col; value = copy_set count 256 val } in
    if ieq col (bytes "WHERE") || text_eq col (bytes ";")
    then ([], col ∷ eq ∷ val ∷ c ∷ ts)
    else if ieq c (bytes ",")
    then (s ∷ rest.0, rest.1)
    else (s ∷ [], c ∷ ts)

unfoldable pub parse_update : List Text → ParsedSql
parse_update ts =
    let sql : ParsedSql = record (parsed_new update_query) { table = table_name ts } in
    elim (match_kw (bytes "SET") (drop 1 ts)) [
      | none ↦ sql
      | some ts' ↦
          let r = set_loop 0 ts' in (optional_where (record sql { set_clauses = r.0 }) r.1).0
    ]

-- `parse_sql` on the tokens; NULL is `none`.
unfoldable pub parse_tokens : List Text → Option ParsedSql
parse_tokens [] = none
parse_tokens (kw ∷ ts) = some (
    if ieq kw (bytes "CREATE")
    then parse_create ts
    else if ieq kw (bytes "INSERT")
    then parse_insert ts
    else if ieq kw (bytes "SELECT")
    then parse_select ts
    else if ieq kw (bytes "DELETE")
    then parse_delete ts
    else if ieq kw (bytes "UPDATE")
    then parse_update ts
    else parsed_new unknown_query)

unfoldable pub parse_sql : Option Text → Option ParsedSql
parse_sql none = none
parse_sql (some input) = parse_tokens (tokenize input)
