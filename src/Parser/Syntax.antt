-- ===== src/Parser/Syntax.antt =====
-- src/parser.c and include/types.h: the statement record, the token cursor and the lists that the
-- statements share. The cursor is the list of the tokens from `pos` on.
use jungle_w8_minisql_server.Prelude.{
  ℕ, zero, suc, ◌-◌, Bool, true, false, not, ◌&&◌, ◌||◌, Option, none, some, List, [], ◌∷◌, ◌++◌,
  length, take, drop, Text, bytes, text_eq, ltb, ◌==◌, if◌then◌else◌, ℤ, negsuc,
}
use jungle_w8_minisql_server.Parser.Tokens.{ieq}

pub data QueryType : Type 0 where
  create_query : QueryType
  insert_query : QueryType
  select_query : QueryType
  delete_query : QueryType
  update_query : QueryType
  unknown_query : QueryType

pub record WhereClause : Type 0 where
  pub column : Text
  pub op : Text
  pub value : Text
  pub value_to : Text

pub record OrderBy : Type 0 where
  pub column : Text
  pub asc : Bool

pub record SetClause : Type 0 where
  pub column : Text
  pub value : Text

-- `ParsedSQL`; an array and its count are one list.
pub record ParsedSql : Type 0 where
  pub query : QueryType
  pub table : Text
  pub columns : List Text
  pub values : List Text
  pub conditions : List WhereClause
  pub where_logic : Text
  pub where_links : List Text
  pub order_by : Option OrderBy
  pub limit : ℤ
  pub set_clauses : List SetClause
  pub col_defs : List Text

-- `parsed_new`, with the type that the statement's parser sets first.
abbrev pub parsed_new : QueryType → ParsedSql
parsed_new q = record {
  query = q;
  table = [];
  columns = [];
  values = [];
  conditions = [];
  where_logic = [];
  where_links = [];
  order_by = none;
  limit = negsuc 0;
  set_clauses = [];
  col_defs = [];
}

-- `strncpy(to, from, sizeof(to) - 1)` into an array of 64, 8 or 256 bytes that holds zeros.
abbrev pub clip : ℕ → Text → Text
clip size t = take (size - 1) t

-- The same into memory that nothing has set: with no room for strncpy's zero the text runs on into
-- what the memory holds, for which 256, which is no byte, stands.
unfoldable pub copy_unset : ℕ → Text → Text
copy_unset size t = if ltb (length t) (size - 1) then t else (take (size - 1) t ++ (256 ∷ []))

-- `match`: what follows the keyword, if it is the next token.
unfoldable pub match_kw : Text → List Text → Option (List Text)
match_kw kw [] = none
match_kw kw (t ∷ ts) = if ieq t kw then some ts else none

-- `match` or `expect` with the result ignored.
unfoldable pub skip_kw : Text → List Text → List Text
skip_kw kw ts = elim (match_kw kw ts) [ none ↦ ts | some ts' ↦ ts' ]

-- The loop of `parse_ident_list`.
unfoldable pub ident_loop : List Text → List Text × List Text
ident_loop [] = ([], [])
ident_loop (t ∷ []) = if text_eq t (bytes ")") then ([], t ∷ []) else (t ∷ [], [])
ident_loop (t ∷ c ∷ ts) =
    let rest = ident_loop ts in
    if text_eq t (bytes ")")
    then ([], t ∷ c ∷ ts)
    else if ieq c (bytes ",")
    then (t ∷ rest.0, rest.1)
    else (t ∷ [], c ∷ ts)

unfoldable pub parse_ident_list : List Text → List Text × List Text
parse_ident_list ts = let r = ident_loop ts in (r.0, skip_kw (bytes ")") r.1)

-- The part of a round of `parse_where` for BETWEEN; the flag says that the loop does not `break`.
unfoldable pub read_between : WhereClause → List Text → Option (WhereClause × Bool) × List Text
read_between w [] = (some (w, false), [])
read_between w (a ∷ []) = (some (w, false), [])
read_between w (a ∷ high ∷ ts) =
    if ieq a (bytes "AND")
    then (some (record w { op = bytes "BETWEEN"; value_to = copy_unset 256 high }, true), ts)
    else (some (w, false), ts)

-- The part of a round of `parse_where` up to the connective.
unfoldable pub read_condition : List Text → Option (WhereClause × Bool) × List Text
read_condition [] = (none, [])
read_condition (a ∷ []) = (none, [])
read_condition (a ∷ b ∷ []) = (none, [])
read_condition (col ∷ op ∷ val ∷ ts) =
    let w : WhereClause = record {
      column = copy_unset 64 col;
      op = copy_unset 8 op;
      value = copy_unset 256 val;
      value_to = [];
    } in
    if ieq op (bytes "BETWEEN") then read_between w ts else (some (w, true), ts)

-- The AND or OR that a next round needs.
unfoldable pub connective : List Text → Option Text
connective [] = none
connective (t ∷ ts) =
    if ieq t (bytes "AND") || ieq t (bytes "OR")
    then some (if ieq t (bytes "OR") then bytes "OR" else bytes "AND")
    else none

-- The conditions and the links that the loop reads, and the tokens left.
pub record Conditions : Type 0 where
  pub clauses : List WhereClause
  pub links : List Text
  pub left : List Text

-- What a round of `parse_where` makes of its condition, with the rounds that may follow.
unfoldable pub combine : Option (WhereClause × Bool) → List Text → Conditions → Conditions
combine none ts rest = record { clauses = []; links = []; left = ts }
combine (some (w, false)) ts rest = record { clauses = w ∷ []; links = []; left = ts }
combine (some (w, true)) ts rest = elim (connective ts) [
  | none ↦ record { clauses = w ∷ []; links = []; left = ts }
  | some l ↦ record { clauses = w ∷ rest.clauses; links = l ∷ rest.links; left = rest.left }
]

-- The loop of `parse_where`, on fuel.
unfoldable pub where_loop : ℕ → List Text → Conditions
where_loop zero ts = record { clauses = []; links = []; left = ts }
where_loop (suc fuel) ts =
    let r = read_condition ts in let rest = where_loop fuel (drop 1 r.1) in combine r.0 r.1 rest

-- A last link that no condition follows is taken back.
unfoldable pub trim_links : ℕ → List Text → List Text
trim_links where_count links =
    if ltb 0 (length links) && not (length links == where_count - 1)
    then take (length links - 1) links
    else links

unfoldable pub all_ieq : Text → List Text → Bool
all_ieq l [] = true
all_ieq l (m ∷ ms) = ieq l m && all_ieq l ms

-- `where_logic`, for links that are all the same.
unfoldable pub common_logic : List Text → Text
common_logic [] = []
common_logic (l ∷ ls) = if all_ieq l ls then clip 8 l else []

-- `parse_where`: the statement with its conditions, and the tokens left.
unfoldable pub parse_where : ParsedSql → List Text → ParsedSql × List Text
parse_where sql ts =
    let r = where_loop (length ts) ts in
    let links = trim_links (length r.clauses) r.links in
    (
      record sql { conditions = r.clauses; where_links = links; where_logic = common_logic links },
      r.left,
    )

-- WHERE if it is there.
unfoldable pub optional_where : ParsedSql → List Text → ParsedSql × List Text
optional_where sql ts = elim (match_kw (bytes "WHERE") ts) [
  | none ↦ (sql, ts)
  | some ts' ↦ parse_where sql ts'
]
