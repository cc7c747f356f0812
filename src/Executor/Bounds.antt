-- ===== src/Executor/Bounds.antt =====
-- src/executor.c: which statements use the index of ids, and the ids that they look for.
use jungle_w8_minisql_server.Prelude.{
  Bool, false, ◌&&◌, Option, none, some, List, [], ◌∷◌, Text, bytes, text_eq, if◌then◌else◌, ℤ, pos,
  negsuc, ltz, lez,
}
use jungle_w8_minisql_server.Parser.Tokens.{ieq, is_space, span}
use jungle_w8_minisql_server.Parser.Syntax.{ParsedSql, WhereClause}
use jungle_w8_minisql_server.Storage.Values.{parse_long_value}
use jungle_w8_minisql_server.Storage.Where.{strip_optional_quotes, is_empty_text}

-- The only condition, if there is one.
unfoldable pub only_condition : List WhereClause → Option WhereClause
only_condition [] = none
only_condition (w ∷ []) = some w
only_condition (w ∷ v ∷ ws) = none

-- `executor_should_use_id_range`
unfoldable pub should_use_id_range : ParsedSql → Bool
should_use_id_range sql = elim (only_condition sql.conditions) [
  | none ↦ false
  | some w ↦ ieq w.column (bytes "id") && ieq w.op (bytes "BETWEEN")
]

-- `executor_should_use_id_index`
unfoldable pub should_use_id_index : ParsedSql → Bool
should_use_id_index sql = elim (only_condition sql.conditions) [
  | none ↦ false
  | some w ↦ ieq w.column (bytes "id") && text_eq w.op (bytes "=")
]

-- The second loop of `executor_trim_whitespace`.
unfoldable pub trim_end : Text → Text
trim_end [] = []
trim_end (c ∷ text) =
    let rest = trim_end text in if is_space c && is_empty_text rest then [] else c ∷ rest

-- `executor_trim_whitespace`
unfoldable pub trim_whitespace : Text → Text
trim_whitespace text = trim_end (span is_space text).1

abbrev pub int_min : ℤ
int_min = negsuc 2147483647

abbrev pub int_max : ℤ
int_max = pos 2147483647

unfoldable pub in_int : ℤ → Bool
in_int n = lez int_min n && lez n int_max

abbrev pub checked_int : Option ℤ → Option ℤ
checked_int none = none
checked_int (some n) = if in_int n then some n else none

-- `executor_parse_int_literal`; its quotes are stripped as those of src/storage.c are. No spaces
-- are left behind the digits of a trimmed text.
unfoldable pub parse_int_literal : Text → Option ℤ
parse_int_literal input =
    checked_int (parse_long_value (trim_whitespace (strip_optional_quotes 256 input)))

-- `executor_parse_lookup_id`
unfoldable pub parse_lookup_id : WhereClause → Option ℤ
parse_lookup_id w = parse_int_literal w.value

-- The bounds in order.
abbrev pub in_order : Option ℤ → Option ℤ → Option (ℤ × ℤ)
in_order none to = none
in_order (some from) none = none
in_order (some from) (some to) = some (if ltz to from then (to, from) else (from, to))

-- `executor_parse_between_bounds`
unfoldable pub parse_between_bounds : WhereClause → Option (ℤ × ℤ)
parse_between_bounds w = in_order (parse_int_literal w.value) (parse_int_literal w.value_to)
