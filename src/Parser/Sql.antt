-- ===== src/Parser/Sql.antt =====
-- src/parser.c: `parse_sql` on the text of a statement.
use jungle_w8_minisql_server.Prelude.{◌≡◌, ap, ◌∙◌, some, List, map}
use jungle_w8_minisql_server.Parser.Statements.{parse_tokens, parse_sql}
use jungle_w8_minisql_server.Parser.Written.{
  Written, AllWritten, token_of, text_of, tokenize-text_of,
}
use jungle_w8_minisql_server.Parser.Select.{
  Select, IsSelect, select_tokens, select_statement, parse-select_tokens,
}

pub parse_sql-text_of :
    (ws : List Written)
    → AllWritten ws
    → parse_sql (some (text_of ws)) ≡ parse_tokens (map token_of ws)
unfolding parse_sql
parse_sql-text_of ws h = ap parse_tokens (tokenize-text_of ws h)

-- A text that writes the tokens of a SELECT, each in a form that a token has, parses to that
-- statement, with its columns, table, conditions, order and limit, where the columns are single
-- tokens, every part fits its array, in a condition with a zero byte that strncpy writes behind
-- it, and the limit is a number that an `int` holds.
pub parse_sql-select_tokens :
    (ws : List Written) (s : Select)
    → AllWritten ws
    → map token_of ws ≡ select_tokens s
    → IsSelect s
    → parse_sql (some (text_of ws)) ≡ some (select_statement s)
parse_sql-select_tokens ws s h e ok =
    parse_sql-text_of ws h ∙ ap parse_tokens e ∙ parse-select_tokens s ok
