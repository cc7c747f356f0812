-- ===== src/Parser/Tests.antt =====
-- src/parser.c: concrete statements.
use jungle_w8_minisql_server.Prelude.{
  pos_part, neg_part, ℕ, ◌-◌, ◌≡◌, refl, inl, Bool, true, false, not, ◌&&◌, ◌||◌, some, List, [],
  ◌∷◌, map, length, Text, bytes, text_eq, arith, ◌==◌, pos,
}
use jungle_w8_minisql_server.Parser.Tokens.{
  is_space, is_alnum, is_word, is_quote, is_punct, is_comparison, span, starts, token_round, push,
  tokenize, tokenize_from, ieq, to_lower,
}
use jungle_w8_minisql_server.Parser.Syntax.{
  create_query, insert_query, delete_query, update_query, SetClause, parsed_new, parse_where,
  where_loop,
}
use jungle_w8_minisql_server.Parser.Statements.{
  is_select_stop_token, parse_sql, parse_tokens, atoi, signed, digits,
}
use jungle_w8_minisql_server.Parser.Lexing.{Rounds, tokenize-Rounds}
use jungle_w8_minisql_server.Parser.Written.{
  Written, quoted, word, symbol, pair, All, IsWritten, AllWritten, token_of, text_of,
  tokenize-text_of,
}
use jungle_w8_minisql_server.Parser.Where.{where_links_count, where_loop-enough}
use jungle_w8_minisql_server.Parser.Conditions.{condition_before, where_before}
use jungle_w8_minisql_server.Parser.Lists.{
  list_before, Filter, filter_before, with_filter, IsFilter,
}
use jungle_w8_minisql_server.Parser.Select.{
  Select, IsSelect, select_tokens, select_statement, limit_tokens, direction, order_before,
}
use jungle_w8_minisql_server.Parser.Changes.{
  insert_tokens, parse-insert_tokens, delete_tokens, parse-delete_tokens, IsPair, update_tokens,
  parse-update_tokens,
}
use jungle_w8_minisql_server.Parser.Creation.{create_tokens, parse-create_tokens}
use jungle_w8_minisql_server.Parser.Sql.{parse_sql-select_tokens}

all : (ℕ → Bool) → Text → Bool
all test [] = true
all test (c ∷ t) = test c && all test t

all-All : (test : ℕ → Bool) (t : Text) → all test t ≡ true → All test t
unfolding all
all-All test [] h = tt
all-All test (c ∷ t) h = (ground arith, all-All test t (ground arith))

can_write : Written → Bool
can_write (quoted q t) = is_quote q && all (λ d. not (d == q)) t
can_write (word c t) = is_word c && (all is_word t && not (c == 45 && starts 45 t))
can_write (symbol c) = is_punct c || c == 61 || is_comparison c
can_write (pair c) = is_comparison c

can_write-IsWritten : (w : Written) → can_write w ≡ true → IsWritten w
unfolding can_write
can_write-IsWritten (quoted q t) h = (ground arith, all-All (λ d. not (d == q)) t (ground arith))
can_write-IsWritten (word c t) h = (ground arith, all-All is_word t (ground arith), ground arith)
can_write-IsWritten (symbol c) h = h
can_write-IsWritten (pair c) h = h

can_write_all : List Written → Bool
can_write_all [] = true
can_write_all (w ∷ ws) = can_write w && can_write_all ws

can_write-AllWritten : (ws : List Written) → can_write_all ws ≡ true → AllWritten ws
unfolding can_write_all
can_write-AllWritten [] h = tt
can_write-AllWritten (w ∷ ws) h =
    (can_write-IsWritten w (ground arith), can_write-AllWritten ws (ground arith))

abbrev word_of : Text → Written
word_of [] = quoted 39 []
word_of (c ∷ t) = word c t

abbrev adults : Filter
adults = some (
  record { column = bytes "age"; op = bytes ">="; value = bytes "20"; value_to = [] },
  (
    bytes "AND",
    record { column = bytes "name"; op = bytes "="; value = bytes "kim lee"; value_to = [] },
  )
      ∷ [],
)

adults-IsFilter : IsFilter adults
unfolding ieq to_lower
adults-IsFilter = (
  record {
    column = omega arith;
    value = omega arith;
    value_to = omega arith;
    range = inl (refl, omega arith, refl);
  },
  (
    inl refl,
    record {
      column = omega arith;
      value = omega arith;
      value_to = omega arith;
      range = inl (refl, omega arith, refl);
    },
    tt,
  ),
)

abbrev query : Select
query = record {
  first = bytes "id";
  others = bytes "name" ∷ [];
  table = bytes "users";
  filter = adults;
  order = some (record { column = bytes "id"; asc = false });
  limit = some (bytes "10");
}

query-IsSelect : IsSelect query
unfolding is_select_stop_token ieq to_lower text_eq atoi span is_space signed digits pos_part
    neg_part
query-IsSelect = record {
  columns = ((refl, omega arith), ((refl, omega arith), tt));
  table = omega arith;
  filter = adults-IsFilter;
  order = omega arith;
  limit = (refl, refl);
}

abbrev query_text : List Written
query_text =
    word_of (bytes "SELECT")
    ∷ word_of (bytes "id")
    ∷ symbol 44
    ∷ word_of (bytes "name")
    ∷ word_of (bytes "FROM")
    ∷ word_of (bytes "users")
    ∷ word_of (bytes "WHERE")
    ∷ word_of (bytes "age")
    ∷ pair 62
    ∷ word_of (bytes "20")
    ∷ word_of (bytes "AND")
    ∷ word_of (bytes "name")
    ∷ symbol 61
    ∷ quoted 39 (bytes "kim lee")
    ∷ word_of (bytes "ORDER")
    ∷ word_of (bytes "BY")
    ∷ word_of (bytes "id")
    ∷ word_of (bytes "DESC")
    ∷ word_of (bytes "LIMIT")
    ∷ word_of (bytes "10")
    ∷ symbol 59
    ∷ []

query_text-AllWritten : AllWritten query_text
unfolding can_write_all can_write all is_word is_alnum is_quote is_punct is_comparison starts
query_text-AllWritten = can_write-AllWritten query_text refl

query_text-select_tokens : map token_of query_text ≡ select_tokens query
unfolding token_of select_tokens list_before filter_before where_before condition_before
    order_before direction limit_tokens ieq to_lower
query_text-select_tokens = refl

limit_of_query : atoi (bytes "10") ≡ pos 10
unfolding atoi span is_space signed digits
limit_of_query = refl

parse_sql-select_tokens_example :
    parse_sql (some (text_of query_text)) ≡ some (select_statement query)
parse_sql-select_tokens_example =
    parse_sql-select_tokens query_text query query_text-AllWritten query_text-select_tokens
      query-IsSelect

tokenize-text_of_example : tokenize (text_of query_text) ≡ map token_of query_text
tokenize-text_of_example = tokenize-text_of query_text query_text-AllWritten

tokenize-Rounds_example : Rounds (bytes "a <= 'b c' -- d") (tokenize (bytes "a <= 'b c' -- d"))
tokenize-Rounds_example = tokenize-Rounds (bytes "a <= 'b c' -- d")

comment_test : tokenize (bytes "a<='b c' --d") ≡ bytes "a" ∷ bytes "<=" ∷ bytes "b c" ∷ []
unfolding tokenize tokenize_from token_round is_space is_quote is_punct is_comparison is_word
    is_alnum starts span push
comment_test = refl

-- The last AND has no condition.
abbrev open_where : List Text
open_where =
    bytes "a"
    ∷ bytes "="
    ∷ bytes "1"
    ∷ bytes "AND"
    ∷ bytes "b"
    ∷ bytes "="
    ∷ bytes "2"
    ∷ bytes "OR"
    ∷ []

where_links_count_example :
    length (parse_where (parsed_new delete_query) open_where).0.where_links
    ≡ length (parse_where (parsed_new delete_query) open_where).0.conditions - 1
where_links_count_example = where_links_count (parsed_new delete_query) open_where

where_loop-enough_example : where_loop 20 open_where ≡ where_loop (length open_where) open_where
where_loop-enough_example = where_loop-enough 20 open_where (omega arith)

parse-insert_tokens_example :
    parse_tokens (insert_tokens (bytes "t") (bytes "id") [] (bytes "1") [])
    ≡ some (record (parsed_new insert_query) {
      table = bytes "t";
      columns = bytes "id" ∷ [];
      values = bytes "1" ∷ [];
    })
unfolding text_eq
parse-insert_tokens_example =
    parse-insert_tokens (bytes "t") (bytes "id") [] (bytes "1") [] (omega arith) (refl, tt)
      (refl, tt)

abbrev new_age : SetClause
new_age = record { column = bytes "age"; value = bytes "21" }

new_age-IsPair : IsPair new_age
unfolding ieq to_lower text_eq
new_age-IsPair = record { column = omega arith; value = omega arith; name = refl }

parse-delete_tokens_example :
    parse_tokens (delete_tokens (bytes "t") adults)
    ≡ some (with_filter adults (record (parsed_new delete_query) { table = bytes "t" }))
parse-delete_tokens_example = parse-delete_tokens (bytes "t") adults (omega arith) adults-IsFilter

parse-update_tokens_example :
    parse_tokens (update_tokens (bytes "t") new_age [] adults)
    ≡ some (
        with_filter adults
          (record (parsed_new update_query) { table = bytes "t"; set_clauses = new_age ∷ [] }))
parse-update_tokens_example =
    parse-update_tokens (bytes "t") new_age [] adults (omega arith) (new_age-IsPair, tt)
      adults-IsFilter

parse-create_tokens_example :
    parse_tokens (create_tokens (bytes "t") (bytes "id", bytes "INT") [])
    ≡ some (record (parsed_new create_query) { table = bytes "t"; col_defs = bytes "id INT" ∷ [] })
unfolding text_eq
parse-create_tokens_example =
    parse-create_tokens (bytes "t") (bytes "id", bytes "INT") [] (omega arith)
      ((refl, omega arith), tt)
