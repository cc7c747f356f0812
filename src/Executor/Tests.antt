-- ===== src/Executor/Tests.antt =====
-- src/executor.c: runs on small conditions.
use jungle_w8_minisql_server.Prelude.{
  true, lez, ◌≡◌, refl, none, some, bytes, pos, negsuc, pos_part, neg_part,
}
use jungle_w8_minisql_server.Parser.Tokens.{is_space, span}
use jungle_w8_minisql_server.Parser.Syntax.{WhereClause}
use jungle_w8_minisql_server.Storage.Values.{
  parse_long_value, signed_value, unsigned_value, value_of, is_digit,
}
use jungle_w8_minisql_server.Storage.Where.{strip_optional_quotes, in_quote, char_is}
use jungle_w8_minisql_server.Executor.Bounds.{
  trim_whitespace, trim_end, in_int, parse_int_literal, parse_between_bounds,
}
use jungle_w8_minisql_server.Executor.Between.{parse_between_bounds-lez}

abbrev backwards : WhereClause
backwards = record {
  column = bytes "id";
  op = bytes "BETWEEN";
  value = bytes "' 9 '";
  value_to = bytes "-3";
}

bounds_in_order : parse_between_bounds backwards ≡ some (negsuc 2, pos 9)
unfolding parse_between_bounds parse_int_literal trim_whitespace trim_end in_int parse_long_value
    signed_value unsigned_value value_of is_digit is_space span strip_optional_quotes in_quote
    char_is pos_part neg_part
bounds_in_order = refl

out_of_range : parse_int_literal (bytes "2147483648") ≡ none
unfolding parse_int_literal trim_whitespace trim_end in_int parse_long_value signed_value
    unsigned_value value_of is_digit is_space span strip_optional_quotes in_quote char_is pos_part
    neg_part
out_of_range = refl

parse_between_bounds-lez_example :
    (lez (negsuc 2) (pos 9) ≡ true) × (in_int (negsuc 2) ≡ true) × (in_int (pos 9) ≡ true)
parse_between_bounds-lez_example =
    parse_between_bounds-lez backwards (negsuc 2) (pos 9) bounds_in_order
