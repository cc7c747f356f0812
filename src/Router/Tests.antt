-- ===== src/Router/Tests.antt =====
-- src/router.c: runs on small requests, and the theorem at a text.
use jungle_w8_minisql_server.Prelude.{◌≡◌, refl, true, false, some, [], ◌∷◌, bytes, arith}
use jungle_w8_minisql_server.Parser.Tokens.{span}
use jungle_w8_minisql_server.Router.Query.{
  before_nul, from_hex, plain_char, decode_round, decode_from, url_decode, pair_of, after_key,
  param_from, query_param, escape_from, sql_escape_literal, all_between, is_positive_int_text,
}
use jungle_w8_minisql_server.Router.Decoding.{percent_encode, all_bytes, url_decode-percent_encode}

word_of_query : query_param (bytes "a=1&word=%63at+2") (bytes "word") 64 ≡ some (bytes "cat 2")
unfolding query_param param_from pair_of span after_key before_nul url_decode decode_from
    decode_round plain_char from_hex
word_of_query = refl

quote_doubled : sql_escape_literal 64 (bytes "it's") ≡ some (bytes "it''s")
unfolding sql_escape_literal escape_from
quote_doubled = refl

number_checked : is_positive_int_text (bytes "10a") ≡ false
unfolding is_positive_int_text all_between
number_checked = refl

bytes_of_text : all_bytes (38 ∷ 200 ∷ 37 ∷ []) ≡ true
unfolding all_bytes
bytes_of_text = refl

url_decode-percent_encode_example :
    url_decode 64 (percent_encode (38 ∷ 200 ∷ 37 ∷ [])) ≡ 38 ∷ 200 ∷ 37 ∷ []
url_decode-percent_encode_example =
    url_decode-percent_encode 64 (38 ∷ 200 ∷ 37 ∷ []) (omega arith) bytes_of_text
