-- ===== src/JsonOut/Tests.antt =====
-- src/json_out.c: concrete strings.
use jungle_w8_minisql_server.Prelude.{true, ◌≡◌, refl, some, List, [], ◌∷◌, Text}
use jungle_w8_minisql_server.JsonOut.Strings.{escape, emit_str, emit_rest, emit_str_array}
use jungle_w8_minisql_server.JsonOut.ReadBack.{
  all_visible, is_visible, read_array, read_array-emit_str_array,
}

-- A quote, an 'a' and a backslash.
abbrev strings : List Text
strings = (34 ∷ 97 ∷ 92 ∷ []) ∷ [] ∷ []

printed : emit_str_array strings [] ≡ 91 ∷ 34 ∷ 92 ∷ 34 ∷ 97 ∷ 92 ∷ 92 ∷ 34 ∷ 44 ∷ 34 ∷ 34 ∷ 93 ∷ []
unfolding escape emit_str emit_rest emit_str_array
printed = refl

strings_visible : all_visible strings ≡ true
unfolding all_visible is_visible
strings_visible = refl

read_array-emit_str_array_example : read_array 2 (emit_str_array strings []) ≡ some (strings, [])
read_array-emit_str_array_example = read_array-emit_str_array strings [] strings_visible
