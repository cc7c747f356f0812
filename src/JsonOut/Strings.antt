-- ===== src/JsonOut/Strings.antt =====
-- src/json_out.c: strings and arrays of strings as JSON. What is printed is a text.
use jungle_w8_minisql_server.Prelude.{
  ◌||◌, Option, none, some, List, [], ◌∷◌, ◌++◌, Text, ◌==◌, if◌then◌else◌,
}

-- The loop of `emit_str`: `"` and a backslash get a backslash before them.
unfoldable pub escape : Text → Text
escape [] = []
escape (c ∷ s) = let rest = escape s in if c == 34 || c == 92 then 92 ∷ c ∷ rest else c ∷ rest

-- `emit_str`, before what is printed next; NULL is `none`.
unfoldable pub emit_str : Option Text → Text → Text
emit_str none out = 34 ∷ 34 ∷ out
emit_str (some s) out = 34 ∷ escape s ++ (34 ∷ out)

-- The loop of `emit_str_array` from its second string on.
unfoldable pub emit_rest : List Text → Text → Text
emit_rest [] out = 93 ∷ out
emit_rest (s ∷ ss) out = 44 ∷ emit_str (some s) (emit_rest ss out)

-- `emit_str_array`
unfoldable pub emit_str_array : List Text → Text → Text
emit_str_array [] out = 91 ∷ 93 ∷ out
emit_str_array (s ∷ ss) out = 91 ∷ emit_str (some s) (emit_rest ss out)
