-- ===== src/Parser/Creation.antt =====
-- src/parser.c: CREATE TABLE statements written as tokens are read back.
use jungle_w8_minisql_server.Prelude.{
  ◌≤◌, ◌≡◌, refl, ap, ◌∙◌, true, false, some, List, [], ◌∷◌, ◌++◌, map, length, take_all, Text,
  bytes,
}
use jungle_w8_minisql_server.Parser.Tokens.{ieq, to_lower}
use jungle_w8_minisql_server.Parser.Syntax.{create_query, parsed_new, clip, match_kw}
use jungle_w8_minisql_server.Parser.Statements.{
  col_def_loop, create_table, parse_create, parse_tokens,
}
use jungle_w8_minisql_server.Parser.Lists.{is_close}

-- A column's name and type.
abbrev pub Definition : Type 0
Definition = Text × Text

-- The string kept for a column.
abbrev pub def_text : Definition → Text
def_text d = d.0 ++ (32 ∷ d.1)

unfoldable pub defs_before : Definition → List Definition → List Text → List Text
defs_before d [] ts = d.0 ∷ d.1 ∷ ts
defs_before d (e ∷ es) ts = d.0 ∷ d.1 ∷ bytes "," ∷ defs_before e es ts

-- No name is `)`, and the string fits its buffer.
abbrev pub AllDefinitions : List Definition → Type 0
AllDefinitions [] = Unit
AllDefinitions (d ∷ ds) = ((is_close d.0 ≡ false) × (length (def_text d) ≤ 159)) × AllDefinitions ds

comma_close : (ieq (bytes ")") (bytes ",") ≡ false) × (ieq (bytes ",") (bytes ",") ≡ true)
unfolding ieq to_lower
comma_close = (refl, refl)

col_def_loop_before :
    (d : Definition) (ds : List Definition) (ts : List Text)
    → AllDefinitions (d ∷ ds)
    → col_def_loop (defs_before d ds (bytes ")" ∷ ts)) ≡ map def_text (d ∷ ds)
unfolding col_def_loop defs_before
col_def_loop_before d [] ts h = rw (h.0.0, comma_close.0, take_all 159 (def_text d) h.0.1) refl
col_def_loop_before d (e ∷ es) ts h =
    rw (h.0.0, comma_close.1, take_all 159 (def_text d) h.0.1, col_def_loop_before e es ts h.1) refl

unfoldable pub create_tokens : Text → Definition → List Definition → List Text
create_tokens table d ds =
    bytes "CREATE"
    ∷ bytes "TABLE"
    ∷ table
    ∷ bytes "("
    ∷ defs_before d ds (bytes ")" ∷ bytes ";" ∷ [])

-- The tokens of a CREATE TABLE with one column or more, no name of them `)`, parse to that
-- statement, with the name and the type of each column in one string, where the parts fit their
-- arrays.
pub parse-create_tokens :
    (table : Text) (d : Definition) (ds : List Definition)
    → length table ≤ 63
    → AllDefinitions (d ∷ ds)
    → parse_tokens (create_tokens table d ds)
      ≡ some (record (parsed_new create_query) { table = table; col_defs = map def_text (d ∷ ds) })
unfolding parse_tokens parse_create create_table create_tokens match_kw ieq to_lower
parse-create_tokens table d ds size h =
    ap
      (λ (l : List Text).
        some (record (parsed_new create_query) { table = clip 64 table; col_defs = l }))
      (col_def_loop_before d ds (bytes ";" ∷ []) h)
    ∙ ap
        (λ t.
          some (record (parsed_new create_query) { table = t; col_defs = map def_text (d ∷ ds) }))
        (take_all 63 table size)
