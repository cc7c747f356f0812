-- ===== src/Storage/Remaining.antt =====
-- src/storage.c: DELETE takes from a table the rows that a SELECT with its conditions finds.
use jungle_w8_minisql_server.Prelude.{
  ◌≡◌, ◌⊎◌, Bool, true, false, Option, some, List, ◌∷◌, ◌++◌, Text,
}
use mathlib.Core.List.Perm
use mathlib.Core.List.{Perm}
use jungle_w8_minisql_server.Parser.Syntax.{ParsedSql}
use jungle_w8_minisql_server.Storage.Values.{ColDef, Doubles}
use jungle_w8_minisql_server.Storage.Where.{collect_matching_rows}

-- How a row and the rows that are kept behind it make the rows that are kept.
abbrev Kept : Option Bool → List Text → Option (List (List Text)) → List (List Text) → Type 0
Kept m row later kept =
    (m ≡ some true) × (later ≡ some kept)
    ⊎ (rows : List (List Text)) × (m ≡ some false) × (later ≡ some rows) × (kept ≡ row ∷ rows)

module _ (doubles : Doubles) (schema : List ColDef) (sql : ParsedSql) where
  abbrev FoundBeside : List (List Text) → List (List Text) → Type 0
  FoundBeside rows kept =
      (found : List (List Text)) × (collect_matching_rows doubles schema sql rows ≡ some found)
      × Perm (found ++ kept) rows
