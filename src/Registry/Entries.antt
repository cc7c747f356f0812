-- ===== src/Registry/Entries.antt =====
-- src/index_registry.c: the array of entries. A tree is known by its address.
use jungle_w8_minisql_server.Prelude.{
  ℕ, ◌+◌, Option, none, some, List, [], ◌∷◌, ◌++◌, length, Text, text_eq, ltb, leb, if◌then◌else◌,
}

abbrev pub max_tables : ℕ
max_tables = 64

abbrev pub table_name_max : ℕ
table_name_max = 64

pub record RegistryEntry : Type 0 where
  pub table : Text
  pub tree : ℕ

-- The loop of `find_index`, with the tree of the entry that it finds.
unfoldable pub find_index : Text → List RegistryEntry → Option ℕ
find_index table [] = none
find_index table (e ∷ es) = if text_eq e.table table then some e.tree else find_index table es

-- `index_registry_get`; a NULL name is `none`.
unfoldable pub get : List RegistryEntry → Option Text → Option ℕ
get es none = none
get es (some table) = find_index table es

-- `index_registry_get_or_create` once a tree is asked for: `none` is a failed `bptree_create`.
unfoldable pub add_entry : List RegistryEntry → Text → Option ℕ → List RegistryEntry × Option ℕ
add_entry es table none = (es, none)
add_entry es table (some tree) = (es ++ (record { table = table; tree = tree } ∷ []), some tree)

-- The part for a table without an entry.
unfoldable pub register : List RegistryEntry → Text → Option ℕ → List RegistryEntry × Option ℕ
register es table made =
    if leb max_tables (length es)
    then (es, none)
    else if ltb table_name_max (length table + 1)
    then (es, none)
    else add_entry es table made

-- `index_registry_get_or_create`; `made` is what `bptree_create` returns.
unfoldable pub get_or_create :
    List RegistryEntry → Option Text → Option ℕ → List RegistryEntry × Option ℕ
get_or_create es none made = (es, none)
get_or_create es (some table) made = elim (find_index table es) [
  | none ↦ register es table made
  | some tree ↦ (es, some tree)
]

-- `index_registry_destroy_all`
unfoldable pub destroy_all : List RegistryEntry → List RegistryEntry
destroy_all es = []
