-- ===== src/Registry/Tests.antt =====
-- src/index_registry.c: concrete tables.
use jungle_w8_minisql_server.Prelude.{◌≡◌, refl, some, List, [], ◌∷◌, bytes, text_eq, arith}
use jungle_w8_minisql_server.Registry.Entries.{
  RegistryEntry, find_index, get, add_entry, register, get_or_create,
}
use jungle_w8_minisql_server.Registry.Lookup.{IsRegistry, get-get_or_create}

abbrev users : List RegistryEntry
users = record { table = bytes "users"; tree = 5 } ∷ []

users-IsRegistry : IsRegistry users
users-IsRegistry = record { few = omega arith; names = (omega arith, tt); unique = (tt, tt) }

get-get_or_create_example :
    get (get_or_create users (some (bytes "dict")) (some 9)).0 (some (bytes "dict"))
    ≡ (get_or_create users (some (bytes "dict")) (some 9)).1
unfolding text_eq
get-get_or_create_example = get-get_or_create users (bytes "dict") (bytes "dict") (some 9)

new_table : (get_or_create users (some (bytes "dict")) (some 9)).1 ≡ some 9
unfolding get_or_create find_index text_eq register add_entry
new_table = refl
