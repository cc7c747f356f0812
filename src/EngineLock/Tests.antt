-- ===== src/EngineLock/Tests.antt =====
-- src/engine_lock.c: two slots and concrete tables.
use jungle_w8_minisql_server.Prelude.{
  ◌≡◌, refl, true, false, Option, none, some, List, [], ◌∷◌, bytes, text_eq, arith,
}
use jungle_w8_minisql_server.EngineLock.Slots.{
  free, TableLock, same_name, find_from, registry_find_locked, claim_from,
  registry_get_or_create_locked, wrlock, take_lock, table_write,
}
use jungle_w8_minisql_server.EngineLock.Register.{find-get_or_create}
use jungle_w8_minisql_server.EngineLock.Exclusion.{IsExclusive, table_write-IsExclusive}

abbrev unused : TableLock
unused = record { name = []; lock = free; used = false }

abbrev two_slots : List TableLock
two_slots = unused ∷ unused ∷ []

find-get_or_create_example :
    registry_find_locked (registry_get_or_create_locked true two_slots (bytes "t")).0 (bytes "u")
    ≡ none
unfolding registry_find_locked find_from text_eq
find-get_or_create_example =
    find-get_or_create true two_slots (bytes "t") (bytes "u") (omega arith) (omega arith)

abbrev after_of : Option (List TableLock) → List TableLock
after_of none = []
after_of (some l) = l

abbrev written : List TableLock
written = after_of (table_write true two_slots (bytes "t"))

table_write-IsExclusive_example : IsExclusive true two_slots written (bytes "t")
unfolding table_write take_lock wrlock registry_get_or_create_locked registry_find_locked find_from
    claim_from same_name
table_write-IsExclusive_example =
    table_write-IsExclusive true two_slots written (bytes "t") 0 (omega arith) refl refl
