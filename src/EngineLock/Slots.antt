-- ===== src/EngineLock/Slots.antt =====
-- src/engine_lock.c: the array of table locks, and the operations on it. Each of them is one step
-- under the registry's mutex, and the wait for a lock is the result `none`.
use jungle_w8_minisql_server.Prelude.{
  ℕ, zero, suc, ◌+◌, Bool, true, false, ◌&&◌, Option, none, some, List, [], ◌∷◌, get_elem?, set,
  take, Text, text_eq, if◌then◌else◌,
}

-- `pthread_rwlock_t`: free, held by readers, or held by a writer.
pub data RwLock : Type 0 where
  free : RwLock
  readers : ℕ → RwLock
  writer : RwLock

-- `table_lock_t`
pub record TableLock : Type 0 where
  pub name : Text
  pub lock : RwLock
  pub used : Bool

-- `strncmp(name, table, sizeof(name)) == 0`
unfoldable pub same_name : Text → Text → Bool
same_name name table = text_eq (take 64 name) (take 64 table)

-- `registry_find_locked`, from slot `i` on.
unfoldable pub find_from : ℕ → Text → List TableLock → Option ℕ
find_from i table [] = none
find_from i table (s ∷ l) =
    if s.used && same_name s.name table then some i else find_from (suc i) table l

unfoldable pub registry_find_locked : List TableLock → Text → Option ℕ
registry_find_locked l table = find_from 0 table l

abbrev pub new_slot : Text → TableLock
new_slot table = record { name = take 63 table; lock = free; used = true }

-- The second loop of `registry_get_or_create_locked`, from slot `i` on; `inits` says whether
-- `pthread_rwlock_init` succeeds.
unfoldable pub claim_from : Bool → ℕ → Text → List TableLock → List TableLock × Option ℕ
claim_from inits i table [] = ([], none)
claim_from inits i table (s ∷ l) =
    let rest = claim_from inits (suc i) table l in
    if s.used
    then (s ∷ rest.0, rest.1)
    else if inits
    then (new_slot table ∷ l, some i)
    else (s ∷ l, none)

unfoldable pub registry_get_or_create_locked :
    Bool → List TableLock → Text → List TableLock × Option ℕ
registry_get_or_create_locked inits l table = elim (registry_find_locked l table) [
  | some i ↦ (l, some i)
  | none ↦ claim_from inits 0 table l
]

-- `pthread_rwlock_rdlock`, `pthread_rwlock_wrlock` and `pthread_rwlock_unlock`; `none` waits.
unfoldable pub rdlock : RwLock → Option RwLock
rdlock free = some (readers 1)
rdlock (readers n) = some (readers (n + 1))
rdlock writer = none

unfoldable pub wrlock : RwLock → Option RwLock
wrlock free = some writer
wrlock (readers n) = none
wrlock writer = none

unfoldable pub unlock : RwLock → RwLock
unlock free = free
unlock (readers zero) = free
unlock (readers (suc zero)) = free
unlock (readers (suc (suc n))) = readers (suc n)
unlock writer = free

-- The lock of a slot is taken, where the slot is there.
unfoldable pub take_lock :
    (RwLock → Option RwLock) → List TableLock → Option ℕ → Option (List TableLock)
take_lock acquire l none = some l
take_lock acquire l (some i) = elim (get_elem? l i) [
  | none ↦ some l
  | some s ↦ elim (acquire s.lock) [ none ↦ none | some k ↦ some (set l i (record s { lock = k })) ]
]

-- `engine_lock_table_read` and `engine_lock_table_write`.
unfoldable pub table_read : Bool → List TableLock → Text → Option (List TableLock)
table_read inits l table =
    let r = registry_get_or_create_locked inits l table in take_lock rdlock r.0 r.1

unfoldable pub table_write : Bool → List TableLock → Text → Option (List TableLock)
table_write inits l table =
    let r = registry_get_or_create_locked inits l table in take_lock wrlock r.0 r.1

-- `engine_lock_table_release`
unfoldable pub release_at : List TableLock → Option ℕ → List TableLock
release_at l none = l
release_at l (some i) = elim (get_elem? l i) [
  | none ↦ l
  | some s ↦ set l i (record s { lock = unlock s.lock })
]

unfoldable pub table_release : List TableLock → Text → List TableLock
table_release l table = release_at l (registry_find_locked l table)

-- The loop of `engine_lock_shutdown`.
unfoldable pub clear_slots : List TableLock → List TableLock
clear_slots [] = []
clear_slots (s ∷ l) = record s { used = false } ∷ clear_slots l
