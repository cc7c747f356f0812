-- ===== src/DictCache/Slots.antt =====
-- src/dict_cache.c: the slots, the two scans over them, and the operations of the cache.
use jungle_w8_minisql_server.Prelude.{
  ℕ, suc, ◌+◌, ◌%◌, ◌^◌, ℤ, pos, negsuc, lez, pos_part, Bool, true, false, Option, none, some, List,
  [], ◌∷◌, get_elem?, set, replicate, map, Text, text_eq, ltb, if◌then◌else◌,
}

-- `dict_cache_entry_t`; NULL is `none`.
pub record Slot : Type 0 where
  pub key : Option Text
  pub json : Option Text
  pub last_used : ℕ

-- `struct dict_cache`; `capacity` is the length of `entries`, which no operation changes.
pub record Cache : Type 0 where
  pub entries : List Slot
  pub capacity : ℕ
  pub clock : ℕ
  pub hits : ℕ
  pub misses : ℕ

abbrev pub ulong_mod : ℕ
ulong_mod = 2 ^ 64

-- `atomic_fetch_add(&x, 1UL)` wraps.
unfoldable pub next_ulong : ℕ → ℕ
next_ulong n = (n + 1) % ulong_mod

abbrev pub free_slot : Slot
free_slot = record { key = none; json = none; last_used = 0 }

-- `entries[i].key != NULL && strcmp(entries[i].key, key) == 0`
unfoldable pub has_key : Text → Slot → Bool
has_key key s = elim s.key [ none ↦ false | some k ↦ text_eq k key ]

-- The loop of `dict_cache_find`, from index `i` on; -1 is `none`.
unfoldable pub find_from : ℕ → Text → List Slot → Option ℕ
find_from i key [] = none
find_from i key (s ∷ l) = if has_key key s then some i else find_from (suc i) key l

-- The loop of `dict_cache_slot_for_put`, from index `i` on.
unfoldable pub slot_from : ℕ → ℕ → ℕ → List Slot → ℕ
slot_from i oldest oldest_used [] = oldest
slot_from i oldest oldest_used (s ∷ l) =
    let older = ltb s.last_used oldest_used in
    let rest =
      slot_from (suc i) (if older then i else oldest) (if older then s.last_used else oldest_used)
        l in
    elim s.key [ none ↦ i | some _ ↦ rest ]

unfoldable pub slot_for_put : List Slot → ℕ
slot_for_put [] = 0
slot_for_put (s ∷ l) = slot_from 0 0 s.last_used (s ∷ l)

abbrev pub default_capacity : ℕ
default_capacity = 128

unfoldable pub create : ℤ → Cache
create capacity =
    let n = if lez capacity (pos 0) then default_capacity else pos_part capacity in
    record { entries = replicate n free_slot; capacity = n; clock = 0; hits = 0; misses = 0 }

-- `key == NULL || key[0] == '\0'`
abbrev pub is_blank : Option Text → Bool
is_blank none = true
is_blank (some []) = true
is_blank (some (c ∷ cs)) = false

-- The part of `dict_cache_get` after the arguments are checked; the copy returned is `*out_json`.
unfoldable pub get_key : Cache → Text → Cache × Option Text
get_key c key = elim (find_from 0 key c.entries) [
  | none ↦ (record c { misses = next_ulong c.misses }, none)
  | some i ↦ elim (get_elem? c.entries i) [
    | none ↦ (c, none)
    | some s ↦ elim s.json [
      | none ↦ (c, none)
      | some json ↦ (
        record c {
          entries = set c.entries i (record s { last_used = next_ulong c.clock });
          clock = next_ulong c.clock;
          hits = next_ulong c.hits;
        },
        some json,
      )
    ]
  ]
]

unfoldable pub get : Cache → Option Text → Cache × Option Text
get c none = (c, none)
get c (some []) = (c, none)
get c (some (b ∷ bs)) = get_key c (b ∷ bs)

-- The slot that `dict_cache_put` writes: that of the key, or the one to reuse.
unfoldable pub put_index : List Slot → Text → ℕ
put_index l key = elim (find_from 0 key l) [ none ↦ slot_for_put l | some i ↦ i ]

unfoldable pub put_key : Cache → Text → Text → Cache
put_key c key json = record c {
  entries =
      set c.entries (put_index c.entries key)
        (record { key = some key; json = some json; last_used = next_ulong c.clock });
  clock = next_ulong c.clock;
}

-- `dict_cache_put`; the second part is its `int` result.
unfoldable pub put : Cache → Option Text → Option Text → Cache × ℤ
put c none json = (c, negsuc 0)
put c (some []) json = (c, negsuc 0)
put c (some (b ∷ bs)) none = (c, negsuc 0)
put c (some (b ∷ bs)) (some json) = (put_key c (b ∷ bs) json, pos 0)

unfoldable pub invalidate_key : Cache → Text → Cache
invalidate_key c key = elim (find_from 0 key c.entries) [
  | none ↦ c
  | some i ↦ record c { entries = set c.entries i free_slot }
]

unfoldable pub invalidate : Cache → Option Text → Cache
invalidate c none = c
invalidate c (some []) = c
invalidate c (some (b ∷ bs)) = invalidate_key c (b ∷ bs)

unfoldable pub invalidate_all : Cache → Cache
invalidate_all c = record c { entries = map (λ _. free_slot) c.entries; clock = 0 }
