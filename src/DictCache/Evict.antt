-- ===== src/DictCache/Evict.antt =====
-- src/dict_cache.c: what `dict_cache_put` forgets, and what the removals forget.
use jungle_w8_minisql_server.Prelude.{
  ℕ, ◌+◌, ◌<◌, ◌≡◌, refl, sym, subst, ◌∙◌, ◌⊎◌, inl, inr, Bool, true, false, Option, none, some,
  get_elem?, Text, text_eq, eq_of_text_eq, arith, if◌then◌else◌,
}
use jungle_w8_minisql_server.DictCache.Slots.{
  Slot, Cache, has_key, find_from, slot_for_put, put_index, put_key, next_ulong, ulong_mod,
}
use jungle_w8_minisql_server.DictCache.Reads.{lookup, present, has_key-some}
use jungle_w8_minisql_server.DictCache.Puts.{
  AllFull, AllNewer, Reused, slot_for_put-Reused, filled, lookup-set_hit, lookup-set_miss,
}
use jungle_w8_minisql_server.DictCache.Valid.{
  IsValid, Only, Only-of_First, Only-of_absent, write-IsValid, write,
}
use jungle_w8_minisql_server.DictCache.Ops.{Search, miss, hit, Search-slots}

-- The key that a `put` of `k` forgets: that of the slot reused, if `k` is new.
unfoldable pub evicted : Cache → Text → Option Text
evicted c k = elim (find_from 0 k c.entries) [
  | none ↦ elim (get_elem? c.entries (slot_for_put c.entries)) [ none ↦ none | some s ↦ s.key ]
  | some i ↦ none
]

unfoldable pub is_text : Option Text → Text → Bool
is_text none q = false
is_text (some k) q = text_eq k q

has_key-is_text : (q : Text) (s : Slot) → has_key q s ≡ is_text s.key q
unfolding has_key is_text
has_key-is_text q s = ground arith

module _ (c : Cache) (k v : Text) where
  pub put_hit :
      (d : ℕ)
      → find_from 0 k c.entries ≡ some d
      → (put_key c k v ≡ write c d (filled k v (next_ulong c.clock))) × (evicted c k ≡ none)
  unfolding put_key put_index evicted
  put_hit d e = (rw (e, put_index), rw (e, evicted))

  put_miss :
      find_from 0 k c.entries ≡ none
      → (r : Reused c.entries (slot_for_put c.entries))
      → (put_key c k v ≡ write c (slot_for_put c.entries) (filled k v (next_ulong c.clock)))
        × (evicted c k ≡ r.slot.key)
  unfolding put_key put_index evicted
  put_miss e r = (rw (e, put_index), ground (arith, r.at))

  reused : IsValid c → Reused c.entries (slot_for_put c.entries)
  reused ok = slot_for_put-Reused c.entries (omega (arith, ok.sized, ok.positive))

  pub lookup-put_key :
      IsValid c
      → (q : Text)
      → lookup q (put_key c k v).entries ≡ (
          if text_eq k q
          then some v
          else if is_text (evicted c k) q
          then none
          else lookup q c.entries)
  unfolding is_text lookup
  lookup-put_key ok q = go (Search-slots k c.entries)
    where
      go :
          Search k c.entries
          → lookup q (put_key c k v).entries ≡ (
              if text_eq k q
              then some v
              else if is_text (evicted c k) q
              then none
              else lookup q c.entries)
      go (miss e reads absent) =
          let r = reused ok in
          rw ((put_miss e r).0, (put_miss e r).1, ← has_key-is_text q r.slot)
            (lookup-set_miss q k v (next_ulong c.clock) c.entries (slot_for_put c.entries) r.slot
              r.at ok.distinct absent)
      go (hit d e h) =
          rw ((put_hit d e).0, (put_hit d e).1)
            (lookup-set_hit q k v (next_ulong c.clock) c.entries d h.first)

  pub put_index-Only :
      (q : Text)
      → has_key q (filled k v (next_ulong c.clock)) ≡ true
      → IsValid c
      → Only q c.entries (put_index c.entries k)
  unfolding put_index
  put_index-Only q h ok = go (Search-slots k c.entries)
    where
      same : k ≡ q
      same = eq_of_text_eq k q (sym (has_key-some q k (filled k v (next_ulong c.clock)) refl) ∙ h)

      go : Search k c.entries → Only q c.entries (put_index c.entries k)
      go (miss e reads absent) =
          Only-of_absent q c.entries _ (subst (λ t. present t c.entries ≡ false) same absent)
      go (hit d e f) =
          subst (Only q c.entries) {x = d} (rw (e, put_index))
            (subst (λ t. Only t c.entries d) same (Only-of_First k c.entries d f.first ok.distinct))

  pub put_key-IsValid : c.clock + 1 < ulong_mod → IsValid c → IsValid (put_key c k v)
  unfolding put_key
  put_key-IsValid room ok =
      write-IsValid c (put_index c.entries k) (filled k v (next_ulong c.clock)) room
        (record { no_json = λ e. cc; no_key = λ e. cc }) refl (λ q h. put_index-Only q h ok) ok

-- The eviction is LRU: a key is forgotten only if the new key is stored nowhere and no slot is
-- free, and no slot was used before the one that is given up.
pub record IsOldest (c : Cache) (k q : Text) : Type 0 where
  pub is_new : present k c.entries ≡ false
  pub full : AllFull c.entries
  pub slot : Slot
  pub stored : get_elem? c.entries (slot_for_put c.entries) ≡ some slot
  pub was : slot.key ≡ some q
  pub oldest : AllNewer slot.last_used c.entries

-- In a valid cache a put forgets a key only if the new key is stored nowhere and no slot is free,
-- and no slot was used before the one that is given up.
pub evicted-IsOldest : (c : Cache) (k q : Text) → IsValid c → evicted c k ≡ some q → IsOldest c k q
evicted-IsOldest c k q ok e = go (Search-slots k c.entries)
  where
    r : Reused c.entries (slot_for_put c.entries)
    r = reused c k q ok

    old :
        r.slot.key ≡ some q
        → (r.slot.key ≡ none) ⊎ (AllFull c.entries × AllNewer r.slot.last_used c.entries)
        → present k c.entries ≡ false
        → IsOldest c k q
    old was (inl n) absent = absurd (cc)
    old was (inr (f, n)) absent = record {
      is_new = absent;
      full = f;
      slot = r.slot;
      stored = r.at;
      was = was;
      oldest = n;
    }

    go : Search k c.entries → IsOldest c k q
    go (miss m reads absent) = old (sym (put_miss c k q m r).1 ∙ e) r.oldest absent
    go (hit d f h) = absurd (cc ((put_hit c k q d f).1))
