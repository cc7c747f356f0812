-- ===== src/DictCache/Recent.antt =====
-- src/dict_cache.c: the public calls `dict_cache_put` and `dict_cache_invalidate` as updates of the
-- stored map, and the entry written last.
use jungle_w8_minisql_server.Prelude.{
  ℕ, zero, suc, ◌+◌, ◌≤◌, ◌<◌, ◌≡◌, refl, subst, ◌∙◌, ◌≢◌, true, none, some, List, [], ◌∷◌, length,
  get_elem?, set, Text, text_eq, text_eq_refl, arith, if◌then◌else◌,
}
use jungle_w8_minisql_server.DictCache.Slots.{
  Slot, Cache, has_key, put_index, get, put, put_key, invalidate, next_ulong, ulong_mod,
}
use jungle_w8_minisql_server.DictCache.Reads.{lookup, present, has_key-some}
use jungle_w8_minisql_server.DictCache.Puts.{AllNewer, filled}
use jungle_w8_minisql_server.DictCache.Valid.{IsValid, Only, AllOlder}
use jungle_w8_minisql_server.DictCache.Ops.{IsRead, get-IsRead}
use jungle_w8_minisql_server.DictCache.Evict.{
  evicted, is_text, lookup-put_key, put_key-IsValid, put_index-Only, IsOldest, evicted-IsOldest,
}
use jungle_w8_minisql_server.DictCache.History.{lookup-invalidate_key}

-- On a valid cache, a put of a non-empty key stores the response under it; every other key keeps
-- what it had, but for the one key that is evicted.
pub lookup-put :
    (c : Cache) (b : ℕ) (bs v q : Text)
    → IsValid c
    → lookup q (put c (some (b ∷ bs)) (some v)).0.entries ≡ (
        if text_eq (b ∷ bs) q
        then some v
        else if is_text (evicted c (b ∷ bs)) q
        then none
        else lookup q c.entries)
unfolding put
lookup-put c b bs v q ok = lookup-put_key c (b ∷ bs) v ok q

-- On a valid cache whose clock has room, a get right after a put of the same non-empty key returns
-- the response that was put.
pub get-put :
    (c : Cache) (b : ℕ) (bs v : Text)
    → c.clock + 1 < ulong_mod
    → IsValid c
    → (get (put c (some (b ∷ bs)) (some v)).0 (some (b ∷ bs))).1 ≡ some v
unfolding put
get-put c b bs v room ok =
    let c' = put_key c (b ∷ bs) v in
    let r : IsRead c' (b ∷ bs) (get c' (some (b ∷ bs))) =
      get-IsRead c' b bs (put_key-IsValid c (b ∷ bs) v room ok) in
    r.result ∙ ground (arith, lookup-put_key c (b ∷ bs) v ok (b ∷ bs), text_eq_refl (b ∷ bs))

-- On a valid cache, invalidating a non-empty key removes its response and leaves that of every
-- other key.
pub lookup-invalidate :
    (c : Cache) (b : ℕ) (bs q : Text)
    → IsValid c
    → lookup q (invalidate c (some (b ∷ bs))).entries
      ≡ (if text_eq (b ∷ bs) q then none else lookup q c.entries)
unfolding invalidate
lookup-invalidate c b bs q ok = lookup-invalidate_key c (b ∷ bs) ok q

-- With two slots or more, some slot is older than the one written last.
not-AllNewer-set :
    (l : List Slot) (d t : ℕ) (new : Slot)
    → 2 ≤ length l
    → AllOlder t l
    → t < new.last_used
    → ¬ AllNewer new.last_used (set l d new)
not-AllNewer-set [] d t new two old lt n = omega arith
not-AllNewer-set (x ∷ []) d t new two old lt n = omega arith
not-AllNewer-set (x ∷ y ∷ l) zero t new two old lt n = omega arith
not-AllNewer-set (x ∷ y ∷ l) (suc d) t new two old lt n = omega arith

has_key-get_elem? :
    (q : Text) (l : List Slot) (j : ℕ) (s : Slot)
    → get_elem? l j ≡ some s
    → has_key q s ≡ true
    → present q l ≡ true
unfolding present
has_key-get_elem? q [] j s at h = cc
has_key-get_elem? q (x ∷ l) zero s at h = ground arith
has_key-get_elem? q (x ∷ l) (suc j) s at h = ground (arith, has_key-get_elem? q l j s at h)

slot-of_Only :
    (q : Text) (l : List Slot) (d j : ℕ) (new s : Slot)
    → Only q l d
    → get_elem? (set l d new) j ≡ some s
    → has_key q s ≡ true
    → s ≡ new
slot-of_Only q [] d j new s only at h = cc
slot-of_Only q (x ∷ l) zero zero new s only at h = cc
slot-of_Only q (x ∷ l) zero (suc j) new s only at h =
    absurd (cc (has_key-get_elem? q l j s at h, only))
slot-of_Only q (x ∷ l) (suc d) zero new s only at h = absurd (ground arith)
slot-of_Only q (x ∷ l) (suc d) (suc j) new s only at h = slot-of_Only q l d j new s only.1 at h

has_key-was : (k : Text) (s : Slot) → s.key ≡ some k → has_key k s ≡ true
has_key-was k s e = has_key-some k k s e ∙ text_eq_refl k

-- In a valid cache of two slots or more whose clock has room, the entry written last is never the
-- one that the next put evicts.
pub evicted-put_key :
    (c : Cache) (k v k' : Text)
    → 2 ≤ c.capacity
    → c.clock + 1 < ulong_mod
    → IsValid c
    → evicted (put_key c k v) k' ≢ some k
unfolding put_key next_ulong
evicted-put_key c k v k' two room ok e =
    let c' = put_key c k v in
    let new = filled k v (next_ulong c.clock) in
    let o : IsOldest c' k' k = evicted-IsOldest c' k' k (put_key-IsValid c k v room ok) e in
    let same : o.slot ≡ new =
      slot-of_Only k c.entries (put_index c.entries k) _ new o.slot
        (put_index-Only c k v k (has_key-was k new refl) ok) o.stored
        (has_key-was k o.slot o.was) in
    not-AllNewer-set c.entries (put_index c.entries k) c.clock new (omega (arith, ok.sized))
      ok.stamped (omega arith) (subst (λ (s : Slot). AllNewer s.last_used c'.entries) same o.oldest)
