-- ===== src/DictCache/History.antt =====
-- src/dict_cache.c: the removals, and every sequence of operations on one cache.
use jungle_w8_minisql_server.Prelude.{
  ℕ, zero, suc, ◌+◌, ◌≤◌, ◌<◌, ◌≡◌, refl, ap, subst, ◌∙◌, true, Option, none, some, List, [], ◌∷◌,
  map, length, set, length-set, Text, text_eq, eq_of_text_eq, arith, if◌then◌else◌,
}
use jungle_w8_minisql_server.DictCache.Slots.{
  Slot, Cache, free_slot, has_key, find_from, get, get_key, put, put_key, invalidate,
  invalidate_key, invalidate_all, next_ulong, ulong_mod,
}
use jungle_w8_minisql_server.DictCache.Reads.{
  lookup, Distinct, First, eq_of_has_key, has_key-of_has_key, has_key-of_eq,
}
use jungle_w8_minisql_server.DictCache.Puts.{lookup_absent}
use jungle_w8_minisql_server.DictCache.Valid.{
  IsValid, IsWhole, Only, AllOlder, Only-of_First, Distinct-set, AllOlder-set, IsWhole-get_elem?,
  write-IsValid, write,
}
use jungle_w8_minisql_server.DictCache.Ops.{
  Search, miss, hit, Search-slots, get_key_miss, get_key_hit, FullHit, full_hit,
}
use jungle_w8_minisql_server.DictCache.Evict.{put_key-IsValid}

lookup-set_free :
    (q k : Text) (l : List Slot) (d : ℕ)
    → First k l d
    → Distinct l
    → lookup q (set l d free_slot) ≡ (if text_eq k q then none else lookup q l)
unfolding lookup has_key
lookup-set_free q k [] d f ok = absurd f
lookup-set_free q k (s ∷ l) zero f ok =
    ground (arith, has_key-of_has_key k q s f, ok.0 q, lookup_absent q l)
lookup-set_free q k (s ∷ l) (suc d) f ok =
    ground (arith, lookup-set_free q k l d f.1 ok.3, has_key-of_eq k q s)

module _ (c : Cache) (k : Text) (ok : IsValid c) where
  -- Removing a key forgets that key alone.
  pub lookup-invalidate_key :
      (q : Text)
      → lookup q (invalidate_key c k).entries ≡ (if text_eq k q then none else lookup q c.entries)
  unfolding invalidate_key
  lookup-invalidate_key q = go (Search-slots k c.entries)
    where
      go :
          Search k c.entries
          → lookup q (invalidate_key c k).entries
            ≡ (if text_eq k q then none else lookup q c.entries)
      go (miss e reads absent) = rw (e, invalidate_key) (ground (arith, eq_of_text_eq k q))
      go (hit d e h) = rw (e, invalidate_key) (lookup-set_free q k c.entries d h.first ok.distinct)

  free-IsValid : (d : ℕ) → IsValid (record c { entries = set c.entries d free_slot })
  unfolding has_key
  free-IsValid d = record {
    sized = length-set c.entries d free_slot ∙ ok.sized;
    positive = ok.positive;
    distinct =
        Distinct-set c.entries d free_slot (record { no_json = λ e. refl; no_key = λ e. refl })
          (λ q h. cc) ok.distinct;
    stamped = AllOlder-set c.clock c.entries d free_slot (omega arith) ok.stamped;
  }

  invalidate_key-IsValid : IsValid (invalidate_key c k)
  unfolding invalidate_key
  invalidate_key-IsValid = go (Search-slots k c.entries)
    where
      go : Search k c.entries → IsValid (invalidate_key c k)
      go (miss e reads absent) = rw (e, invalidate_key) ok
      go (hit d e h) = rw (e, invalidate_key) (free-IsValid d)

  touched :
      (q : Text) (d : ℕ) (f : FullHit k c.entries d)
      → has_key q (record (f.base.slot) { last_used = next_ulong c.clock }) ≡ true
      → Only q c.entries d
  unfolding has_key
  touched q d f h =
      let same : k ≡ q =
        cc (eq_of_has_key k f.base.slot f.base.has, eq_of_has_key q f.base.slot h) in
      subst (λ t. Only t c.entries d) same (Only-of_First k c.entries d f.base.first ok.distinct)

  get_key-IsValid : c.clock + 1 < ulong_mod → IsValid (get_key c k).0
  get_key-IsValid room = go (Search-slots k c.entries)
    where
      on_hit :
          (d : ℕ)
          → find_from 0 k c.entries ≡ some d
          → FullHit k c.entries d
          → IsValid (get_key c k).0
      on_hit d e f =
          let new : Slot = record (f.base.slot) { last_used = next_ulong c.clock } in
          let whole : IsWhole f.base.slot =
            IsWhole-get_elem? c.entries d f.base.slot f.base.at ok.distinct in
          let w : IsValid (write c d new) =
            write-IsValid c d new room (record { no_json = whole.no_json; no_key = whole.no_key })
              refl (λ q h. touched q d f h) ok in
          rw (get_key_hit c k d f.base.slot f.json e f.base.at f.holds) (record {
            sized = w.sized;
            positive = w.positive;
            distinct = w.distinct;
            stamped = w.stamped;
          })

      go : Search k c.entries → IsValid (get_key c k).0
      go (miss e reads absent) = rw (get_key_miss c k e) (record {
        sized = ok.sized;
        positive = ok.positive;
        distinct = ok.distinct;
        stamped = ok.stamped;
      })
      go (hit d e h) = on_hit d e (full_hit k c.entries d ok.distinct h)

-- The public operations that change the cache.
pub data Call : Type 0 where
  get_call : Option Text → Call
  put_call : Option Text → Option Text → Call
  invalidate_call : Option Text → Call
  invalidate_all_call : Call

unfoldable pub step : Cache → Call → Cache
step c (get_call k) = (get c k).0
step c (put_call k v) = (put c k v).0
step c (invalidate_call k) = invalidate c k
step c invalidate_all_call = invalidate_all c

unfoldable pub run : Cache → List Call → Cache
run c [] = c
run c (call ∷ calls) = run (step c call) calls

all_free :
    (l : List Slot)
    → Distinct (map (λ _. free_slot) l)
      × AllOlder 0 (map (λ _. free_slot) l)
      × (length (map (λ _. free_slot) l) ≡ length l)
unfolding has_key
all_free [] = (tt, tt, refl)
all_free (s ∷ l) =
    let (d, a, n) = all_free l in ((λ q h. cc, λ e. refl, λ e. refl, d), (omega arith, a), ap suc n)

step-IsValid :
    (c : Cache) (call : Call) → c.clock + 1 < ulong_mod → IsValid c → IsValid (step c call)
unfolding step get put invalidate invalidate_all
step-IsValid c (get_call none) room ok = ok
step-IsValid c (get_call (some [])) room ok = ok
step-IsValid c (get_call (some (b ∷ bs))) room ok = get_key-IsValid c (b ∷ bs) ok room
step-IsValid c (put_call none v) room ok = ok
step-IsValid c (put_call (some []) v) room ok = ok
step-IsValid c (put_call (some (b ∷ bs)) none) room ok = ok
step-IsValid c (put_call (some (b ∷ bs)) (some v)) room ok = put_key-IsValid c (b ∷ bs) v room ok
step-IsValid c (invalidate_call none) room ok = ok
step-IsValid c (invalidate_call (some [])) room ok = ok
step-IsValid c (invalidate_call (some (b ∷ bs))) room ok = invalidate_key-IsValid c (b ∷ bs) ok
step-IsValid c invalidate_all_call room ok =
    let (d, a, n) = all_free c.entries in
    record { sized = n ∙ ok.sized; positive = ok.positive; distinct = d; stamped = a }

clock-step : (c : Cache) (call : Call) → c.clock + 1 < ulong_mod → (step c call).clock ≤ c.clock + 1
unfolding step get put invalidate invalidate_all get_key put_key invalidate_key next_ulong
clock-step c (get_call none) room = omega arith
clock-step c (get_call (some [])) room = omega arith
clock-step c (get_call (some (b ∷ bs))) room = ground arith
clock-step c (put_call none v) room = omega arith
clock-step c (put_call (some []) v) room = omega arith
clock-step c (put_call (some (b ∷ bs)) none) room = omega arith
clock-step c (put_call (some (b ∷ bs)) (some v)) room = ground arith
clock-step c (invalidate_call none) room = omega arith
clock-step c (invalidate_call (some [])) room = omega arith
clock-step c (invalidate_call (some (b ∷ bs))) room = ground arith
clock-step c invalidate_all_call room = omega arith

capacity-step : (c : Cache) (call : Call) → (step c call).capacity ≡ c.capacity
unfolding step get put invalidate invalidate_all get_key put_key invalidate_key
capacity-step c (get_call none) = refl
capacity-step c (get_call (some [])) = refl
capacity-step c (get_call (some (b ∷ bs))) = ground arith
capacity-step c (put_call none v) = refl
capacity-step c (put_call (some []) v) = refl
capacity-step c (put_call (some (b ∷ bs)) none) = refl
capacity-step c (put_call (some (b ∷ bs)) (some v)) = ground arith
capacity-step c (invalidate_call none) = refl
capacity-step c (invalidate_call (some [])) = refl
capacity-step c (invalidate_call (some (b ∷ bs))) = ground arith
capacity-step c invalidate_all_call = refl

-- Any sequence of operations that the 64-bit clock leaves room for keeps a cache valid, with as
-- many slots as its capacity, no key stored twice and no slot stamped later than the clock, and
-- keeps its capacity.
pub run-IsValid :
    (c : Cache) (calls : List Call)
    → c.clock + length calls < ulong_mod
    → IsValid c
    → IsValid (run c calls) × ((run c calls).capacity ≡ c.capacity)
unfolding run
run-IsValid c [] room ok = (ok, refl)
run-IsValid c (call ∷ calls) room ok =
    let rest =
      run-IsValid (step c call) calls (omega (arith, clock-step c call (omega arith)))
        (step-IsValid c call (omega arith) ok) in
    (rest.0, rest.1 ∙ capacity-step c call)
