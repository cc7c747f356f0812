-- ===== src/DictCache/Tests.antt =====
-- src/dict_cache.c: a cache of two slots on concrete responses.
use jungle_w8_minisql_server.Prelude.{
  ◌≡◌, refl, none, some, List, [], ◌∷◌, text_eq, arith, pos, pos_part, neg_part,
}
use jungle_w8_minisql_server.DictCache.Slots.{
  Cache, get, put, put_key, invalidate, create, get_key, find_from, put_index, has_key,
  slot_for_put, slot_from, next_ulong,
}
use jungle_w8_minisql_server.DictCache.Reads.{lookup}
use jungle_w8_minisql_server.DictCache.Valid.{IsValid, create-IsValid}
use jungle_w8_minisql_server.DictCache.Ops.{IsRead, get-IsRead}
use jungle_w8_minisql_server.DictCache.Evict.{evicted, is_text, IsOldest, evicted-IsOldest}
use jungle_w8_minisql_server.DictCache.History.{step, Call, get_call, put_call, run, run-IsValid}
use jungle_w8_minisql_server.DictCache.Recent.{lookup-put, lookup-invalidate}

abbrev empty_cache : Cache
empty_cache = create (pos 2)

-- The keys are 'a', 'b' and 'c'.
abbrev calls : List Call
calls =
    put_call (some (97 ∷ [])) (some (1 ∷ []))
    ∷ put_call (some (98 ∷ [])) (some (2 ∷ []))
    ∷ get_call (some (97 ∷ []))
    ∷ []

abbrev cache : Cache
cache = run empty_cache calls

cache-IsValid : IsValid cache
unfolding create pos_part neg_part
cache-IsValid = (run-IsValid empty_cache calls (omega arith) (create-IsValid (pos 2))).0

evicts_b : evicted cache (99 ∷ []) ≡ some (98 ∷ [])
unfolding evicted create run step get get_key find_from put put_key put_index has_key slot_for_put
    slot_from next_ulong text_eq pos_part neg_part
evicts_b = refl

cache_clock : cache.clock ≡ 3
unfolding create run step get get_key find_from put put_key put_index has_key slot_for_put slot_from
    next_ulong text_eq pos_part neg_part
cache_clock = refl

cache-get : (get cache (some (97 ∷ []))).1 ≡ some (1 ∷ [])
unfolding create run step get get_key find_from put put_key put_index has_key slot_for_put slot_from
    next_ulong text_eq pos_part neg_part
cache-get = refl

lookup-put_example : lookup (98 ∷ []) (put cache (some (99 ∷ [])) (some (3 ∷ []))).0.entries ≡ none
unfolding is_text evicted create run step get get_key find_from put put_key put_index has_key
    slot_for_put slot_from next_ulong text_eq pos_part neg_part
lookup-put_example = lookup-put cache 99 [] (3 ∷ []) (98 ∷ []) cache-IsValid

get-IsRead_example : IsRead cache (97 ∷ []) (get cache (some (97 ∷ [])))
get-IsRead_example = get-IsRead cache 97 [] cache-IsValid

lookup-invalidate_example : lookup (97 ∷ []) (invalidate cache (some (97 ∷ []))).entries ≡ none
unfolding text_eq
lookup-invalidate_example = lookup-invalidate cache 97 [] (97 ∷ []) cache-IsValid

evicted-IsOldest_example : IsOldest cache (99 ∷ []) (98 ∷ [])
evicted-IsOldest_example = evicted-IsOldest cache (99 ∷ []) (98 ∷ []) cache-IsValid evicts_b

run-IsValid_example :
    IsValid (run empty_cache calls) × ((run empty_cache calls).capacity ≡ empty_cache.capacity)
unfolding create
run-IsValid_example = run-IsValid empty_cache calls (omega arith) (create-IsValid (pos 2))

cache_capacity : cache.capacity ≡ 2
unfolding create run step get get_key find_from put put_key put_index has_key slot_for_put slot_from
    next_ulong text_eq pos_part neg_part
cache_capacity = refl
