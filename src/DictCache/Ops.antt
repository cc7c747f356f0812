-- ===== src/DictCache/Ops.antt =====
-- src/dict_cache.c: what each operation of the cache does to the stored responses.
use jungle_w8_minisql_server.Prelude.{
  ℕ, zero, suc, ◌≡◌, refl, sym, subst, ◌∙◌, ◌⊎◌, inl, inr, ◌≢◌, false, Option, none, some, List, [],
  ◌∷◌, get_elem?, set, Text, arith,
}
use jungle_w8_minisql_server.DictCache.Slots.{
  Slot, Cache, has_key, find_from, get, get_key, next_ulong,
}
use jungle_w8_minisql_server.DictCache.Reads.{
  lookup, present, Distinct, eq_of_has_key, Hit, Found, find_from-Found,
}
use jungle_w8_minisql_server.DictCache.Valid.{IsValid, IsWhole, IsWhole-get_elem?}

-- A search either misses, and the key is nowhere, or hits the first slot with the key.
pub data Search (key : Text) (l : List Slot) : Type 0 where
  miss : find_from 0 key l ≡ none → lookup key l ≡ none → present key l ≡ false → Search key l
  hit : (d : ℕ) → find_from 0 key l ≡ some d → Hit key l d → Search key l

pub Search-slots : (key : Text) (l : List Slot) → Search key l
Search-slots key l = go (find_from 0 key l) refl (find_from-Found 0 key l)
  where
    go : (o : Option ℕ) → find_from 0 key l ≡ o → Found 0 key l o → Search key l
    go none e f = miss e f.0 f.1
    go (some j) e f = hit j e (subst (Hit key l) (omega arith) f.2)

lookup-set_touch :
    (q : Text) (l : List Slot) (d : ℕ) (s : Slot) (u : ℕ)
    → get_elem? l d ≡ some s
    → lookup q (set l d (record s { last_used = u })) ≡ lookup q l
unfolding lookup has_key
lookup-set_touch q [] d s u at = refl
lookup-set_touch q (x ∷ l) zero s u at = ground arith
lookup-set_touch q (x ∷ l) (suc d) s u at = ground (arith, lookup-set_touch q l d s u at)

pub get_key_miss :
    (c : Cache) (k : Text)
    → find_from 0 k c.entries ≡ none
    → get_key c k ≡ (record c { misses = next_ulong c.misses }, none)
unfolding get_key
get_key_miss c k e = rw (e, get_key)

abbrev pub after_hit : Cache → ℕ → Slot → Cache
after_hit c d s = record c {
  entries = set c.entries d (record s { last_used = next_ulong c.clock });
  clock = next_ulong c.clock;
  hits = next_ulong c.hits;
}

pub get_key_hit :
    (c : Cache) (k : Text) (d : ℕ) (s : Slot) (json : Text)
    → find_from 0 k c.entries ≡ some d
    → get_elem? c.entries d ≡ some s
    → s.json ≡ some json
    → get_key c k ≡ (after_hit c d s, some json)
unfolding get_key
get_key_hit c k d s json e at j = ground arith

-- A hit of a valid cache, with the response that its slot holds.
pub record FullHit (k : Text) (l : List Slot) (d : ℕ) : Type 0 where
  pub base : Hit k l d
  pub json : Text
  pub holds : base.slot.json ≡ some json

pub full_hit : (k : Text) (l : List Slot) (d : ℕ) → Distinct l → Hit k l d → FullHit k l d
full_hit k l d ok h = go h.slot.json refl
  where
    whole : IsWhole h.slot
    whole = IsWhole-get_elem? l d h.slot h.at ok

    go : (o : Option Text) → h.slot.json ≡ o → FullHit k l d
    go none e = absurd (ground (arith, whole.no_key e, eq_of_has_key k h.slot h.has))
    go (some json) e = record { base = h; json = json; holds = e }

-- What `get` promises for a key: the stored response, an unchanged map, and one count more.
pub record IsRead (c : Cache) (k : Text) (r : Cache × Option Text) : Type 0 where
  pub result : r.1 ≡ lookup k c.entries
  pub keeps : (q : Text) → lookup q r.0.entries ≡ lookup q c.entries
  pub counted :
      (r.1 ≡ none) × (r.0.misses ≡ next_ulong c.misses) × (r.0.hits ≡ c.hits)
      ⊎ (r.1 ≢ none) × (r.0.misses ≡ c.misses) × (r.0.hits ≡ next_ulong c.hits)

-- On a valid cache, a get of a non-empty key returns the stored response, changes what is stored
-- under no key, and counts a hit where there is a response and else a miss.
pub get-IsRead :
    (c : Cache) (b : ℕ) (bs : Text) → IsValid c → IsRead c (b ∷ bs) (get c (some (b ∷ bs)))
unfolding get
get-IsRead c b bs v = go (Search-slots (b ∷ bs) c.entries)
  where
    hit_case :
        (d : ℕ)
        → find_from 0 (b ∷ bs) c.entries ≡ some d
        → FullHit (b ∷ bs) c.entries d
        → IsRead c (b ∷ bs) (get_key c (b ∷ bs))
    hit_case d e f =
        subst (IsRead c (b ∷ bs)) {x = (after_hit c d f.base.slot, some f.json)}
          (sym (get_key_hit c (b ∷ bs) d f.base.slot f.json e f.base.at f.holds))
          (record {
            result = sym f.holds ∙ sym f.base.reads;
            keeps = λ q. lookup-set_touch q c.entries d f.base.slot _ f.base.at;
            counted = inr ((λ n. cc), refl, refl);
          })

    go : Search (b ∷ bs) c.entries → IsRead c (b ∷ bs) (get_key c (b ∷ bs))
    go (miss e reads absent) =
        subst (IsRead c (b ∷ bs)) {x = (record c { misses = next_ulong c.misses }, none)}
          (sym (get_key_miss c (b ∷ bs) e))
          (record { result = sym reads; keeps = λ q. refl; counted = inl (refl, refl, refl) })
    go (hit d e h) = hit_case d e (full_hit (b ∷ bs) c.entries d v.distinct h)
