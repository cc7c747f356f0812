-- ===== src/DictCache/Valid.antt =====
-- src/dict_cache.c: the invariant of the slots, and the writes that keep it.
use jungle_w8_minisql_server.Prelude.{
  ℕ, zero, suc, ◌+◌, ◌≤◌, ◌<◌, ◌≡◌, refl, ◌∙◌, inl, inr, true, false, none, some, List, [], ◌∷◌,
  length, get_elem?, set, replicate, length-set, length-replicate, Text, arith, Bool-cases, ℤ,
  pos_part, neg_part,
}
use jungle_w8_minisql_server.DictCache.Slots.{
  Slot, Cache, free_slot, has_key, create, next_ulong, ulong_mod,
}
use jungle_w8_minisql_server.DictCache.Reads.{present, Distinct, First}

-- No slot but the one at the index has the key.
abbrev pub Only : Text → List Slot → ℕ → Type 0
Only q [] d = Unit
Only q (s ∷ l) zero = present q l ≡ false
Only q (s ∷ l) (suc d) = (has_key q s ≡ false) × Only q l d

abbrev pub AllOlder : ℕ → List Slot → Type 0
AllOlder u [] = Unit
AllOlder u (s ∷ l) = (s.last_used ≤ u) × AllOlder u l

pub Only-of_First : (q : Text) (l : List Slot) (d : ℕ) → First q l d → Distinct l → Only q l d
Only-of_First q [] d f ok = tt
Only-of_First q (s ∷ l) zero f ok = ok.0 q f
Only-of_First q (s ∷ l) (suc d) f ok = (f.0, Only-of_First q l d f.1 ok.3)

pub Only-of_absent : (q : Text) (l : List Slot) (d : ℕ) → present q l ≡ false → Only q l d
unfolding present
Only-of_absent q [] d h = tt
Only-of_absent q (s ∷ l) zero h = ground arith
Only-of_absent q (s ∷ l) (suc d) h = (ground arith, Only-of_absent q l d (ground arith))

present-set :
    (q : Text) (l : List Slot) (d : ℕ) (new : Slot)
    → has_key q new ≡ false
    → present q l ≡ false
    → present q (set l d new) ≡ false
unfolding present
present-set q [] d new h p = refl
present-set q (s ∷ l) zero new h p = ground arith
present-set q (s ∷ l) (suc d) new h p = ground (arith, present-set q l d new)

-- A slot that has both a key and a response, or neither.
pub record IsWhole (s : Slot) : Type 0 where
  pub no_json : s.key ≡ none → s.json ≡ none
  pub no_key : s.json ≡ none → s.key ≡ none

pub Distinct-set :
    (l : List Slot) (d : ℕ) (new : Slot)
    → IsWhole new
    → ((q : Text) → has_key q new ≡ true → Only q l d)
    → Distinct l
    → Distinct (set l d new)
Distinct-set [] d new whole only ok = tt
Distinct-set (s ∷ l) zero new whole only ok = (only, whole.no_json, whole.no_key, ok.3)
Distinct-set (s ∷ l) (suc d) new whole only ok = (
  λ q h. elim (Bool-cases (has_key q new)) [
    | inl e ↦ absurd (ground (arith, only q e))
    | inr e ↦ present-set q l d new e (ok.0 q h)
  ],
  ok.1,
  ok.2,
  Distinct-set l d new whole (λ q h. (only q h).1) ok.3,
)

pub AllOlder-set :
    (u : ℕ) (l : List Slot) (d : ℕ) (new : Slot)
    → new.last_used ≤ u
    → AllOlder u l
    → AllOlder u (set l d new)
AllOlder-set u [] d new h a = tt
AllOlder-set u (s ∷ l) zero new h a = (h, a.1)
AllOlder-set u (s ∷ l) (suc d) new h a = (a.0, AllOlder-set u l d new h a.1)

pub AllOlder-le : (u v : ℕ) (l : List Slot) → u ≤ v → AllOlder u l → AllOlder v l
AllOlder-le u v [] h a = tt
AllOlder-le u v (s ∷ l) h a = (omega arith, AllOlder-le u v l h a.1)

pub record IsValid (c : Cache) : Type 0 where
  pub sized : length c.entries ≡ c.capacity
  pub positive : 0 < c.capacity
  pub distinct : Distinct c.entries
  pub stamped : AllOlder c.clock c.entries

abbrev pub write : Cache → ℕ → Slot → Cache
write c i s = record c { entries = set c.entries i s; clock = next_ulong c.clock }

next_ulong-eq : (n : ℕ) → n + 1 < ulong_mod → next_ulong n ≡ n + 1
unfolding next_ulong
next_ulong-eq n h = omega arith

-- The common shape of `put` and of a hit of `get`.
pub write-IsValid :
    (c : Cache) (i : ℕ) (new : Slot)
    → c.clock + 1 < ulong_mod
    → IsWhole new
    → new.last_used ≡ next_ulong c.clock
    → ((q : Text) → has_key q new ≡ true → Only q c.entries i)
    → IsValid c
    → IsValid (write c i new)
write-IsValid c i new room whole stamp only v =
    let e = next_ulong-eq c.clock room in
    record {
      sized = length-set c.entries i new ∙ v.sized;
      positive = v.positive;
      distinct = Distinct-set c.entries i new whole only v.distinct;
      stamped =
          AllOlder-set (next_ulong c.clock) c.entries i new (omega arith)
            (AllOlder-le c.clock (next_ulong c.clock) c.entries (omega arith) v.stamped);
    }

pub IsWhole-get_elem? :
    (l : List Slot) (d : ℕ) (s : Slot) → get_elem? l d ≡ some s → Distinct l → IsWhole s
IsWhole-get_elem? [] d s at ok = cc
IsWhole-get_elem? (x ∷ l) zero s at ok = record { no_json = ground (arith); no_key = ground arith }
IsWhole-get_elem? (x ∷ l) (suc d) s at ok = IsWhole-get_elem? l d s at ok.3

create-entries :
    (n : ℕ) (k : Text)
    → (present k (replicate n free_slot) ≡ false)
      × Distinct (replicate n free_slot)
      × AllOlder 0 (replicate n free_slot)
unfolding present has_key
create-entries zero k = (refl, tt, tt)
create-entries (suc n) k =
    let (p, d, a) = create-entries n k in
    (p, (λ q h. cc, λ e. refl, λ e. refl, d), (omega arith, a))

-- A new cache is valid, whatever capacity is asked for.
pub create-IsValid : (capacity : ℤ) → IsValid (create capacity)
unfolding create pos_part neg_part
create-IsValid capacity = record {
  sized = length-replicate _ free_slot;
  positive = ground arith;
  distinct = (create-entries _ []).1;
  stamped = (create-entries _ []).2;
}
