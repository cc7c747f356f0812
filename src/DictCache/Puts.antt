-- ===== src/DictCache/Puts.antt =====
-- src/dict_cache.c: which slot `dict_cache_put` writes, and what can be looked up afterwards.
use jungle_w8_minisql_server.Prelude.{
  ℕ, zero, suc, ◌+◌, ◌≤◌, ◌<◌, ◌≡◌, refl, subst, ◌⊎◌, inl, inr, ◌≢◌, true, false, none, some, List,
  [], ◌∷◌, length, get_elem?, set, Text, text_eq, arith, ltb, if◌then◌else◌, Bool-cases,
  Option-cases,
}
use jungle_w8_minisql_server.DictCache.Slots.{Slot, has_key, slot_from, slot_for_put}
use jungle_w8_minisql_server.DictCache.Reads.{
  lookup, present, Distinct, First, has_key-some, has_key-of_has_key, has_key-of_eq,
}

abbrev pub AllFull : List Slot → Type 0
AllFull [] = Unit
AllFull (s ∷ l) = (s.key ≢ none) × AllFull l

abbrev pub AllNewer : ℕ → List Slot → Type 0
AllNewer u [] = Unit
AllNewer u (s ∷ l) = (u ≤ s.last_used) × AllNewer u l

AllNewer-le : (u v : ℕ) (l : List Slot) → u ≤ v → AllNewer v l → AllNewer u l
AllNewer-le u v [] h n = tt
AllNewer-le u v (s ∷ l) h n = (omega arith, AllNewer-le u v l h n.1)

-- What the scan for a slot returns, started at index `i` with the oldest slot so far.
data Choice (i oldest u : ℕ) (l : List Slot) (j : ℕ) : Type 0 where
  free :
      (d : ℕ) (s : Slot) → j ≡ i + d → get_elem? l d ≡ some s → s.key ≡ none → Choice i oldest u l j
  kept : j ≡ oldest → AllFull l → AllNewer u l → Choice i oldest u l j
  older :
      (d : ℕ) (s : Slot)
      → j ≡ i + d
      → get_elem? l d ≡ some s
      → AllFull l
      → AllNewer s.last_used l
      → s.last_used < u
      → Choice i oldest u l j

Choice-older :
    (i o u : ℕ) (s : Slot) (l : List Slot) (j : ℕ)
    → s.key ≢ none
    → s.last_used < u
    → Choice (suc i) i s.last_used l j
    → Choice i o u (s ∷ l) j
Choice-older i o u s l j full lt (free d s' e at no_key) = free (suc d) s' (omega arith) at no_key
Choice-older i o u s l j full lt (kept e f n) =
    older 0 s (omega arith) refl (full, f) (omega arith, n) lt
Choice-older i o u s l j full lt (older d s' e at f n lt') =
    older (suc d) s' (omega arith) at (full, f) (omega arith, n) (omega arith)

Choice-kept :
    (i o u : ℕ) (s : Slot) (l : List Slot) (j : ℕ)
    → s.key ≢ none
    → u ≤ s.last_used
    → Choice (suc i) o u l j
    → Choice i o u (s ∷ l) j
Choice-kept i o u s l j full le (free d s' e at no_key) = free (suc d) s' (omega arith) at no_key
Choice-kept i o u s l j full le (kept e f n) = kept e (full, f) (le, n)
Choice-kept i o u s l j full le (older d s' e at f n lt') =
    older (suc d) s' (omega arith) at (full, f) (omega arith, n) lt'

slot_from-Choice : (i o u : ℕ) (l : List Slot) → Choice i o u l (slot_from i o u l)
unfolding slot_from
slot_from-Choice i o u [] = kept refl tt tt
slot_from-Choice i o u (s ∷ l) = elim (Option-cases s.key) [
  | inl e ↦
      subst (Choice i o u (s ∷ l)) {x = i} (simp (e, slot_from)) (free 0 s (omega arith) refl e)
  | inr (k, e) ↦ elim (Bool-cases (ltb s.last_used u)) [
    | inl h ↦ subst (Choice i o u (s ∷ l)) (simp (e, h, slot_from)) (
        Choice-older i o u s l _ (λ n. cc) (ground arith)
          (slot_from-Choice (suc i) i s.last_used l))
    | inr h ↦
        subst (Choice i o u (s ∷ l)) {x = slot_from (suc i) o u l} (simp (e, h, slot_from))
          (Choice-kept i o u s l _ (λ n. cc) (ground arith) (slot_from-Choice (suc i) o u l))
  ]
]

-- The slot that a `put` of a new key reuses.
pub record Reused (l : List Slot) (j : ℕ) : Type 0 where
  pub slot : Slot
  pub at : get_elem? l j ≡ some slot
  pub oldest : (slot.key ≡ none) ⊎ (AllFull l × AllNewer slot.last_used l)

pub slot_for_put-Reused : (l : List Slot) → 0 < length l → Reused l (slot_for_put l)
unfolding slot_for_put
slot_for_put-Reused [] h = absurd (omega arith)
slot_for_put-Reused (s ∷ l) h = go _ (slot_from-Choice 0 0 s.last_used (s ∷ l))
  where
    go : (j : ℕ) → Choice 0 0 s.last_used (s ∷ l) j → Reused (s ∷ l) j
    go j (free d s' e at no_key) = record { slot = s'; at = ground arith; oldest = inl no_key }
    go j (kept e f n) = record { slot = s; at = rw e; oldest = inr (f, n) }
    go j (older d s' e at f n lt) = record { slot = s'; at = ground arith; oldest = inr (f, n) }

abbrev pub filled : Text → Text → ℕ → Slot
filled k v u = record { key = some k; json = some v; last_used = u }

-- Writing a key's own slot changes that key alone.
pub lookup-set_hit :
    (q k v : Text) (u : ℕ) (l : List Slot) (d : ℕ)
    → First k l d
    → lookup q (set l d (filled k v u)) ≡ (if text_eq k q then some v else lookup q l)
unfolding lookup
lookup-set_hit q k v u [] d f = absurd f
lookup-set_hit q k v u (s ∷ l) zero f =
    ground (arith, has_key-of_has_key k q s f, has_key-some q k (filled k v u) refl)
lookup-set_hit q k v u (s ∷ l) (suc d) f =
    ground (arith, lookup-set_hit q k v u l d f.1, has_key-of_eq k q s)

pub lookup_absent : (q : Text) (l : List Slot) → present q l ≡ false → lookup q l ≡ none
unfolding lookup present
lookup_absent q [] h = refl
lookup_absent q (s ∷ l) h = ground (arith, lookup_absent q l)

present-get_elem? :
    (q : Text) (l : List Slot) (d : ℕ) (s : Slot)
    → get_elem? l d ≡ some s
    → has_key q s ≡ true
    → present q l ≡ true
unfolding present
present-get_elem? q [] d s at h = cc
present-get_elem? q (x ∷ l) zero s at h = ground arith
present-get_elem? q (x ∷ l) (suc d) s at h = ground (arith, present-get_elem? q l d s at h)

-- Writing another slot for a new key forgets the key that stood there.
pub lookup-set_miss :
    (q k v : Text) (u : ℕ) (l : List Slot) (d : ℕ) (old : Slot)
    → get_elem? l d ≡ some old
    → Distinct l
    → present k l ≡ false
    → lookup q (set l d (filled k v u))
      ≡ (if text_eq k q then some v else if has_key q old then none else lookup q l)
unfolding lookup present
lookup-set_miss q k v u [] d old at ok no_k = cc
lookup-set_miss q k v u (s ∷ l) zero old at ok no_k =
    ground (arith, has_key-some q k (filled k v u) refl, lookup_absent q l, ok.0 q)
lookup-set_miss q k v u (s ∷ l) (suc d) old at ok no_k = ground (
  arith,
  has_key-of_eq k q s,
  ok.0 q,
  present-get_elem? q l d old at,
  lookup-set_miss q k v u l d old at ok.3 (ground arith),
)
