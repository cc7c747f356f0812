-- ===== src/DictCache/Reads.antt =====
-- src/dict_cache.c: what the scans compute, and the map from keys to responses that the slots
-- stand for.
use jungle_w8_minisql_server.Prelude.{
  ℕ, zero, suc, ◌+◌, ◌<◌, ◌≡◌, refl, ap, sym, inl, inr, Bool, true, false, Option, none, some, List,
  [], ◌∷◌, length, get_elem?, Text, text_eq, eq_of_text_eq, arith, if◌then◌else◌, Bool-cases,
}
use jungle_w8_minisql_server.DictCache.Slots.{Slot, has_key, find_from}

-- The response that the first slot with the key holds.
unfoldable pub lookup : Text → List Slot → Option Text
lookup k [] = none
lookup k (s ∷ l) = if has_key k s then s.json else lookup k l

unfoldable pub present : Text → List Slot → Bool
present k [] = false
present k (s ∷ l) = if has_key k s then true else present k l

-- A key stands in one slot only, and a slot with a key has a response.
abbrev pub Distinct : List Slot → Type 0
Distinct [] = Unit
Distinct (s ∷ l) =
    ((k : Text) → has_key k s ≡ true → present k l ≡ false)
    × (s.key ≡ none → s.json ≡ none)
    × (s.json ≡ none → s.key ≡ none)
    × Distinct l

pub eq_of_has_key : (k : Text) (s : Slot) → has_key k s ≡ true → s.key ≡ some k
unfolding has_key
eq_of_has_key k s h = go s.key h
  where
    go : (o : Option Text) → elim o [ none ↦ false | some j ↦ text_eq j k ] ≡ true → o ≡ some k
    go none h = ground arith
    go (some j) h = ap some (eq_of_text_eq j k h)

pub has_key-some : (k j : Text) (s : Slot) → s.key ≡ some j → has_key k s ≡ text_eq j k
unfolding has_key
has_key-some k j s e = rw e

pub has_key-of_has_key : (k q : Text) (s : Slot) → has_key k s ≡ true → has_key q s ≡ text_eq k q
has_key-of_has_key k q s h = has_key-some q k s (eq_of_has_key k s h)

pub has_key-of_eq : (k q : Text) (s : Slot) → text_eq k q ≡ true → has_key q s ≡ has_key k s
has_key-of_eq k q s e = ap (λ t. has_key t s) (sym (eq_of_text_eq k q e))

-- The slot at the index is the first with the key.
abbrev pub First : Text → List Slot → ℕ → Type 0
First k [] d = ⊥
First k (s ∷ l) zero = has_key k s ≡ true
First k (s ∷ l) (suc d) = (has_key k s ≡ false) × First k l d

-- A hit: the slot at the index found has the key, and is the one that `lookup` reads.
pub record Hit (k : Text) (l : List Slot) (d : ℕ) : Type 0 where
  pub slot : Slot
  pub at : get_elem? l d ≡ some slot
  pub has : has_key k slot ≡ true
  pub reads : lookup k l ≡ slot.json
  pub inside : d < length l
  pub first : First k l d

-- What `dict_cache_find` returns, started at index `i`.
abbrev pub Found : ℕ → Text → List Slot → Option ℕ → Type 0
Found i k l none = (lookup k l ≡ none) × (present k l ≡ false)
Found i k l (some j) = (d : ℕ) × (j ≡ i + d) × Hit k l d × (present k l ≡ true)

Found-here :
    (i : ℕ) (k : Text) (s : Slot) (l : List Slot) → has_key k s ≡ true → Found i k (s ∷ l) (some i)
unfolding lookup present
Found-here i k s l h = (
  0,
  omega arith,
  record { slot = s; at = refl; has = h; reads = rw h; inside = omega arith; first = h },
  rw h,
)

Found-later :
    (i : ℕ) (k : Text) (s : Slot) (l : List Slot) (o : Option ℕ)
    → has_key k s ≡ false
    → Found (suc i) k l o
    → Found i k (s ∷ l) o
unfolding lookup present
Found-later i k s l none h f = rw h f
Found-later i k s l (some j) h (d, e, hit, p) = (
  suc d,
  omega arith,
  record {
    slot = hit.slot;
    at = hit.at;
    has = hit.has;
    reads = rw h hit.reads;
    inside = omega arith;
    first = (h, hit.first);
  },
  rw h p,
)

pub find_from-Found : (i : ℕ) (k : Text) (l : List Slot) → Found i k l (find_from i k l)
unfolding find_from lookup present
find_from-Found i k [] = (refl, refl)
find_from-Found i k (s ∷ l) = elim (Bool-cases (has_key k s)) [
  | inl h ↦ rw (h, find_from) (Found-here i k s l h)
  | inr h ↦ rw (h, find_from) (Found-later i k s l _ h (find_from-Found (suc i) k l))
]
