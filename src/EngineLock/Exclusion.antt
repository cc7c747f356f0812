-- ===== src/EngineLock/Exclusion.antt =====
-- src/engine_lock.c: a table that is locked for writing is locked for all others until its release.
use jungle_w8_minisql_server.Prelude.{
  ℕ, zero, suc, ◌+◌, ◌≤◌, ◌<◌, ◌≡◌, refl, ap, sym, subst, ◌∙◌, inl, inr, Bool, ◌&&◌, Option, none,
  some, List, [], ◌∷◌, length, get_elem?, set, get_elem?-set_self, Text, text_eq_refl, arith,
  if◌then◌else◌, Bool-cases,
}
use jungle_w8_minisql_server.EngineLock.Slots.{
  RwLock, free, readers, writer, TableLock, same_name, find_from, registry_find_locked,
  registry_get_or_create_locked, rdlock, wrlock, unlock, take_lock, table_read, table_write,
  release_at, table_release,
}
use jungle_w8_minisql_server.EngineLock.Register.{find-get_or_create}

abbrev locked : TableLock → RwLock → TableLock
locked s k = record s { lock = k }

some_inj : {A : Type 0} → (x s : A) → some x ≡ some s → x ≡ s
some_inj x s e = ap (λ o. elim o [ none ↦ x | some y ↦ y ]) e

-- A lock that changes hands leaves its slot where it is found.
find_from-set :
    (j i : ℕ) (q : Text) (l : List TableLock) (s : TableLock) (k : RwLock)
    → get_elem? l i ≡ some s
    → find_from j q (set l i (locked s k)) ≡ find_from j q l
unfolding find_from
find_from-set j i q [] s k at = refl
find_from-set j zero q (x ∷ l) s k at =
    ap (λ (y : TableLock). if y.used && same_name y.name q then some j else find_from (suc j) q l)
      (sym (some_inj x s at))
find_from-set j (suc i) q (x ∷ l) s k at =
    ap (λ r. if x.used && same_name x.name q then some j else r)
      (find_from-set (suc j) i q l s k at)

set-set_self :
    (l : List TableLock) (i : ℕ) (s t : TableLock)
    → get_elem? l i ≡ some s
    → set (set l i t) i s ≡ l
set-set_self [] i s t at = refl
set-set_self (x ∷ l) zero s t at = ap (λ y. y ∷ l) (sym (some_inj x s at))
set-set_self (x ∷ l) (suc i) s t at = ap (λ r. x ∷ r) (set-set_self l i s t at)

-- The slot that is found is there.
record Present (j m : ℕ) (l : List TableLock) : Type 0 where
  at : ℕ
  is : m ≡ j + at
  slot : TableLock
  holds : get_elem? l at ≡ some slot

find_from-Present :
    (j m : ℕ) (q : Text) (l : List TableLock) → find_from j q l ≡ some m → Present j m l
unfolding find_from
find_from-Present j m q [] h = absurd (cc)
find_from-Present j m q (x ∷ l) h = elim (Bool-cases (x.used && same_name x.name q)) [
  | inl here ↦ record {
    at = 0;
    is = some_inj m j (sym h ∙ rw here refl) ∙ (omega arith);
    slot = x;
    holds = refl;
  }
  | inr later ↦
      let p = find_from-Present (suc j) m q l (sym (rw later refl) ∙ h) in
      record { at = suc p.at; is = omega (arith, p.is); slot = p.slot; holds = p.holds }
]

-- What `table_write` leaves when it does not wait.
record Writing (l : List TableLock) (i : ℕ) (after : List TableLock) : Type 0 where
  slot : TableLock
  at : get_elem? l i ≡ some slot
  was : slot.lock ≡ free
  is : after ≡ set l i (locked slot writer)

take_lock-at :
    (acquire : RwLock → Option RwLock) (l : List TableLock) (i : ℕ) (s : TableLock)
    → get_elem? l i ≡ some s
    → take_lock acquire l (some i)
      ≡ elim (acquire s.lock) [ none ↦ none | some k ↦ some (set l i (locked s k)) ]
unfolding take_lock
take_lock-at acquire l i s at = rw (at, take_lock) refl

wrlock-Writing :
    (l after : List TableLock) (i : ℕ) (s : TableLock) (k : RwLock)
    → s.lock ≡ k
    → get_elem? l i ≡ some s
    → elim (wrlock k) [ none ↦ none | some k' ↦ some (set l i (locked s k')) ] ≡ some after
    → Writing l i after
unfolding wrlock
wrlock-Writing l after i s free e at h = record {
  slot = s;
  at = at;
  was = e;
  is = sym (some_inj _ after h);
}
wrlock-Writing l after i s (readers n) e at h = absurd (cc)
wrlock-Writing l after i s writer e at h = absurd (cc)

take_lock-Writing :
    (l after : List TableLock) (i : ℕ) (s : TableLock)
    → get_elem? l i ≡ some s
    → take_lock wrlock l (some i) ≡ some after
    → Writing l i after
take_lock-Writing l after i s at h =
    wrlock-Writing l after i s s.lock refl at (sym (take_lock-at wrlock l i s at) ∙ h)

-- The slot of a table with a slot, after its lock has changed hands.
get_or_create_again :
    (inits : Bool) (l : List TableLock) (i : ℕ) (t : Text)
    → registry_find_locked l t ≡ some i
    → registry_get_or_create_locked inits l t ≡ (l, some i)
unfolding registry_get_or_create_locked
get_or_create_again inits l i t e = rw (e, registry_get_or_create_locked) refl

get_elem?-in_range :
    (l : List TableLock) (i : ℕ) (s : TableLock) → get_elem? l i ≡ some s → i < length l
get_elem?-in_range [] i s h = absurd (cc)
get_elem?-in_range (x ∷ l) zero s h = omega arith
get_elem?-in_range (x ∷ l) (suc i) s h = omega (arith, get_elem?-in_range l i s h)

waits :
    (l : List TableLock) (i : ℕ) (s : TableLock)
    → get_elem? l i ≡ some (locked s writer)
    → (take_lock rdlock l (some i) ≡ none) × (take_lock wrlock l (some i) ≡ none)
unfolding rdlock wrlock
waits l i s at =
    (take_lock-at rdlock l i (locked s writer) at, take_lock-at wrlock l i (locked s writer) at)

-- The state in which one table is locked for writing.
pub record IsExclusive (inits : Bool) (before after : List TableLock) (t : Text) : Type 0 where
  pub reads_wait : table_read inits after t ≡ none
  pub writes_wait : table_write inits after t ≡ none
  pub released : table_release after t ≡ (registry_get_or_create_locked inits before t).0

release_at_slot :
    (l : List TableLock) (i : ℕ) (s : TableLock)
    → get_elem? l i ≡ some s
    → release_at l (some i) ≡ set l i (locked s (unlock s.lock))
unfolding release_at
release_at_slot l i s at = rw (at, release_at) refl

released_slot :
    (l after : List TableLock) (i : ℕ) → Writing l i after → release_at after (some i) ≡ l
unfolding unlock
released_slot l after i w =
    let at_after =
      get_elem?-set_self l i (locked w.slot writer) (get_elem?-in_range l i w.slot w.at) in
    ap (λ a. release_at a (some i)) w.is
    ∙ release_at_slot (set l i (locked w.slot writer)) i (locked w.slot writer) at_after
    ∙ ap (λ k. set (set l i (locked w.slot writer)) i (locked w.slot k)) (sym w.was)
    ∙ set-set_self l i w.slot (locked w.slot writer) w.at

found_again :
    (l after : List TableLock) (i : ℕ) (t : Text)
    → Writing l i after
    → registry_find_locked l t ≡ some i
    → registry_find_locked after t ≡ some i
unfolding registry_find_locked
found_again l after i t w found =
    ap (find_from 0 t) w.is ∙ find_from-set 0 i t l w.slot writer w.at ∙ found

waiting :
    (l after : List TableLock) (i : ℕ)
    → Writing l i after
    → (take_lock rdlock after (some i) ≡ none) × (take_lock wrlock after (some i) ≡ none)
waiting l after i w =
    subst (λ a. (take_lock rdlock a (some i) ≡ none) × (take_lock wrlock a (some i) ≡ none))
      (sym w.is)
      (waits (set l i (locked w.slot writer)) i w.slot
        (get_elem?-set_self l i (locked w.slot writer) (get_elem?-in_range l i w.slot w.at)))

Writing-slot :
    (l after : List TableLock) (i : ℕ) (t : Text)
    → registry_find_locked l t ≡ some i
    → take_lock wrlock l (some i) ≡ some after
    → Writing l i after
unfolding registry_find_locked
Writing-slot l after i t found h =
    let p = find_from-Present 0 i t l found in
    take_lock-Writing l after i p.slot (ap (get_elem? l) (p.is ∙ same p.at) ∙ p.holds) h
  where
    same : (n : ℕ) → 0 + n ≡ n
    same n = omega arith

-- Where a table with a name under 64 bytes has a slot and its write lock is taken without waiting,
-- every reader and every writer of the table then waits, and the release leaves the registry as it
-- was with the slot registered.
pub table_write-IsExclusive :
    (inits : Bool) (l after : List TableLock) (t : Text) (i : ℕ)
    → length t ≤ 63
    → (registry_get_or_create_locked inits l t).1 ≡ some i
    → table_write inits l t ≡ some after
    → IsExclusive inits l after t
unfolding table_write table_read table_release
table_write-IsExclusive inits l after t i short slot h =
    let r = registry_get_or_create_locked inits l t in
    let found : registry_find_locked r.0 t ≡ some i =
      find-get_or_create inits l t t short short
      ∙ ap (λ b. if b then r.1 else registry_find_locked l t) (text_eq_refl t)
      ∙ slot in
    let w = Writing-slot r.0 after i t found (sym (ap (take_lock wrlock r.0) slot) ∙ h) in
    let again = found_again r.0 after i t w found in
    let g = get_or_create_again inits after i t again in
    record {
      reads_wait =
          ap (λ (p : List TableLock × Option ℕ). take_lock rdlock p.0 p.1) g
          ∙ (waiting r.0 after i w).0;
      writes_wait =
          ap (λ (p : List TableLock × Option ℕ). take_lock wrlock p.0 p.1) g
          ∙ (waiting r.0 after i w).1;
      released = ap (release_at after) again ∙ released_slot r.0 after i w;
    }
