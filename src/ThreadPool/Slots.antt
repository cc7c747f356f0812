-- ===== src/ThreadPool/Slots.antt =====
-- src/threadpool.c: what the two loops over the worker slots do to the numbers of workers.
use jungle_w8_minisql_server.Prelude.{
  ℕ, zero, suc, ◌+◌, ◌*◌, min, ◌≤◌, ◌≡◌, refl, ap, subst, inl, inr, Bool, true, false, not, ◌&&◌,
  some, List, [], ◌∷◌, ◌++◌, length, get_elem?, set, replicate, length-append, arith, ltb,
  if◌then◌else◌, Bool-cases,
}
use jungle_w8_minisql_server.ThreadPool.Pool.{
  absent, running, Slot, empty_slot, new_worker, expand_slots, retire_slots,
}

unfoldable pub total : (Slot → ℕ) → List Slot → ℕ
total w [] = 0
total w (s ∷ l) = w s + total w l

-- A worker that counts in `n_workers`: alive and not asked to retire.
unfoldable pub serving : Slot → ℕ
serving s = if s.alive && not s.retiring then 1 else 0

-- A worker that runs a job.
unfoldable pub busy : Slot → ℕ
busy s = elim s.thread [ running job ↦ 1 | _ ↦ 0 ]

-- A slot that is not alive has no thread.
abbrev pub AllSound : List Slot → Type 0
AllSound [] = Unit
AllSound (s ∷ l) = (s.alive ≡ false → s.thread ≡ absent) × AllSound l

pub total-set :
    (w : Slot → ℕ) (l : List Slot) (i : ℕ) (s new : Slot)
    → get_elem? l i ≡ some s
    → total w (set l i new) + w s ≡ total w l + w new
unfolding total
total-set w [] i s new at = cc
total-set w (x ∷ l) zero s new at = ground arith
total-set w (x ∷ l) (suc i) s new at = omega (arith, total-set w l i s new at)

pub AllSound-set :
    (l : List Slot) (i : ℕ) (new : Slot)
    → (new.alive ≡ false → new.thread ≡ absent)
    → AllSound l
    → AllSound (set l i new)
AllSound-set [] i new h a = tt
AllSound-set (x ∷ l) zero new h a = (h, a.1)
AllSound-set (x ∷ l) (suc i) new h a = (a.0, AllSound-set l i new h a.1)

pub total-le : (l : List Slot) → total serving l ≤ length l
unfolding total serving
total-le [] = omega arith
total-le (s ∷ l) = ground (arith, total-le l)

-- What an expansion does to the slots: so many more serve, and nothing else is counted anew.
pub record Expanded (need : ℕ) (l : List Slot) (r : List Slot × ℕ) : Type 0 where
  pub size : length r.0 ≡ length l
  pub serves : total serving r.0 ≡ total serving l + r.1
  pub works : total busy r.0 ≡ total busy l
  pub sound : AllSound r.0
  pub few : r.1 ≤ need

keep_slot :
    (need : ℕ) (s : Slot) (l : List Slot) (r : List Slot × ℕ)
    → (s.alive ≡ false → s.thread ≡ absent)
    → Expanded (suc need) l r
    → Expanded (suc need) (s ∷ l) (s ∷ r.0, r.1)
unfolding total
keep_slot need s l r ok h = record {
  size = ap suc h.size;
  serves = omega (arith, h.serves);
  works = omega (arith, h.works);
  sound = (ok, h.sound);
  few = h.few;
}

fill_slot :
    (need : ℕ) (s : Slot) (l : List Slot) (r : List Slot × ℕ)
    → s.alive ≡ false
    → s.thread ≡ absent
    → Expanded need l r
    → Expanded (suc need) (s ∷ l) (new_worker ∷ r.0, suc r.1)
unfolding total serving busy
fill_slot need s l r down gone h = record {
  size = ap suc h.size;
  serves = ground (arith, h.serves);
  works = ground (arith, h.works);
  sound = ((λ e. cc), h.sound);
  few = omega (arith, h.few);
}

give_up :
    (need : ℕ) (s : Slot) (l : List Slot)
    → s.alive ≡ false
    → AllSound (s ∷ l)
    → Expanded (suc need) (s ∷ l) (record s { retiring = false } ∷ l, 0)
unfolding total serving busy
give_up need s l down a = record {
  size = refl;
  serves = ground arith;
  works = refl;
  sound = a;
  few = omega arith;
}

pub expand_slots-Expanded :
    (spawns : ℕ → Bool) (i need : ℕ) (l : List Slot)
    → AllSound l
    → Expanded need l (expand_slots spawns i need l)
unfolding expand_slots
expand_slots-Expanded spawns i need [] a = record {
  size = refl;
  serves = omega arith;
  works = refl;
  sound = tt;
  few = omega arith;
}
expand_slots-Expanded spawns i zero (s ∷ l) a = record {
  size = refl;
  serves = omega arith;
  works = refl;
  sound = a;
  few = omega arith;
}
expand_slots-Expanded spawns i (suc need) (s ∷ l) a = elim (Bool-cases s.alive) [
  | inl up ↦
      subst (Expanded (suc need) (s ∷ l)) {x = (s ∷ skipped.0, skipped.1)} (simp (up, expand_slots))
        (keep_slot need s l skipped (a.0) (expand_slots-Expanded spawns (suc i) (suc need) l a.1))
  | inr down ↦ elim (Bool-cases (spawns i)) [
    | inl ok ↦
        subst (Expanded (suc need) (s ∷ l)) {x = (new_worker ∷ rest.0, suc rest.1)}
          (simp (down, ok, expand_slots))
          (fill_slot need s l rest down (a.0 down)
            (expand_slots-Expanded spawns (suc i) need l a.1))
    | inr fails ↦
        subst (Expanded (suc need) (s ∷ l)) {x = (record s { retiring = false } ∷ l, 0)}
          (simp (down, fails, expand_slots)) (give_up need s l down a)
  ]
]
  where
    skipped : List Slot × ℕ
    skipped = expand_slots spawns (suc i) (suc need) l

    rest : List Slot × ℕ
    rest = expand_slots spawns (suc i) need l

-- What marking slots to retire does.
pub record Retired (need : ℕ) (l : List Slot) (r : List Slot × List ℕ) : Type 0 where
  pub size : length r.0 ≡ length l
  pub serves : total serving r.0 + length r.1 ≡ total serving l
  pub works : total busy r.0 ≡ total busy l
  pub sound : AllSound r.0
  pub exact : length r.1 ≡ min need (total serving l)

pub retire_slots-Retired :
    (i need : ℕ) (l : List Slot) → AllSound l → Retired need l (retire_slots i need l)
unfolding retire_slots total serving busy
retire_slots-Retired i need [] a = record {
  size = refl;
  serves = omega arith;
  works = refl;
  sound = tt;
  exact = omega arith;
}
retire_slots-Retired i need (s ∷ l) a =
    let h = retire_slots-Retired (suc i) need l a.1 in
    let higher = retire_slots (suc i) need l in
    record {
      size = ground (arith, h.size);
      serves = ground (arith, h.serves, length-append higher.1 (i ∷ []));
      works = ground (arith, h.works);
      sound = sound (s.alive && not s.retiring && ltb (length higher.1) need) h.sound;
      exact = ground (arith, h.exact, length-append higher.1 (i ∷ []));
    }
  where
    sound :
        (b : Bool)
        → AllSound (retire_slots (suc i) need l).0
        → AllSound
            (if◌then◌else◌ {A = List Slot × List ℕ} b
              (
                record s { retiring = true } ∷ (retire_slots (suc i) need l).0,
                (retire_slots (suc i) need l).1 ++ (i ∷ []),
              )
              (s ∷ (retire_slots (suc i) need l).0, (retire_slots (suc i) need l).1)).0
    sound true h = (a.0, h)
    sound false h = (a.0, h)

-- With enough free slots, and if every thread starts, an expansion adds all that it is asked for.
abbrev pub free : Slot → ℕ
free s = if s.alive then 0 else 1

pub expand_slots_full :
    (spawns : ℕ → Bool) (i need : ℕ) (l : List Slot)
    → ((j : ℕ) → spawns j ≡ true)
    → need ≤ total free l
    → (expand_slots spawns i need l).1 ≡ need
unfolding expand_slots total
expand_slots_full spawns i need [] ok h = omega arith
expand_slots_full spawns i zero (s ∷ l) ok h = refl
expand_slots_full spawns i (suc need) (s ∷ l) ok h = ground (
  arith,
  ok i,
  expand_slots_full spawns (suc i) (suc need) l ok,
  expand_slots_full spawns (suc i) need l ok,
)

pub total-replicate : (w : Slot → ℕ) (n : ℕ) (s : Slot) → total w (replicate n s) ≡ n * w s
unfolding total
total-replicate w zero s = omega arith
total-replicate w (suc n) s = grind (arith, total-replicate w n s)

pub AllSound-replicate : (n : ℕ) → AllSound (replicate n empty_slot)
AllSound-replicate zero = tt
AllSound-replicate (suc n) = ((λ e. refl), AllSound-replicate n)
