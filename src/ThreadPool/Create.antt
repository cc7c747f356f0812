-- ===== src/ThreadPool/Create.antt =====
-- src/threadpool.c: `threadpool_create`.
use jungle_w8_minisql_server.Prelude.{
  ℕ, ◌+◌, ◌-◌, min, ◌≤◌, ◌<◌, ◌≡◌, refl, ap, sym, subst, ◌∙◌, inl, inr, ◌↔◌, Bool, true, false,
  ◌&&◌, ◌||◌, Option, none, some, List, [], replicate, length-replicate, arith, leb, ◌==◌,
  Bool-cases, if_cases, ℤ, pos, pos_part, neg_part, ltz, lez, parts_bound,
}
use jungle_w8_minisql_server.ThreadPool.Pool.{
  abs_max, Slot, empty_slot, Pool, expand_slots, expand_locked, blank_pool, queue_max_default,
  create,
}
use jungle_w8_minisql_server.ThreadPool.Slots.{
  total, serving, busy, expand_slots-Expanded, total-replicate, AllSound-replicate,
  expand_slots_full, free,
}
use jungle_w8_minisql_server.ThreadPool.Invariant.{IsSound}

abbrev started : (ℕ → Bool) → ℕ → List Slot × ℕ
started spawns n = expand_slots spawns 0 n (replicate abs_max empty_slot)

abbrev created : (ℕ → Bool) → ℕ → Pool
created spawns n = record (blank_pool n) {
  slots = (started spawns n).0;
  n_workers = 0 + (started spawns n).1;
}

expand_locked-blank_pool :
    (spawns : ℕ → Bool) (n : ℕ)
    → 0 < n
    → n ≤ abs_max
    → expand_locked spawns (blank_pool n) n ≡ (created spawns n, (started spawns n).1)
unfolding expand_locked
expand_locked-blank_pool spawns n some_asked fits =
    let e : min n abs_max ≡ n = omega arith in
    let d : n - 0 ≡ n = omega arith in let t : leb n 0 ≡ false = ground arith in simp (e, d, t)

-- A pool that starts with all its workers.
created-IsSound :
    (spawns : ℕ → Bool) (n : ℕ)
    → n ≤ abs_max
    → (started spawns n).1 ≡ n
    → IsSound (created spawns n)
unfolding serving busy
created-IsSound spawns n fits all =
    let e =
      expand_slots-Expanded spawns 0 n (replicate abs_max empty_slot)
        (AllSound-replicate abs_max) in
    let idle = total-replicate busy abs_max empty_slot in
    let none_serve = total-replicate serving abs_max empty_slot in
    record {
      sized = e.size ∙ length-replicate abs_max empty_slot;
      slots = e.sound;
      depth = refl;
      active = omega (arith, e.works, idle);
      workers = omega (arith, e.serves, none_serve);
      floor = omega arith;
      few = fits;
    }

fits : (n : ℤ) → (lez n (pos 0) || ltz (pos abs_max) n) ≡ false → pos_part n ≤ abs_max
unfolding pos_part neg_part
fits n h = ground (arith, parts_bound n)

-- What `threadpool_create` returns is sound, idle and has the workers asked for.
pub record IsNew (n : ℕ) (tp : Pool) : Type 0 where
  pub sound : IsSound tp
  pub workers : tp.n_workers ≡ n
  pub floor : tp.floor_workers ≡ n
  pub idle : tp.queue ≡ []
  pub unused : tp.active_workers ≡ 0
  pub bounded : tp.queue_max ≡ queue_max_default
  pub open_ : (tp.shutdown ≡ false) × (tp.submit_closed ≡ false)

created-IsNew :
    (spawns : ℕ → Bool) (n : ℕ)
    → n ≤ abs_max
    → (started spawns n).1 ≡ n
    → IsNew n (created spawns n)
created-IsNew spawns n fits all = record {
  sound = created-IsSound spawns n fits all;
  workers = omega arith;
  floor = refl;
  idle = refl;
  unused = refl;
  bounded = refl;
  open_ = (refl, refl);
}

abbrev Made : ℕ → Option Pool → Type 0
Made n none = Unit
Made n (some tp) = IsNew n tp

create-Made :
    (spawns : ℕ → Bool) (starts : Bool) (n : ℤ) → Made (pos_part n) (create spawns starts n)
unfolding create pos_part neg_part
create-Made spawns starts n =
    let k = pos_part n in
    if_cases (Made k) (lez n (pos 0) || ltz (pos abs_max) n) none _ (λ e. tt)
      (λ ok.
        let e =
          expand_locked-blank_pool spawns k (ground (arith, parts_bound n))
            (ground (arith, parts_bound n)) in
        if_cases (Made k) ((expand_locked spawns (blank_pool k) k).1 == k && starts)
          (some (expand_locked spawns (blank_pool k) k).0) none
          (λ all. rw e (
            created-IsNew spawns k (ground (arith, parts_bound n))
              (ap (λ (r : Pool × ℕ). r.1) (sym e) ∙ ground arith)))
          (λ e. tt))

-- A pool that is created for n workers is sound, has n workers and the floor n, and is idle and
-- open with the default queue limit.
pub create-IsNew :
    (spawns : ℕ → Bool) (monitor_starts : Bool) (n : ℤ) (tp : Pool)
    → create spawns monitor_starts n ≡ some tp
    → IsNew (pos_part n) tp
create-IsNew spawns starts n tp e = subst (Made (pos_part n)) e (create-Made spawns starts n)

-- Where every thread can be started, creating a pool fails exactly for a number of workers outside
-- 1 to 64.
pub create_starts :
    (spawns : ℕ → Bool) (n : ℤ)
    → ((j : ℕ) → spawns j ≡ true)
    → (create spawns true n ≡ none) ↔ ((lez n (pos 0) || ltz (pos abs_max) n) ≡ true)
unfolding create pos_part neg_part total
create_starts spawns n ok = (to_bounds, λ e. rw e)
  where
    to_bounds : create spawns true n ≡ none → (lez n (pos 0) || ltz (pos abs_max) n) ≡ true
    to_bounds e = elim (Bool-cases (lez n (pos 0) || ltz (pos abs_max) n)) [
      | inl out ↦ out
      | inr inside ↦
          let k = pos_part n in
          let eq =
            expand_locked-blank_pool spawns k (ground (arith, parts_bound n))
              (ground (arith, parts_bound n)) in
          let full : (started spawns k).1 ≡ k =
            expand_slots_full spawns 0 k (replicate abs_max empty_slot) ok
              (omega (arith, total-replicate free abs_max empty_slot, fits n inside)) in
          absurd (ground (arith, eq, full, e))
    ]
