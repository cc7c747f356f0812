-- ===== src/ThreadPool/Invariant.antt =====
-- src/threadpool.c: the invariant of the pool, and that every locked section keeps it.
use jungle_w8_minisql_server.Prelude.{
  ℕ, ◌-◌, min, max, ◌≤◌, ◌≡◌, refl, ap, sym, ◌∙◌, inl, inr, Bool, true, Option, none, some, List,
  [], ◌∷◌, length, get_elem?, length-append, length-set, arith, leb, Bool-cases,
}
use jungle_w8_minisql_server.ThreadPool.Pool.{
  Job, abs_max, waiting, running, exited, Slot, empty_slot, Pool, submit, begin_job, end_job,
  exit_worker, expand_locked, mark_retire_locked, join_slot,
}
use jungle_w8_minisql_server.ThreadPool.Slots.{
  total, serving, busy, AllSound, total-set, AllSound-set, expand_slots-Expanded,
  retire_slots-Retired,
}

-- The counters of the pool say what its queue and its slots hold.
pub record IsSound (tp : Pool) : Type 0 where
  pub sized : length tp.slots ≡ abs_max
  pub slots : AllSound tp.slots
  pub depth : tp.queue_depth ≡ length tp.queue
  pub active : tp.active_workers ≡ total busy tp.slots
  pub workers : tp.n_workers ≡ total serving tp.slots
  pub floor : tp.floor_workers ≤ tp.n_workers
  pub few : tp.floor_workers ≤ abs_max

module _ (tp : Pool) (h : IsSound tp) where
  pub submit-IsSound : (job : Option Job) → IsSound (submit tp job).0
  unfolding submit
  submit-IsSound none = h
  submit-IsSound (some job) = ground (arith, length-append tp.queue (job ∷ []), h)

  module _ (i : ℕ) (s : Slot) (at : get_elem? tp.slots i ≡ some s) where
    -- A section that changes one slot, with the job counts that it leaves.
    pub begin_job-IsSound :
        (job : Job) (rest : List Job)
        → s.thread ≡ waiting
        → s.alive ≡ true
        → tp.queue ≡ job ∷ rest
        → IsSound (begin_job tp i s job rest)
    unfolding begin_job serving busy
    begin_job-IsSound job rest w up q =
        let new : Slot = record s { thread = running job } in
        record {
          sized = length-set tp.slots i new ∙ h.sized;
          slots = AllSound-set tp.slots i new (λ e. cc) h.slots;
          depth = omega (arith, ap length q, h.depth);
          active = ground (arith, total-set busy tp.slots i s new at, h.active);
          workers = ground (arith, total-set serving tp.slots i s new at, h.workers);
          floor = h.floor;
          few = h.few;
        }

    pub end_job-IsSound :
        (job : Job) → s.thread ≡ running job → s.alive ≡ true → IsSound (end_job tp i s)
    unfolding end_job serving busy
    end_job-IsSound job w up =
        let new : Slot = record s { thread = waiting } in
        record {
          sized = length-set tp.slots i new ∙ h.sized;
          slots = AllSound-set tp.slots i new (λ e. cc) h.slots;
          depth = h.depth;
          active = ground (arith, total-set busy tp.slots i s new at, h.active);
          workers = ground (arith, total-set serving tp.slots i s new at, h.workers);
          floor = h.floor;
          few = h.few;
        }

    pub exit_worker-IsSound : s.thread ≡ waiting → s.alive ≡ true → IsSound (exit_worker tp i s)
    unfolding exit_worker serving busy
    exit_worker-IsSound w up =
        let new : Slot = record s { thread = exited } in
        record {
          sized = length-set tp.slots i new ∙ h.sized;
          slots = AllSound-set tp.slots i new (λ e. cc) h.slots;
          depth = h.depth;
          active = ground (arith, total-set busy tp.slots i s new at, h.active);
          workers = ground (arith, total-set serving tp.slots i s new at, h.workers);
          floor = h.floor;
          few = h.few;
        }

    pub join_slot-IsSound : s.thread ≡ exited → s.retiring ≡ true → IsSound (join_slot tp i s)
    unfolding join_slot serving busy
    join_slot-IsSound w r = record {
      sized = length-set tp.slots i empty_slot ∙ h.sized;
      slots = AllSound-set tp.slots i empty_slot (λ e. refl) h.slots;
      depth = h.depth;
      active = ground (arith, total-set busy tp.slots i s empty_slot at, h.active);
      workers = ground (arith, total-set serving tp.slots i s empty_slot at, h.workers);
      floor = h.floor;
      few = h.few;
    }

  pub expand_locked-IsSound : (spawns : ℕ → Bool) (n : ℕ) → IsSound (expand_locked spawns tp n).0
  unfolding expand_locked
  expand_locked-IsSound spawns n = elim (Bool-cases (leb (min n abs_max) tp.n_workers)) [
    | inl no_op ↦ rw no_op h
    | inr grows ↦
        let e = expand_slots-Expanded spawns 0 (min n abs_max - tp.n_workers) tp.slots h.slots in
        rw grows (record {
          sized = e.size ∙ h.sized;
          slots = e.sound;
          depth = h.depth;
          active = h.active ∙ sym e.works;
          workers = omega (arith, e.serves, h.workers);
          floor = omega (arith, h.floor);
          few = h.few;
        })
  ]

  pub mark_retire_locked-IsSound : (n cap : ℕ) → IsSound (mark_retire_locked tp n cap).0
  unfolding mark_retire_locked
  mark_retire_locked-IsSound n cap = elim (Bool-cases (leb tp.n_workers (max n tp.floor_workers))) [
    | inl no_op ↦ rw no_op h
    | inr cuts ↦
        let need = min (tp.n_workers - max n tp.floor_workers) cap in
        let r = retire_slots-Retired 0 need tp.slots h.slots in
        rw cuts (record {
          sized = r.size ∙ h.sized;
          slots = r.sound;
          depth = h.depth;
          active = h.active ∙ sym r.works;
          workers = omega (arith, r.serves, h.workers);
          floor = ground (arith, r.exact, h.floor);
          few = h.few;
        })
  ]
