-- ===== src/ThreadPool/Fifo.antt =====
-- src/threadpool.c: jobs are begun in the order in which they were accepted, each once, and the
-- counters that clients read say where they are.
use mathlib.Core.List.{append_assoc}
use jungle_w8_minisql_server.Prelude.{
  ℕ, ◌+◌, ◌-◌, min, max, ◌<◌, ◌≡◌, refl, ap, sym, ◌∙◌, ◌⊎◌, inl, inr, Bool, ◌||◌, some, List, [],
  ◌∷◌, ◌++◌, length, get_elem?, length-append, arith, ltb, leb, if◌then◌else◌, if_both, ℤ, pos,
  negsuc, pos_part, neg_part, ltz, lez, eqz,
}
use jungle_w8_minisql_server.ThreadPool.Pool.{
  Job, abs_max, soft_max, running, Slot, empty_slot, Pool, submit, begin_job, end_job, exit_worker,
  expand_locked, mark_retire_locked, join_slot, high_sample, low_sample, monitor_round, resize,
  set_queue_max, close_submit, stop_monitor, begin_shutdown, util_pct,
}
use jungle_w8_minisql_server.ThreadPool.Slots.{busy, total-set}
use jungle_w8_minisql_server.ThreadPool.Invariant.{IsSound}
use jungle_w8_minisql_server.ThreadPool.World.{
  World, submit_call, Step, submitted, woke, finished, left, joined, sampled, resized, limited,
  closed, stopped, shut, wake-queue,
}

-- What resizing leaves alone.
abbrev pub SameJobs : Pool → Pool → Type 0
SameJobs tp tq =
    (tq.queue ≡ tp.queue)
    × (tq.active_workers ≡ tp.active_workers)
    × (tq.floor_workers ≡ tp.floor_workers)
    × (tq.shutdown ≡ tp.shutdown)
    × (tq.submit_closed ≡ tp.submit_closed)
    × (tq.queue_depth ≡ tp.queue_depth)

expand_locked-SameJobs :
    (spawns : ℕ → Bool) (tp : Pool) (n : ℕ) → SameJobs tp (expand_locked spawns tp n).0
unfolding expand_locked
expand_locked-SameJobs spawns tp n =
    if_both (λ (r : Pool × ℕ). SameJobs tp r.0) (leb (min n abs_max) tp.n_workers) (tp, 0) _
      (refl, refl, refl, refl, refl, refl) (refl, refl, refl, refl, refl, refl)

mark_retire_locked-SameJobs : (tp : Pool) (n cap : ℕ) → SameJobs tp (mark_retire_locked tp n cap).0
unfolding mark_retire_locked
mark_retire_locked-SameJobs tp n cap =
    if_both (λ (r : Pool × List ℕ). SameJobs tp r.0) (leb tp.n_workers (max n tp.floor_workers))
      (tp, []) _ (refl, refl, refl, refl, refl, refl) (refl, refl, refl, refl, refl, refl)

high_sample-SameJobs : (spawns : ℕ → Bool) (tp : Pool) → SameJobs tp (high_sample spawns tp)
unfolding high_sample
high_sample-SameJobs spawns tp =
    if_both (λ r. SameJobs tp r) _ _ _
      (expand_locked-SameJobs spawns
        (record tp { high_consecutive = tp.high_consecutive + 1; low_consecutive = 0 }) _)
      (refl, refl, refl, refl, refl, refl)

low_sample-SameJobs : (tp : Pool) → SameJobs tp (low_sample tp).0
unfolding low_sample
low_sample-SameJobs tp =
    if_both (λ (r : Pool × List ℕ). SameJobs tp r.0) _ _ _
      (mark_retire_locked-SameJobs
        (record tp { low_consecutive = tp.low_consecutive + 1; high_consecutive = 0 }) _ _)
      (refl, refl, refl, refl, refl, refl)

pub monitor_round-SameJobs :
    (spawns : ℕ → Bool) (tp : Pool) → SameJobs tp (monitor_round spawns tp).0
unfolding monitor_round
monitor_round-SameJobs spawns tp =
    let P = λ (r : Pool × List ℕ). SameJobs tp r.0 in
    if_both P (tp.monitor_should_exit || tp.shutdown) (tp, []) _
      (refl, refl, refl, refl, refl, refl)
      (if_both P (ltb 0 tp.skip_samples) (record tp { skip_samples = tp.skip_samples - 1 }, []) _
        (refl, refl, refl, refl, refl, refl)
        (if_both P (leb 80 (util_pct tp)) (high_sample spawns tp, []) _
          (high_sample-SameJobs spawns tp)
          (if_both P (leb (util_pct tp) 30) (low_sample tp)
            (record tp { high_consecutive = 0; low_consecutive = 0 }, []) (low_sample-SameJobs tp)
            (refl, refl, refl, refl, refl, refl))))

pub resize-SameJobs : (spawns : ℕ → Bool) (tp : Pool) (n : ℤ) → SameJobs tp (resize spawns tp n).0
unfolding resize
resize-SameJobs spawns tp n =
    let P = λ (r : Pool × List ℕ × ℤ). SameJobs tp r.0 in
    let target = max (min (pos_part n) soft_max) tp.floor_workers in
    if_both P (lez n (pos 0)) (tp, [], negsuc 0) _ (refl, refl, refl, refl, refl, refl)
      (if_both P (tp.shutdown || tp.submit_closed) (tp, [], negsuc 0) _
        (refl, refl, refl, refl, refl, refl)
        (if_both P (ltb tp.n_workers target) ((expand_locked spawns tp target).0, [], pos 0) _
          (expand_locked-SameJobs spawns tp target)
          (if_both P (ltb target tp.n_workers)
            (
              (mark_retire_locked tp target abs_max).0,
              (mark_retire_locked tp target abs_max).1,
              pos 0,
            )
            (tp, [], pos 0) (mark_retire_locked-SameJobs tp target abs_max)
            (refl, refl, refl, refl, refl, refl))))

-- The accepted jobs are those begun, in that order, and then those in the queue; and the jobs
-- begun are those ended and those that workers run.
pub record IsFifo (w : World) : Type 0 where
  pub order : w.accepted ≡ w.began ++ w.pool.queue
  pub runs : length w.began ≡ length w.ended + w.pool.active_workers

pub SameJobs-IsFifo :
    (w : World) (tq : Pool) → SameJobs w.pool tq → IsFifo w → IsFifo (record w { pool = tq })
SameJobs-IsFifo w tq s f = record {
  order = f.order ∙ ap (λ t. w.began ++ t) (sym s.0);
  runs = omega (arith, f.runs, s.1);
}

-- `submit` accepts a job by appending it to the queue, or refuses it and changes no queue.
pub submit_cases :
    (tp : Pool) (job : Job)
    → ((submit tp (some job)).1 ≡ pos 0)
        × ((submit tp (some job)).0.queue ≡ tp.queue ++ (job ∷ []))
        × ((submit tp (some job)).0.active_workers ≡ tp.active_workers)
      ⊎ ((submit tp (some job)).1 ≡ negsuc 0)
        × ((submit tp (some job)).0.queue ≡ tp.queue)
        × ((submit tp (some job)).0.active_workers ≡ tp.active_workers)
unfolding submit
submit_cases tp job = ground arith

on_ok : (z : ℤ) (a b : List Job) → z ≡ pos 0 → (if eqz z (pos 0) then a else b) ≡ a
unfolding pos_part neg_part
on_ok z a b e = ap (λ y. if eqz y (pos 0) then a else b) e

pub on_error : (z : ℤ) (a b : List Job) → z ≡ negsuc 0 → (if eqz z (pos 0) then a else b) ≡ b
unfolding pos_part neg_part
on_error z a b e = ap (λ y. if eqz y (pos 0) then a else b) e

submit_call-IsFifo : (w : World) (job : Job) → IsFifo w → IsFifo (submit_call w job)
unfolding submit_call
submit_call-IsFifo w job f = go (submit_cases w.pool job)
  where
    r : Pool × ℤ
    r = submit w.pool (some job)

    go :
        (r.1 ≡ pos 0)
            × (r.0.queue ≡ w.pool.queue ++ (job ∷ []))
            × (r.0.active_workers ≡ w.pool.active_workers)
          ⊎ (r.1 ≡ negsuc 0)
            × (r.0.queue ≡ w.pool.queue)
            × (r.0.active_workers ≡ w.pool.active_workers)
        → IsFifo (submit_call w job)
    go (inl (ok, q, a)) = record {
      order =
          on_ok r.1 (w.accepted ++ (job ∷ [])) w.accepted ok
          ∙ ap (λ t. t ++ (job ∷ [])) f.order
          ∙ append_assoc w.began w.pool.queue (job ∷ [])
          ∙ ap (λ t. w.began ++ t) (sym q);
      runs = omega (arith, f.runs);
    }
    go (inr (no_, q, a)) = record {
      order =
          on_error r.1 (w.accepted ++ (job ∷ [])) w.accepted no_
          ∙ f.order
          ∙ ap (λ t. w.began ++ t) (sym q);
      runs = omega (arith, f.runs);
    }

-- A worker that runs a job is counted.
pub some_busy :
    (tp : Pool) (i : ℕ) (s : Slot) (job : Job)
    → IsSound tp
    → get_elem? tp.slots i ≡ some s
    → s.thread ≡ running job
    → 0 < tp.active_workers
unfolding busy
some_busy tp i s job h at t = ground (arith, total-set busy tp.slots i s empty_slot at, h.active)

-- Every step keeps the account of the jobs.
pub Step-IsFifo : {w v : World} → Step w v → IsSound w.pool → IsFifo w → IsFifo v
unfolding begin_job end_job exit_worker join_slot close_submit stop_monitor begin_shutdown
    set_queue_max
Step-IsFifo {w} (submitted job) h f = submit_call-IsFifo w job f
Step-IsFifo {w} (woke i s job rest at t up e) h f = record {
  order =
      f.order
      ∙ ap (λ q. w.began ++ q) (wake-queue w.pool s job rest e)
      ∙ sym (append_assoc w.began (job ∷ []) rest);
  runs = omega (arith, f.runs, length-append w.began (job ∷ []));
}
Step-IsFifo {w} (finished i s job at t up) h f = record {
  order = f.order;
  runs = omega (arith, f.runs, length-append w.ended (job ∷ []), some_busy w.pool i s job h at t);
}
Step-IsFifo {w} (left i s at t up e) h f = record { order = f.order; runs = f.runs }
Step-IsFifo {w} (joined i s at t r) h f = record { order = f.order; runs = f.runs }
Step-IsFifo {w} (sampled spawns) h f = SameJobs-IsFifo w _ (monitor_round-SameJobs spawns w.pool) f
Step-IsFifo {w} (resized spawns n) h f = SameJobs-IsFifo w _ (resize-SameJobs spawns w.pool n) f
Step-IsFifo {w} (limited n) h f =
    SameJobs-IsFifo w _
      (if_both (λ (r : Pool × ℤ). SameJobs w.pool r.0) (ltz n (pos 0)) (w.pool, negsuc 0) _
        (refl, refl, refl, refl, refl, refl) (refl, refl, refl, refl, refl, refl))
      f
Step-IsFifo {w} closed h f = record { order = f.order; runs = f.runs }
Step-IsFifo {w} stopped h f = record { order = f.order; runs = f.runs }
Step-IsFifo {w} shut h f = record { order = f.order; runs = f.runs }
