-- ===== src/ThreadPool/World.antt =====
-- src/threadpool.c: clients, workers and the monitor as interleaved steps over one pool. The mutex
-- makes each locked section one step.
use jungle_w8_minisql_server.Prelude.{
  ℕ, ◌≡◌, refl, Bool, true, some, List, [], ◌∷◌, ◌++◌, get_elem?, arith, if◌then◌else◌, if_both, ℤ,
  pos, negsuc, ltz, eqz,
}
use jungle_w8_minisql_server.ThreadPool.Pool.{
  Job, waiting, running, exited, Slot, Pool, submit, leave, take_job, wake, begin_job, end_job,
  exit_worker, join_slot, monitor_round, resize, set_queue_max, close_submit, stop_monitor,
  begin_shutdown,
}
use jungle_w8_minisql_server.ThreadPool.Invariant.{
  IsSound, submit-IsSound, begin_job-IsSound, end_job-IsSound, exit_worker-IsSound,
  join_slot-IsSound,
}
use jungle_w8_minisql_server.ThreadPool.Monitor.{monitor_round-IsSound, resize-IsSound, same_counts}

-- The pool with the jobs that `submit` accepted, that workers began and that workers ended, each
-- in order of time.
pub record World : Type 0 where
  pub pool : Pool
  pub accepted : List Job
  pub began : List Job
  pub ended : List Job

-- A call of `threadpool_submit`: the job is accepted if the call returns 0.
unfoldable pub submit_call : World → Job → World
submit_call w job =
    let r = submit w.pool (some job) in
    record w {
      pool = r.0;
      accepted = if eqz r.1 (pos 0) then w.accepted ++ (job ∷ []) else w.accepted;
    }

abbrev pub begin_call : World → ℕ → Slot → Job → List Job → World
begin_call w i s job rest = record w {
  pool = begin_job w.pool i s job rest;
  began = w.began ++ (job ∷ []);
}

abbrev pub end_call : World → ℕ → Slot → Job → World
end_call w i s job = record w { pool = end_job w.pool i s; ended = w.ended ++ (job ∷ []) }

-- One step, up to the hard shutdown: a client call, a worker's locked section, a round of the
-- monitor, or the join of a worker that was asked to retire and has ended. Which threads can be
-- started during a step, by slot, is chosen anew for each step.
pub data Step (w : World) : World → Type 0 where
  submitted : (job : Job) → Step w (submit_call w job)
  woke :
      (i : ℕ) (s : Slot) (job : Job) (rest : List Job)
      → get_elem? w.pool.slots i ≡ some s
      → s.thread ≡ waiting
      → s.alive ≡ true
      → wake w.pool s ≡ take_job job rest
      → Step w (begin_call w i s job rest)
  finished :
      (i : ℕ) (s : Slot) (job : Job)
      → get_elem? w.pool.slots i ≡ some s
      → s.thread ≡ running job
      → s.alive ≡ true
      → Step w (end_call w i s job)
  left :
      (i : ℕ) (s : Slot)
      → get_elem? w.pool.slots i ≡ some s
      → s.thread ≡ waiting
      → s.alive ≡ true
      → wake w.pool s ≡ leave
      → Step w (record w { pool = exit_worker w.pool i s })
  joined :
      (i : ℕ) (s : Slot)
      → get_elem? w.pool.slots i ≡ some s
      → s.thread ≡ exited
      → s.retiring ≡ true
      → Step w (record w { pool = join_slot w.pool i s })
  sampled : (spawns : ℕ → Bool) → Step w (record w { pool = (monitor_round spawns w.pool).0 })
  resized : (spawns : ℕ → Bool) (n : ℤ) → Step w (record w { pool = (resize spawns w.pool n).0 })
  limited : (n : ℤ) → Step w (record w { pool = (set_queue_max w.pool n).0 })
  closed : Step w (record w { pool = close_submit w.pool })
  stopped : Step w (record w { pool = stop_monitor w.pool })
  shut : Step w (record w { pool = begin_shutdown w.pool })

abbrev pub start : Pool → World
start tp = record { pool = tp; accepted = []; began = []; ended = [] }

pub data Reach (tp : Pool) : World → Type 0 where
  begin : Reach tp (start tp)
  next : {w v : World} → Reach tp w → Step w v → Reach tp v

pub wake-queue :
    (tp : Pool) (s : Slot) (job : Job) (rest : List Job)
    → wake tp s ≡ take_job job rest
    → tp.queue ≡ job ∷ rest
unfolding wake
wake-queue tp s job rest e = ground arith

set_queue_max-IsSound : (tp : Pool) (n : ℤ) → IsSound tp → IsSound (set_queue_max tp n).0
unfolding set_queue_max
set_queue_max-IsSound tp n h =
    if_both (λ (r : Pool × ℤ). IsSound r.0) (ltz n (pos 0)) (tp, negsuc 0) _ h
      (same_counts tp _ h refl refl refl refl refl refl)

-- Every step keeps the counters of the pool right.
pub Step-IsSound : {w v : World} → Step w v → IsSound w.pool → IsSound v.pool
unfolding submit_call close_submit stop_monitor begin_shutdown
Step-IsSound {w} (submitted job) h = submit-IsSound w.pool h (some job)
Step-IsSound {w} (woke i s job rest at t up e) h =
    begin_job-IsSound w.pool h i s at job rest t up (wake-queue w.pool s job rest e)
Step-IsSound {w} (finished i s job at t up) h = end_job-IsSound w.pool h i s at job t up
Step-IsSound {w} (left i s at t up e) h = exit_worker-IsSound w.pool h i s at t up
Step-IsSound {w} (joined i s at t r) h = join_slot-IsSound w.pool h i s at t r
Step-IsSound {w} (sampled spawns) h = monitor_round-IsSound spawns w.pool h
Step-IsSound {w} (resized spawns n) h = resize-IsSound spawns w.pool h n
Step-IsSound {w} (limited n) h = set_queue_max-IsSound w.pool n h
Step-IsSound {w} closed h = same_counts w.pool _ h refl refl refl refl refl refl
Step-IsSound {w} stopped h = same_counts w.pool _ h refl refl refl refl refl refl
Step-IsSound {w} shut h = same_counts w.pool _ h refl refl refl refl refl refl
