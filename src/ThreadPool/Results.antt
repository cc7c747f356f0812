-- ===== src/ThreadPool/Results.antt =====
-- src/threadpool.c: what holds in every state that a new pool reaches, and what its closing means.
use jungle_w8_minisql_server.Prelude.{
  ℕ, ◌≤◌, ◌<◌, ◌≡◌, refl, ap, sym, ◌∙◌, true, some, [], ◌∷◌, ◌++◌, length, arith, if_both, ℤ, pos,
  negsuc, ltz,
}
use jungle_w8_minisql_server.ThreadPool.Pool.{
  Job, abs_max, Pool, submit, begin_job, end_job, exit_worker, join_slot, set_queue_max,
  close_submit, stop_monitor, begin_shutdown, is_drained,
}
use jungle_w8_minisql_server.ThreadPool.Slots.{total-le}
use jungle_w8_minisql_server.ThreadPool.Invariant.{IsSound}
use jungle_w8_minisql_server.ThreadPool.Create.{IsNew}
use jungle_w8_minisql_server.ThreadPool.World.{
  World, submit_call, Step, submitted, woke, finished, left, joined, sampled, resized, limited,
  closed, stopped, shut, Reach, begin, next, wake-queue, Step-IsSound,
}
use jungle_w8_minisql_server.ThreadPool.Fifo.{
  on_error, IsFifo, Step-IsFifo, SameJobs, some_busy, monitor_round-SameJobs, resize-SameJobs,
}

pub record IsTracked (w : World) : Type 0 where
  pub sound : IsSound w.pool
  pub fifo : IsFifo w

-- In every state that a new pool reaches, the counters are right and the jobs accepted are those
-- begun, in that order, followed by those in the queue: none is lost, doubled or overtaken.
pub Reach-IsTracked : {tp : Pool} {w : World} {n : ℕ} → IsNew n tp → Reach tp w → IsTracked w
Reach-IsTracked {tp} new begin = record {
  sound = new.sound;
  fifo = record { order = sym new.idle; runs = omega (arith, new.unused) };
}
Reach-IsTracked new (next r s) =
    let t = Reach-IsTracked new r in
    record { sound = Step-IsSound s t.sound; fifo = Step-IsFifo s t.sound t.fifo }

submit_call-floor :
    (w : World) (job : Job) → (submit_call w job).pool.floor_workers ≡ w.pool.floor_workers
unfolding submit_call submit
submit_call-floor w job = ground arith

-- No step changes `floor_workers`.
Step-floor : {w v : World} → Step w v → v.pool.floor_workers ≡ w.pool.floor_workers
unfolding begin_job end_job exit_worker join_slot close_submit stop_monitor begin_shutdown
    set_queue_max
Step-floor {w} (submitted job) = submit_call-floor w job
Step-floor (woke i s job rest a b c d) = refl
Step-floor (finished i s job a b c) = refl
Step-floor (left i s a b c d) = refl
Step-floor (joined i s a b c) = refl
Step-floor {w} (sampled spawns) = (monitor_round-SameJobs spawns w.pool).2
Step-floor {w} (resized spawns n) = (resize-SameJobs spawns w.pool n).2
Step-floor (limited n) = ground arith
Step-floor closed = refl
Step-floor stopped = refl
Step-floor shut = refl

Reach-floor : {tp : Pool} {w : World} → Reach tp w → w.pool.floor_workers ≡ tp.floor_workers
Reach-floor begin = refl
Reach-floor (next r s) = Step-floor s ∙ Reach-floor r

-- In every state that a new pool reaches, the number of workers is at least the number it was
-- created with and at most 64.
pub n_workers_bounds :
    {tp : Pool} {w : World} {n : ℕ}
    → IsNew n tp
    → Reach tp w
    → (n ≤ w.pool.n_workers) × (w.pool.n_workers ≤ abs_max)
n_workers_bounds {w} new r =
    let s = (Reach-IsTracked new r).sound in
    (
      omega (arith, s.floor, Reach-floor r, new.floor),
      omega (arith, s.workers, total-le w.pool.slots, s.sized),
    )

-- In a sound pool with a positive queue limit, a step that does not change the limit never takes
-- the queue over it, if it was within it.
pub Step-bounded :
    {w v : World}
    → Step w v
    → IsSound w.pool
    → 0 < w.pool.queue_max
    → v.pool.queue_max ≡ w.pool.queue_max
    → w.pool.queue_depth ≤ w.pool.queue_max
    → v.pool.queue_depth ≤ v.pool.queue_max
unfolding submit_call submit begin_job end_job exit_worker join_slot close_submit stop_monitor
    begin_shutdown set_queue_max
Step-bounded (submitted job) h limit same d = ground arith
Step-bounded (woke i s job rest at t up e) h limit same d = omega arith
Step-bounded (finished i s job at t up) h limit same d = d
Step-bounded (left i s at t up e) h limit same d = d
Step-bounded (joined i s at t r) h limit same d = d
Step-bounded {w} (sampled spawns) h limit same d =
    omega (arith, (monitor_round-SameJobs spawns w.pool).5)
Step-bounded {w} (resized spawns n) h limit same d =
    omega (arith, (resize-SameJobs spawns w.pool n).5)
Step-bounded {w} (limited n) h limit same d = ground arith
Step-bounded closed h limit same d = d
Step-bounded stopped h limit same d = d
Step-bounded shut h limit same d = d

-- A closed pool: it refuses every further job, and once drained it stays drained.
pub record IsClosed (w : World) : Type 0 where
  pub refuses : w.pool.submit_closed ≡ true
  pub drained : is_drained w.pool ≡ true

same-IsClosed :
    (w : World) (tq : Pool)
    → SameJobs w.pool tq
    → IsClosed w
    → IsClosed (record w { pool = tq })
      × (w.accepted ≡ w.accepted)
      × (w.began ≡ w.began)
      × (w.ended ≡ w.ended)
unfolding is_drained
same-IsClosed w tq s c = (
  record { refuses = s.4 ∙ c.refuses; drained = ground (arith, s.5, s.1, c.drained) },
  refl,
  refl,
  refl,
)

closed_submit :
    (tp : Pool) (job : Job) → tp.submit_closed ≡ true → submit tp (some job) ≡ (tp, negsuc 0)
unfolding submit
closed_submit tp job e = ground arith

submit_call-IsClosed :
    (w : World) (job : Job)
    → IsClosed w
    → IsClosed (submit_call w job)
      × ((submit_call w job).accepted ≡ w.accepted)
      × ((submit_call w job).began ≡ w.began)
      × ((submit_call w job).ended ≡ w.ended)
unfolding submit_call
submit_call-IsClosed w job c =
    let e = closed_submit w.pool job c.refuses in
    (
      record {
        refuses = ap (λ (r : Pool × ℤ). r.0.submit_closed) e ∙ c.refuses;
        drained = ap (λ (r : Pool × ℤ). is_drained r.0) e ∙ c.drained;
      },
      on_error _ (w.accepted ++ (job ∷ [])) w.accepted (ap (λ (r : Pool × ℤ). r.1) e),
      refl,
      refl,
    )

-- Once a sound pool is closed to submissions and drained, every step leaves it so, and accepts,
-- begins and ends no job.
pub Step-IsClosed :
    {w v : World}
    → Step w v
    → IsSound w.pool
    → IsClosed w
    → IsClosed v × (v.accepted ≡ w.accepted) × (v.began ≡ w.began) × (v.ended ≡ w.ended)
unfolding begin_job end_job exit_worker join_slot close_submit stop_monitor begin_shutdown
    set_queue_max is_drained
Step-IsClosed {w} (submitted job) h c = submit_call-IsClosed w job c
Step-IsClosed {w} (woke i s job rest at t up e) h c =
    absurd (ground (arith, ap length (wake-queue w.pool s job rest e), h.depth, c.drained))
Step-IsClosed {w} (finished i s job at t up) h c =
    absurd (ground (arith, some_busy w.pool i s job h at t, c.drained))
Step-IsClosed (left i s at t up e) h c =
    (record { refuses = c.refuses; drained = c.drained }, refl, refl, refl)
Step-IsClosed (joined i s at t r) h c =
    (record { refuses = c.refuses; drained = c.drained }, refl, refl, refl)
Step-IsClosed {w} (sampled spawns) h c = same-IsClosed w _ (monitor_round-SameJobs spawns w.pool) c
Step-IsClosed {w} (resized spawns n) h c = same-IsClosed w _ (resize-SameJobs spawns w.pool n) c
Step-IsClosed {w} (limited n) h c =
    same-IsClosed w _
      (if_both (λ (r : Pool × ℤ). SameJobs w.pool r.0) (ltz n (pos 0)) (w.pool, negsuc 0) _
        (refl, refl, refl, refl, refl, refl) (refl, refl, refl, refl, refl, refl))
      c
Step-IsClosed closed h c = (record { refuses = refl; drained = c.drained }, refl, refl, refl)
Step-IsClosed stopped h c = (record { refuses = c.refuses; drained = c.drained }, refl, refl, refl)
Step-IsClosed shut h c = (record { refuses = c.refuses; drained = c.drained }, refl, refl, refl)
