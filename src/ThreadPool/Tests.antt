-- ===== src/ThreadPool/Tests.antt =====
-- src/threadpool.c: a pool of two workers whose threads all start.
use jungle_w8_minisql_server.Prelude.{
  ℕ, ◌≤◌, ◌≡◌, refl, Bool, true, some, [], ◌∷◌, replicate, arith, pos, pos_part, neg_part,
}
use jungle_w8_minisql_server.ThreadPool.Pool.{
  Pool, blank_pool, empty_slot, expand_locked, expand_slots, set_queue_max, begin_job, new_worker,
  abs_max, submit, wake, create, close_submit, is_drained,
}
use jungle_w8_minisql_server.ThreadPool.Invariant.{IsSound}
use jungle_w8_minisql_server.ThreadPool.Create.{IsNew, create-IsNew}
use jungle_w8_minisql_server.ThreadPool.World.{
  World, submit_call, begin_call, submitted, woke, limited, closed, start, Reach, begin, next,
  Step-IsSound,
}
use jungle_w8_minisql_server.ThreadPool.Results.{
  IsTracked, Reach-IsTracked, n_workers_bounds, Step-bounded, IsClosed, Step-IsClosed,
}

all_start : ℕ → Bool
all_start i = true

abbrev pool : Pool
pool = record (blank_pool 2) {
  slots = new_worker ∷ new_worker ∷ replicate 62 empty_slot;
  n_workers = 2;
}

created : create all_start true (pos 2) ≡ some pool
unfolding create expand_locked expand_slots all_start pos_part neg_part
created = refl

pool-IsNew : IsNew 2 pool
unfolding pos_part
pool-IsNew = create-IsNew all_start true (pos 2) pool created

-- Two jobs are submitted and the first worker begins the first.
abbrev busy_world : World
busy_world = begin_call (submit_call (submit_call (start pool) 7) 8) 0 new_worker 7 (8 ∷ [])

busy_world-Reach : Reach pool busy_world
unfolding create expand_locked expand_slots all_start submit_call submit wake pos_part neg_part
busy_world-Reach =
    next (next (next begin (submitted 7)) (submitted 8))
      (woke 0 new_worker 7 (8 ∷ []) refl refl refl refl)

busy_world_jobs : (busy_world.began ≡ 7 ∷ []) × (busy_world.accepted ≡ 7 ∷ 8 ∷ [])
unfolding create expand_locked expand_slots all_start submit_call submit pos_part neg_part
busy_world_jobs = (refl, refl)

Reach-IsTracked_example : IsTracked busy_world
Reach-IsTracked_example = Reach-IsTracked pool-IsNew busy_world-Reach

n_workers_bounds_example : (2 ≤ busy_world.pool.n_workers) × (busy_world.pool.n_workers ≤ abs_max)
n_workers_bounds_example = n_workers_bounds pool-IsNew busy_world-Reach

busy_world-IsSound : IsSound busy_world.pool
busy_world-IsSound = (Reach-IsTracked pool-IsNew busy_world-Reach).sound

-- The queue holds one job and the limit is lowered to two.
abbrev narrow_world : World
narrow_world = record busy_world { pool = (set_queue_max busy_world.pool (pos 2)).0 }

narrow_world-IsSound : IsSound narrow_world.pool
narrow_world-IsSound = Step-IsSound {w = busy_world} (limited (pos 2)) busy_world-IsSound

Step-bounded_example :
    (submit_call (submit_call narrow_world 9) 10).pool.queue_depth
    ≤ (submit_call (submit_call narrow_world 9) 10).pool.queue_max
unfolding submit_call submit set_queue_max begin_job create expand_locked expand_slots all_start
    pos_part neg_part
Step-bounded_example =
    Step-bounded {w = submit_call narrow_world 9} (submitted 10)
      (Step-IsSound {w = narrow_world} (submitted 9) narrow_world-IsSound) (omega arith) refl
      (omega arith)

abbrev closed_world : World
closed_world = record (start pool) { pool = close_submit pool }

closed_world-IsClosed : IsClosed closed_world
unfolding close_submit is_drained create expand_locked expand_slots all_start pos_part neg_part
closed_world-IsClosed = record { refuses = refl; drained = refl }

closed_world-IsSound : IsSound closed_world.pool
closed_world-IsSound = Step-IsSound {w = start pool} closed pool-IsNew.sound

Step-IsClosed_example :
    IsClosed (submit_call closed_world 7)
    × ((submit_call closed_world 7).accepted ≡ [])
    × ((submit_call closed_world 7).began ≡ [])
    × ((submit_call closed_world 7).ended ≡ [])
Step-IsClosed_example =
    Step-IsClosed {w = closed_world} (submitted 7) closed_world-IsSound closed_world-IsClosed
