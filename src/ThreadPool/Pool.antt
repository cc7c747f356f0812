-- ===== src/ThreadPool/Pool.antt =====
-- src/threadpool.c: the state of the pool, and each section that the code runs under its mutex.
use jungle_w8_minisql_server.Prelude.{
  ℕ, zero, suc, ◌+◌, ◌-◌, ◌*◌, ◌/◌, ◌%◌, ◌^◌, min, max, Bool, true, false, not, ◌&&◌, ◌||◌, Option,
  none, some, List, [], ◌∷◌, ◌++◌, length, set, replicate, ltb, leb, ◌==◌, if◌then◌else◌, ℤ, pos,
  negsuc, pos_part, ltz, lez,
}

-- A job by its number: the code only hands `fn` and `arg` on to the worker.
abbrev pub Job : Type 0
Job = ℕ

abbrev pub abs_max : ℕ
abs_max = 64

abbrev pub soft_max : ℕ
soft_max = 16

abbrev pub step_size : ℕ
step_size = 4

abbrev pub high_water_pct : ℕ
high_water_pct = 80

abbrev pub low_water_pct : ℕ
low_water_pct = 30

abbrev pub high_consecutive_limit : ℕ
high_consecutive_limit = 3

abbrev pub low_consecutive_limit : ℕ
low_consecutive_limit = 30

abbrev pub hysteresis_samples : ℕ
hysteresis_samples = 2

abbrev pub queue_max_default : ℕ
queue_max_default = 256

-- Where the thread of a slot stands in `threadpool_worker_main`.
pub data Thread : Type 0 where
  absent : Thread
  waiting : Thread
  running : Job → Thread
  exited : Thread

-- `worker_alive[slot]`, `worker_retiring[slot]` and the thread.
pub record Slot : Type 0 where
  pub alive : Bool
  pub retiring : Bool
  pub thread : Thread

abbrev pub empty_slot : Slot
empty_slot = record { alive = false; retiring = false; thread = absent }

abbrev pub new_worker : Slot
new_worker = record { alive = true; retiring = false; thread = waiting }

-- `struct threadpool`. The linked list from `head` to `tail` is `queue`.
pub record Pool : Type 0 where
  pub slots : List Slot
  pub n_workers : ℕ
  pub floor_workers : ℕ
  pub queue : List Job
  pub queue_depth : ℕ
  pub queue_max : ℕ
  pub rejected_total : ℕ
  pub active_workers : ℕ
  pub shutdown : Bool
  pub submit_closed : Bool
  pub monitor_should_exit : Bool
  pub high_consecutive : ℕ
  pub low_consecutive : ℕ
  pub skip_samples : ℕ

-- `threadpool_submit`, of a non-NULL pool; a NULL `fn` is `none`.
unfoldable pub submit : Pool → Option Job → Pool × ℤ
submit tp none = (tp, negsuc 0)
submit tp (some job) =
    if tp.shutdown || tp.submit_closed
    then (tp, negsuc 0)
    else if ltb 0 tp.queue_max && leb tp.queue_max tp.queue_depth
    then (record tp { rejected_total = (tp.rejected_total + 1) % 2 ^ 64 }, negsuc 0)
    else (record tp { queue = tp.queue ++ (job ∷ []); queue_depth = tp.queue_depth + 1 }, pos 0)

-- What a worker finds when it holds the mutex at the top of its loop.
pub data Wake : Type 0 where
  leave : Wake
  sleep : Wake
  take_job : Job → List Job → Wake

unfoldable pub wake : Pool → Slot → Wake
wake tp s =
    if tp.shutdown || s.retiring
    then leave
    else elim tp.queue [ [] ↦ sleep | job ∷ rest ↦ take_job job rest ]

-- The section that dequeues: the slot's worker runs the job.
unfoldable pub begin_job : Pool → ℕ → Slot → Job → List Job → Pool
begin_job tp i s job rest = record tp {
  slots = set tp.slots i (record s { thread = running job });
  queue = rest;
  queue_depth = tp.queue_depth - 1;
  active_workers = tp.active_workers + 1;
}

-- The section after `fn(job_arg)` returns.
unfoldable pub end_job : Pool → ℕ → Slot → Pool
end_job tp i s = record tp {
  slots = set tp.slots i (record s { thread = waiting });
  active_workers = tp.active_workers - 1;
}

unfoldable pub exit_worker : Pool → ℕ → Slot → Pool
exit_worker tp i s = record tp { slots = set tp.slots i (record s { thread = exited }) }

-- The loop of `threadpool_expand_locked` from slot `i` on; `spawns` says whether the allocation of
-- the context and `pthread_create` succeed for a slot.
unfoldable pub expand_slots : (ℕ → Bool) → ℕ → ℕ → List Slot → List Slot × ℕ
expand_slots spawns i need [] = ([], 0)
expand_slots spawns i zero (s ∷ l) = (s ∷ l, 0)
expand_slots spawns i (suc need) (s ∷ l) =
    let skipped = expand_slots spawns (suc i) (suc need) l in
    let rest = expand_slots spawns (suc i) need l in
    if s.alive
    then (s ∷ skipped.0, skipped.1)
    else if spawns i
    then (new_worker ∷ rest.0, suc rest.1)
    else (record s { retiring = false } ∷ l, 0)

unfoldable pub expand_locked : (ℕ → Bool) → Pool → ℕ → Pool × ℕ
expand_locked spawns tp new_n =
    let n = min new_n abs_max in
    let grown = expand_slots spawns 0 (n - tp.n_workers) tp.slots in
    if leb n tp.n_workers
    then (tp, 0)
    else (record tp { slots = grown.0; n_workers = tp.n_workers + grown.1 }, grown.1)

-- The loop of `threadpool_mark_retire_locked`, which goes down from the highest slot: the slots
-- after `i` come first. The slots marked are listed in the order of `out_slots`.
unfoldable pub retire_slots : ℕ → ℕ → List Slot → List Slot × List ℕ
retire_slots i need [] = ([], [])
retire_slots i need (s ∷ l) =
    let higher = retire_slots (suc i) need l in
    if s.alive && not s.retiring && ltb (length higher.1) need
    then (record s { retiring = true } ∷ higher.0, higher.1 ++ (i ∷ []))
    else (s ∷ higher.0, higher.1)

unfoldable pub mark_retire_locked : Pool → ℕ → ℕ → Pool × List ℕ
mark_retire_locked tp new_n out_cap =
    let n = max new_n tp.floor_workers in
    let marked = retire_slots 0 (min (tp.n_workers - n) out_cap) tp.slots in
    if leb tp.n_workers n
    then (tp, [])
    else (record tp { slots = marked.0; n_workers = tp.n_workers - length marked.1 }, marked.1)

-- `threadpool_join_retired` for one slot, once its thread has ended.
unfoldable pub join_slot : Pool → ℕ → Slot → Pool
join_slot tp i s = record tp {
  slots = set tp.slots i (record { alive = false; retiring = false; thread = absent });
}

-- The locked part of one round of `threadpool_monitor_main` after the exit test; the second part
-- is `retire_slots`.
unfoldable pub util_pct : Pool → ℕ
util_pct tp = if ltb 0 tp.n_workers then tp.active_workers * 100 / tp.n_workers else 0

unfoldable pub high_sample : (ℕ → Bool) → Pool → Pool
high_sample spawns tp =
    let seen = record tp { high_consecutive = tp.high_consecutive + 1; low_consecutive = 0 } in
    let grown = (expand_locked spawns seen (min (tp.n_workers + step_size) soft_max)).0 in
    if leb high_consecutive_limit (tp.high_consecutive + 1) && ltb tp.n_workers soft_max
    then record grown { skip_samples = hysteresis_samples; high_consecutive = 0 }
    else seen

unfoldable pub low_sample : Pool → Pool × List ℕ
low_sample tp =
    let seen = record tp { low_consecutive = tp.low_consecutive + 1; high_consecutive = 0 } in
    let cut = mark_retire_locked seen (max (tp.n_workers - step_size) tp.floor_workers) step_size in
    if leb low_consecutive_limit (tp.low_consecutive + 1) && ltb tp.floor_workers tp.n_workers
    then (record (cut.0) { skip_samples = hysteresis_samples; low_consecutive = 0 }, cut.1)
    else (seen, [])

unfoldable pub monitor_round : (ℕ → Bool) → Pool → Pool × List ℕ
monitor_round spawns tp =
    if tp.monitor_should_exit || tp.shutdown
    then (tp, [])
    else if ltb 0 tp.skip_samples
    then (record tp { skip_samples = tp.skip_samples - 1 }, [])
    else if leb high_water_pct (util_pct tp)
    then (high_sample spawns tp, [])
    else if leb (util_pct tp) low_water_pct
    then low_sample tp
    else (record tp { high_consecutive = 0; low_consecutive = 0 }, [])

abbrev pub blank_pool : ℕ → Pool
blank_pool n = record {
  slots = replicate abs_max empty_slot;
  n_workers = 0;
  floor_workers = n;
  queue = [];
  queue_depth = 0;
  queue_max = queue_max_default;
  rejected_total = 0;
  active_workers = 0;
  shutdown = false;
  submit_closed = false;
  monitor_should_exit = false;
  high_consecutive = 0;
  low_consecutive = 0;
  skip_samples = 0;
}

-- `threadpool_create`; NULL is `none`, and the start of the monitor may fail too.
unfoldable pub create : (ℕ → Bool) → Bool → ℤ → Option Pool
create spawns monitor_starts n_workers =
    let n = pos_part n_workers in
    let started = expand_locked spawns (blank_pool n) n in
    if lez n_workers (pos 0) || ltz (pos abs_max) n_workers
    then none
    else if started.1 == n && monitor_starts
    then some started.0
    else none

-- The locked part of `threadpool_resize`, with the slots to join and the result.
unfoldable pub resize : (ℕ → Bool) → Pool → ℤ → Pool × List ℕ × ℤ
resize spawns tp new_n_workers =
    let n = max (min (pos_part new_n_workers) soft_max) tp.floor_workers in
    let cut = mark_retire_locked tp n abs_max in
    if lez new_n_workers (pos 0)
    then (tp, [], negsuc 0)
    else if tp.shutdown || tp.submit_closed
    then (tp, [], negsuc 0)
    else if ltb tp.n_workers n
    then ((expand_locked spawns tp n).0, [], pos 0)
    else if ltb n tp.n_workers
    then (cut.0, cut.1, pos 0)
    else (tp, [], pos 0)

unfoldable pub set_queue_max : Pool → ℤ → Pool × ℤ
set_queue_max tp m =
    if ltz m (pos 0)
    then (tp, negsuc 0)
    else (record tp { queue_max = pos_part m }, pos tp.queue_max)

-- The flags that `threadpool_shutdown_graceful`, `threadpool_stop_monitor` and
-- `threadpool_shutdown` set, and the wait of the graceful shutdown.
unfoldable pub close_submit : Pool → Pool
close_submit tp = record tp { submit_closed = true }

unfoldable pub stop_monitor : Pool → Pool
stop_monitor tp = record tp { monitor_should_exit = true }

unfoldable pub begin_shutdown : Pool → Pool
begin_shutdown tp = record tp { shutdown = true }

unfoldable pub is_drained : Pool → Bool
is_drained tp = not (ltb 0 tp.queue_depth || ltb 0 tp.active_workers)
