-- ===== src/ThreadPool/Stats.antt =====
-- src/threadpool.c: what the pool tells about itself. A NULL pool is `none`.
use jungle_w8_minisql_server.Prelude.{
  ℕ, ◌*◌, ◌≤◌, ◌<◌, Option, none, some, arith, ltb, if◌then◌else◌, if_cases,
}
use jungle_w8_minisql_server.ThreadPool.Pool.{Pool}

unfoldable pub total_workers_of : Option Pool → ℕ
total_workers_of none = 0
total_workers_of (some tp) = tp.n_workers

unfoldable pub active_workers_of : Option Pool → ℕ
active_workers_of none = 0
active_workers_of (some tp) = tp.active_workers

unfoldable pub queue_depth_of : Option Pool → ℕ
queue_depth_of none = 0
queue_depth_of (some tp) = tp.queue_depth

unfoldable pub queue_max_of : Option Pool → ℕ
queue_max_of none = 0
queue_max_of (some tp) = tp.queue_max

unfoldable pub rejected_total_of : Option Pool → ℕ
rejected_total_of none = 0
rejected_total_of (some tp) = tp.rejected_total

-- `threadpool_get_utilization`, as a fraction: the quotient is cut at 1.
unfoldable pub utilization : Option Pool → ℕ × ℕ
utilization none = (0, 1)
utilization (some tp) =
    if ltb 0 tp.n_workers
    then (if ltb tp.n_workers tp.active_workers then (1, 1) else (tp.active_workers, tp.n_workers))
    else (0, 1)

-- A fraction from 0 to 1 that is not over `a / n`.
abbrev pub Fraction : ℕ → ℕ → ℕ × ℕ → Type 0
Fraction n a r = (r.0 ≤ r.1) × (0 < r.1) × (r.0 * n ≤ a * r.1)

-- The utilization is a fraction from 0 to 1 and not over the quotient of active workers and
-- workers.
pub utilization-Fraction :
    (tp : Option Pool) → Fraction (total_workers_of tp) (active_workers_of tp) (utilization tp)
unfolding utilization total_workers_of active_workers_of
utilization-Fraction none = (omega arith, omega arith, omega arith)
utilization-Fraction (some tp) =
    let P = Fraction tp.n_workers tp.active_workers in
    if_cases P (ltb 0 tp.n_workers)
      (if ltb tp.n_workers tp.active_workers then (1, 1) else (tp.active_workers, tp.n_workers))
      (0, 1)
      (λ some_work.
        if_cases P (ltb tp.n_workers tp.active_workers) (1, 1) (tp.active_workers, tp.n_workers)
          (λ over. (ground arith, ground arith, ground arith))
          (λ within. (ground arith, ground arith, ground arith)))
      (λ none_. (ground arith, ground arith, ground arith))
