-- ===== src/ThreadPool/Monitor.antt =====
-- src/threadpool.c: the monitor's round, `threadpool_resize` and `threadpool_create`.
use jungle_w8_minisql_server.Prelude.{
  ℕ, ◌+◌, ◌-◌, min, max, ◌≡◌, refl, ap, sym, subst, ◌∙◌, Bool, true, false, ◌&&◌, ◌||◌, List, [],
  length, arith, ltb, leb, if◌then◌else◌, if_both, ℤ, pos, negsuc, pos_part, lez,
}
use jungle_w8_minisql_server.ThreadPool.Pool.{
  abs_max, soft_max, step_size, Pool, expand_locked, mark_retire_locked, high_sample, low_sample,
  monitor_round, resize, util_pct,
}
use jungle_w8_minisql_server.ThreadPool.Slots.{total, serving, busy, AllSound}
use jungle_w8_minisql_server.ThreadPool.Invariant.{
  IsSound, expand_locked-IsSound, mark_retire_locked-IsSound,
}

-- Fields that the invariant does not read may change.
pub same_counts :
    (tp tq : Pool)
    → IsSound tp
    → tq.slots ≡ tp.slots
    → tq.queue ≡ tp.queue
    → tq.queue_depth ≡ tp.queue_depth
    → tq.active_workers ≡ tp.active_workers
    → tq.n_workers ≡ tp.n_workers
    → tq.floor_workers ≡ tp.floor_workers
    → IsSound tq
same_counts tp tq h a b c d e f = record {
  sized = ap length a ∙ h.sized;
  slots = subst AllSound (sym a) h.slots;
  depth = c ∙ h.depth ∙ ap length (sym b);
  active = d ∙ h.active ∙ ap (total busy) (sym a);
  workers = e ∙ h.workers ∙ ap (total serving) (sym a);
  floor = omega (arith, h.floor);
  few = omega (arith, h.few);
}

module _ (spawns : ℕ → Bool) (tp : Pool) (h : IsSound tp) where
  high_sample-IsSound : IsSound (high_sample spawns tp)
  unfolding high_sample
  high_sample-IsSound = go (leb 3 (tp.high_consecutive + 1) && ltb tp.n_workers soft_max)
    where
      seen : Pool
      seen = record tp { high_consecutive = tp.high_consecutive + 1; low_consecutive = 0 }

      grown : Pool
      grown = (expand_locked spawns seen (min (tp.n_workers + step_size) soft_max)).0

      seen-IsSound : IsSound seen
      seen-IsSound = same_counts tp seen h refl refl refl refl refl refl

      grown-IsSound : IsSound grown
      grown-IsSound = expand_locked-IsSound seen seen-IsSound spawns _

      go :
          (b : Bool)
          → IsSound (if b then record grown { skip_samples = 2; high_consecutive = 0 } else seen)
      go true = same_counts grown _ grown-IsSound refl refl refl refl refl refl
      go false = seen-IsSound

  low_sample-IsSound : IsSound (low_sample tp).0
  unfolding low_sample
  low_sample-IsSound = go (leb 30 (tp.low_consecutive + 1) && ltb tp.floor_workers tp.n_workers)
    where
      seen : Pool
      seen = record tp { low_consecutive = tp.low_consecutive + 1; high_consecutive = 0 }

      cut : Pool × List ℕ
      cut = mark_retire_locked seen (max (tp.n_workers - step_size) tp.floor_workers) step_size

      seen-IsSound : IsSound seen
      seen-IsSound = same_counts tp seen h refl refl refl refl refl refl

      cut-IsSound : IsSound cut.0
      cut-IsSound = mark_retire_locked-IsSound seen seen-IsSound _ _

      go :
          (b : Bool)
          → IsSound
              (if◌then◌else◌ {A = Pool × List ℕ} b
                (record (cut.0) { skip_samples = 2; low_consecutive = 0 }, cut.1)
                (seen, [])).0
      go true = same_counts cut.0 _ cut-IsSound refl refl refl refl refl refl
      go false = seen-IsSound

  pub monitor_round-IsSound : IsSound (monitor_round spawns tp).0
  unfolding monitor_round
  monitor_round-IsSound =
      if_both P (tp.monitor_should_exit || tp.shutdown) (tp, []) _ h
        (if_both P (ltb 0 tp.skip_samples) (record tp { skip_samples = tp.skip_samples - 1 }, []) _
          (same_counts tp _ h refl refl refl refl refl refl)
          (if_both P (leb 80 (util_pct tp)) (high_sample spawns tp, []) _ high_sample-IsSound
            (if_both P (leb (util_pct tp) 30) (low_sample tp)
              (record tp { high_consecutive = 0; low_consecutive = 0 }, []) low_sample-IsSound
              (same_counts tp _ h refl refl refl refl refl refl))))
    where
      P : Pool × List ℕ → Type 0
      P r = IsSound r.0

  pub resize-IsSound : (n : ℤ) → IsSound (resize spawns tp n).0
  unfolding resize
  resize-IsSound n =
      let target = max (min (pos_part n) soft_max) tp.floor_workers in
      if_both P (lez n (pos 0)) (tp, [], negsuc 0) _ h
        (if_both P (tp.shutdown || tp.submit_closed) (tp, [], negsuc 0) _ h
          (if_both P (ltb tp.n_workers target) ((expand_locked spawns tp target).0, [], pos 0) _
            (expand_locked-IsSound tp h spawns target)
            (if_both P (ltb target tp.n_workers)
              (
                (mark_retire_locked tp target abs_max).0,
                (mark_retire_locked tp target abs_max).1,
                pos 0,
              )
              (tp, [], pos 0) (mark_retire_locked-IsSound tp h target abs_max) h)))
    where
      P : Pool × List ℕ × ℤ → Type 0
      P r = IsSound r.0
