-- ===== src/Bench/Skeleton/Runs.antt =====
-- A run of run_threads with two workers (bench/bench_main.cpp) by evaluation.
use lock_free_mpmc_queue.Base.{ℕ, ◌<◌, ◌≡◌, ◌↔◌, refl, Bool, true, List, [], ◌∷◌, ◌==◌, arith}
use lock_free_mpmc_queue.Bench.Barrier.{worker_step, driver_step}
use lock_free_mpmc_queue.Bench.Skeleton.{
  ended, finished, Skeleton, after, leave, thread_step, boss_step, SkeletonReach, start, works,
  leads,
}
use lock_free_mpmc_queue.Bench.Skeleton.Invariant.{AllFrom, AllUpto}
use lock_free_mpmc_queue.Bench.Skeleton.Timed.{run_timed}

-- Core 1 cannot be had.
abbrev pins : ℕ → Bool
pins i = i == 0

record TrialRun : Type 0 where
  last : Skeleton
  reach : SkeletonReach pins 2 100 last

data Turn : Type 0 where
  of_worker : ℕ → Turn
  reads : ℕ → Turn
  leaves : ℕ → Turn
  of_boss : Turn

turn : TrialRun → Turn → TrialRun
turn r (of_worker i) = record { last = _; reach = works r.reach i (after 0) }
turn r (reads i) = record { last = _; reach = works r.reach i (after 5) }
turn r (leaves i) = record { last = _; reach = works r.reach i leave }
turn r of_boss = record { last = _; reach = leads r.reach (after 3) }

turns : TrialRun → List Turn → TrialRun
turns r [] = r
turns r (x ∷ xs) = turns (turn r x) xs

both_end : TrialRun
unfolding turns turn thread_step boss_step worker_step driver_step
both_end =
    turns (record { last = _; reach = start })
      (of_boss
        ∷ of_worker 0
        ∷ of_worker 0
        ∷ of_boss
        ∷ of_boss
        ∷ of_boss
        ∷ of_worker 1
        ∷ of_worker 1
        ∷ of_boss
        ∷ of_boss
        ∷ of_boss
        ∷ of_worker 0
        ∷ of_worker 1
        ∷ reads 0
        ∷ reads 1
        ∷ reads 0
        ∷ leaves 1
        ∷ leaves 0
        ∷ of_boss
        ∷ of_boss
        ∷ of_boss
        ∷ of_boss
        ∷ [])

times_read :
    (both_end.last.boss ≡ finished 103 121) × (both_end.last.body 0 ≡ ended (108 ∷ 118 ∷ []))
unfolding both_end
times_read = (refl, refl)

run_timed_example :
    ((i : ℕ)
      → i < 2
      → (l : List ℕ) × (both_end.last.body i ≡ ended l) × AllFrom 103 l × AllUpto 121 l)
    × ((both_end.last.all_pinned ≡ true) ↔ ((i : ℕ) → i < 2 → pins i ≡ true))
run_timed_example = run_timed pins 2 100 103 121 (omega arith) both_end.reach times_read.0
