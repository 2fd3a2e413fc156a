-- ===== src/Bench/Races.antt =====
-- Runs of the trials by evaluation (bench/bench_main.cpp).
use lock_free_mpmc_queue.Base.{
  ℕ, zero, suc, ◌+◌, ◌<◌, ◌≡◌, refl, List, [], ◌∷◌, ◌++◌, length, sum_below, arith,
}
use native.Mathlib.Decide.{dec_lt}
use lock_free_mpmc_queue.Bench.Suite.{Trial, pairs, pc}
use lock_free_mpmc_queue.Bench.Trials.{
  TrialState, finished, nthreads, ops_total, round_step, TrialReach, start, later,
}
use lock_free_mpmc_queue.Bench.Trials.Drained.{
  enq_samples, deq_samples, left_over, samples-ops_total, pairs_never_retry,
}

record TrialRun (k : Trial) : Type 0 where
  last : TrialState
  reach : TrialReach k last

-- The worker takes a step, and the clock says 9.
turn : (k : Trial) → TrialRun k → ℕ → TrialRun k
unfolding dec_lt
turn k r t = elim (dec_lt t (nthreads k)) [
  | yes lt ↦ record { last = _; reach = later r.reach t 9 lt }
  | no _ ↦ r
]

turns : (k : Trial) → TrialRun k → List ℕ → TrialRun k
turns k r [] = r
turns k r (t ∷ ts) = turns k (turn k r t) ts

race : (k : Trial) → List ℕ → TrialRun k
unfolding turns turn round_step
race k = turns k (record { last = _; reach = start })

abbrev many : ℕ → ℕ → List ℕ
many zero t = []
many (suc n) t = t ∷ many n t

-- One producer and two consumers of one value: consumer 1 looks while the queue is empty.
abbrev handover : TrialRun (pc 1 2 1)
handover = race (pc 1 2 1) (many 4 1 ++ many 4 0 ++ many 6 1 ++ many 3 1 ++ many 3 2)

all_done : (t : ℕ) → t < 3 → (handover.last.worker t).at ≡ finished
unfolding race
all_done zero lt = refl
all_done (suc zero) lt = refl
all_done (suc (suc zero)) lt = refl
all_done (suc (suc (suc t))) lt = absurd (omega arith)

samples-ops_total_example :
    (sum_below enq_samples handover.last.worker 3 + sum_below deq_samples handover.last.worker 3
      ≡ ops_total (pc 1 2 1))
    × (length handover.last.common.queue ≡ left_over (pc 1 2 1))
samples-ops_total_example = samples-ops_total (pc 1 2 1) (omega arith) handover.reach all_done

-- Both workers have put a value in the queue.
abbrev in_pairs : TrialRun (pairs 2 5)
in_pairs = race (pairs 2 5) (many 3 0 ++ many 3 1)

pairs_never_retry_example : 0 < length in_pairs.last.common.queue
unfolding race
pairs_never_retry_example =
    pairs_never_retry 2 5 (omega arith) in_pairs.reach 1 0 9 (omega arith) refl
