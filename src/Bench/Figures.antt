-- ===== src/Bench/Figures.antt =====
-- The statistics at concrete samples (bench/harness.hpp), with quantiles in thousandths.
use lock_free_mpmc_queue.Base.{
  ℕ, ◌+◌, ◌*◌, ◌/◌, ◌≤◌, ◌<◌, ◌≡◌, ◌≢◌, ◌⊎◌, refl, none, some, List, [], ◌∷◌, if◌then◌else◌, ◌==◌,
  sum_below, arith,
}
use lock_free_mpmc_queue.Std.Search.{sort}
use lock_free_mpmc_queue.Std.Search.Tally.{tally_below, tally_upto}
use lock_free_mpmc_queue.Bench.Trials.{Participant, finished}
use lock_free_mpmc_queue.Bench.Stats.{RepSummary, merged, index, percentile_sorted, summarize}
use lock_free_mpmc_queue.Bench.Stats.Laws.{percentile_rank, summarize_total}

abbrev nearest : ℕ → ℕ → ℕ
nearest q n = (q * n + 500) / 1000

abbrev two_workers : ℕ → Participant
two_workers t = record {
  at = finished;
  enq_ns = if t == 0 then 30 ∷ 10 ∷ 20 ∷ [] else 25 ∷ 90 ∷ [];
  deq_ns = [];
}

abbrev enq_times : Participant → List ℕ
enq_times w = w.enq_ns

percentile_rank_example :
    (v : ℕ) × (percentile_sorted nearest (merged enq_times two_workers 2) 990 ≡ some v)
    × (sum_below (λ w. tally_below v w.enq_ns) two_workers 2
        ≤ index nearest (merged enq_times two_workers 2) 990)
    × (index nearest (merged enq_times two_workers 2) 990
        < sum_below (λ w. tally_upto v w.enq_ns) two_workers 2)
unfolding sum_below
percentile_rank_example =
    percentile_rank nearest enq_times two_workers 2 990 (omega arith) (omega arith)

median_example : percentile_sorted nearest (merged enq_times two_workers 2) 500 ≡ some 25
unfolding percentile_sorted merged index sort
median_example = refl

abbrev two_reps : List ℕ
two_reps = 7 ∷ 3 ∷ []

summarize_total_example :
    ((two_reps ≡ []) × (summarize nearest 500 250 750 two_reps ≡ none))
    ⊎ ((r : RepSummary) × (two_reps ≢ [])
        × (summarize nearest 500 250 750 two_reps ≡ some r)
        × (r.q1 ≤ r.median)
        × (r.median ≤ r.q3))
unfolding sort
summarize_total_example =
    summarize_total nearest 500 250 750 two_reps (omega arith) (omega arith) (omega arith)
