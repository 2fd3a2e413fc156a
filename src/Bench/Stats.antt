-- ===== src/Bench/Stats.antt =====
-- The statistics of the benchmark: percentile_sorted and summarize (bench/harness.hpp), and the
-- samples that run_threads merges and sorts (bench/bench_main.cpp). A double that is not negative is
-- kept as its bits, whose order is that of the numbers.
use lock_free_mpmc_queue.Base.{
  ℕ, zero, suc, ◌+◌, ◌-◌, ◌%◌, ◌^◌, ◌≤◌, ◌<◌, ◌≡◌, ◌↔◌, ◌⊎◌, refl, inl, inr, Bool, true, false,
  Option, none, some, List, [], ◌∷◌, ◌++◌, ltb, if◌then◌else◌, length, length-append, get_or,
  sum_below, arith,
}
use lock_free_mpmc_queue.Std.Search.{sort, sort-IsSorted, get_or_mono}
use lock_free_mpmc_queue.Std.Search.Tally.{
  tally_below, tally_upto, tally_below-append, tally_upto-append, length-sort, sort_rank,
  tally_below-sort, tally_upto-sort,
}
use lock_free_mpmc_queue.Bench.Trials.{Participant}
pub mod Laws

-- A read of a vector; `none` is a read out of its range.
abbrev pub read : List ℕ → ℕ → Option ℕ
read xs i = if ltb i (length xs) then some (get_or xs i 0) else none

-- size() - 1, of a size_t
abbrev pub last_index : List ℕ → ℕ
last_index xs = (length xs + 2 ^ 64 - 1) % 2 ^ 64

pub record RepSummary : Type 0 where
  pub median : ℕ
  pub q1 : ℕ
  pub q3 : ℕ

-- The samples of the workers below `n`, one worker behind the other.
pub gathered : (Participant → List ℕ) → (ℕ → Participant) → ℕ → List ℕ
gathered samples worker zero = []
gathered samples worker (suc n) = gathered samples worker n ++ samples (worker n)

-- r.enq_ns and r.deq_ns of run_threads.
unfoldable pub merged : (Participant → List ℕ) → (ℕ → Participant) → ℕ → List ℕ
unfolding gathered
merged samples worker n = sort (gathered samples worker n)

-- `rank q n` is the arithmetic on double that makes an index of the quantile `q` and the size - 1:
-- q * n + 0.5 without its fraction.
module _ {Quantile : Type 0} (rank : Quantile → ℕ → ℕ) where
  -- idx of percentile_sorted, and of `at` in summarize.
  unfoldable pub index : List ℕ → Quantile → ℕ
  index xs q = let i = rank q (last_index xs) in if ltb i (length xs) then i else last_index xs

  unfoldable pub percentile_sorted : List ℕ → Quantile → Option ℕ
  percentile_sorted [] q = some 0
  percentile_sorted (x ∷ xs) q = read (x ∷ xs) (index (x ∷ xs) q)

  abbrev with_quartiles : Option ℕ → Option ℕ → Option ℕ → Option RepSummary
  with_quartiles (some m) (some a) (some b) = some (record { median = m; q1 = a; q3 = b })
  with_quartiles (some m) (some a) none = none
  with_quartiles (some m) none c = none
  with_quartiles none b c = none

  unfoldable pub summarize : (half quarter three_quarters : Quantile) → List ℕ → Option RepSummary
  unfolding index
  summarize half quarter three_quarters reps =
      let s = sort reps in
      with_quartiles (read s (index s half)) (read s (index s quarter))
        (read s (index s three_quarters))
