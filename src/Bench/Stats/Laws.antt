-- ===== src/Bench/Stats/Laws.antt =====
-- What the percentiles and the quartiles of the benchmark say of the samples (bench/harness.hpp).
use lock_free_mpmc_queue.Base.{
  ℕ, zero, suc, ◌^◌, ◌≤◌, ◌<◌, ◌≡◌, ◌≢◌, ◌⊎◌, refl, inl, inr, Option, none, some, List, [], ◌∷◌,
  length, length-append, get_or, sum_below, arith,
}
use lock_free_mpmc_queue.Std.Search.{sort, sort-IsSorted, get_or_mono}
use lock_free_mpmc_queue.Std.Search.Tally.{
  tally_below, tally_upto, tally_below-append, tally_upto-append, length-sort, sort_rank,
}
use lock_free_mpmc_queue.Bench.Trials.{Participant}
use lock_free_mpmc_queue.Bench.Stats.{
  read, last_index, RepSummary, gathered, merged, index, percentile_sorted, summarize,
}

module _ (samples : Participant → List ℕ) (worker : ℕ → Participant) where
  tally_below-gathered :
      (v n : ℕ)
      → tally_below v (gathered samples worker n)
        ≡ sum_below (λ w. tally_below v (samples w)) worker n
  unfolding gathered sum_below
  tally_below-gathered v zero = refl
  tally_below-gathered v (suc n) = omega (
    arith,
    tally_below-append v (gathered samples worker n) (samples (worker n)),
    tally_below-gathered v n,
  )

  tally_upto-gathered :
      (v n : ℕ)
      → tally_upto v (gathered samples worker n)
        ≡ sum_below (λ w. tally_upto v (samples w)) worker n
  unfolding gathered sum_below
  tally_upto-gathered v zero = refl
  tally_upto-gathered v (suc n) = omega (
    arith,
    tally_upto-append v (gathered samples worker n) (samples (worker n)),
    tally_upto-gathered v n,
  )

  pub length-gathered :
      (n : ℕ) → length (gathered samples worker n) ≡ sum_below (λ w. length (samples w)) worker n
  unfolding gathered sum_below
  length-gathered zero = refl
  length-gathered (suc n) =
      omega (
        arith,
        length-append {0} (gathered samples worker n) (samples (worker n)),
        length-gathered n,
      )

  pub length-merged :
      (n : ℕ) → length (merged samples worker n) ≡ sum_below (λ w. length (samples w)) worker n
  unfolding merged
  length-merged n = omega (arith, length-sort (gathered samples worker n), length-gathered n)

  merged_rank :
      (n i : ℕ)
      → i < length (merged samples worker n)
      → let v = get_or (merged samples worker n) i 0 in
        (sum_below (λ w. tally_below v (samples w)) worker n ≤ i)
        × (i < sum_below (λ w. tally_upto v (samples w)) worker n)
  unfolding merged
  merged_rank n i h =
      let v : ℕ = get_or (merged samples worker n) i 0 in
      omega (
        arith,
        length-sort (gathered samples worker n),
        sort_rank (gathered samples worker n) i,
        tally_below-gathered v n,
        tally_upto-gathered v n,
      )

module _ {Quantile : Type 0} (rank : Quantile → ℕ → ℕ) where
  module _ (xs : List ℕ) (some_there : 0 < length xs) (fits : length xs < 2 ^ 64) where
    index-lt : (q : Quantile) → index rank xs q < length xs
    unfolding index
    index-lt q = ground arith

    index_mono :
        (q q' : Quantile)
        → rank q (last_index xs) ≤ rank q' (last_index xs)
        → index rank xs q ≤ index rank xs q'
    unfolding index
    index_mono q q' h = ground arith

    read-index : (q : Quantile) → read xs (index rank xs q) ≡ some (get_or xs (index rank xs q) 0)
    read-index q = ground (arith, index-lt q)

  read_quantile :
      (xs : List ℕ)
      → 0 < length xs
      → length xs < 2 ^ 64
      → (q : Quantile) → percentile_sorted rank xs q ≡ some (get_or xs (index rank xs q) 0)
  unfolding percentile_sorted
  read_quantile [] h fits q = absurd (omega arith)
  read_quantile (x ∷ xs) h fits q = read-index (x ∷ xs) h fits q

  -- A percentile of the samples that some workers have made, at least one and fewer than 2^64, is the
  -- one of its rank: of the samples of all workers no more than its index are less, and more than its index are no
  -- greater.
  pub percentile_rank :
      (samples : Participant → List ℕ) (worker : ℕ → Participant) (n : ℕ) (q : Quantile)
      → 0 < sum_below (λ w. length (samples w)) worker n
      → sum_below (λ w. length (samples w)) worker n < 2 ^ 64
      → (v : ℕ) × (percentile_sorted rank (merged samples worker n) q ≡ some v)
        × (sum_below (λ w. tally_below v (samples w)) worker n
            ≤ index rank (merged samples worker n) q)
        × (index rank (merged samples worker n) q
            < sum_below (λ w. tally_upto v (samples w)) worker n)
  percentile_rank samples worker n q some_there fits =
      let xs : List ℕ = merged samples worker n in
      let all = length-merged samples worker n in
      let i : ℕ = index rank xs q in
      let inside = index-lt xs (omega (arith, all)) (omega (arith, all)) q in
      let bounds = merged_rank samples worker n i inside in
      (
        get_or xs i 0,
        read_quantile xs (omega (arith, all)) (omega (arith, all)) q,
        bounds.0,
        bounds.1,
      )

  module _ (half quarter three_quarters : Quantile) where
    abbrev sum_up : List ℕ → Option RepSummary
    sum_up = summarize rank half quarter three_quarters

    -- The summary where there is one.
    quartiles : List ℕ → RepSummary
    quartiles reps = record {
      median = get_or (sort reps) (index rank (sort reps) half) 0;
      q1 = get_or (sort reps) (index rank (sort reps) quarter) 0;
      q3 = get_or (sort reps) (index rank (sort reps) three_quarters) 0;
    }

    summarize-quartiles :
        (reps : List ℕ)
        → 0 < length reps
        → length reps < 2 ^ 64
        → sum_up reps ≡ some (quartiles reps)
    unfolding summarize quartiles
    summarize-quartiles reps some_there fits =
        let here =
          read-index (sort reps) (omega (arith, length-sort reps))
            (omega (arith, length-sort reps)) in
        rw (here half, here quarter, here three_quarters) refl

    -- summarize of fewer than 2^64 repetitions, with the ranks of its quantiles in order, reads out of
    -- the range of its vector just if there is no repetition, and otherwise has its quartiles in order
    -- about the median.
    pub summarize_total :
        (reps : List ℕ)
        → length reps < 2 ^ 64
        → rank quarter (last_index (sort reps)) ≤ rank half (last_index (sort reps))
        → rank half (last_index (sort reps)) ≤ rank three_quarters (last_index (sort reps))
        → ((reps ≡ []) × (sum_up reps ≡ none))
          ⊎ ((r : RepSummary) × (reps ≢ [])
              × (sum_up reps ≡ some r)
              × (r.q1 ≤ r.median)
              × (r.median ≤ r.q3))
    unfolding summarize sort quartiles
    summarize_total [] fits low high = inl (refl, ground arith)
    summarize_total (x ∷ xs) fits low high =
        let s : List ℕ = sort (x ∷ xs) in
        let size = length-sort (x ∷ xs) in
        let ordered = λ (i j : ℕ). get_or_mono s i j (sort-IsSorted (x ∷ xs)) in
        inr (
          quartiles (x ∷ xs),
          (λ e. cc),
          summarize-quartiles (x ∷ xs) (omega arith) fits,
          ordered _ _ (index_mono s (omega (arith, size)) (omega (arith, size)) quarter half low)
              (index-lt s (omega (arith, size)) (omega (arith, size)) half),
          ordered _ _
              (index_mono s (omega (arith, size)) (omega (arith, size)) half three_quarters high)
              (index-lt s (omega (arith, size)) (omega (arith, size)) three_quarters),
        )
