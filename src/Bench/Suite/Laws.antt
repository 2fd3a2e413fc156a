-- ===== src/Bench/Suite/Laws.antt =====
-- The rows that a suite prints, and the threads of a trial (bench/bench_main.cpp).
use lock_free_mpmc_queue.Base.{
  ℕ, zero, suc, ◌+◌, ◌-◌, ◌%◌, ◌^◌, ◌≤◌, ◌<◌, ◌≡◌, refl, ◌∙◌, ap, ap₂, false, inl, inr, List, [],
  ◌∷◌, ◌++◌, ltb, if◌then◌else◌, Bool-cases, arith,
}
use lock_free_mpmc_queue.Bench.Args.{Options}
use lock_free_mpmc_queue.Bench.Suite.{
  Event, header, skips, tries, row, summary, sub32, split_ratio, rep_loop, is_skipped, count_events,
  threads_events, run_suite,
}

-- Two threads or more are split into producers and consumers, at least one of each and none left
-- over, whatever the rounded share is.
pub split_ratio_bounds :
    (p nthreads : ℕ)
    → 2 ≤ nthreads
    → nthreads < 2 ^ 32
    → p < 2 ^ 32
    → (1 ≤ (split_ratio p nthreads).0)
      × (1 ≤ (split_ratio p nthreads).1)
      × ((split_ratio p nthreads).0 + (split_ratio p nthreads).1 ≡ nthreads)
unfolding split_ratio
split_ratio_bounds p n two small sp = ground arith

-- The thread counts and the repetitions of the rows.
unfoldable pub rows : List Event → List (ℕ × ℕ)
rows [] = []
rows (row n r t ∷ es) = (n, r) ∷ rows es
rows (header ∷ es) = rows es
rows (skips n ∷ es) = rows es
rows (tries t ∷ es) = rows es
rows (summary n ∷ es) = rows es

rows-append : (es fs : List Event) → rows (es ++ fs) ≡ rows es ++ rows fs
unfolding rows
rows-append [] fs = refl
rows-append (row n r t ∷ es) fs = ap (λ rs. (n, r) ∷ rs) (rows-append es fs)
rows-append (header ∷ es) fs = rows-append es fs
rows-append (skips n ∷ es) fs = rows-append es fs
rows-append (tries t ∷ es) fs = rows-append es fs
rows-append (summary n ∷ es) fs = rows-append es fs

-- `k` repetitions from `r` on.
pub numbered : (n r k : ℕ) → List (ℕ × ℕ)
numbered n r zero = []
numbered n r (suc k) = (n, r) ∷ numbered n (r + 1) k

module _ (share : ℕ → ℕ → ℕ → ℕ) (o : Options) where
  -- Every thread count that is not skipped has one row for each repetition, numbered from 0.
  pub expected_rows : List ℕ → List (ℕ × ℕ)
  expected_rows [] = []
  expected_rows (n ∷ ns) =
      (if is_skipped share o n then [] else numbered n 0 o.reps) ++ expected_rows ns

  rows-counted :
      (n left rep : ℕ)
      → o.warmup ≤ rep
      → rep + left < 2 ^ 32
      → rows (rep_loop share o n left rep) ≡ numbered n (rep - o.warmup) left
  unfolding rep_loop rows numbered
  rows-counted n zero rep le small = refl
  rows-counted n (suc left) rep le small =
      let test : ltb rep o.warmup ≡ false = ground arith in
      let number : sub32 rep o.warmup ≡ rep - o.warmup = omega arith in
      let next : rep + 1 - o.warmup ≡ rep - o.warmup + 1 = omega arith in
      rw (test, number)
        (ap (λ rs. (n, rep - o.warmup) ∷ rs)
          (rows-counted n left (rep + 1) (omega arith) (omega arith)
            ∙ ap (λ r. numbered n r left) next))

  rows-rep_loop :
      (n left rep : ℕ)
      → rep ≤ o.warmup
      → rep + left ≡ o.warmup + o.reps
      → o.warmup + o.reps < 2 ^ 32
      → rows (rep_loop share o n left rep) ≡ numbered n 0 o.reps
  unfolding rep_loop rows numbered
  rows-rep_loop n zero rep le e small = let none : o.reps ≡ 0 = omega arith in rw none
  rows-rep_loop n (suc left) rep le e small = elim (Bool-cases (ltb rep o.warmup)) [
    | inl b ↦ rw b (rows-rep_loop n left (rep + 1) (ground arith) (omega arith) small)
    | inr b ↦
        rows-counted n (suc left) rep (ground arith) (omega arith)
        ∙ ap₂ (numbered n) {x = rep - o.warmup} {u = suc left} (ground arith) (ground arith)
  ]

  rows-block :
      (n : ℕ)
      → o.warmup + o.reps < 2 ^ 32
      → rows (count_events share o n) ≡ (if is_skipped share o n then [] else numbered n 0 o.reps)
  unfolding rows
  rows-block n small = elim (Bool-cases (is_skipped share o n)) [
    | inl e ↦ rw e
    | inr e ↦
        rw e (rows-rep_loop n ((o.warmup + o.reps) % 2 ^ 32) 0 (omega arith) (omega arith) small)
  ]

  rows-threads_events :
      (ns : List ℕ)
      → o.warmup + o.reps < 2 ^ 32
      → rows (threads_events share o ns) ≡ expected_rows ns
  unfolding threads_events expected_rows rows
  rows-threads_events [] small = refl
  rows-threads_events (n ∷ ns) small =
      rows-append (count_events share o n) (threads_events share o ns)
      ∙ ap₂ ◌++◌ (rows-block n small) (rows-threads_events ns small)

  -- With fewer than 2 ^ 32 repetitions in all, a suite prints a row for each repetition behind the
  -- warm-up, numbered from 0, of each thread count that it does not skip.
  pub rows-run_suite :
      o.warmup + o.reps < 2 ^ 32 → rows (run_suite share o) ≡ expected_rows o.threads
  unfolding run_suite rows
  rows-run_suite small = rows-threads_events o.threads small
