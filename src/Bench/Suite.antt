-- ===== src/Bench/Suite.antt =====
-- split_ratio and run_suite (bench/bench_main.cpp): what a suite runs and prints, in order.
use lock_free_mpmc_queue.Base.{
  ℕ, zero, suc, ◌+◌, ◌-◌, ◌%◌, ◌^◌, Bool, List, [], ◌∷◌, ◌++◌, ltb, if◌then◌else◌, bytes,
  same_bytes,
}
use lock_free_mpmc_queue.Bench.Args.{Options}
pub mod Laws

-- The trials, with their numbers of threads and of operations.
pub data Trial : Type 0 where
  pairs : (nthreads ops : ℕ) → Trial
  pc : (producers consumers ops : ℕ) → Trial
  enq : (nthreads ops : ℕ) → Trial
  deq : (nthreads ops : ℕ) → Trial

-- The lines of the output, and the trials between them. `label` is the trial that the label of the
-- workload names.
pub data Event : Type 0 where
  header : Event
  skips : (nthreads : ℕ) → Event
  tries : Trial → Event
  row : (nthreads rep : ℕ) (label : Trial) → Event
  summary : (nthreads : ℕ) → Event

-- An unsigned difference.
abbrev pub sub32 : ℕ → ℕ → ℕ
sub32 a b = (a + 2 ^ 32 - b) % 2 ^ 32

-- The producers and the consumers, from `p`, the share of the producers as an unsigned.
unfoldable pub split_ratio : (p nthreads : ℕ) → ℕ × ℕ
split_ratio p nthreads =
    let at_least = if ltb p 1 then 1 else p in
    let producers = if ltb (sub32 nthreads 1) at_least then sub32 nthreads 1 else at_least in
    (producers, sub32 nthreads producers)

-- `share` of the two parts of the ratio and the number of threads is the share of the producers,
-- rounded: arithmetic on double.
module _ (share : ℕ → ℕ → ℕ → ℕ) (o : Options) where
  -- The trial of the chain of tests, for `nthreads` threads.
  unfoldable pub trial_of : ℕ → Trial
  unfolding split_ratio
  trial_of nthreads =
      let (p, c) = split_ratio (share o.ratio_p o.ratio_c nthreads) nthreads in
      if same_bytes o.workload (bytes "pairs")
      then pairs nthreads o.ops_per_thread
      else if same_bytes o.workload (bytes "pc")
      then pc p c o.ops_per_thread
      else if same_bytes o.workload (bytes "enq")
      then enq nthreads o.ops_per_thread
      else deq nthreads o.ops_per_thread

  -- The loop over the repetitions, with `left` of them to come after the first `rep`.
  unfoldable pub rep_loop : (nthreads left rep : ℕ) → List Event
  unfolding trial_of
  rep_loop nthreads zero rep = summary nthreads ∷ []
  rep_loop nthreads (suc left) rep =
      let rest = rep_loop nthreads left (rep + 1) in
      tries (trial_of nthreads)
      ∷ (if ltb rep o.warmup
          then rest
          else row nthreads (sub32 rep o.warmup) (trial_of nthreads) ∷ rest)

  abbrev pub is_skipped : ℕ → Bool
  is_skipped nthreads = if same_bytes o.workload (bytes "pc") then ltb nthreads 2 else Bool.false

  -- The body of the loop over the thread counts.
  abbrev pub count_events : ℕ → List Event
  count_events n =
      if is_skipped n then skips n ∷ [] else rep_loop n ((o.warmup + o.reps) % 2 ^ 32) 0

  unfoldable pub threads_events : List ℕ → List Event
  unfolding rep_loop
  threads_events [] = []
  threads_events (n ∷ ns) = count_events n ++ threads_events ns

  unfoldable pub run_suite : List Event
  unfolding threads_events
  run_suite = header ∷ threads_events o.threads
