-- ===== src/Bench/Samples.antt =====
-- The options of the benchmark at concrete arguments (bench/bench_main.cpp).
use lock_free_mpmc_queue.Base.{
  ℕ, ◌+◌, ◌*◌, ◌/◌, ◌^◌, ◌≤◌, ◌≡◌, ◌≢◌, ◌↔◌, ◌⊎◌, refl, some, List, [], ◌∷◌, map, bytes, arith,
}
use lock_free_mpmc_queue.Bench.Numbers.{strtoul}
use lock_free_mpmc_queue.Bench.Threads.{parse_thread_list, parse_thread_list_total}
use lock_free_mpmc_queue.Bench.Threads.Text.{thread_list_text, low_32, parse_thread_list-text}
use lock_free_mpmc_queue.Bench.Args.{
  Options, defaults, unknown_argument, parsed, parse_args, ms_hp, runs, main_plan,
}
use lock_free_mpmc_queue.Bench.Args.Laws.{
  command_line, parse_args-command_line, parse_args-unknown, FitsTypes,
}
use lock_free_mpmc_queue.Bench.Args.Main.{main_plan-runs}
use lock_free_mpmc_queue.Bench.Suite.{split_ratio, run_suite}
use lock_free_mpmc_queue.Bench.Suite.Laws.{split_ratio_bounds, rows, expected_rows, rows-run_suite}

-- What stands behind a number that is no comma and no number is dropped.
threads_of_text : parse_thread_list (bytes "2, 16,x,4") ≡ some (2 ∷ 16 ∷ [])
unfolding parse_thread_list strtoul
threads_of_text = refl

parse_thread_list_total_example : (r : List ℕ) × (parse_thread_list (bytes "8;;9") ≡ some r)
parse_thread_list_total_example = parse_thread_list_total (bytes "8;;9")

-- 2 ^ 32 passes the test for 0, and becomes 0.
parse_thread_list-text_example :
    parse_thread_list (thread_list_text (4 ∷ 2 ^ 32 ∷ [])) ≡ some (map low_32 (4 ∷ 2 ^ 32 ∷ []))
parse_thread_list-text_example = parse_thread_list-text (4 ∷ 2 ^ 32 ∷ []) (omega arith)

abbrev three_to_one : Options
three_to_one = record defaults {
  queue = bytes "ms-hp";
  workload = bytes "pc";
  ratio_p = 3;
  threads = 1 ∷ 8 ∷ [];
  reps = 3;
}

fits : FitsTypes three_to_one
fits = omega arith

parse_args-command_line_example : parse_args (command_line three_to_one) ≡ parsed three_to_one
parse_args-command_line_example = parse_args-command_line three_to_one fits refl

parse_args-unknown_example :
    parse_args (bytes "--ops=5" ∷ bytes "--help" ∷ bytes "--reps=0" ∷ [])
    ≡ unknown_argument (bytes "--help")
parse_args-unknown_example =
    parse_args-unknown (bytes "--ops=5" ∷ []) (bytes "--help") (bytes "--reps=0" ∷ []) refl refl

main_of_queue :
    main_plan (bytes "--queue=ms-hp" ∷ []) ≡ runs ms_hp (record defaults { queue = bytes "ms-hp" })
unfolding main_plan
main_of_queue = refl

main_plan-runs_example :
    let o : Options = record defaults { queue = bytes "ms-hp" } in
    (main_plan (bytes "--queue=ms-hp" ∷ []) ≡ runs ms_hp o) ↔ (
      (parse_args (bytes "--queue=ms-hp" ∷ []) ≡ parsed o)
      × (o.queue ≡ bytes "ms-hp")
      × (o.threads ≢ [])
      × (o.ops_per_thread ≢ 0)
      × (o.reps ≢ 0)
      × (o.ratio_p ≢ 0)
      × (o.ratio_c ≢ 0)
      × ((o.workload ≡ bytes "pairs")
          ⊎ (o.workload ≡ bytes "pc")
          ⊎ (o.workload ≡ bytes "enq")
          ⊎ (o.workload ≡ bytes "deq")))
main_plan-runs_example =
    main_plan-runs (bytes "--queue=ms-hp" ∷ []) ms_hp (record defaults { queue = bytes "ms-hp" })

split_ratio_bounds_example :
    (1 ≤ (split_ratio 9 4).0)
    × (1 ≤ (split_ratio 9 4).1)
    × ((split_ratio 9 4).0 + (split_ratio 9 4).1 ≡ 4)
split_ratio_bounds_example = split_ratio_bounds 9 4 (omega arith) (omega arith) (omega arith)

-- A rounding that needs no fractions.
abbrev rounded_share : ℕ → ℕ → ℕ → ℕ
rounded_share p c n = (2 * p * n + (p + c)) / (2 * (p + c))

rows-run_suite_example :
    rows (run_suite rounded_share three_to_one)
    ≡ expected_rows rounded_share three_to_one (1 ∷ 8 ∷ [])
rows-run_suite_example = rows-run_suite rounded_share three_to_one (omega arith)

rows_of_suite : rows (run_suite rounded_share three_to_one) ≡ (8, 0) ∷ (8, 1) ∷ (8, 2) ∷ []
unfolding run_suite rows
rows_of_suite = refl
