-- ===== src/Bench/Args.antt =====
-- The options of the benchmark: `options`, `parse_args` and the choice of the queue in `main`
-- (bench/bench_main.cpp). The arguments are those behind the name of the program.
use lock_free_mpmc_queue.Base.{
  ℕ, ◌%◌, ◌^◌, Bool, true, false, ◌&&◌, ◌||◌, not, Option, none, some, List, [], ◌∷◌, ◌==◌,
  if◌then◌else◌, bytes, same_bytes, after_prefix,
}
use lock_free_mpmc_queue.Bench.Numbers.{strtoul}
use lock_free_mpmc_queue.Bench.Threads.{parse_thread_list}
pub mod Laws
pub mod Main

pub record Options : Type 0 where
  pub queue : List ℕ
  pub workload : List ℕ
  pub ratio_p : ℕ
  pub ratio_c : ℕ
  pub threads : List ℕ
  pub ops_per_thread : ℕ
  pub reps : ℕ
  pub warmup : ℕ

abbrev pub defaults : Options
defaults = record {
  queue = bytes "mutex";
  workload = bytes "pairs";
  ratio_p = 1;
  ratio_c = 1;
  threads = 1 ∷ 2 ∷ 4 ∷ 8 ∷ [];
  ops_per_thread = 100000;
  reps = 10;
  warmup = 2;
}

-- What `parse_args` comes to: std::exit(2) with one of two messages, or options.
pub data Parsed : Type 0 where
  unknown_argument : (a : List ℕ) → Parsed
  invalid_options : Parsed
  parsed : Options → Parsed

abbrev pub if_some {ℓ} : {A : Type 0} {B : Type ℓ} → Option A → (A → B) → B → B
if_some none f b = b
if_some (some a) f b = f a

-- strtoul, as an unsigned
abbrev pub number_32 : List ℕ → ℕ
number_32 s = (strtoul s).value % 2 ^ 32

-- The consumers' share of a ratio, from where the producers' share ends.
abbrev pub share_after : List ℕ → ℕ
share_after [] = 0
share_after (c ∷ s) = if c == b':' then number_32 s else 0

-- The loop of parse_thread_list always ends, so `none` does not occur.
abbrev pub thread_counts : List ℕ → List ℕ
thread_counts s = if_some (parse_thread_list s) (λ ts. ts) []

-- One argument; `none` if it is unknown.
unfoldable pub apply_arg : List ℕ → Options → Option Options
apply_arg a o =
    if_some (after_prefix (bytes "--queue=") a) (λ v. some (record o { queue = v }))
      (if_some (after_prefix (bytes "--workload=") a) (λ v. some (record o { workload = v }))
        (if_some (after_prefix (bytes "--ratio=") a)
          (λ v. some (record o { ratio_p = number_32 v; ratio_c = share_after (strtoul v).end }))
          (if_some (after_prefix (bytes "--threads=") a)
            (λ v. some (record o { threads = thread_counts v }))
            (if_some (after_prefix (bytes "--ops=") a)
              (λ v. some (record o { ops_per_thread = (strtoul v).value }))
              (if_some (after_prefix (bytes "--reps=") a)
                (λ v. some (record o { reps = number_32 v }))
                (if_some (after_prefix (bytes "--warmup=") a)
                  (λ v. some (record o { warmup = number_32 v })) none))))))

abbrev pub is_empty_list : List ℕ → Bool
is_empty_list [] = true
is_empty_list (x ∷ xs) = false

abbrev pub workload_known : List ℕ → Bool
workload_known w =
    same_bytes w (bytes "pairs")
    || same_bytes w (bytes "pc")
    || same_bytes w (bytes "enq")
    || same_bytes w (bytes "deq")

abbrev pub is_invalid : Options → Bool
is_invalid o =
    is_empty_list o.threads
    || o.ops_per_thread == 0
    || o.reps == 0
    || not (workload_known o.workload)
    || o.ratio_p == 0
    || o.ratio_c == 0

unfoldable pub parse_loop : List (List ℕ) → Options → Parsed
unfolding apply_arg
parse_loop [] o = if is_invalid o then invalid_options else parsed o
parse_loop (a ∷ rest) o = elim (apply_arg a o) [
  | some o' ↦ parse_loop rest o'
  | none ↦ unknown_argument a
]

unfoldable pub parse_args : List (List ℕ) → Parsed
unfolding parse_loop
parse_args argv = parse_loop argv defaults

-- The instances of run_suite.
pub data Suite : Type 0 where
  mutex ms ms_hp ms_unpadded ms_hp_unpadded moodycamel : Suite

unfoldable pub suite_of : List ℕ → Option Suite
suite_of q =
    if same_bytes q (bytes "mutex")
    then some mutex
    else if same_bytes q (bytes "ms")
    then some ms
    else if same_bytes q (bytes "ms-hp")
    then some ms_hp
    else if same_bytes q (bytes "ms-unpadded")
    then some ms_unpadded
    else if same_bytes q (bytes "ms-hp-unpadded")
    then some ms_hp_unpadded
    else if same_bytes q (bytes "moodycamel")
    then some moodycamel
    else none

-- What `main` does: it exits with status 2, or runs a suite and returns 0.
pub data Plan : Type 0 where
  exits_2 : Plan
  runs : Suite → Options → Plan

abbrev pub plan_of : Parsed → Plan
plan_of (unknown_argument a) = exits_2
plan_of invalid_options = exits_2
plan_of (parsed o) = if_some (suite_of o.queue) (λ k. runs k o) exits_2

unfoldable pub main_plan : List (List ℕ) → Plan
unfolding parse_args suite_of
main_plan argv = plan_of (parse_args argv)
