-- ===== src/Bench/Args/Main.antt =====
-- What `main` runs (bench/bench_main.cpp).
use lock_free_mpmc_queue.Base.{
  ℕ, ◌≡◌, ap, ◌∙◌, ◌≢◌, ◌↔◌, ◌⊎◌, refl, bytes, same_bytes, same_bytes-true, arith, inl, inr,
  Bool-cases, true, false, Bool, Option, none, some, List, [], ◌∷◌, if◌then◌else◌,
}
use lock_free_mpmc_queue.Bench.Args.{
  Options, defaults, Parsed, unknown_argument, invalid_options, parsed, apply_arg, is_invalid,
  parse_loop, parse_args, Suite, mutex, ms, ms_hp, ms_unpadded, ms_hp_unpadded, moodycamel,
  workload_known, suite_of, exits_2, runs, plan_of, main_plan, if_some,
}

parse_loop-valid :
    (argv : List (List ℕ)) (o o' : Options) → parse_loop argv o ≡ parsed o' → is_invalid o' ≡ false
unfolding parse_loop
parse_loop-valid [] o o' h = at_end (is_invalid o) refl h
  where
    at_end :
        (b : Bool)
        → is_invalid o ≡ b
        → (if b then invalid_options else parsed o) ≡ parsed o'
        → is_invalid o' ≡ false
    at_end true e h = cc
    at_end false e h = let same : o ≡ o' = cc in rw (← same) e
parse_loop-valid (a ∷ argv) o o' h =
    by_result (apply_arg a o) (λ p k. parse_loop-valid argv p o' k) h
  where
    by_result :
        (r : Option Options)
        → ((p : Options) → parse_loop argv p ≡ parsed o' → is_invalid o' ≡ false)
        → (elim r [ some p ↦ parse_loop argv p | none ↦ unknown_argument a ]) ≡ parsed o'
        → is_invalid o' ≡ false
    by_result none all h = cc
    by_result (some p) all h = all p h

plan_of-runs :
    (p : Parsed) (k : Suite) (o : Options)
    → plan_of p ≡ runs k o
    → (p ≡ parsed o) × (suite_of o.queue ≡ some k)
plan_of-runs (unknown_argument a) k o h = cc
plan_of-runs invalid_options k o h = cc
plan_of-runs (parsed o') k o h = by_suite (suite_of o'.queue) refl h
  where
    by_suite :
        (s : Option Suite)
        → suite_of o'.queue ≡ s
        → if_some s (λ k'. runs k' o') exits_2 ≡ runs k o
        → (parsed o' ≡ parsed o) × (suite_of o.queue ≡ some k)
    by_suite none e h = cc
    by_suite (some k') e h =
        let same : o' ≡ o = cc in let suite : k' ≡ k = cc in (cc, rw (← same, ← suite) e)

-- The value of --queue that stands for a suite.
abbrev pub name_of : Suite → List ℕ
name_of mutex = bytes "mutex"
name_of ms = bytes "ms"
name_of ms_hp = bytes "ms-hp"
name_of ms_unpadded = bytes "ms-unpadded"
name_of ms_hp_unpadded = bytes "ms-hp-unpadded"
name_of moodycamel = bytes "moodycamel"

suite_of-name_of : (k : Suite) → suite_of (name_of k) ≡ some k
unfolding suite_of
suite_of-name_of mutex = refl
suite_of-name_of ms = refl
suite_of-name_of ms_hp = refl
suite_of-name_of ms_unpadded = refl
suite_of-name_of ms_hp_unpadded = refl
suite_of-name_of moodycamel = refl

-- One comparison of `main`.
named_or :
    (q : List ℕ) (a k : Suite) (rest : Option Suite)
    → (if same_bytes q (name_of a) then some a else rest) ≡ some k
    → (q ≡ name_of k) ⊎ (rest ≡ some k)
named_or q a k rest h = elim (Bool-cases (same_bytes q (name_of a))) [
  | inl e ↦
      let same : a ≡ k = ground (arith, e, h) in
      inl (same_bytes-true q (name_of a) e ∙ ap name_of same)
  | inr e ↦ inr (ground (arith, e, h))
]

suite_of-some : (q : List ℕ) (k : Suite) → suite_of q ≡ some k → q ≡ name_of k
unfolding suite_of
suite_of-some q k h = elim (named_or q mutex k _ h) [
  | inl e ↦ e
  | inr h0 ↦ elim (named_or q ms k _ h0) [
    | inl e ↦ e
    | inr h1 ↦ elim (named_or q ms_hp k _ h1) [
      | inl e ↦ e
      | inr h2 ↦ elim (named_or q ms_unpadded k _ h2) [
        | inl e ↦ e
        | inr h3 ↦ elim (named_or q ms_hp_unpadded k _ h3) [
          | inl e ↦ e
          | inr h4 ↦ elim (named_or q moodycamel k _ h4) [ inl e ↦ e | inr h5 ↦ cc ]
        ]
      ]
    ]
  ]
]

known_workload :
    (w : List ℕ)
    → workload_known w ≡ true
    → (w ≡ bytes "pairs") ⊎ (w ≡ bytes "pc") ⊎ (w ≡ bytes "enq") ⊎ (w ≡ bytes "deq")
known_workload w h = elim (Bool-cases (same_bytes w (bytes "pairs"))) [
  | inl e ↦ inl (same_bytes-true w (bytes "pairs") e)
  | inr not_pairs ↦ elim (Bool-cases (same_bytes w (bytes "pc"))) [
    | inl e ↦ inr (inl (same_bytes-true w (bytes "pc") e))
    | inr not_pc ↦ elim (Bool-cases (same_bytes w (bytes "enq"))) [
      | inl e ↦ inr (inr (inl (same_bytes-true w (bytes "enq") e)))
      | inr not_enq ↦ inr (
          inr
            (inr (same_bytes-true w (bytes "deq") (ground (arith, not_pairs, not_pc, not_enq, h)))))
    ]
  ]
]

has_threads : (o : Options) → is_invalid o ≡ false → o.threads ≢ []
has_threads o h e = ground (arith, e, h)

-- `main` runs the suite `k` with the options `o` just if parse_args returns them, its --queue is the
-- name of `k`, they have a thread count and no zero in the operations per thread, the repetitions
-- and the two shares of the ratio, and their workload is pairs, pc, enq or deq.
pub main_plan-runs :
    (argv : List (List ℕ)) (k : Suite) (o : Options)
    → (main_plan argv ≡ runs k o) ↔ (
        (parse_args argv ≡ parsed o)
        × (o.queue ≡ name_of k)
        × (o.threads ≢ [])
        × (o.ops_per_thread ≢ 0)
        × (o.reps ≢ 0)
        × (o.ratio_p ≢ 0)
        × (o.ratio_c ≢ 0)
        × ((o.workload ≡ bytes "pairs")
            ⊎ (o.workload ≡ bytes "pc")
            ⊎ (o.workload ≡ bytes "enq")
            ⊎ (o.workload ≡ bytes "deq")))
unfolding main_plan
main_plan-runs argv k o = (
  λ h.
      let (args, suite) = plan_of-runs (parse_args argv) k o h in
      let valid = parse_loop-valid argv defaults o args in
      (
        args,
        suite_of-some o.queue k suite,
        has_threads o valid,
        (λ e. ground (arith, valid, e)),
        (λ e. ground (arith, valid, e)),
        (λ e. ground (arith, valid, e)),
        (λ e. ground (arith, valid, e)),
        known_workload o.workload (ground (arith, valid)),
      ),
  λ h. rw (h.0, h.1, suite_of-name_of k) refl,
)
