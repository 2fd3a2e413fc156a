-- ===== src/Bench/Args/Laws.antt =====
-- Every set of valid options can be written as arguments, and an unknown argument ends the program
-- (bench/bench_main.cpp).
use lock_free_mpmc_queue.Base.{
  ℕ, ◌%◌, ◌^◌, ◌<◌, ◌≡◌, refl, ◌∙◌, Bool, true, false, ◌||◌, ◌&&◌, Option, none, some, List, [],
  ◌∷◌, ◌++◌, map, bytes, after_prefix, arith,
}
use lock_free_mpmc_queue.Bench.Numbers.Decimal.{decimal, strtoul-decimal, strtoul-decimal_end}
use lock_free_mpmc_queue.Bench.Threads.Text.{
  thread_list_text, AreCounts, low_32, parse_thread_list-text,
}
use lock_free_mpmc_queue.Bench.Args.{
  Options, defaults, unknown_argument, parsed, apply_arg, is_invalid, parse_loop, parse_args,
  number_32, thread_counts, if_some,
}

-- The options as arguments.
pub command_line : Options → List (List ℕ)
command_line o =
    (bytes "--queue=" ++ o.queue)
    ∷ (bytes "--workload=" ++ o.workload)
    ∷ (bytes "--ratio=" ++ decimal o.ratio_p ++ b':' ∷ decimal o.ratio_c)
    ∷ (bytes "--threads=" ++ thread_list_text o.threads)
    ∷ (bytes "--ops=" ++ decimal o.ops_per_thread)
    ∷ (bytes "--reps=" ++ decimal o.reps)
    ∷ (bytes "--warmup=" ++ decimal o.warmup)
    ∷ []

-- The fields hold values of their types, and no thread count is 0.
abbrev AreThreads : List ℕ → Type 0
AreThreads [] = Unit
AreThreads (n ∷ ns) = (0 < n) × (n < 2 ^ 32) × AreThreads ns

pub record FitsTypes (o : Options) : Type 0 where
  pub ratio_p : o.ratio_p < 2 ^ 32
  pub ratio_c : o.ratio_c < 2 ^ 32
  pub threads : AreThreads o.threads
  pub ops_per_thread : o.ops_per_thread < 2 ^ 64
  pub reps : o.reps < 2 ^ 32
  pub warmup : o.warmup < 2 ^ 32

AreThreads-AreCounts : (ns : List ℕ) → AreThreads ns → AreCounts ns
AreThreads-AreCounts [] h = tt
AreThreads-AreCounts (n ∷ ns) h = (h.0, omega (arith, h.1), AreThreads-AreCounts ns h.2)

map-low_32 : (ns : List ℕ) → AreThreads ns → map low_32 ns ≡ ns
map-low_32 [] h = refl
map-low_32 (n ∷ ns) h = let e : low_32 n ≡ n = omega (arith, h.1) in rw (e, map-low_32 ns h.2)

thread_counts-text : (ns : List ℕ) → AreThreads ns → thread_counts (thread_list_text ns) ≡ ns
thread_counts-text ns h =
    rw (parse_thread_list-text ns (AreThreads-AreCounts ns h)) (map-low_32 ns h)

number_32-decimal : (n : ℕ) → n < 2 ^ 32 → number_32 (decimal n) ≡ n
number_32-decimal n h = rw (strtoul-decimal_end n (omega arith)) (omega arith)

-- Options that fit their types and are not refused are parsed from their arguments.
pub parse_args-command_line :
    (o : Options) → FitsTypes o → is_invalid o ≡ false → parse_args (command_line o) ≡ parsed o
unfolding parse_args command_line
parse_args-command_line o fits valid =
    let ratio =
      strtoul-decimal o.ratio_p (b':' ∷ decimal o.ratio_c) (omega (arith, fits.ratio_p)) refl in
    let share : o.ratio_p % 2 ^ 32 ≡ o.ratio_p = omega (arith, fits.ratio_p) in
    rw
      (
        ratio,
        share,
        number_32-decimal o.ratio_c fits.ratio_c,
        thread_counts-text o.threads fits.threads,
        strtoul-decimal_end o.ops_per_thread fits.ops_per_thread,
        number_32-decimal o.reps fits.reps,
        number_32-decimal o.warmup fits.warmup,
      )
      (rw valid)

abbrev starts : List ℕ → List ℕ → Bool
starts a key = if_some (after_prefix key a) (λ v. true) false

-- Whether an argument starts with a key.
abbrev pub has_key : List ℕ → Bool
has_key a =
    starts a (bytes "--queue=")
    || (starts a (bytes "--workload=")
        || (starts a (bytes "--ratio=")
            || (starts a (bytes "--threads=")
                || (starts a (bytes "--ops=")
                    || (starts a (bytes "--reps=") || starts a (bytes "--warmup="))))))

abbrev pub all_have_keys : List (List ℕ) → Bool
all_have_keys [] = true
all_have_keys (a ∷ as') = has_key a && all_have_keys as'

all_true : (x y : Bool) → (x && y) ≡ true → (x ≡ true) × (y ≡ true)
all_true true y h = (refl, h)
all_true false y h = cc

abbrev is_some {ℓ} : {A : Type ℓ} → Option A → Bool
is_some none = false
is_some (some a) = true

is_some-if_some :
    {A B : Type 0} (m : Option A) (f : A → B) (rest : Option B) (b : Bool)
    → is_some rest ≡ b
    → is_some (if_some m (λ v. some (f v)) rest) ≡ (if_some m (λ v. true) false || b)
is_some-if_some none f rest b h = h
is_some-if_some (some v) f rest b h = refl

is_some-if_last :
    {A B : Type 0} (m : Option A) (f : A → B)
    → is_some (if_some m (λ v. some (f v)) none) ≡ if_some m (λ v. true) false
is_some-if_last none f = refl
is_some-if_last (some v) f = refl

apply_arg-has_key : (a : List ℕ) (o : Options) → is_some (apply_arg a o) ≡ has_key a
unfolding apply_arg
apply_arg-has_key a o = is_some-if_some (after_prefix (bytes "--queue=") a) _ _ _ (
    is_some-if_some (after_prefix (bytes "--workload=") a) _ _ _ (
      is_some-if_some (after_prefix (bytes "--ratio=") a) _ _ _ (
        is_some-if_some (after_prefix (bytes "--threads=") a) _ _ _ (
          is_some-if_some (after_prefix (bytes "--ops=") a) _ _ _ (
            is_some-if_some (after_prefix (bytes "--reps=") a) _ _ _
              (is_some-if_last (after_prefix (bytes "--warmup=") a) _))))))

parse_loop-unknown :
    (known : List (List ℕ)) (a : List ℕ) (behind : List (List ℕ)) (o : Options)
    → all_have_keys known ≡ true
    → has_key a ≡ false
    → parse_loop (known ++ a ∷ behind) o ≡ unknown_argument a
unfolding parse_loop
parse_loop-unknown [] a behind o k h = by_result (apply_arg a o) (apply_arg-has_key a o ∙ h)
  where
    by_result :
        (r : Option Options)
        → is_some r ≡ false
        → (elim r [ some o' ↦ parse_loop behind o' | none ↦ unknown_argument a ])
          ≡ unknown_argument a
    by_result none e = refl
    by_result (some o') e = cc
parse_loop-unknown (b ∷ known) a behind o k h =
    by_result (apply_arg b o)
      (apply_arg-has_key b o ∙ (all_true (has_key b) (all_have_keys known) k).0)
      (λ o'.
        parse_loop-unknown known a behind o' (all_true (has_key b) (all_have_keys known) k).1 h)
  where
    by_result :
        (r : Option Options)
        → is_some r ≡ true
        → ((o' : Options) → parse_loop (known ++ a ∷ behind) o' ≡ unknown_argument a)
        → (elim r [ some o' ↦ parse_loop (known ++ a ∷ behind) o' | none ↦ unknown_argument b ])
          ≡ unknown_argument a
    by_result none e all = cc
    by_result (some o') e all = all o'

-- The first argument that starts with none of the keys ends the program with the message about it,
-- whatever stands behind it.
pub parse_args-unknown :
    (known : List (List ℕ)) (a : List ℕ) (behind : List (List ℕ))
    → all_have_keys known ≡ true
    → has_key a ≡ false
    → parse_args (known ++ a ∷ behind) ≡ unknown_argument a
unfolding parse_args
parse_args-unknown known a behind k h = parse_loop-unknown known a behind defaults k h
