-- ===== src/Bench/Threads/Text.antt =====
-- parse_thread_list reads back a list of thread counts that commas separate (bench/bench_main.cpp).
use lock_free_mpmc_queue.Base.{
  ℕ, zero, suc, ◌%◌, ◌^◌, ◌<◌, ◌≡◌, refl, ◌∙◌, ap, subst, true, false, some, List, [], ◌∷◌, ◌++◌,
  map, length, length-append, arith,
}
use mathlib.Core.List.{append-nil}
use lock_free_mpmc_queue.Bench.Numbers.{strtoul, starts_number}
use lock_free_mpmc_queue.Bench.Numbers.Decimal.{
  decimal, strtoul-decimal, strtoul-decimal_end, length-decimal, starts_number-decimal,
}
use lock_free_mpmc_queue.Bench.Threads.{
  threads_loop, parse_thread_list, push_front, after_comma, ends_list,
}

pub thread_list_text : List ℕ → List ℕ
thread_list_text [] = []
thread_list_text (n ∷ []) = decimal n
thread_list_text (n ∷ m ∷ ns) = decimal n ++ b',' ∷ thread_list_text (m ∷ ns)

-- Thread counts that strtoul can return.
abbrev pub AreCounts : List ℕ → Type 0
AreCounts [] = Unit
AreCounts (n ∷ ns) = (0 < n) × (n < 2 ^ 64) × AreCounts ns

abbrev pub low_32 : ℕ → ℕ
low_32 n = n % 2 ^ 32

threads_loop-step :
    (f : ℕ) (s end : List ℕ) (v : ℕ)
    → starts_number s ≡ true
    → strtoul s ≡ record { value = v; end = end }
    → length end < length s
    → 0 < v
    → threads_loop (suc f) s ≡ push_front (low_32 v) (threads_loop f (after_comma end))
unfolding threads_loop
threads_loop-step f [] end v d r lt pos = cc
threads_loop-step f (c ∷ s) end v d r lt pos =
    let goes : ends_list (c ∷ s) (record { value = v; end = end }) ≡ false = ground arith in
    rw (r, goes)

threads_loop-nil : (f : ℕ) → 0 < f → threads_loop f [] ≡ some []
unfolding threads_loop
threads_loop-nil zero h = elim h [ ]
threads_loop-nil (suc f) h = refl

threads_loop-text :
    (f : ℕ) (ns : List ℕ)
    → AreCounts ns
    → length (thread_list_text ns) < f
    → threads_loop f (thread_list_text ns) ≡ some (map low_32 ns)
unfolding thread_list_text
threads_loop-text zero ns h lt = elim lt [ ]
threads_loop-text (suc f) [] h lt = threads_loop-nil (suc f) (omega arith)
threads_loop-text (suc f) (n ∷ []) h lt =
    threads_loop-step f (decimal n) [] n
      (subst (λ s. starts_number s ≡ true) (append-nil (decimal n)) (starts_number-decimal n []))
      (strtoul-decimal_end n h.1) (length-decimal n) h.0
    ∙ ap (push_front (low_32 n)) (threads_loop-nil f (omega (arith, length-decimal n)))
threads_loop-text (suc f) (n ∷ m ∷ ns) h lt =
    let rest : List ℕ = b',' ∷ thread_list_text (m ∷ ns) in
    let longer = length-append {0} (decimal n) rest in
    threads_loop-step f (decimal n ++ rest) rest n (starts_number-decimal n rest)
      (strtoul-decimal n rest h.1 refl) (omega (arith, longer, length-decimal n)) h.0
    ∙ ap (push_front (low_32 n))
        (threads_loop-text f (m ∷ ns) h.2 (omega (arith, longer, length-decimal n)))

-- A list of counts from 1 to 2 ^ 64 - 1, as decimal numerals with commas between them, is read as
-- the counts modulo 2 ^ 32: as it is, if all are below 2 ^ 32.
pub parse_thread_list-text :
    (ns : List ℕ) → AreCounts ns → parse_thread_list (thread_list_text ns) ≡ some (map low_32 ns)
unfolding parse_thread_list
parse_thread_list-text ns h =
    threads_loop-text (suc (length (thread_list_text ns))) ns h (omega arith)
