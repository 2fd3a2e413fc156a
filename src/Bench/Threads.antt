-- ===== src/Bench/Threads.antt =====
-- parse_thread_list (bench/bench_main.cpp).
use lock_free_mpmc_queue.Base.{
  ℕ, zero, suc, ◌%◌, ◌^◌, ◌≤◌, ◌<◌, ◌≡◌, refl, Bool, true, false, ◌||◌, Option, none, some, List,
  [], ◌∷◌, ◌==◌, if◌then◌else◌, Bool-cases, inl, inr, length, arith,
}
use lock_free_mpmc_queue.Bench.Numbers.{Number, strtoul}
use lock_free_mpmc_queue.Bench.Numbers.Decimal.{strtoul-le}
pub mod Text

-- p = (*end == ',') ? end + 1 : end
abbrev pub after_comma : List ℕ → List ℕ
after_comma [] = []
after_comma (c ∷ s) = if c == b',' then s else c ∷ s

abbrev pub push_front : ℕ → Option (List ℕ) → Option (List ℕ)
push_front v none = none
push_front v (some vs) = some (v ∷ vs)

-- Two pointers into one text are equal if as much text follows them.
abbrev pub ends_list : List ℕ → Number → Bool
ends_list p r = length r.end == length p || r.value == 0

-- The loop, with fuel; `none` is its end.
unfoldable pub threads_loop : ℕ → List ℕ → Option (List ℕ)
threads_loop zero p = none
threads_loop (suc f) [] = some []
threads_loop (suc f) (c ∷ s) =
    let r = strtoul (c ∷ s) in
    let rest = threads_loop f (after_comma r.end) in
    if ends_list (c ∷ s) r then some [] else push_front (r.value % 2 ^ 32) rest

unfoldable pub parse_thread_list : List ℕ → Option (List ℕ)
unfolding threads_loop
parse_thread_list s = threads_loop (suc (length s)) s

threads_loop-total :
    (f : ℕ) (s : List ℕ) → length s < f → (r : List ℕ) × (threads_loop f s ≡ some r)
unfolding threads_loop
threads_loop-total zero s h = elim h [ ]
threads_loop-total (suc f) [] h = ([], refl)
threads_loop-total (suc f) (c ∷ s) h = elim (Bool-cases (ends_list (c ∷ s) (strtoul (c ∷ s)))) [
  | inl e ↦ ([], rw e)
  | inr e ↦
      let (vs, ok) =
        threads_loop-total f (after_comma (strtoul (c ∷ s)).end)
          (ground (arith, strtoul-le (c ∷ s))) in
      ((strtoul (c ∷ s)).value % 2 ^ 32 ∷ vs, rw (e, ok))
]

-- parse_thread_list ends on every text.
pub parse_thread_list_total : (s : List ℕ) → (r : List ℕ) × (parse_thread_list s ≡ some r)
unfolding parse_thread_list
parse_thread_list_total s = threads_loop-total (suc (length s)) s (omega arith)
