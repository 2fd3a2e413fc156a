-- ===== src/Machine/Books.antt =====
-- The counters of hp_domain (include/lfq/hazard_pointer.hpp): what has been retired and not yet
-- counted as freed is in some retire list, on the orphan stack, or in the hands of a scan.
use lock_free_mpmc_queue.Base.{
  ℕ, zero, suc, ◌+◌, ◌-◌, ◌%◌, ◌^◌, ◌≤◌, ◌<◌, ◌≡◌, List, [], ◌∷◌, ltb, if◌then◌else◌, length,
  length-append, sum_below, sum_below-update, le-sum_below, sum_below-zero, arith, refl, ap, ◌∙◌,
}
use lock_free_mpmc_queue.Machine.State.{
  Ptr, Mem, protect_tail, protect_head, retire_head, adopt, load_slot, sweep, from_retire,
  from_drain, from_exit, Pc, idle, enq, deq, scanning, push_orphans, release, exited, Thread,
  System, Choice, enter, leave, Label,
}
use lock_free_mpmc_queue.Machine.Step.{step}
use lock_free_mpmc_queue.Machine.System.{act_of, advance, Reach, start, later, init}

module _ {V : Type 0} where
  -- hp_domain::in_flight: it loads the freed nodes from `m` and the retired ones, later, from `m'`, and
  -- clamps the difference at 0.
  pub in_flight : (m m' : Mem V) → ℕ
  in_flight m m' =
      if ltb m.freed_count m'.retired_count then m'.retired_count - m.freed_count else 0

  -- Whether the next step of a thread is the fetch_add of retire.
  abbrev pub retires_now : Pc V → ℕ
  retires_now (deq (retire_head h v)) = 1
  retires_now _ = 0

  retired_count-step :
      (n i : ℕ) (c : Choice V) (m : Mem V) (bag : List Ptr) (pc : Pc V)
      → m.retired_count < 2 ^ 64
      → (step n i c m bag pc).mem.retired_count ≡ (m.retired_count + retires_now pc) % 2 ^ 64
  unfolding step
  retired_count-step n i leave m [] idle h = ground arith
  retired_count-step n i leave m (p ∷ bag) idle h = ground arith
  retired_count-step n i c m bag idle h = ground arith
  retired_count-step n i c m bag (enq v p (protect_tail pc)) h = ground arith
  retired_count-step n i c m bag (enq v p pc) h = ground arith
  retired_count-step n i c m bag (deq (protect_head pc)) h = ground arith
  retired_count-step n i c m bag (deq (retire_head p v)) h = ground arith
  retired_count-step n i c m bag (deq pc) h = ground arith
  retired_count-step n i c m bag (scanning adopt k) h = ground arith
  retired_count-step n i c m bag (scanning (load_slot zero l hz) k) h = ground arith
  retired_count-step n i c m bag (scanning (load_slot (suc r) l hz) k) h = ground arith
  retired_count-step n i c m bag (scanning (sweep hz kept f []) k) h = ground arith
  retired_count-step n i c m bag (scanning (sweep hz kept f (p ∷ todo)) k) h = ground arith
  retired_count-step n i c m bag (push_orphans []) h = ground arith
  retired_count-step n i c m bag (push_orphans (p ∷ todo)) h = ground arith
  retired_count-step n i enter m bag exited h = ground arith
  retired_count-step n i c m bag pc h = ground arith

-- A run of `n` threads from `s`, with `P` at its start and after each step, and how many nodes the
-- threads retire in it.
pub data Onward {V : Type 0} (n : ℕ) (P : System V → Type 0) (s : System V)
    : ℕ → System V → Type 0 where
  at_once : P s → Onward n P s zero s
  moves :
      {k : ℕ} {t : System V}
      → Onward n P s k t
      → (i : ℕ) (c : Choice V) → i < n
      → P (advance n i c t)
      → Onward n P s (k + retires_now (t.thread i).pc) (advance n i c t)

module _ {V : Type 0} where
  -- What a thread has retired and not yet counted as freed.
  abbrev pub outstanding_at : Pc V → List Ptr → ℕ
  outstanding_at (scanning (sweep hz kept freed todo) k) bag = freed + length kept + length todo
  outstanding_at (push_orphans todo) bag = length todo
  outstanding_at (release k) bag = 0
  outstanding_at exited bag = 0
  outstanding_at _ bag = length bag

  abbrev pub outstanding : ℕ → System V → ℕ
  outstanding n s = sum_below (λ t. outstanding_at t.pc t.bag) s.thread n + length s.mem.orphans

  -- The books with `others` for the other threads.
  abbrev Balanced : Mem V → Pc V → List Ptr → ℕ → Type 0
  Balanced m pc bag others =
      m.retired_count
      ≡ (m.freed_count + (others + outstanding_at pc bag + length m.orphans)) % 2 ^ 64

  step-Balanced :
      (n i : ℕ) (c : Choice V) (m : Mem V) (bag : List Ptr) (pc : Pc V) (others : ℕ)
      → Balanced m pc bag others
      → Balanced (step n i c m bag pc).mem (step n i c m bag pc).pc (step n i c m bag pc).bag others
  unfolding step
  step-Balanced n i leave m [] idle o h = ground arith
  step-Balanced n i leave m (p ∷ bag) idle o h = ground arith
  step-Balanced n i c m bag idle o h = ground arith
  step-Balanced n i c m bag (enq v p (protect_tail pc)) o h = ground arith
  step-Balanced n i c m bag (enq v p pc) o h = ground arith
  step-Balanced n i c m bag (deq (protect_head pc)) o h = ground arith
  step-Balanced n i c m bag (deq (retire_head p v)) o h =
      ground (arith, length-append {0} bag (p ∷ []))
  step-Balanced n i c m bag (deq pc) o h = ground arith
  step-Balanced n i c m bag (scanning adopt (from_retire v)) o h =
      ground (arith, length-append {0} bag m.orphans)
  step-Balanced n i c m bag (scanning adopt k) o h = ground (arith, length-append {0} bag m.orphans)
  step-Balanced n i c m bag (scanning (load_slot zero l hz) k) o h = ground arith
  step-Balanced n i c m bag (scanning (load_slot (suc r) l hz) k) o h = ground arith
  step-Balanced n i c m bag (scanning (sweep hz kept f []) (from_retire v)) o h = ground arith
  step-Balanced n i c m bag (scanning (sweep hz kept f []) from_drain) o h = ground arith
  step-Balanced n i c m bag (scanning (sweep hz kept f []) from_exit) o h = ground arith
  step-Balanced n i c m bag (scanning (sweep hz kept f (p ∷ todo)) k) o h =
      ground (arith, length-append {0} kept (p ∷ []))
  step-Balanced n i c m bag (push_orphans []) o h = ground arith
  step-Balanced n i c m bag (push_orphans (p ∷ todo)) o h = ground arith
  step-Balanced n i enter m bag exited o h = ground arith
  step-Balanced n i c m bag pc o h = ground arith

  advance-books :
      (n i : ℕ) (c : Choice V) (s : System V)
      → i < n
      → s.mem.retired_count ≡ (s.mem.freed_count + outstanding n s) % 2 ^ 64
      → (advance n i c s).mem.retired_count
        ≡ ((advance n i c s).mem.freed_count + outstanding n (advance n i c s)) % 2 ^ 64
  advance-books n i c s lt h =
      let a = act_of n i c s in
      let w : Thread V → ℕ = λ t. outstanding_at t.pc t.bag in
      let others : ℕ = sum_below w s.thread n - w (s.thread i) in
      let part = le-sum_below w s.thread i n lt in
      let before : Balanced s.mem (s.thread i).pc (s.thread i).bag others =
        h ∙ ap (λ t. (s.mem.freed_count + t) % 2 ^ 64) (omega arith) in
      let after = step-Balanced n i c s.mem (s.thread i).bag (s.thread i).pc others before in
      after
      ∙ ap (λ t. (a.mem.freed_count + t) % 2 ^ 64)
          (omega (arith, sum_below-update w s.thread i (record { pc = a.pc; bag = a.bag }) n lt))

module _ {V : Type 0} (n : ℕ) (d : Ptr) (blank : V) where
  -- In every reachable state the two counters differ, modulo 2 ^ 64, by the number of retired nodes
  -- that lie in a retire list, on the orphan stack, or in a scan that has not reported yet.
  pub books_balance :
      {h : List (ℕ × Label V)} {s : System V}
      → Reach n d blank h s
      → s.mem.retired_count ≡ (s.mem.freed_count + outstanding n s) % 2 ^ 64
  books_balance start = ground (
    arith,
    sum_below-zero (λ (t : Thread V). outstanding_at t.pc t.bag) (init d blank).thread n
        (λ _. refl),
  )
  books_balance (later {s} r i c lt) = advance-books n i c s lt (books_balance r)

  pub in_flight-none :
      {h : List (ℕ × Label V)} {s : System V}
      → Reach n d blank h s
      → outstanding n s ≡ 0
      → in_flight s.mem s.mem ≡ 0
  unfolding in_flight
  in_flight-none r e = ground (arith, books_balance r)

  retired_count-Onward :
      {h : List (ℕ × Label V)} {P : System V → Type 0} {s : System V} {k : ℕ} {t : System V}
      → Reach n d blank h s
      → Onward n P s k t
      → t.mem.retired_count ≡ (s.mem.retired_count + k) % 2 ^ 64
  retired_count-Onward r (at_once p) = omega (arith, books_balance r)
  retired_count-Onward {s = s} r (moves {k} {t} o i c lt p) =
      let before = retired_count-Onward r o in
      let after =
        retired_count-step n i c t.mem (t.thread i).bag (t.thread i).pc (omega (arith, before)) in
      omega (arith, before, after)

  pub in_flight-le :
      {h : List (ℕ × Label V)} {s t : System V} {k : ℕ}
      → Reach n d blank h s
      → Onward n (λ u. Unit {0}) s k t
      → in_flight s.mem t.mem ≤ outstanding n s + k
  unfolding in_flight
  in_flight-le r o = ground (arith, books_balance r, retired_count-Onward r o)

  -- From a reachable state in which in_flight loads the counter of freed nodes to one in which it
  -- loads that of the retired nodes, with any steps of the threads in between in which they retire
  -- `k` nodes: where the counter of freed nodes, the outstanding nodes of the first state and `k`
  -- add up to less than 2 ^ 64, in_flight is the outstanding nodes of the first state and `k`.
  pub in_flight-outstanding :
      {h : List (ℕ × Label V)} {s t : System V} {k : ℕ}
      → Reach n d blank h s
      → Onward n (λ u. Unit {0}) s k t
      → s.mem.freed_count + outstanding n s + k < 2 ^ 64
      → in_flight s.mem t.mem ≡ outstanding n s + k
  unfolding in_flight
  in_flight-outstanding r o small = ground (arith, books_balance r, retired_count-Onward r o)
