-- ===== src/Machine/Bound.antt =====
-- The bound on all the garbage of include/lfq/hazard_pointer.hpp, the orphans and what scans have
-- adopted included.
use lock_free_mpmc_queue.Base.{
  ℕ, ◌+◌, ◌*◌, ◌≤◌, ◌<◌, ◌≡◌, ◌≢◌, inl, inr, List, length, count, sum_below_mono, sum_below_same,
  le-sum_below, arith, eq-cases,
}
use lock_free_mpmc_queue.Machine.State.{Ptr, null, slot_count, Thread, System, Label}
use lock_free_mpmc_queue.Machine.Step.{scan_threshold}
use lock_free_mpmc_queue.Machine.System.{act_of, advance, Reach, start, later}
use lock_free_mpmc_queue.Machine.Invariant.Defs.{owned}
use lock_free_mpmc_queue.Machine.Invariant.Reachable.{Reach-Inv}
use lock_free_mpmc_queue.Machine.Books.{
  outstanding_at, outstanding, in_flight, in_flight-le, Onward,
}
use lock_free_mpmc_queue.Machine.Garbage.{all-Small}
use lock_free_mpmc_queue.Machine.Garbage.{all-Small}
use lock_free_mpmc_queue.Machine.Hands.{
  orphan_bound, hand_bound, total, pushed, Fits, step-Fits, fewer-Fits, pushed-le, step-orphans,
  outstanding_at-le, Fits-le,
}

module _ {V : Type 0} where
  -- `o` says how many of the orphans each thread has pushed.
  record Held (n : ℕ) (s : System V) (o : ℕ → ℕ) : Type 0 where
    few : length s.mem.orphans ≤ total n o
    fits : (j : ℕ) → j < n → Fits n (s.thread j).pc (s.thread j).bag (o j)

  total-le : (n : ℕ) (s : System V) (o : ℕ → ℕ) → Held n s o → total n o ≤ orphan_bound n
  total-le n s o h = omega (
    arith,
    sum_below_mono (λ (w : ℕ). w) o (λ (w : ℕ). slot_count * n) o n
        (λ j lt. Fits-le n (s.thread j).pc (s.thread j).bag (o j) (h.fits j lt)),
    sum_below_same o (slot_count * n) n,
  )

module _ {V : Type 0} (n : ℕ) (d : Ptr) (blank : V) (real : d ≢ null) where
  Reach-Held :
      {h : List (ℕ × Label V)} {s : System V} → Reach n d blank h s → (o : ℕ → ℕ) × Held n s o
  Reach-Held start = (λ _. 0, record { few = omega arith; fits = λ j lt. omega arith })
  Reach-Held (later {s} r i c lt) =
      let (o, held) = Reach-Held r in
      let (g, inv) = Reach-Inv n d blank real r in
      let pc = (s.thread i).pc in
      let bag = (s.thread i).bag in
      let own : Fits n (act_of n i c s).pc (act_of n i c s).bag (pushed i pc o i) =
        step-Fits n i c s.mem bag pc o (omega arith) (omega (arith, held.few, total-le n s o held))
          (λ p. ground (
            arith,
            inv.ledger p,
            le-sum_below (λ (t : Thread V). count p (owned t)) s.thread i n lt,
          ))
          (all-Small n d blank real r i lt) (held.fits i lt) in
      (
        pushed i pc o,
        record {
          few = step-orphans n i c s.mem bag pc o lt held.few;
          fits = λ j ltj. elim (eq-cases j i) [
            | inl e ↦
                let here : (advance n i c s).thread j
                    ≡ record { pc = (act_of n i c s).pc; bag = (act_of n i c s).bag } =
                  ground arith in
                rw here (rw e own)
            | inr ne ↦
                let same : (advance n i c s).thread j ≡ s.thread j = ground arith in
                rw same (
                  fewer-Fits n (s.thread j).pc (s.thread j).bag _ (o j) (pushed-le i j pc o ne)
                    (held.fits j ltj))
          ];
        },
      )

  outstanding-le :
      {h : List (ℕ × Label V)} {s : System V}
      → Reach n d blank h s
      → outstanding n s ≤ n * hand_bound n + orphan_bound n
  outstanding-le {s = s} r =
      let (o, held) = Reach-Held r in
      omega (
        arith,
        held.few,
        total-le n s o held,
        sum_below_mono (λ (t : Thread V). outstanding_at t.pc t.bag) s.thread
            (λ (w : ℕ). hand_bound n) o n
            (λ j lt.
              outstanding_at-le n (s.thread j).pc (s.thread j).bag (o j) (omega arith)
                (all-Small n d blank real r j lt) (held.fits j lt)),
        sum_below_same o (hand_bound n) n,
      )

  -- In every reachable state the nodes that are retired and not yet reported as freed, in the retire
  -- lists and the scans of all threads and on the orphan stack, are no more than the threshold and
  -- `2 * n * n` for each of the `n` threads, and `2 * n * n` besides; and what in_flight answers, which
  -- loads its counters there and in a later state, is no more than that and what the threads retire
  -- in between, also where the counters have wrapped.
  pub garbage_bounded :
      {h : List (ℕ × Label V)} {s t : System V} {k : ℕ}
      → Reach n d blank h s
      → Onward n (λ u. Unit {0}) s k t
      → (outstanding n s ≤ n * (scan_threshold n + n * (slot_count * n)) + n * (slot_count * n))
        × (in_flight s.mem t.mem
            ≤ n * (scan_threshold n + n * (slot_count * n)) + n * (slot_count * n) + k)
  garbage_bounded r o =
      let all = outstanding-le r in (all, omega (arith, all, in_flight-le n d blank r o))
