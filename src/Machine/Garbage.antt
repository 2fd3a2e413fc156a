-- ===== src/Machine/Garbage.antt =====
-- The retire list of each thread, between its scans and in them (include/lfq/hazard_pointer.hpp).
use lock_free_mpmc_queue.Base.{
  ℕ, zero, suc, ◌+◌, ◌-◌, ◌*◌, ◌≤◌, ◌<◌, ◌≡◌, ◌≢◌, inl, inr, true, false, List, [], ◌∷◌, ◌++◌,
  length, length-append, has, has-append, count, count-append, length-le_of_has, le-sum_below,
  arith, ◌==◌, eq-cases, Bool-cases,
}
use lock_free_mpmc_queue.Std.Search.{sort, binary_search, binary_search-sort}
use lock_free_mpmc_queue.Machine.State.{
  Ptr, null, slot_count, Mem, protect_tail, protect_head, ScanPc, adopt, load_slot, sweep,
  from_retire, from_drain, from_exit, Caller, Pc, idle, enq, deq, scanning, push_orphans, exited,
  Thread, System, Choice, enter, leave, Label,
}
use lock_free_mpmc_queue.Machine.Step.{step, scan_step, scan_threshold, resume_caller, left_in_bag}
use lock_free_mpmc_queue.Machine.System.{act_of, advance, Reach, start, later}
use lock_free_mpmc_queue.Machine.Invariant.Defs.{owned, owned_at}
use lock_free_mpmc_queue.Machine.Invariant.Reachable.{Reach-Inv}

-- What the sweep keeps are distinct members of the snapshot.
pub kept-small :
    (hz kept : List Ptr)
    → ((p : Ptr) → count p (kept ++ []) ≤ 1)
    → ((p : Ptr) → has p kept ≡ true → has p hz ≡ true)
    → length kept ≤ length hz
kept-small hz kept once seen =
    length-le_of_has kept hz (λ p. omega (arith, once p, count-append p kept [])) seen

module _ {V : Type 0} where
  -- What thread of `n` has at most, by where it stands.
  abbrev pub Small : ℕ → Pc V → List Ptr → Type 0
  Small n (scanning adopt k) bag = Unit
  Small n (scanning (load_slot r l hz) k) bag =
      (0 < r) × (r ≤ n) × (l < slot_count) × (length hz ≤ slot_count * (n - r) + l)
  Small n (scanning (sweep hz kept freed todo) k) bag =
      (0 < n) × (length hz ≤ slot_count * n) × ((p : Ptr) → has p kept ≡ true → has p hz ≡ true)
  Small n _ bag = length bag < scan_threshold n

  resumes-Small :
      (n : ℕ) (k : Caller V) (kept bag : List Ptr)
      → length bag < scan_threshold n
      → Small n (resume_caller k kept) bag
  resumes-Small n (from_retire v) kept bag h = h
  resumes-Small n from_drain kept bag h = h
  resumes-Small n from_exit kept bag h = h

  length-left_in_bag : (k : Caller V) (kept : List Ptr) → length (left_in_bag k kept) ≤ length kept
  length-left_in_bag (from_retire v) kept = omega arith
  length-left_in_bag from_drain kept = omega arith
  length-left_in_bag from_exit kept = omega arith

  module _ (n : ℕ) (m : Mem V) (k : Caller V) (bag : List Ptr) (pos : 0 < n) where
    scan-Small :
        (pc : ScanPc)
        → ((p : Ptr) → count p (owned_at (scanning pc k) bag) ≤ 1)
        → Small n (scanning pc k) bag
        → Small n (scan_step n k m bag pc).pc (scan_step n k m bag pc).bag
    unfolding scan_step
    scan-Small adopt once h = elim (Bool-cases (length (bag ++ m.orphans) == 0)) [
      | inl e ↦ rw e (resumes-Small n k [] (bag ++ m.orphans) (ground arith))
      | inr e ↦ let z : (n == 0) ≡ false = ground arith in rw (e, z) (ground arith)
    ]
    scan-Small (load_slot zero l hz) once h = absurd (omega arith)
    scan-Small (load_slot (suc r) l hz) once h =
        ground (arith, length-append {0} hz (m.slot r l ∷ []))
    scan-Small (sweep hz kept f []) once h =
        resumes-Small n k kept (left_in_bag k kept)
          (omega (arith, length-left_in_bag k kept, kept-small hz kept once h.2))
    scan-Small (sweep hz kept f (p ∷ todo)) once h = elim (Bool-cases (binary_search (sort hz) p)) [
      | inl e ↦ rw e (
        h.0,
        h.1,
        λ r q. ground (arith, has-append r kept (p ∷ []), binary_search-sort p hz, h.2 r),
      )
      | inr e ↦ rw e h
    ]

  step-Small :
      (n i : ℕ) (c : Choice V) (m : Mem V) (bag : List Ptr) (pc : Pc V)
      → 0 < n
      → ((p : Ptr) → count p (owned_at pc bag) ≤ 1)
      → Small n pc bag
      → Small n (step n i c m bag pc).pc (step n i c m bag pc).bag
  unfolding step
  step-Small n i leave m [] idle pos once h = ground arith
  step-Small n i leave m (p ∷ bag) idle pos once h = tt
  step-Small n i c m bag idle pos once h = ground arith
  step-Small n i c m bag (enq v p (protect_tail pc)) pos once h = ground arith
  step-Small n i c m bag (enq v p pc) pos once h = ground arith
  step-Small n i c m bag (deq (protect_head pc)) pos once h = ground arith
  step-Small n i c m bag (deq pc) pos once h = ground arith
  step-Small n i c m bag (scanning pc k) pos once h = scan-Small n m k bag pos pc once h
  step-Small n i c m bag (push_orphans []) pos once h = ground arith
  step-Small n i c m bag (push_orphans (p ∷ todo)) pos once h = ground arith
  step-Small n i enter m bag exited pos once h = ground arith
  step-Small n i c m bag pc pos once h = ground arith

module _ {V : Type 0} (n : ℕ) (d : Ptr) (blank : V) (real : d ≢ null) where
  pub all-Small :
      {h : List (ℕ × Label V)} {s : System V}
      → Reach n d blank h s
      → (j : ℕ) → j < n
      → Small n (s.thread j).pc (s.thread j).bag
  all-Small start j lt = ground arith
  all-Small (later {s} r i c lti) j lt = elim (eq-cases j i) [
    | inl e ↦
        let (g, inv) = Reach-Inv n d blank real r in
        let own =
          step-Small n i c s.mem (s.thread i).bag (s.thread i).pc (omega arith)
            (λ p. ground (
              arith,
              inv.ledger p,
              le-sum_below (λ (t : Thread V). count p (owned t)) s.thread i n lti,
            ))
            (all-Small r i lti) in
        let here : (advance n i c s).thread j
            ≡ record { pc = (act_of n i c s).pc; bag = (act_of n i c s).bag } =
          ground arith in
        rw here own
    | inr ne ↦
        let same : (advance n i c s).thread j ≡ s.thread j = ground arith in
        rw same (all-Small r j lt)
  ]
