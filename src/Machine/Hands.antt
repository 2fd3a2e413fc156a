-- ===== src/Machine/Hands.antt =====
-- What each thread holds of the retired nodes, what its scan has adopted included, and how many of
-- the orphans it has pushed (include/lfq/hazard_pointer.hpp).
use lock_free_mpmc_queue.Base.{
  ℕ, zero, suc, ◌+◌, ◌*◌, ◌≤◌, ◌<◌, ◌≡◌, ◌≢◌, inl, inr, false, List, [], ◌∷◌, ◌++◌, length,
  length-append, count, sum_below, sum_below-update, update, refl, arith, ◌==◌, Bool-cases,
}
use lock_free_mpmc_queue.Machine.State.{
  Ptr, slot_count, Mem, protect_tail, protect_head, retire_head, ScanPc, adopt, load_slot, sweep,
  from_retire, from_drain, from_exit, Caller, Pc, idle, enq, deq, scanning, push_orphans, release,
  exited, Choice, enter, leave,
}
use lock_free_mpmc_queue.Machine.Step.{step, scan_step, scan_threshold, resume_caller, left_in_bag}
use lock_free_mpmc_queue.Machine.Invariant.Defs.{owned_at}
use lock_free_mpmc_queue.Machine.Books.{outstanding_at}
use lock_free_mpmc_queue.Machine.Garbage.{kept-small, Small}

-- What the threads may have on the orphan stack: what its hazard slots held at the last scan of each.
abbrev pub orphan_bound : ℕ → ℕ
orphan_bound n = n * (slot_count * n)

-- What a thread may have in its hands.
abbrev pub hand_bound : ℕ → ℕ
hand_bound n = scan_threshold n + orphan_bound n

abbrev pub total : ℕ → (ℕ → ℕ) → ℕ
total n o = sum_below (λ w. w) o n

module _ {V : Type 0} where
  -- Of the orphans on the stack, how many each thread has pushed, behind a step of thread `i`.
  abbrev pub pushed : ℕ → Pc V → (ℕ → ℕ) → ℕ → ℕ
  pushed i (scanning adopt k) o = λ _. 0
  pushed i (push_orphans (p ∷ todo)) o = update o i (o i + 1)
  pushed i _ o = o

  -- What a thread holds that has pushed `w` of the orphans.
  abbrev pub Fits : ℕ → Pc V → List Ptr → ℕ → Type 0
  Fits n (scanning adopt k) bag w = (length bag ≤ scan_threshold n) × (w ≤ slot_count * n)
  Fits n (scanning (load_slot r l hz) k) bag w = (length bag ≤ hand_bound n) × (w ≡ 0)
  Fits n (scanning (sweep hz kept freed todo) k) bag w =
      (freed + length kept + length todo ≤ hand_bound n) × (w ≡ 0)
  Fits n (push_orphans todo) bag w = w + length todo ≤ slot_count * n
  Fits n _ bag w = w ≤ slot_count * n

  resumes-Fits :
      (n : ℕ) (k : Caller V) (kept bag : List Ptr)
      → length kept ≤ slot_count * n
      → Fits n (resume_caller k kept) bag 0
  resumes-Fits n (from_retire v) kept bag h = omega arith
  resumes-Fits n from_drain kept bag h = omega arith
  resumes-Fits n from_exit kept bag h = omega arith

  scan-Fits :
      (n i : ℕ) (k : Caller V) (m : Mem V) (bag : List Ptr) (pc : ScanPc) (o : ℕ → ℕ)
      → 0 < n
      → length m.orphans ≤ orphan_bound n
      → ((p : Ptr) → count p (owned_at (scanning pc k) bag) ≤ 1)
      → Small n (scanning pc k) bag
      → Fits n (scanning pc k) bag (o i)
      → Fits n
          (scan_step n k m bag pc).pc
          (scan_step n k m bag pc).bag
          (pushed i (scanning pc k) o i)
  unfolding scan_step
  scan-Fits n i k m bag adopt o pos few once small h =
      elim (Bool-cases (length (bag ++ m.orphans) == 0)) [
        | inl e ↦ rw e (resumes-Fits n k [] (bag ++ m.orphans) (omega arith))
        | inr e ↦
            let z : (n == 0) ≡ false = ground arith in
            rw (e, z) (omega (arith, length-append {0} bag m.orphans), refl)
      ]
  scan-Fits n i k m bag (load_slot zero l hz) o pos few once small h = absurd (omega arith)
  scan-Fits n i k m bag (load_slot (suc r) l hz) o pos few once small h = ground arith
  scan-Fits n i k m bag (sweep hz kept f []) o pos few once small h =
      rw h.1 (
        resumes-Fits n k kept (left_in_bag k kept) (omega (arith, kept-small hz kept once small.2)))
  scan-Fits n i k m bag (sweep hz kept f (p ∷ todo)) o pos few once small h =
      ground (arith, length-append {0} kept (p ∷ []))

  pub step-Fits :
      (n i : ℕ) (c : Choice V) (m : Mem V) (bag : List Ptr) (pc : Pc V) (o : ℕ → ℕ)
      → 0 < n
      → length m.orphans ≤ orphan_bound n
      → ((p : Ptr) → count p (owned_at pc bag) ≤ 1)
      → Small n pc bag
      → Fits n pc bag (o i)
      → Fits n (step n i c m bag pc).pc (step n i c m bag pc).bag (pushed i pc o i)
  unfolding step
  step-Fits n i leave m [] idle o pos few once small h = ground arith
  step-Fits n i leave m (p ∷ bag) idle o pos few once small h = ground arith
  step-Fits n i c m bag idle o pos few once small h = ground arith
  step-Fits n i c m bag (enq v p (protect_tail pc)) o pos few once small h = ground arith
  step-Fits n i c m bag (enq v p pc) o pos few once small h = ground arith
  step-Fits n i c m bag (deq (protect_head pc)) o pos few once small h = ground arith
  step-Fits n i c m bag (deq (retire_head p v)) o pos few once small h =
      ground (arith, length-append {0} bag (p ∷ []))
  step-Fits n i c m bag (deq pc) o pos few once small h = ground arith
  step-Fits n i c m bag (scanning pc k) o pos few once small h =
      scan-Fits n i k m bag pc o pos few once small h
  step-Fits n i c m bag (push_orphans []) o pos few once small h = ground arith
  step-Fits n i c m bag (push_orphans (p ∷ todo)) o pos few once small h = ground arith
  step-Fits n i enter m bag exited o pos few once small h = ground arith
  step-Fits n i c m bag pc o pos few once small h = ground arith

  -- What the other threads hold still fits: they have pushed no more of what is on the stack.
  pub fewer-Fits :
      (n : ℕ) (pc : Pc V) (bag : List Ptr) (v w : ℕ) → v ≤ w → Fits n pc bag w → Fits n pc bag v
  fewer-Fits n idle bag v w le h = omega arith
  fewer-Fits n (scanning adopt k) bag v w le h = omega arith
  fewer-Fits n (scanning (load_slot r l hz) k) bag v w le h = omega arith
  fewer-Fits n (scanning (sweep hz kept f todo) k) bag v w le h = omega arith
  fewer-Fits n (push_orphans todo) bag v w le h = omega arith
  fewer-Fits n pc bag v w le h = omega arith

  pub pushed-le : (i j : ℕ) (pc : Pc V) (o : ℕ → ℕ) → j ≢ i → pushed i pc o j ≤ o j
  pushed-le i j (scanning adopt k) o ne = omega arith
  pushed-le i j (push_orphans (p ∷ todo)) o ne = ground arith
  pushed-le i j idle o ne = omega arith
  pushed-le i j (scanning pc k) o ne = omega arith
  pushed-le i j (push_orphans []) o ne = omega arith
  pushed-le i j pc o ne = omega arith

  pub step-orphans :
      (n i : ℕ) (c : Choice V) (m : Mem V) (bag : List Ptr) (pc : Pc V) (o : ℕ → ℕ)
      → i < n
      → length m.orphans ≤ total n o
      → length (step n i c m bag pc).mem.orphans ≤ total n (pushed i pc o)
  unfolding step
  step-orphans n i leave m [] idle o lt h = h
  step-orphans n i leave m (p ∷ bag) idle o lt h = h
  step-orphans n i c m bag idle o lt h = ground arith
  step-orphans n i c m bag (enq v p (protect_tail pc)) o lt h = ground arith
  step-orphans n i c m bag (enq v p pc) o lt h = ground arith
  step-orphans n i c m bag (deq (protect_head pc)) o lt h = ground arith
  step-orphans n i c m bag (deq pc) o lt h = ground arith
  step-orphans n i c m bag (scanning adopt k) o lt h = omega arith
  step-orphans n i c m bag (scanning (load_slot zero l hz) k) o lt h = h
  step-orphans n i c m bag (scanning (load_slot (suc r) l hz) k) o lt h = h
  step-orphans n i c m bag (scanning (sweep hz kept f []) k) o lt h = h
  step-orphans n i c m bag (scanning (sweep hz kept f (p ∷ todo)) k) o lt h = ground arith
  step-orphans n i c m bag (push_orphans []) o lt h = h
  step-orphans n i c m bag (push_orphans (p ∷ todo)) o lt h =
      omega (arith, sum_below-update (λ (w : ℕ). w) o i (o i + 1) n lt)
  step-orphans n i enter m bag exited o lt h = h
  step-orphans n i c m bag pc o lt h = ground arith

  -- What a thread holds.
  pub outstanding_at-le :
      (n : ℕ) (pc : Pc V) (bag : List Ptr) (w : ℕ)
      → 0 < n
      → Small n pc bag
      → Fits n pc bag w
      → outstanding_at pc bag ≤ hand_bound n
  outstanding_at-le n idle bag w pos small h = omega arith
  outstanding_at-le n (scanning adopt k) bag w pos small h = omega arith
  outstanding_at-le n (scanning (load_slot r l hz) k) bag w pos small h = omega arith
  outstanding_at-le n (scanning (sweep hz kept f todo) k) bag w pos small h = omega arith
  outstanding_at-le n (push_orphans todo) bag w pos small h = grind arith
  outstanding_at-le n (release l) bag w pos small h = omega arith
  outstanding_at-le n exited bag w pos small h = omega arith
  outstanding_at-le n pc bag w pos small h = omega arith

  pub Fits-le : (n : ℕ) (pc : Pc V) (bag : List Ptr) (w : ℕ) → Fits n pc bag w → w ≤ slot_count * n
  Fits-le n idle bag w h = h
  Fits-le n (scanning adopt k) bag w h = h.1
  Fits-le n (scanning (load_slot r l hz) k) bag w h = omega arith
  Fits-le n (scanning (sweep hz kept f todo) k) bag w h = omega arith
  Fits-le n (push_orphans todo) bag w h = omega arith
  Fits-le n pc bag w h = h
