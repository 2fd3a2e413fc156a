-- ===== src/Machine/Invariant/Outcome/Rest.antt =====
-- Calls, returns and the exit of a thread; and all steps together.
use lock_free_mpmc_queue.Base.{
  ℕ, ◌+◌, ◌≡◌, ◌≢◌, inl, inr, true, ◌||◌, List, [], ◌∷◌, refl, ◌==◌, ltb, has, arith, Bool-cases,
}
use lock_free_mpmc_queue.Machine.State.{
  Ptr, null, Mem, slot_count, Pc, idle, enq, deq, scanning, unguard, push_orphans, release, exited,
  Choice, go, fail, enqueue, dequeue, drain, leave, enter,
}
use lock_free_mpmc_queue.Machine.Step.{call, step}
use lock_free_mpmc_queue.Machine.Spec.{stays, calls_enqueue, calls_dequeue, returns}
use lock_free_mpmc_queue.Machine.Invariant.Defs.{
  retired, Ghost, IsQueue, Knows, Guards, claim, owned_at,
}
use lock_free_mpmc_queue.Machine.Invariant.Change.{makes}
use lock_free_mpmc_queue.Machine.Invariant.Outcome.Defs.{Outcome, quiet, writes}
use lock_free_mpmc_queue.Machine.Invariant.Outcome.Enqueue.{enqueue-Outcome}
use lock_free_mpmc_queue.Machine.Invariant.Outcome.Dequeue.{dequeue-Outcome}
use lock_free_mpmc_queue.Machine.Invariant.Outcome.Scan.{scan-Outcome}

module _ {V : Type 0} {g : Ghost V} {m : Mem V} (q : IsQueue g m) (n i : ℕ) where
  call-Outcome : (c : Choice V) (bag : List Ptr) → Outcome i g m idle bag (call c m bag)
  unfolding call
  call-Outcome (enqueue v p) bag = elim (Bool-cases ((p == null) || m.live p)) [
    | inl e ↦ rw e (quiet m.slot _ _ refl refl tt (λ k. ground arith) (λ k. ground arith) stays)
    | inr e ↦ rw e (record {
      ghost = _;
      change = makes p v (ground arith) (ground (arith, q.alloc p));
      knows = ground arith;
      guards = λ k. ground arith;
      newly = λ k. ground arith;
      nodes = λ old r st. ground (arith, old r);
      balance = λ r. ground (arith, q.alloc p);
      decided = λ r h f. absurd (h f);
      atomic = calls_enqueue v;
    })
  ]
  call-Outcome dequeue bag =
      quiet m.slot _ _ refl refl tt (λ k. ground arith) (λ k. ground arith) calls_dequeue
  call-Outcome drain bag =
      quiet m.slot _ _ refl refl tt (λ k. ground arith) (λ k. ground arith) stays
  call-Outcome leave [] =
      quiet m.slot _ _ refl refl tt (λ k. ground arith) (λ k. ground arith) stays
  call-Outcome leave (p ∷ bag) =
      quiet m.slot _ _ refl refl tt (λ k. ground arith) (λ k. ground arith) stays
  call-Outcome go bag = quiet m.slot _ _ refl refl tt (λ k. ground arith) (λ k. ground arith) stays
  call-Outcome fail bag =
      quiet m.slot _ _ refl refl tt (λ k. ground arith) (λ k. ground arith) stays
  call-Outcome enter bag =
      quiet m.slot _ _ refl refl tt (λ k. ground arith) (λ k. ground arith) stays

  pub step-Outcome :
      (c : Choice V) (bag : List Ptr) (pc : Pc V)
      → Knows g m i pc
      → ((k : ℕ) → claim pc k ≢ null → Guards g m i k (claim pc k))
      → ((p : Ptr) → has p (owned_at pc bag) ≡ true → g.status p ≡ retired)
      → Outcome i g m pc bag (step n i c m bag pc)
  unfolding step
  step-Outcome c bag idle kn gu owes = call-Outcome c bag
  step-Outcome c bag (enq v p pc) kn gu owes = enqueue-Outcome q i bag c v p pc kn gu
  step-Outcome c bag (deq pc) kn gu owes = dequeue-Outcome q n i bag c pc kn gu
  step-Outcome c bag (scanning pc k) kn gu owes = scan-Outcome q n i k bag pc owes
  step-Outcome c bag (unguard k r) kn gu owes = elim (Bool-cases (ltb (k + 1) slot_count)) [
    | inl e ↦ rw e (quiet _ _ _ refl refl tt (λ j. ground arith) (λ j. ground arith) stays)
    | inr e ↦ rw e (quiet _ _ _ refl refl tt (λ j. ground arith) (λ j. ground arith) (returns r))
  ]
  step-Outcome c bag (push_orphans []) kn gu owes =
      quiet m.slot _ _ refl refl tt (λ j. ground arith) (λ j. ground arith) stays
  step-Outcome c bag (push_orphans (p ∷ todo)) kn gu owes =
      writes m.slot _ m.retired_count m.freed_count _ _ _ (λ r. ground arith) refl tt
        (λ j. ground arith) (λ j. ground arith) stays
  step-Outcome c bag (release k) kn gu owes = elim (Bool-cases (ltb k slot_count)) [
    | inl e ↦ rw e (quiet _ _ _ refl refl tt (λ j. ground arith) (λ j. ground arith) stays)
    | inr e ↦ rw e (quiet m.slot _ _ refl refl tt (λ j. ground arith) (λ j. ground arith) stays)
  ]
  step-Outcome enter bag exited kn gu owes =
      writes m.slot m.orphans m.retired_count m.freed_count _ _ _ (λ r. refl) refl tt
        (λ j. ground arith) (λ j. ground arith) stays
  step-Outcome go bag exited kn gu owes =
      quiet m.slot _ _ refl refl tt (λ j. ground arith) (λ j. ground arith) stays
  step-Outcome c bag exited kn gu owes =
      quiet m.slot _ _ refl refl tt (λ j. ground arith) (λ j. ground arith) stays
