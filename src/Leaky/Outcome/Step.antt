-- ===== src/Leaky/Outcome/Step.antt =====
-- Any step of a thread of ms_queue_m (model/queue_model.hpp).
use lock_free_mpmc_queue.Base.{ℕ, inl, inr, ◌||◌, List, refl, ◌==◌, arith, Bool-cases}
use lock_free_mpmc_queue.Machine.State.{Ptr, null, Mem}
use lock_free_mpmc_queue.Machine.Spec.{stays, calls_enqueue, calls_dequeue, returns}
use lock_free_mpmc_queue.Machine.Invariant.Defs.{Ghost, IsQueue, Knows}
use lock_free_mpmc_queue.Machine.Invariant.Change.{aside, makes}
use lock_free_mpmc_queue.Leaky.Queue.{
  LeakyPc, idle, enq, deq, returning, LeakyChoice, go, fail, enqueue, dequeue, leaky_call,
  leaky_step,
}
use lock_free_mpmc_queue.Leaky.Outcome.{place, HeldAt, LeakyOutcome, looks}
use lock_free_mpmc_queue.Leaky.Outcome.Enqueue.{enqueue-LeakyOutcome}
use lock_free_mpmc_queue.Leaky.Outcome.Dequeue.{dequeue-LeakyOutcome}

module _ {V : Type 0} {g : Ghost V} {m : Mem V} (q : IsQueue g m) (i : ℕ) (junk : List Ptr) where
  call-LeakyOutcome : (c : LeakyChoice V) → LeakyOutcome i g m junk idle (leaky_call c m junk)
  unfolding leaky_call
  call-LeakyOutcome (enqueue v p) = elim (Bool-cases (p == null || m.live p)) [
    | inl e ↦ rw e (looks q i junk _ (λ p. refl) refl tt (λ k. ground arith) stays)
    | inr e ↦ rw e (record {
      ghost = _;
      change = makes p v (ground arith) (ground (arith, q.alloc p));
      frees_none = refl;
      knows = ground arith;
      held = λ k. ground arith;
      nodes = λ old r st. ground (arith, old r);
      balance = λ r. ground (arith, q.alloc p);
      atomic = calls_enqueue v;
    })
  ]
  call-LeakyOutcome dequeue = record {
    ghost = g;
    change = aside m.slot m.orphans m.retired_count m.freed_count;
    frees_none = refl;
    knows = tt;
    held = λ k. ground arith;
    nodes = λ old r st. ground (arith, old r);
    balance = λ p. refl;
    atomic = calls_dequeue;
  }
  call-LeakyOutcome go = looks q i junk _ (λ p. refl) refl tt (λ k. ground arith) stays
  call-LeakyOutcome fail = looks q i junk _ (λ p. refl) refl tt (λ k. ground arith) stays

  pub step-LeakyOutcome :
      (c : LeakyChoice V) (pc : LeakyPc V)
      → Knows g m i (place pc)
      → HeldAt g (place pc)
      → LeakyOutcome i g m junk pc (leaky_step c m junk pc)
  unfolding leaky_step
  step-LeakyOutcome c idle kn he = call-LeakyOutcome c
  step-LeakyOutcome c (enq v n pc) kn he = enqueue-LeakyOutcome q i junk c v n pc kn he
  step-LeakyOutcome c (deq pc) kn he = dequeue-LeakyOutcome q i junk c pc kn he
  step-LeakyOutcome c (returning r) kn he = record {
    ghost = g;
    change = aside m.slot m.orphans m.retired_count m.freed_count;
    frees_none = refl;
    knows = tt;
    held = λ k. ground arith;
    nodes = λ old r st. ground (arith, old r);
    balance = λ p. refl;
    atomic = returns r;
  }
