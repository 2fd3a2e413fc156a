-- ===== src/Leaky/Outcome/Enqueue.antt =====
-- A step of ms_queue_m::enqueue (model/queue_model.hpp).
use lock_free_mpmc_queue.Base.{ℕ, suc, inl, inr, not, ◌&&◌, List, refl, ◌==◌, arith, Bool-cases}
use lock_free_mpmc_queue.Machine.State.{Ptr, null, Mem}
use lock_free_mpmc_queue.Machine.Spec.{stays, puts}
use lock_free_mpmc_queue.Machine.Invariant.Defs.{Ghost, IsQueue, Knows}
use lock_free_mpmc_queue.Machine.Invariant.Change.{links, swings_tail}
use lock_free_mpmc_queue.Machine.Invariant.Outcome.Defs.{contents-links}
use lock_free_mpmc_queue.Leaky.Queue.{
  LeakyEnqPc, load_tail, load_next, check_tail, help, link, swing_tail, enq, LeakyChoice, spurious,
  leaky_enqueue,
}
use lock_free_mpmc_queue.Leaky.Outcome.{place, HeldAt, LeakyOutcome, looks}

module _ {V : Type 0} {g : Ghost V} {m : Mem V} (q : IsQueue g m) (i : ℕ) (junk : List Ptr) where
  pub enqueue-LeakyOutcome :
      (c : LeakyChoice V) (v : V) (n : Ptr) (pc : LeakyEnqPc)
      → Knows g m i (place (enq v n pc))
      → HeldAt g (place (enq v n pc))
      → LeakyOutcome i g m junk (enq v n pc) (leaky_enqueue c v n m junk pc)
  unfolding leaky_enqueue
  enqueue-LeakyOutcome c v n load_tail kn he =
      looks q i junk _ (λ p. refl) refl
        (ground (arith, q.at_tail, q.placed g.mid, q.order, q.no_node))
        (λ k. ground (arith, q.at_tail, q.placed g.mid, q.order)) stays
  enqueue-LeakyOutcome c v n (load_next tail) kn he =
      looks q i junk _ (λ p. refl) refl (ground arith) he stays
  enqueue-LeakyOutcome c v n (check_tail tail next) kn he = elim (Bool-cases (tail == m.tail)) [
    | inl e ↦ elim (Bool-cases (next == null)) [
      | inl f ↦ rw (e, f) (looks q i junk _ (λ p. refl) refl (kn.0, kn.1) he stays)
      | inr f ↦ rw (e, f) (looks q i junk _ (λ p. refl) refl (ground arith) he stays)
    ]
    | inr e ↦ rw e (looks q i junk _ (λ p. refl) refl kn.0 (λ k. ground arith) stays)
  ]
  enqueue-LeakyOutcome c v n (help tail next) kn he =
      elim (Bool-cases (m.tail == tail && not (spurious c))) [
        | inl e ↦ rw e (record {
          ghost = record g { mid = suc g.mid };
          change = swings_tail next kn.2 (ground arith);
          frees_none = refl;
          knows = kn.0;
          held = λ k. ground arith;
          nodes = λ old r st. ground (arith, old r);
          balance = λ p. refl;
          atomic = stays;
        })
        | inr e ↦ rw e (looks q i junk _ (λ p. refl) refl kn.0 (λ k. ground arith) stays)
      ]
  enqueue-LeakyOutcome c v n (link tail) kn he =
      elim (Bool-cases (m.next tail == null && not (spurious c))) [
        | inl e ↦ rw e (record {
          ghost = _;
          change = links tail n v (ground (arith, he 0)) (ground arith) kn.0.0 kn.0.1 kn.0.2;
          frees_none = refl;
          knows = ground (arith, q.no_node);
          held = λ k. ground (arith, he k);
          nodes = λ old r st. ground (arith, old r);
          balance = λ p. ground arith;
          atomic = rw (contents-links g v (omega (arith, q.order))) (puts v);
        })
        | inr e ↦ rw e (looks q i junk _ (λ p. refl) refl kn.0 (λ k. ground arith) stays)
      ]
  enqueue-LeakyOutcome c v n (swing_tail tail) kn he = elim (Bool-cases (m.tail == tail)) [
    | inl e ↦ rw e (record {
      ghost = record g { mid = suc g.mid };
      change = swings_tail n kn.1 (ground arith);
      frees_none = refl;
      knows = tt;
      held = λ k. ground arith;
      nodes = λ old r st. ground (arith, old r);
      balance = λ p. refl;
      atomic = stays;
    })
    | inr e ↦ rw e (looks q i junk _ (λ p. refl) refl tt (λ k. ground arith) stays)
  ]
