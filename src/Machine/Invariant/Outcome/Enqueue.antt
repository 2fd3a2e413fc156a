-- ===== src/Machine/Invariant/Outcome/Enqueue.antt =====
-- The steps of `enqueue`.
use lock_free_mpmc_queue.Base.{
  ℕ, suc, ◌≢◌, inl, inr, not, ◌&&◌, List, refl, ◌==◌, arith, Bool-cases,
}
use lock_free_mpmc_queue.Machine.State.{
  Ptr, null, Mem, EnqPc, protect_tail, load_next, check_tail, help, link, swing_tail, load, publish,
  verify, enq, Choice,
}
use lock_free_mpmc_queue.Machine.Step.{enqueue_step, is_spurious}
use lock_free_mpmc_queue.Machine.Spec.{stays, puts}
use lock_free_mpmc_queue.Machine.Invariant.Defs.{Ghost, IsQueue, Knows, Guards, claim}
use lock_free_mpmc_queue.Machine.Invariant.Change.{links, swings_tail}
use lock_free_mpmc_queue.Machine.Invariant.Outcome.Defs.{Outcome, quiet, contents-links}

module _ {V : Type 0} {g : Ghost V} {m : Mem V} (q : IsQueue g m) (i : ℕ) (bag : List Ptr) where
  pub enqueue-Outcome :
      (c : Choice V) (v : V) (n : Ptr) (pc : EnqPc)
      → Knows g m i (enq v n pc)
      → ((k : ℕ) → claim (enq v n pc) k ≢ null → Guards g m i k (claim (enq v n pc) k))
      → Outcome i g m (enq v n pc) bag (enqueue_step i c v n m bag pc)
  unfolding enqueue_step
  enqueue-Outcome c v n (protect_tail load) kn gu =
      quiet m.slot _ _ refl refl kn (λ k. ground arith) (λ k. ground arith) stays
  enqueue-Outcome c v n (protect_tail (publish p)) kn gu =
      quiet _ _ _ refl refl (ground arith) (λ k. ground arith) (λ k. ground arith) stays
  enqueue-Outcome c v n (protect_tail (verify p)) kn gu = elim (Bool-cases (m.tail == p)) [
    | inl e ↦ rw e (
        quiet m.slot _ _ refl refl (ground (arith, q.at_tail, q.placed g.mid, q.order, q.no_node))
          (λ k. ground (arith, q.at_tail, q.placed g.mid, q.order))
          (λ k. ground (arith, q.at_tail, q.placed g.mid, q.order)) stays)
    | inr e ↦ rw e (quiet m.slot _ _ refl refl kn.0 (λ k. ground arith) (λ k. ground arith) stays)
  ]
  enqueue-Outcome c v n (load_next tail) kn gu =
      quiet m.slot _ _ refl refl (ground arith) (λ k. ground (arith, gu k)) (λ k. ground arith)
        stays
  enqueue-Outcome c v n (check_tail tail next) kn gu = elim (Bool-cases (tail == m.tail)) [
    | inl e ↦ elim (Bool-cases (next == null)) [
      | inl f ↦
          rw (e, f) (quiet m.slot _ _ refl refl (kn.0, kn.1) (λ k. gu k) (λ k. ground arith) stays)
      | inr f ↦
          rw (e, f)
            (quiet m.slot _ _ refl refl (ground arith) (λ k. gu k) (λ k. ground arith) stays)
    ]
    | inr e ↦ rw e (quiet m.slot _ _ refl refl kn.0 (λ k. ground arith) (λ k. ground arith) stays)
  ]
  enqueue-Outcome c v n (help tail next) kn gu =
      elim (Bool-cases ((m.tail == tail) && not (is_spurious c))) [
        | inl e ↦ rw e (record {
          ghost = record g { mid = suc g.mid };
          change = swings_tail next kn.2 (ground arith);
          knows = kn.0;
          guards = λ k. ground arith;
          newly = λ k. ground arith;
          nodes = λ old r st. ground (arith, old r);
          balance = λ p. refl;
          decided = λ p h e. absurd (h e);
          atomic = stays;
        })
        | inr e ↦
            rw e (quiet m.slot _ _ refl refl kn.0 (λ k. ground arith) (λ k. ground arith) stays)
      ]
  enqueue-Outcome c v n (link tail) kn gu =
      elim (Bool-cases ((m.next tail == null) && not (is_spurious c))) [
        | inl e ↦ rw e (record {
          ghost = _;
          change = links tail n v (ground (arith, gu 0)) (ground arith) kn.0.0 kn.0.1 kn.0.2;
          knows = ground (arith, q.no_node);
          guards = λ k. ground (arith, gu k);
          newly = λ k. ground arith;
          nodes = λ old r st. ground (arith, old r);
          balance = λ p. ground arith;
          decided = λ p h e. absurd (h e);
          atomic = rw (contents-links g v (omega (arith, q.order))) (puts v);
        })
        | inr e ↦
            rw e (quiet m.slot _ _ refl refl kn.0 (λ k. ground arith) (λ k. ground arith) stays)
      ]
  enqueue-Outcome c v n (swing_tail tail) kn gu = elim (Bool-cases (m.tail == tail)) [
    | inl e ↦ rw e (record {
      ghost = record g { mid = suc g.mid };
      change = swings_tail n kn.1 (ground arith);
      knows = tt;
      guards = λ k. ground arith;
      newly = λ k. ground arith;
      nodes = λ old r st. ground (arith, old r);
      balance = λ p. refl;
      decided = λ p h e. absurd (h e);
      atomic = stays;
    })
    | inr e ↦ rw e (quiet m.slot _ _ refl refl tt (λ k. ground arith) (λ k. ground arith) stays)
  ]
