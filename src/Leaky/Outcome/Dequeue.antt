-- ===== src/Leaky/Outcome/Dequeue.antt =====
-- A step of ms_queue_m::try_dequeue (model/queue_model.hpp).
use lock_free_mpmc_queue.Base.{
  ℕ, suc, ◌-◌, ◌<◌, ◌≡◌, inl, inr, false, not, ◌&&◌, List, [], ◌∷◌, refl, ap, ◌∙◌, ◌==◌, arith,
  Bool-cases, eq-cases,
}
use lock_free_mpmc_queue.Machine.State.{Ptr, null, Mem}
use lock_free_mpmc_queue.Machine.Spec.{slice, stays, takes, finds_empty, tries_again, settles}
use lock_free_mpmc_queue.Machine.Invariant.Defs.{linked, Ghost, IsQueue, Knows}
use lock_free_mpmc_queue.Machine.Invariant.Change.{aside, swings_tail, swings_head}
use lock_free_mpmc_queue.Machine.Invariant.Outcome.Defs.{contents-swings_head, contents-empty}
use lock_free_mpmc_queue.Machine.Invariant.Outcome.Dequeue.{alone}
use lock_free_mpmc_queue.Leaky.Queue.{
  LeakyDeqPc, load_head, see_tail, read_next, check_head, help_tail, read_value, swing_head,
  retire_head, deq, LeakyChoice, spurious, leaky_dequeue,
}
use lock_free_mpmc_queue.Leaky.Outcome.{place, HeldAt, LeakyOutcome, looks}

module _ {V : Type 0} {g : Ghost V} {m : Mem V} (q : IsQueue g m) (i : ℕ) (junk : List Ptr) where
  pub dequeue-LeakyOutcome :
      (c : LeakyChoice V) (pc : LeakyDeqPc V)
      → Knows g m i (place (deq pc))
      → HeldAt g (place (deq pc))
      → LeakyOutcome i g m junk (deq pc) (leaky_dequeue c m junk pc)
  unfolding leaky_dequeue
  dequeue-LeakyOutcome c load_head kn he =
      looks q i junk _ (λ p. refl) refl
        (ground (arith, q.at_head, q.placed g.lo, q.order, q.no_node))
        (λ k. ground (arith, q.at_head, q.placed g.lo, q.order)) stays
  dequeue-LeakyOutcome c (see_tail h) kn he =
      looks q i junk _ (λ p. refl) refl (ground arith) he stays
  dequeue-LeakyOutcome c (read_next h t) kn he = elim (eq-cases (m.next h) null) [
    | inl e ↦
        let last = alone q 0 i [] h kn.1 (ground (arith, he 0)) e in
        looks q i junk _ (λ p. refl) refl (ground arith) he
          (rw e (finds_empty (contents-empty g last.1)))
    | inr e ↦
        let more : (m.next h == null) ≡ false = ground arith in
        looks q i junk _ (λ p. refl) refl (ground arith) he (rw more stays)
  ]
  dequeue-LeakyOutcome c (check_head h t nx) kn he = elim (Bool-cases (h == m.head)) [
    | inl e ↦ elim (Bool-cases (h == t)) [
      | inl f ↦ elim (Bool-cases (nx == null)) [
        | inl z ↦
            rw (e, f, z) (looks q i junk _ (λ p. refl) refl tt (λ k. ground arith) (rw z settles))
        | inr z ↦
            rw (e, f, z)
              (looks q i junk _ (λ p. refl) refl (ground arith) (λ k. ground (arith, he k))
                (rw z stays))
      ]
      | inr f ↦
          let z : (nx == null) ≡ false = ground arith in
          let short : g.lo < g.hi = ground (arith, q.order, q.at_head, q.at_tail) in
          let first : g.status nx ≡ linked (suc g.lo) =
            ground (arith, q.at_head, q.chain g.lo, q.placed (suc g.lo)) in
          rw (e, f)
            (looks q i junk _ (λ p. refl) refl (ground arith) (λ k. ground (arith, he k))
              (rw z stays))
    ]
    | inr e ↦ elim (Bool-cases (nx == null)) [
      | inl z ↦ rw e (looks q i junk _ (λ p. refl) refl tt (λ k. ground arith) (rw z tries_again))
      | inr z ↦ rw e (looks q i junk _ (λ p. refl) refl tt (λ k. ground arith) (rw z stays))
    ]
  ]
  dequeue-LeakyOutcome c (help_tail h nx) kn he =
      elim (Bool-cases (m.tail == h && not (spurious c))) [
        | inl e ↦ rw e (record {
          ghost = record g { mid = suc g.mid };
          change = swings_tail nx kn.2 (ground arith);
          frees_none = refl;
          knows = tt;
          held = λ k. ground arith;
          nodes = λ old r st. ground (arith, old r);
          balance = λ p. refl;
          atomic = stays;
        })
        | inr e ↦ rw e (looks q i junk _ (λ p. refl) refl tt (λ k. ground arith) stays)
      ]
  dequeue-LeakyOutcome c (read_value h nx) kn he =
      looks q i junk _ (λ p. refl) refl (ground arith) he stays
  dequeue-LeakyOutcome c (swing_head h nx v) kn he =
      elim (Bool-cases (m.head == h && not (spurious c))) [
        | inl e ↦
            let short : g.lo < g.hi = ground (arith, q.order, q.at_head, q.at_tail) in
            let first : g.item (suc g.lo) ≡ v =
              ground (arith, q.items (suc g.lo), q.chain g.lo, q.at_head) in
            rw e (record {
              ghost = _;
              change = swings_head nx kn.3 (ground arith) (ground arith);
              frees_none = refl;
              knows = tt;
              held = λ k. ground arith;
              nodes = λ old r st. ground (arith, old r);
              balance = λ p. ground (arith, q.at_head, q.placed g.lo, q.order);
              atomic = takes v _ (
                  contents-swings_head g short
                  ∙ ap (λ w. w ∷ slice g.item (suc g.lo) (g.hi - suc g.lo)) first);
            })
        | inr e ↦ rw e (looks q i junk _ (λ p. refl) refl tt (λ k. ground arith) stays)
      ]
  dequeue-LeakyOutcome c (retire_head h v) kn he = record {
    ghost = g;
    change = aside m.slot m.orphans m.retired_count m.freed_count;
    frees_none = refl;
    knows = tt;
    held = λ k. ground arith;
    nodes = λ old r st. ground (arith, old r);
    balance = λ p. ground arith;
    atomic = stays;
  }
