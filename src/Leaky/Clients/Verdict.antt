-- ===== src/Leaky/Clients/Verdict.antt =====
-- The verdict of queue_suite (model/queue_model.hpp): no assertion fails, neither in a thread nor in
-- after().
use lock_free_mpmc_queue.Base.{
  ℕ, zero, suc, ◌+◌, ◌*◌, ◌≤◌, ◌<◌, ◌≡◌, ◌≢◌, refl, subst, inl, inr, true, List, [], ◌∷◌, sum_below,
  sum_below_mono, sum_below_strict, sum_below_same, eq-cases, arith,
}
use lock_free_mpmc_queue.Leaky.Clients.{
  done, failed, Client, SuiteState, SuiteReach, producer_of, queue_empty, row_seen, all_seen, after,
}
use lock_free_mpmc_queue.Leaky.Clients.Lanes.{is_lane, all_below, is_lane-le}
use lock_free_mpmc_queue.Leaky.Clients.Step.{sent_at, Local, Fits}
use lock_free_mpmc_queue.Leaky.Clients.Invariant.{SuiteInv, holds, out-le, SuiteReach-SuiteInv}

module _ {P C K : ℕ} (fits : Fits P K) where
  -- No assertion of a thread of queue_suite fails, if its values fit: a value that a consumer gets has
  -- a producer and a number that there are, its number is greater than that of the value which the consumer got from
  -- the same producer before, and nobody has got it before.
  pub assertions_hold :
      {s : SuiteState} → SuiteReach P C K s → (j : ℕ) → j < P + C → (s.client j).pc ≢ failed
  assertions_hold {s} r j lt e =
      let (d, inv) = SuiteReach-SuiteInv fits r in
      let f : Local P K j d s.shared.consumed (s.client j).last failed =
        subst (Local P K j d s.shared.consumed (s.client j).last) e (inv.locals j lt) in
      elim f [ ]

  module _ {d : ℕ → ℕ} {s : SuiteState} (inv : SuiteInv P C K d s) (consumers : 0 < C)
      (all_done : (j : ℕ) → j < P + C → (s.client j).pc ≡ done) where
    weighs_nothing :
        (weight : Client → ℕ)
        → ((w : Client) → w.pc ≡ done → weight w ≡ 0)
        → sum_below weight s.client (P + C) ≡ 0
    weighs_nothing weight light = omega (
      arith,
      sum_below_mono weight s.client (λ n. 0) (λ n. n) (P + C)
          (λ j lt. omega (arith, light (s.client j) (all_done j lt))),
      sum_below_same (λ n. n) 0 (P + C),
    )

    consumed_all : P * K ≤ s.shared.consumed
    consumed_all =
        let at : Local P K P d s.shared.consumed (s.client P).last done =
          subst (Local P K P d s.shared.consumed (s.client P).last) (all_done P (omega arith))
            (inv.locals P (omega arith)) in
        at (omega arith)

    -- All values of each producer have been dequeued.
    all_gone : (p : ℕ) → p < P → d p ≡ K
    all_gone p lt = elim (eq-cases (d p) K) [
      | inl e ↦ e
      | inr ne ↦
          let bound = out-le fits s inv in
          absurd (
            omega (
              arith,
              consumed_all,
              inv.counted,
              sum_below_strict (λ n. n) d (λ n. K) d P p bound lt (omega (arith, ne, bound p lt)),
              sum_below_same d K P,
            ))
    ]

    marked : (p n : ℕ) → p < P → n < K → s.shared.seen p n ≡ 1
    marked p n lt ltn =
        ground (arith, inv.ledger p n, weighs_nothing (holds p n) (λ w e. rw e refl), all_gone p lt)

    row : (p k : ℕ) → p < P → k ≤ K → row_seen (s.shared.seen p) k ≡ true
    unfolding row_seen
    row p zero lt h = refl
    row p (suc k) lt h = ground (arith, row p k lt (omega arith), marked p k lt (omega arith))

    rows : (p : ℕ) → p ≤ P → all_seen s.shared.seen p K ≡ true
    unfolding all_seen
    rows zero h = refl
    rows (suc p) h = ground (arith, rows p (omega arith), row p K (omega arith) (omega arith))

    drained : (q : List ℕ) → s.shared.queue ≡ q → queue_empty q ≡ true
    drained [] e = refl
    drained (v ∷ q) e =
        let p : ℕ = producer_of v in
        let known : all_below P (v ∷ q) ≡ true = subst (λ l. all_below P l ≡ true) e inv.known in
        let here : p < P = ground arith in
        let sent : sent_at K (s.client p).pc ≡ K = rw (all_done p (omega arith)) refl in
        let lane : is_lane p (d p) K (v ∷ q) ≡ true =
          subst (λ l. is_lane p (d p) K l ≡ true) e
            (subst (λ b. is_lane p (d p) b s.shared.queue ≡ true) sent (inv.lanes p here)) in
        ground (arith, is_lane-le p (suc (d p)) K q, all_gone p here)

  -- When all threads of queue_suite have ended, of which at least one is a consumer, and its values
  -- fit, the queue is empty, and every value of every producer has been seen.
  pub after_holds :
      {s : SuiteState}
      → SuiteReach P C K s
      → 0 < C
      → ((j : ℕ) → j < P + C → (s.client j).pc ≡ done)
      → after P K s.shared ≡ true
  unfolding after
  after_holds {s} r consumers all_done =
      let (d, inv) = SuiteReach-SuiteInv fits r in
      rw (drained inv consumers all_done s.shared.queue refl)
        (rows inv consumers all_done P (omega arith))
