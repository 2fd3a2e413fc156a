-- ===== src/Leaky/Clients/Invariant.antt =====
-- What holds in every state of queue_suite (model/queue_model.hpp).
use lock_free_mpmc_queue.Base.{
  ℕ, ◌+◌, ◌*◌, ◌/◌, ◌^◌, ◌≤◌, ◌<◌, ◌≡◌, ◌≢◌, refl, ap, subst, inl, inr, true, ltb, ◌==◌,
  if◌then◌else◌, sum_below, sum_below-update, sum_below-zero, le-sum_below, sum_below_mono,
  sum_below_same, Bool-cases, eq-cases, arith,
}
use lock_free_mpmc_queue.Leaky.Clients.{
  ClientPc, send, poll, check, mark, done, failed, Client, SuiteState, ClientAct, client_step,
  suite_advance, suite_init, SuiteReach, start, later,
}
use lock_free_mpmc_queue.Leaky.Clients.Lanes.{is_lane, all_below, is_lane-le}
use lock_free_mpmc_queue.Leaky.Clients.Step.{
  sent_at, holds_at, pending_at, behind, Local, is_out, all_out, Fits, ClientOutcome,
  step-ClientOutcome,
}

abbrev pub holds : ℕ → ℕ → Client → ℕ
holds p s w = holds_at p s w.pc

abbrev pub pending : Client → ℕ
pending w = pending_at w.pc

pub record SuiteInv (P C K : ℕ) (d : ℕ → ℕ) (s : SuiteState) : Type 0 where
  pub locals :
      (j : ℕ) → j < P + C → Local P K j d s.shared.consumed (s.client j).last (s.client j).pc
  pub lasts : (j p : ℕ) → j < P + C → p < P → behind ((s.client j).last p) ≤ d p
  pub lanes : (p : ℕ) → p < P → is_lane p (d p) (sent_at K (s.client p).pc) s.shared.queue ≡ true
  pub known : all_below P s.shared.queue ≡ true
  pub ledger : (p n : ℕ) → sum_below (holds p n) s.client (P + C) + s.shared.seen p n ≡ is_out d p n
  pub counted : s.shared.consumed + sum_below pending s.client (P + C) ≡ all_out d P

sent-le :
    (P K idx c : ℕ) (d last : ℕ → ℕ) (pc : ClientPc) → Local P K idx d c last pc → sent_at K pc ≤ K
sent-le P K idx c d last (send s) l = l.1
sent-le P K idx c d last poll l = omega arith
sent-le P K idx c d last pc l = omega arith

-- More values on their way out spoil nothing that a thread knows.
Local-grows :
    (P K idx c c' : ℕ) (d d' last : ℕ → ℕ)
    → c ≤ c'
    → ((p : ℕ) → d p ≤ d' p)
    → (pc : ClientPc) → Local P K idx d c last pc
    → Local P K idx d' c' last pc
Local-grows P K idx c c' d d' last more grows (send s) l = l
Local-grows P K idx c c' d d' last more grows (check v) l = omega (arith, grows (v / 2 ^ 8))
Local-grows P K idx c c' d d' last more grows (mark p s) l = omega (arith, grows p)
Local-grows P K idx c c' d d' last more grows done l = λ h. omega (arith, l h)
Local-grows P K idx c c' d d' last more grows failed l = l
Local-grows P K idx c c' d d' last more grows pc l = l

module _ {P C K : ℕ} (fits : Fits P K) {d : ℕ → ℕ} (s : SuiteState) (inv : SuiteInv P C K d s) where
  pub out-le : (p : ℕ) → p < P → d p ≤ K
  out-le p lt = omega (
    arith,
    is_lane-le p (d p) (sent_at K (s.client p).pc) s.shared.queue (inv.lanes p lt),
    sent-le P K p s.shared.consumed d (s.client p).last (s.client p).pc
        (inv.locals p (omega arith)),
  )

  pub all_out-le : all_out d P ≤ P * K
  all_out-le = omega (arith, sum_below_mono (λ n. n) d (λ n. K) d P out-le, sum_below_same d K P)

  module _ (idx : ℕ) (lt : idx < P + C) where
    abbrev w : Client
    w = s.client idx

    abbrev a : ClientAct
    a = client_step P K idx s.shared w w.pc

    pub outcome : ClientOutcome P K idx d s.shared w.pc a
    outcome =
        step-ClientOutcome fits s.shared w (λ p. inv.lasts idx p lt) inv.known w.pc
          (inv.locals idx lt) out-le (λ p ltp. (sent_at K (s.client p).pc, inv.lanes p ltp))
          (λ p n h.
            ground (arith, inv.ledger p n, le-sum_below (holds p n) s.client idx (P + C) lt))
          (λ h.
            omega
              (arith, fits, inv.counted, all_out-le, le-sum_below pending s.client idx (P + C) lt))

    other : (j : ℕ) → j ≢ idx → (suite_advance P K idx s).client j ≡ s.client j
    other j ne = ground arith

    mine : (suite_advance P K idx s).client idx ≡ a.client
    mine = ground arith

    pub advance-SuiteInv : SuiteInv P C K outcome.out (suite_advance P K idx s)
    advance-SuiteInv = record {
      locals = λ j ltj. elim (eq-cases j idx) [
        | inl e ↦ rw e (rw mine outcome.local)
        | inr ne ↦ rw (other j ne) (
            Local-grows P K j s.shared.consumed a.shared.consumed d outcome.out (s.client j).last
              outcome.later outcome.grows (s.client j).pc (inv.locals j ltj))
      ];
      lasts = λ j p ltj ltp. elim (eq-cases j idx) [
        | inl e ↦ rw e (rw mine (outcome.lasts p ltp))
        | inr ne ↦ rw (other j ne) (omega (arith, inv.lasts j p ltj ltp, outcome.grows p))
      ];
      lanes = λ p ltp.
          let same = λ (e : p ≡ idx). ap (λ j. sent_at K (s.client j).pc) e in
          let moved : (if p == idx then sent_at K a.client.pc else sent_at K (s.client p).pc)
              ≡ sent_at K ((suite_advance P K idx s).client p).pc =
            ground arith in
          subst (λ b. is_lane p (outcome.out p) b a.shared.queue ≡ true) moved
            (outcome.lanes p (sent_at K (s.client p).pc) ltp same (inv.lanes p ltp));
      known = outcome.known;
      ledger = λ p n. omega (
        arith,
        inv.ledger p n,
        outcome.ledger p n,
        sum_below-update (holds p n) s.client idx a.client (P + C) lt,
      );
      counted = omega (
        arith,
        inv.counted,
        outcome.counted,
        sum_below-update pending s.client idx a.client (P + C) lt,
      );
    }

holds-init : (P p n j : ℕ) → holds p n ((suite_init P).client j) ≡ 0
holds-init P p n j = ground arith

pending-init : (P j : ℕ) → pending ((suite_init P).client j) ≡ 0
pending-init P j = ground arith

sent-init : (P K p : ℕ) → p < P → sent_at K ((suite_init P).client p).pc ≡ 0
sent-init P K p lt = ground arith

init-SuiteInv : (P C K : ℕ) → SuiteInv P C K (λ p. 0) (suite_init P)
init-SuiteInv P C K = record {
  locals = λ j lt. elim (Bool-cases (ltb j P)) [
    | inl e ↦ rw e (ground arith)
    | inr e ↦ rw e (ground arith)
  ];
  lasts = λ j p ltj ltp. omega arith;
  lanes = λ p lt. rw (sent-init P K p lt) refl;
  known = refl;
  ledger = λ p n.
      ground (arith, sum_below-zero (holds p n) (suite_init P).client (P + C) (holds-init P p n));
  counted = omega (
    arith,
    sum_below-zero pending (suite_init P).client (P + C) (pending-init P),
    sum_below-zero (λ n. n) (λ p. 0) P (λ p. refl),
  );
}

module _ {P C K : ℕ} (fits : Fits P K) where
  pub SuiteReach-SuiteInv : {s : SuiteState} → SuiteReach P C K s → (d : ℕ → ℕ) × SuiteInv P C K d s
  SuiteReach-SuiteInv start = ((λ p. 0), init-SuiteInv P C K)
  SuiteReach-SuiteInv (later {s} r idx lt) =
      let (d, inv) = SuiteReach-SuiteInv r in
      ((outcome fits s inv idx lt).out, advance-SuiteInv fits s inv idx lt)
