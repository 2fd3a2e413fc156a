-- ===== src/Bench/Trials/Invariant.antt =====
-- What holds of the counters and samples in every state of a trial (bench/bench_main.cpp).
use lock_free_mpmc_queue.Base.{
  ℕ, ◌+◌, ◌^◌, ◌≤◌, ◌<◌, ◌≡◌, ◌≢◌, refl, subst, false, inl, inr, length, arith, Bool-cases,
  eq-cases, sum_below, sum_below_mono, sum_below-update, le-sum_below, sum_below-zero,
}
use lock_free_mpmc_queue.Bench.Suite.{Trial, pairs, pc, enq, deq}
use lock_free_mpmc_queue.Bench.Trials.{
  RoundPc, produce, put, stamp_put, grab, stamp_grab, consume, check, take, add, stamp_take,
  finished, Participant, TrialState, Moved, is_pairing, rounds, total, nthreads, is_producer,
  prefilled, round_step, trial_advance, trial_init, TrialReach, start, later,
}
use lock_free_mpmc_queue.Bench.Trials.Counts.{
  puts, gets, adds_at, adds, Local, step-flow, step-used, step-Local, step-consumed, step-finished,
}
use lock_free_mpmc_queue.Bench.Trials.Supply.{
  Fits, quota, supply, sum-quota, supply-total, puts-le-quota,
}

abbrev pub LocalOf : Trial → ℕ → Participant → Type 0
LocalOf k t w =
    Local (is_pairing k) (is_producer k t) (rounds k) (length w.enq_ns) (length w.deq_ns) w.at

pub record TrialInv (k : Trial) (s : TrialState) : Type 0 where
  pub locals : (t : ℕ) → t < nthreads k → LocalOf k t (s.worker t)
  pub flow :
      length (prefilled k) + sum_below puts s.worker (nthreads k)
      ≡ length s.common.queue + sum_below gets s.worker (nthreads k)
  pub used :
      is_pairing k ≡ false
      → s.common.consumed + sum_below adds s.worker (nthreads k)
        ≡ sum_below gets s.worker (nthreads k)
  pub ended :
      (t : ℕ)
      → t < nthreads k
      → is_producer k t ≡ false
      → (s.worker t).at ≡ finished
      → total k ≤ s.common.consumed

module _ (k : Trial) (s : TrialState) (fits : Fits k) (inv : TrialInv k s) where
  pub puts-le-supply : sum_below puts s.worker (nthreads k) ≤ supply k
  puts-le-supply =
      let small =
        sum_below_mono puts s.worker (quota k) (λ t. t) (nthreads k)
          (λ t lt.
            puts-le-quota k t (length (s.worker t).enq_ns) (length (s.worker t).deq_ns)
              (s.worker t).at (inv.locals t lt)) in
      omega (arith, small, sum-quota k fits)

  -- A consumer that adds to the counter does not bring it past the total.
  consumed-small :
      (t : ℕ)
      → t < nthreads k
      → is_pairing k ≡ false
      → is_producer k t ≡ false
      → 0 < adds (s.worker t)
      → s.common.consumed + 1 ≤ total k
  consumed-small t lt g c some_add = omega (
    arith,
    le-sum_below adds s.worker t (nthreads k) lt,
    inv.used g,
    inv.flow,
    puts-le-supply,
    supply-total k t fits c,
  )

  pairs-no_consumer : (t : ℕ) → is_producer k t ≡ false → is_pairing k ≡ false
  pairs-no_consumer t c = by_trial k c
    where
      by_trial : (j : Trial) → is_producer j t ≡ false → is_pairing j ≡ false
      by_trial (pairs n ops) c = cc
      by_trial (pc p q ops) c = refl
      by_trial (enq n ops) c = refl
      by_trial (deq n ops) c = refl

  total-lt : total k < 2 ^ 64
  total-lt = by_trial k
    where
      by_trial : (j : Trial) → total j < 2 ^ 64
      by_trial (pairs n ops) = omega arith
      by_trial (pc p q ops) = omega arith
      by_trial (enq n ops) = omega arith
      by_trial (deq n ops) = omega arith

  adds-consumer :
      (t e d : ℕ) (at : RoundPc)
      → Local (is_pairing k) (is_producer k t) (rounds k) e d at
      → 0 < adds_at at
      → is_producer k t ≡ false
  adds-consumer t e d (add t0) l h = l.0
  adds-consumer t e d (produce i) l h = absurd (omega arith)
  adds-consumer t e d (put i t0) l h = absurd (omega arith)
  adds-consumer t e d (stamp_put i t0) l h = absurd (omega arith)
  adds-consumer t e d (grab i t1) l h = absurd (omega arith)
  adds-consumer t e d (stamp_grab i t1) l h = absurd (omega arith)
  adds-consumer t e d consume l h = absurd (omega arith)
  adds-consumer t e d (check t0) l h = absurd (omega arith)
  adds-consumer t e d (take t0) l h = absurd (omega arith)
  adds-consumer t e d (stamp_take t0) l h = absurd (omega arith)
  adds-consumer t e d finished l h = absurd (omega arith)

  module _ (t now : ℕ) (lt : t < nthreads k) where
    abbrev w : Participant
    w = s.worker t

    abbrev a : Moved
    a = round_step k t now s.common w w.at

    no_wrap : 0 < adds_at w.at → s.common.consumed + 1 < 2 ^ 64
    no_wrap h =
        let c = adds-consumer t (length w.enq_ns) (length w.deq_ns) w.at (inv.locals t lt) h in
        omega (arith, consumed-small t lt (pairs-no_consumer t c) c h, total-lt)

    other : (j : ℕ) → j ≢ t → (trial_advance k t now s).worker j ≡ s.worker j
    other j ne = ground arith

    mine : (trial_advance k t now s).worker t ≡ a.worker
    mine = ground arith

    pub advance-TrialInv : TrialInv k (trial_advance k t now s)
    advance-TrialInv = record {
      locals = λ j ltj. elim (eq-cases j t) [
        | inl e ↦ rw e (rw mine (step-Local k t now s.common w w.at (inv.locals t lt)))
        | inr ne ↦ rw (other j ne) (inv.locals j ltj)
      ];
      flow = omega (
        arith,
        inv.flow,
        step-flow k t now s.common w w.at,
        sum_below-update puts s.worker t a.worker (nthreads k) lt,
        sum_below-update gets s.worker t a.worker (nthreads k) lt,
      );
      used = λ g. omega (
        arith,
        inv.used g,
        step-used k t now s.common w w.at no_wrap g (inv.locals t lt),
        sum_below-update adds s.worker t a.worker (nthreads k) lt,
        sum_below-update gets s.worker t a.worker (nthreads k) lt,
      );
      ended = λ j ltj c. elim (eq-cases j t) [
        | inl e ↦
            let c' : is_producer k t ≡ false = subst (λ i. is_producer k i ≡ false) e c in
            rw e (
              rw mine
                (step-finished k t now s.common w w.at (inv.locals t lt) c' (inv.ended t lt c')))
        | inr ne ↦
            rw (other j ne) (λ f.
              omega (arith, inv.ended j ltj c f, step-consumed k t now s.common w w.at no_wrap))
      ];
    }

init-empty :
    (k : Trial) (t : ℕ)
    → (puts ((trial_init k).worker t) ≡ 0)
      × (gets ((trial_init k).worker t) ≡ 0)
      × (adds ((trial_init k).worker t) ≡ 0)
      × ((trial_init k).worker t).at ≢ finished
      × LocalOf k t ((trial_init k).worker t)
init-empty k t = elim (Bool-cases (is_producer k t)) [
  | inl e ↦ rw e (ground arith)
  | inr e ↦ rw e (ground arith)
]

init-TrialInv : (k : Trial) → TrialInv k (trial_init k)
init-TrialInv k =
    let n = nthreads k in
    let no_puts = sum_below-zero puts (trial_init k).worker n (λ t. (init-empty k t).0) in
    let no_gets = sum_below-zero gets (trial_init k).worker n (λ t. (init-empty k t).1) in
    let no_adds = sum_below-zero adds (trial_init k).worker n (λ t. (init-empty k t).2) in
    record {
      locals = λ t lt. (init-empty k t).4;
      flow = omega (arith, no_puts, no_gets);
      used = λ g. omega (arith, no_adds, no_gets);
      ended = λ t lt c f. absurd ((init-empty k t).3 f);
    }

pub TrialReach-TrialInv : (k : Trial) {s : TrialState} → Fits k → TrialReach k s → TrialInv k s
TrialReach-TrialInv k fits start = init-TrialInv k
TrialReach-TrialInv k fits (later {s} r t now lt) =
    advance-TrialInv k s fits (TrialReach-TrialInv k fits r) t now lt
