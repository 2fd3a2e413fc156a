-- ===== src/Bench/Trials/Drained.antt =====
-- When all workers of a trial have finished, its samples are as many as r.ops_total says
-- (bench/bench_main.cpp).
use lock_free_mpmc_queue.Base.{
  ℕ, ◌+◌, ◌*◌, ◌≤◌, ◌<◌, ◌≡◌, refl, subst, true, false, length, arith, if◌then◌else◌, sum_below,
  sum_below_mono, sum_below_strict, sum_below_same,
}
use lock_free_mpmc_queue.Bench.Suite.{Trial, pairs, pc, enq, deq}
use lock_free_mpmc_queue.Bench.Trials.{
  RoundPc, produce, put, stamp_put, grab, stamp_grab, consume, check, take, add, stamp_take,
  finished, Participant, TrialState, is_pairing, is_producer, rounds, total, nthreads, ops_total,
  TrialReach,
}
use lock_free_mpmc_queue.Bench.Trials.Counts.{puts, gets, puts_at, gets_at, Local}
use lock_free_mpmc_queue.Bench.Trials.Supply.{Fits, quota, supply, sum-quota, supply-total}
use lock_free_mpmc_queue.Bench.Trials.Invariant.{
  TrialInv, LocalOf, puts-le-supply, TrialReach-TrialInv,
}

abbrev pub enq_samples : Participant → ℕ
enq_samples w = length w.enq_ns

abbrev pub deq_samples : Participant → ℕ
deq_samples w = length w.deq_ns

-- What a trial leaves in the queue.
abbrev pub left_over : Trial → ℕ
left_over (enq n ops) = n * ops
left_over _ = 0

finished-counts :
    (k : Trial) (t : ℕ) (w : Participant)
    → w.at ≡ finished
    → LocalOf k t w
    → (puts w ≡ enq_samples w)
      × (gets w ≡ deq_samples w)
      × (quota k t ≤ enq_samples w)
      × (is_producer k t ≡ true → deq_samples w ≡ (if is_pairing k then rounds k else 0))
finished-counts k t w f l =
    let at : Local (is_pairing k) (is_producer k t) (rounds k) (length w.enq_ns) (length w.deq_ns)
        finished =
      subst (Local (is_pairing k) (is_producer k t) (rounds k) (length w.enq_ns) (length w.deq_ns))
        f l in
    (rw f refl, rw f refl, ground arith, ground arith)

module _ (k : Trial) (fits : Fits k) {s : TrialState} (r : TrialReach k s)
    (done : (t : ℕ) → t < nthreads k → (s.worker t).at ≡ finished) where
  inv : TrialInv k s
  inv = TrialReach-TrialInv k fits r

  counts :
      (t : ℕ) (lt : t < nthreads k)
      → (puts (s.worker t) ≡ enq_samples (s.worker t))
        × (gets (s.worker t) ≡ deq_samples (s.worker t))
        × (quota k t ≤ enq_samples (s.worker t))
        × (is_producer k t ≡ true
            → deq_samples (s.worker t) ≡ (if is_pairing k then rounds k else 0))
  counts t lt = finished-counts k t (s.worker t) (done t lt) (inv.locals t lt)

  enq_sum : sum_below enq_samples s.worker (nthreads k) ≡ supply k
  enq_sum =
      let n = nthreads k in
      omega (
        arith,
        sum_below_mono enq_samples s.worker puts s.worker n
            (λ t lt. omega (arith, (counts t lt).0)),
        sum_below_mono (quota k) (λ t. t) enq_samples s.worker n (λ t lt. (counts t lt).2),
        sum-quota k fits,
        puts-le-supply k s fits inv,
      )

  sums :
      (sum_below puts s.worker (nthreads k) ≡ sum_below enq_samples s.worker (nthreads k))
      × (sum_below gets s.worker (nthreads k) ≡ sum_below deq_samples s.worker (nthreads k))
  sums =
      let n = nthreads k in
      omega (
        arith,
        sum_below_mono enq_samples s.worker puts s.worker n
            (λ t lt. omega (arith, (counts t lt).0)),
        sum_below_mono puts s.worker enq_samples s.worker n
            (λ t lt. omega (arith, (counts t lt).0)),
        sum_below_mono deq_samples s.worker gets s.worker n
            (λ t lt. omega (arith, (counts t lt).1)),
        sum_below_mono gets s.worker deq_samples s.worker n
            (λ t lt. omega (arith, (counts t lt).1)),
      )

  -- A consumer that has finished has seen the total.
  deq_sum_consumer :
      (t : ℕ)
      → t < nthreads k
      → is_producer k t ≡ false
      → is_pairing k ≡ false
      → (sum_below deq_samples s.worker (nthreads k) ≡ total k) × (length s.common.queue ≡ 0)
  deq_sum_consumer t lt c g =
      let ended = inv.ended t lt c (done t lt) in
      omega (arith, ended, inv.used g, inv.flow, sums, enq_sum, supply-total k t fits c)

  deq_sum_producers :
      ((t : ℕ) → is_producer k t ≡ true)
      → sum_below deq_samples s.worker (nthreads k)
        ≡ nthreads k * (if is_pairing k then rounds k else 0)
  deq_sum_producers all =
      let n = nthreads k in
      let each : ℕ = if is_pairing k then rounds k else 0 in
      omega (
        arith,
        sum_below_mono deq_samples s.worker (λ t. each) (λ t. t) n
            (λ t lt. omega (arith, (counts t lt).3 (all t))),
        sum_below_mono (λ t. each) (λ t. t) deq_samples s.worker n
            (λ t lt. omega (arith, (counts t lt).3 (all t))),
        sum_below_same (λ t. t) each n,
      )

-- When all workers of a trial have finished, whose numbers do not wrap and which has a consumer if
-- there is something to take, the samples of enqueues and dequeues are together as many as
-- r.ops_total says, and the queue is empty but for what run_enq_trial has put in.
pub samples-ops_total :
    (k : Trial) {s : TrialState}
    → Fits k
    → TrialReach k s
    → ((t : ℕ) → t < nthreads k → (s.worker t).at ≡ finished)
    → (sum_below enq_samples s.worker (nthreads k) + sum_below deq_samples s.worker (nthreads k)
        ≡ ops_total k)
      × (length s.common.queue ≡ left_over k)
unfolding ops_total
samples-ops_total (pairs n ops) {s} fits r done =
    let deqs = deq_sum_producers (pairs n ops) fits r done (λ t. refl) in
    omega (
      arith,
      enq_sum (pairs n ops) fits r done,
      deqs,
      sums (pairs n ops) fits r done,
      (inv (pairs n ops) fits r done).flow,
    )
samples-ops_total (pc p c ops) {s} fits r done =
    let deqs =
      deq_sum_consumer (pc p c ops) fits r done p (omega (arith, fits.0, fits.1)) (ground arith)
        refl in
    omega (arith, enq_sum (pc p c ops) fits r done, deqs, fits.2)
samples-ops_total (enq n ops) {s} fits r done =
    let deqs = deq_sum_producers (enq n ops) fits r done (λ t. refl) in
    omega (
      arith,
      enq_sum (enq n ops) fits r done,
      deqs,
      sums (enq n ops) fits r done,
      (inv (enq n ops) fits r done).flow,
    )
samples-ops_total (deq n ops) {s} fits r done =
    let deqs = deq_sum_consumer (deq n ops) fits r done 0 (omega (arith, fits.0)) refl refl in
    omega (arith, enq_sum (deq n ops) fits r done, deqs)

gets-le-puts :
    (k : Trial) (t : ℕ) (w : Participant) (at : RoundPc)
    → is_pairing k ≡ true
    → is_producer k t ≡ true
    → Local (is_pairing k) (is_producer k t) (rounds k) (length w.enq_ns) (length w.deq_ns) at
    → gets_at at (length w.deq_ns) ≤ puts_at at (length w.enq_ns)
gets-le-puts k t w (produce i) g b l = ground arith
gets-le-puts k t w (put i t0) g b l = ground arith
gets-le-puts k t w (stamp_put i t0) g b l = ground arith
gets-le-puts k t w (grab i t1) g b l = ground arith
gets-le-puts k t w (stamp_grab i t1) g b l = ground arith
gets-le-puts k t w finished g b l = ground arith
gets-le-puts k t w consume g b l = cc
gets-le-puts k t w (check t0) g b l = cc
gets-le-puts k t w (take t0) g b l = cc
gets-le-puts k t w (add t0) g b l = cc
gets-le-puts k t w (stamp_take t0) g b l = cc

-- In run_pairs_trial, whose numbers do not wrap, the queue is not empty where a worker tries to
-- dequeue: its first try succeeds.
pub pairs_never_retry :
    (n ops : ℕ) {s : TrialState}
    → Fits (pairs n ops)
    → TrialReach (pairs n ops) s
    → (t i t1 : ℕ) → t < n
    → (s.worker t).at ≡ grab i t1
    → 0 < length s.common.queue
pairs_never_retry n ops {s} fits r t i t1 lt e =
    let k : Trial = pairs n ops in
    let inv = TrialReach-TrialInv k fits r in
    let grabs : Local true true ops (length (s.worker t).enq_ns) (length (s.worker t).deq_ns)
        (grab i t1) =
      subst (Local true true ops (length (s.worker t).enq_ns) (length (s.worker t).deq_ns)) e
        (inv.locals t lt) in
    let less : gets (s.worker t) < puts (s.worker t) = rw e (omega (arith, grabs)) in
    omega (
      arith,
      inv.flow,
      sum_below_strict gets s.worker puts s.worker n t
          (λ j ltj. gets-le-puts k j (s.worker j) (s.worker j).at refl refl (inv.locals j ltj)) lt
          less,
    )
