-- ===== src/Bench/Trials/Counts.antt =====
-- What the counters and samples of a trial say of each other (bench/bench_main.cpp).
use lock_free_mpmc_queue.Base.{
  ℕ, ◌+◌, ◌^◌, ◌≤◌, ◌<◌, ◌≡◌, refl, Bool, true, false, [], ◌∷◌, if◌then◌else◌, length,
  length-append, arith,
}
use lock_free_mpmc_queue.Bench.Suite.{Trial}
use lock_free_mpmc_queue.Bench.Trials.{
  RoundPc, produce, put, stamp_put, grab, stamp_grab, consume, check, take, add, stamp_take,
  finished, Participant, Common, is_pairing, rounds, total, is_producer, round_step, value_of,
  sub64,
}

-- What a worker has put in the queue and taken out of it, from its place and its samples.
abbrev pub puts_at : RoundPc → ℕ → ℕ
puts_at (stamp_put i t) e = e + 1
puts_at _ e = e

abbrev pub gets_at : RoundPc → ℕ → ℕ
gets_at (stamp_grab i t) d = d + 1
gets_at (add t) d = d + 1
gets_at (stamp_take t) d = d + 1
gets_at _ d = d

abbrev pub puts : Participant → ℕ
puts w = puts_at w.at (length w.enq_ns)

abbrev pub gets : Participant → ℕ
gets w = gets_at w.at (length w.deq_ns)

abbrev pub adds_at : RoundPc → ℕ
adds_at (add t) = 1
adds_at _ = 0

abbrev pub adds : Participant → ℕ
adds w = adds_at w.at

-- The samples of a producer or consumer where it stands: `e` of enqueues, `d` of dequeues.
abbrev pub Local : (pairing producer : Bool) (ops e d : ℕ) → RoundPc → Type 0
Local g b ops e d (produce i) = (b ≡ true) × (i ≤ ops) × (e ≡ i) × (d ≡ (if g then i else 0))
Local g b ops e d (put i t) = (b ≡ true) × (i < ops) × (e ≡ i) × (d ≡ (if g then i else 0))
Local g b ops e d (stamp_put i t) = (b ≡ true) × (i < ops) × (e ≡ i) × (d ≡ (if g then i else 0))
Local g b ops e d (grab i t) = (g ≡ true) × (b ≡ true) × (i < ops) × (e ≡ i + 1) × (d ≡ i)
Local g b ops e d (stamp_grab i t) = (g ≡ true) × (b ≡ true) × (i < ops) × (e ≡ i + 1) × (d ≡ i)
Local g b ops e d finished =
    (b ≡ true → (e ≡ ops) × (d ≡ (if g then ops else 0))) × (b ≡ false → e ≡ 0)
Local g b ops e d _ = (b ≡ false) × (e ≡ 0)

module _ (k : Trial) (t now : ℕ) (m : Common) (w : Participant) where
  -- A step moves values between the workers and the queue, and loses none.
  pub step-flow :
      (at : RoundPc)
      → length (round_step k t now m w at).common.queue
          + gets (round_step k t now m w at).worker
          + puts_at at (length w.enq_ns)
        ≡ length m.queue + gets_at at (length w.deq_ns) + puts (round_step k t now m w at).worker
  unfolding round_step
  step-flow (produce i) = ground arith
  step-flow (put i t0) = ground (arith, length-append {0} m.queue (value_of t i ∷ []))
  step-flow (stamp_put i t0) = ground (arith, length-append {0} w.enq_ns (sub64 now t0 ∷ []))
  step-flow (grab i t1) = ground arith
  step-flow (stamp_grab i t1) = ground (arith, length-append {0} w.deq_ns (sub64 now t1 ∷ []))
  step-flow consume = ground arith
  step-flow (check t0) = ground arith
  step-flow (take t0) = ground arith
  step-flow (add t0) = ground arith
  step-flow (stamp_take t0) = ground (arith, length-append {0} w.deq_ns (sub64 now t0 ∷ []))
  step-flow finished = ground arith

  -- The counter counts what the consumers have taken.
  pub step-used :
      (at : RoundPc)
      → (0 < adds_at at → m.consumed + 1 < 2 ^ 64)
      → is_pairing k ≡ false
      → Local (is_pairing k) (is_producer k t) (rounds k) (length w.enq_ns) (length w.deq_ns) at
      → (round_step k t now m w at).common.consumed
          + adds (round_step k t now m w at).worker
          + gets_at at (length w.deq_ns)
        ≡ m.consumed + adds_at at + gets (round_step k t now m w at).worker
  unfolding round_step
  step-used (produce i) small g l = ground arith
  step-used (put i t0) small g l = ground arith
  step-used (stamp_put i t0) small g l = ground arith
  step-used (grab i t1) small g l = cc
  step-used (stamp_grab i t1) small g l = cc
  step-used consume small g l = ground arith
  step-used (check t0) small g l = ground arith
  step-used (take t0) small g l = ground arith
  step-used (add t0) small g l = ground (arith, small (omega arith))
  step-used (stamp_take t0) small g l =
      ground (arith, length-append {0} w.deq_ns (sub64 now t0 ∷ []))
  step-used finished small g l = ground arith

  pub step-Local :
      (at : RoundPc)
      → Local (is_pairing k) (is_producer k t) (rounds k) (length w.enq_ns) (length w.deq_ns) at
      → Local
          (is_pairing k)
          (is_producer k t)
          (rounds k)
          (length (round_step k t now m w at).worker.enq_ns)
          (length (round_step k t now m w at).worker.deq_ns)
          (round_step k t now m w at).worker.at
  unfolding round_step
  step-Local (produce i) l = ground arith
  step-Local (put i t0) l = l
  step-Local (stamp_put i t0) l = ground (arith, length-append {0} w.enq_ns (sub64 now t0 ∷ []))
  step-Local (grab i t1) l = ground arith
  step-Local (stamp_grab i t1) l = ground (arith, length-append {0} w.deq_ns (sub64 now t1 ∷ []))
  step-Local consume l = l
  step-Local (check t0) l = ground arith
  step-Local (take t0) l = ground arith
  step-Local (add t0) l = l
  step-Local (stamp_take t0) l = l
  step-Local finished l = l

  pub step-consumed :
      (at : RoundPc)
      → (0 < adds_at at → m.consumed + 1 < 2 ^ 64)
      → m.consumed ≤ (round_step k t now m w at).common.consumed
  unfolding round_step
  step-consumed (produce i) small = omega arith
  step-consumed (put i t0) small = omega arith
  step-consumed (stamp_put i t0) small = omega arith
  step-consumed (grab i t1) small = ground arith
  step-consumed (stamp_grab i t1) small = omega arith
  step-consumed consume small = omega arith
  step-consumed (check t0) small = omega arith
  step-consumed (take t0) small = ground arith
  step-consumed (add t0) small = omega (arith, small (omega arith))
  step-consumed (stamp_take t0) small = omega arith
  step-consumed finished small = omega arith

  -- A consumer finishes when the counter has reached the total.
  pub step-finished :
      (at : RoundPc)
      → Local (is_pairing k) (is_producer k t) (rounds k) (length w.enq_ns) (length w.deq_ns) at
      → is_producer k t ≡ false
      → (at ≡ finished → total k ≤ m.consumed)
      → (round_step k t now m w at).worker.at ≡ finished
      → total k ≤ (round_step k t now m w at).common.consumed
  unfolding round_step
  step-finished (produce i) l c before e = cc
  step-finished (put i t0) l c before e = cc
  step-finished (stamp_put i t0) l c before e = cc
  step-finished (grab i t1) l c before e = cc
  step-finished (stamp_grab i t1) l c before e = cc
  step-finished consume l c before e = cc
  step-finished (check t0) l c before e = ground arith
  step-finished (take t0) l c before e = ground arith
  step-finished (add t0) l c before e = cc
  step-finished (stamp_take t0) l c before e = cc
  step-finished finished l c before e = before refl
