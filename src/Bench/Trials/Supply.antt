-- ===== src/Bench/Trials/Supply.antt =====
-- What the workers of a trial enqueue and take together (bench/bench_main.cpp).
use lock_free_mpmc_queue.Base.{
  ℕ, zero, suc, ◌+◌, ◌*◌, ◌%◌, ◌^◌, ◌≤◌, ◌<◌, ◌≡◌, refl, false, if◌then◌else◌, length, arith,
  sum_below, sum_below_first, sum_below_same, sum_below-zero,
}
use lock_free_mpmc_queue.Bench.Suite.{Trial, pairs, pc, enq, deq}
use lock_free_mpmc_queue.Bench.Trials.{
  RoundPc, produce, put, stamp_put, grab, stamp_grab, consume, check, take, add, stamp_take,
  finished, is_pairing, rounds, total, nthreads, is_producer, prefill, prefilled,
}
use lock_free_mpmc_queue.Bench.Trials.Counts.{puts_at, Local}

-- The numbers of a trial do not wrap, and there is a consumer for what is to be taken.
abbrev pub Fits : Trial → Type 0
Fits (pairs n ops) = n * ops * 2 < 2 ^ 64
Fits (pc p c ops) = (p + c < 2 ^ 32) × (0 < c) × (p * ops * 2 < 2 ^ 64)
Fits (enq n ops) = n * ops < 2 ^ 64
Fits (deq n ops) = (0 < n) × (n * ops < 2 ^ 64)

pub length-prefill : (v left : ℕ) → length (prefill v left) ≡ left
unfolding prefill
length-prefill v zero = refl
length-prefill v (suc left) = omega (arith, length-prefill (v + 1) left)

-- What worker `t` enqueues, and what all do.
abbrev pub quota : Trial → ℕ → ℕ
quota k t = if is_producer k t then rounds k else 0

abbrev pub supply : Trial → ℕ
supply (pairs n ops) = n * ops
supply (pc p c ops) = p * ops
supply (enq n ops) = n * ops
supply (deq n ops) = 0

pub sum-quota : (k : Trial) → Fits k → sum_below (quota k) (λ t. t) (nthreads k) ≡ supply k
sum-quota (pairs n ops) h = sum_below_same (λ t. t) ops n
sum-quota (pc p c ops) h =
    let n : (p + c) % 2 ^ 32 ≡ p + c = omega (arith, h.0) in
    rw n (sum_below_first p ops (p + c) (omega arith))
sum-quota (enq n ops) h = sum_below_same (λ t. t) ops n
sum-quota (deq n ops) h = sum_below-zero (λ t. 0) (λ t. t) n (λ t. refl)

-- Where there are consumers, they take all that there is.
pub supply-total :
    (k : Trial) (t : ℕ)
    → Fits k
    → is_producer k t ≡ false
    → length (prefilled k) + supply k ≡ total k
supply-total (pairs n ops) t h c = cc
supply-total (pc p c ops) t h e = omega (arith, h.2)
supply-total (enq n ops) t h c = cc
supply-total (deq n ops) t h c = omega (arith, length-prefill 0 (n * ops % 2 ^ 64))

pub puts-le-quota :
    (k : Trial) (t e d : ℕ) (at : RoundPc)
    → Local (is_pairing k) (is_producer k t) (rounds k) e d at
    → puts_at at e ≤ quota k t
puts-le-quota k t e d (produce i) l = ground arith
puts-le-quota k t e d (put i t0) l = ground arith
puts-le-quota k t e d (stamp_put i t0) l = ground arith
puts-le-quota k t e d (grab i t1) l = ground arith
puts-le-quota k t e d (stamp_grab i t1) l = ground arith
puts-le-quota k t e d finished l = ground arith
puts-le-quota k t e d consume l = ground arith
puts-le-quota k t e d (check t0) l = ground arith
puts-le-quota k t e d (take t0) l = ground arith
puts-le-quota k t e d (add t0) l = ground arith
puts-le-quota k t e d (stamp_take t0) l = ground arith
