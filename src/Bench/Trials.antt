-- ===== src/Bench/Trials.antt =====
-- The four trials of the benchmark (run_threads, run_pairs_trial, run_pc_trial, run_enq_trial and
-- run_deq_trial of bench/bench_main.cpp). The queue is one that meets the specification of
-- Machine.Spec, so each of its operations is one step here.
use Prim.Native.Nat.{bit_or}
use lock_free_mpmc_queue.Base.{
  ℕ, zero, suc, ◌+◌, ◌-◌, ◌*◌, ◌%◌, ◌^◌, ◌<◌, Bool, true, false, List, [], ◌∷◌, ◌++◌, ltb,
  if◌then◌else◌, update,
}
use lock_free_mpmc_queue.Bench.Suite.{Trial, pairs, pc, enq, deq}
pub mod Counts
pub mod Supply
pub mod Invariant
pub mod Drained

-- Where a worker stands in the body of its trial: `i` counts its rounds, `t` is the last value that
-- it read from the clock.
pub data RoundPc : Type 0 where
  produce : (i : ℕ) → RoundPc
  put : (i t : ℕ) → RoundPc
  stamp_put : (i t : ℕ) → RoundPc
  grab : (i t : ℕ) → RoundPc
  stamp_grab : (i t : ℕ) → RoundPc
  consume : RoundPc
  check : (t : ℕ) → RoundPc
  take : (t : ℕ) → RoundPc
  add : (t : ℕ) → RoundPc
  stamp_take : (t : ℕ) → RoundPc
  finished : RoundPc

-- worker_out, and the place of the worker.
pub record Participant : Type 0 where
  pub at : RoundPc
  pub enq_ns : List ℕ
  pub deq_ns : List ℕ

-- The variables that the workers share.
pub record Common : Type 0 where
  pub queue : List ℕ
  pub consumed : ℕ

pub record TrialState : Type 0 where
  pub common : Common
  pub worker : ℕ → Participant

pub record Moved : Type 0 where
  pub common : Common
  pub worker : Participant

abbrev pub sub64 : ℕ → ℕ → ℕ
sub64 a b = (a + 2 ^ 64 - b) % 2 ^ 64

-- The value of round `i` of worker `t`.
abbrev pub value_of : ℕ → ℕ → ℕ
value_of t i = bit_or (t * 2 ^ 32 % 2 ^ 64) i

-- Whether the workers of a trial dequeue after each enqueue; their rounds; what the consumers take
-- together; the number of threads.
abbrev pub is_pairing : Trial → Bool
is_pairing (pairs n ops) = true
is_pairing _ = false

abbrev pub rounds : Trial → ℕ
rounds (pairs n ops) = ops
rounds (pc p c ops) = ops
rounds (enq n ops) = ops
rounds (deq n ops) = ops

abbrev pub total : Trial → ℕ
total (pairs n ops) = 0
total (pc p c ops) = p * ops % 2 ^ 64
total (enq n ops) = 0
total (deq n ops) = n * ops % 2 ^ 64

abbrev pub nthreads : Trial → ℕ
nthreads (pairs n ops) = n
nthreads (pc p c ops) = (p + c) % 2 ^ 32
nthreads (enq n ops) = n
nthreads (deq n ops) = n

-- r.ops_total
unfoldable pub ops_total : Trial → ℕ
ops_total (pairs n ops) = n * ops * 2 % 2 ^ 64
ops_total (pc p c ops) = total (pc p c ops) * 2 % 2 ^ 64
ops_total (enq n ops) = n * ops % 2 ^ 64
ops_total (deq n ops) = total (deq n ops)

abbrev pub is_producer : Trial → ℕ → Bool
is_producer (pairs n ops) t = true
is_producer (pc p c ops) t = ltb t p
is_producer (enq n ops) t = true
is_producer (deq n ops) t = false

-- The values from `v` on that run_deq_trial fills the queue with.
pub prefill : (v left : ℕ) → List ℕ
prefill v zero = []
prefill v (suc left) = v ∷ prefill (v + 1) left

abbrev pub prefilled : Trial → List ℕ
prefilled (deq n ops) = prefill 0 (total (deq n ops))
prefilled _ = []

abbrev pub moves : Common → RoundPc → Participant → Moved
moves m at w = record { common = m; worker = record w { at = at } }

abbrev pub pops : Common → List ℕ → (empty got : RoundPc) → Participant → Moved
pops m [] empty got w = moves m empty w
pops m (v ∷ q) empty got w = moves (record m { queue = q }) got w

-- One step of worker `t`, which reads `now` if it looks at the clock.
unfoldable pub round_step : Trial → (t now : ℕ) → Common → Participant → RoundPc → Moved
round_step k t now m w (produce i) = moves m (if ltb i (rounds k) then put i now else finished) w
round_step k t now m w (put i t0) =
    moves (record m { queue = m.queue ++ value_of t i ∷ [] }) (stamp_put i t0) w
round_step k t now m w (stamp_put i t0) =
    moves m (if is_pairing k then grab i now else produce (i + 1))
      (record w { enq_ns = w.enq_ns ++ sub64 now t0 ∷ [] })
round_step k t now m w (grab i t1) = pops m m.queue (grab i t1) (stamp_grab i t1) w
round_step k t now m w (stamp_grab i t1) =
    moves m (produce (i + 1)) (record w { deq_ns = w.deq_ns ++ sub64 now t1 ∷ [] })
round_step k t now m w consume = moves m (check now) w
round_step k t now m w (check t0) =
    moves m (if ltb m.consumed (total k) then take t0 else finished) w
round_step k t now m w (take t0) = pops m m.queue (check t0) (add t0) w
round_step k t now m w (add t0) =
    moves (record m { consumed = (m.consumed + 1) % 2 ^ 64 }) (stamp_take t0) w
round_step k t now m w (stamp_take t0) =
    moves m consume (record w { deq_ns = w.deq_ns ++ sub64 now t0 ∷ [] })
round_step k t now m w finished = moves m finished w

abbrev pub trial_advance : Trial → (t now : ℕ) → TrialState → TrialState
trial_advance k t now s =
    let a = round_step k t now s.common (s.worker t) (s.worker t).at in
    record { common = a.common; worker = update s.worker t a.worker }

abbrev pub trial_init : Trial → TrialState
trial_init k = record {
  common = record { queue = prefilled k; consumed = 0 };
  worker =
      λ t. record { at = if is_producer k t then produce 0 else consume; enq_ns = []; deq_ns = [] };
}

-- What the workers of a trial can reach, in any order and with any clock.
pub data TrialReach (k : Trial) : TrialState → Type 0 where
  start : TrialReach k (trial_init k)
  later :
      {s : TrialState}
      → TrialReach k s
      → (t now : ℕ) → t < nthreads k
      → TrialReach k (trial_advance k t now s)
