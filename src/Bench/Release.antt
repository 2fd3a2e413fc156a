-- ===== src/Bench/Release.antt =====
-- No worker of the barrier leaves the start line before all have come to it (bench/harness.hpp).
use lock_free_mpmc_queue.Base.{
  ℕ, zero, suc, ◌+◌, ◌%◌, ◌^◌, ◌≤◌, ◌<◌, ◌≡◌, ◌≢◌, Bool, true, false, Bool-cases, inl, inr,
  if◌then◌else◌, update, refl, sum_below, sum_below-update, sum_below-zero, arith, subst, sym,
}
use lock_free_mpmc_queue.Bench.Barrier.{
  WorkerPc, arriving, spinning, running, DriverPc, waiting, releasing, timing, BarrierSystem,
  worker_step, driver_step, lt_int, barrier_init, BarrierReach, start, works, drives,
}

abbrev pub has_arrived : WorkerPc → ℕ
has_arrived arriving = 0
has_arrived _ = 1

has_arrived-le : (pc : WorkerPc) → has_arrived pc ≤ 1
has_arrived-le arriving = omega arith
has_arrived-le spinning = omega arith
has_arrived-le running = omega arith

flags-le : (f : ℕ → WorkerPc) (n : ℕ) → sum_below has_arrived f n ≤ n
unfolding sum_below
flags-le f zero = omega arith
flags-le f (suc n) = omega (arith, has_arrived-le (f n), flags-le f n)

-- If as many have arrived as there are workers, each has.
pub all_arrived :
    (f : ℕ → WorkerPc) (n : ℕ) → n ≤ sum_below has_arrived f n → (j : ℕ) → j < n → f j ≢ arriving
all_arrived f n full j lt e =
    let without = sum_below-update has_arrived f j spinning n lt in
    let small = flags-le (update f j spinning) n in
    let none : has_arrived (f j) ≡ 0 = rw e refl in omega (arith, without, small, none)

abbrev pub Passed : ℕ → DriverPc → Bool → ℕ → Type 0
Passed n waiting go k = go ≡ false
Passed n releasing go k = (go ≡ false) × (n ≤ k)
Passed n timing go k = n ≤ k

pub record InvOf (n : ℕ) (s : BarrierSystem) : Type 0 where
  pub counts : s.barrier.arrived ≡ sum_below has_arrived s.worker n
  pub passed : Passed n s.driver s.barrier.released s.barrier.arrived
  pub runs : (j : ℕ) → s.worker j ≡ running → s.barrier.released ≡ true

Passed-grows :
    (n : ℕ) (d : DriverPc) (go : Bool) (k l : ℕ) → k ≤ l → Passed n d go k → Passed n d go l
Passed-grows n waiting go k l le h = h
Passed-grows n releasing go k l le h = (h.0, omega (arith, h.1))
Passed-grows n timing go k l le h = omega (arith, h)

-- `running` only where the worker that moves has seen go_.
moves-runs :
    (s : BarrierSystem) (i : ℕ) (pc : WorkerPc)
    → ((j : ℕ) → s.worker j ≡ running → s.barrier.released ≡ true)
    → (pc ≡ running → s.barrier.released ≡ true)
    → (j : ℕ) → update s.worker i pc j ≡ running
    → s.barrier.released ≡ true
moves-runs s i pc h own j = ground (arith, h j, own)

-- A worker that has arrived goes on.
waits-Inv :
    (n i : ℕ) (s : BarrierSystem) (pc : WorkerPc)
    → i < n
    → has_arrived (s.worker i) ≡ 1
    → has_arrived pc ≡ 1
    → (pc ≡ running → s.barrier.released ≡ true)
    → InvOf n s
    → InvOf n (record s { worker = update s.worker i pc })
waits-Inv n i s pc lt was is own h = record {
  counts = omega (arith, sum_below-update has_arrived s.worker i pc n lt, was, is, h.counts);
  passed = h.passed;
  runs = moves-runs s i pc h.runs own;
}

worker-Inv :
    (n i : ℕ) (s : BarrierSystem) (pc : WorkerPc)
    → n < 2 ^ 31
    → i < n
    → s.worker i ≡ pc
    → InvOf n s
    → InvOf n (worker_step i s pc)
unfolding worker_step
worker-Inv n i s arriving small lt e h =
    let sum = sum_below-update has_arrived s.worker i spinning n lt in
    let le = flags-le (update s.worker i spinning) n in
    let was : has_arrived (s.worker i) ≡ 0 = rw e refl in
    record {
      counts = omega (arith, sum, le, was, h.counts);
      passed =
          Passed-grows n s.driver s.barrier.released s.barrier.arrived
            ((s.barrier.arrived + 1) % 2 ^ 32) (omega (arith, sum, le, was, h.counts)) h.passed;
      runs = moves-runs s i spinning h.runs (λ x. cc);
    }
worker-Inv n i s spinning small lt e h = elim (Bool-cases s.barrier.released) [
  | inl g ↦
      let same : (if s.barrier.released then running else spinning) ≡ running = rw g refl in
      rw same (waits-Inv n i s running lt (rw e refl) refl (λ x. g) h)
  | inr g ↦
      let same : (if s.barrier.released then running else spinning) ≡ spinning = rw g refl in
      rw same (waits-Inv n i s spinning lt (rw e refl) refl (λ x. cc) h)
]
worker-Inv n i s running small lt e h =
    waits-Inv n i s running lt (rw e refl) refl (λ x. h.runs i e) h

driver-Inv :
    (n : ℕ) (s : BarrierSystem) (d : DriverPc)
    → n < 2 ^ 31
    → s.driver ≡ d
    → InvOf n s
    → InvOf n (driver_step n s d)
unfolding driver_step
driver-Inv n s waiting small e h =
    let passed : Passed n waiting s.barrier.released s.barrier.arrived =
      subst (λ d. Passed n d s.barrier.released s.barrier.arrived) e h.passed in
    let le = flags-le s.worker n in
    elim (Bool-cases (lt_int s.barrier.arrived (n % 2 ^ 32))) [
      | inl g ↦ rw g (record { counts = h.counts; passed = passed; runs = h.runs })
      | inr g ↦ rw g (record {
        counts = h.counts;
        passed = (passed, ground (arith, g, le, h.counts, small));
        runs = h.runs;
      })
    ]
driver-Inv n s releasing small e h =
    let passed : Passed n releasing s.barrier.released s.barrier.arrived =
      subst (λ d. Passed n d s.barrier.released s.barrier.arrived) e h.passed in
    record { counts = h.counts; passed = passed.1; runs = λ j r. refl }
driver-Inv n s timing small e h =
    let passed : Passed n timing s.barrier.released s.barrier.arrived =
      subst (λ d. Passed n d s.barrier.released s.barrier.arrived) e h.passed in
    record { counts = h.counts; passed = passed; runs = h.runs }

pub BarrierReach-Inv : (n : ℕ) {s : BarrierSystem} → n < 2 ^ 31 → BarrierReach n s → InvOf n s
BarrierReach-Inv n small start = record {
  counts = sym (sum_below-zero has_arrived barrier_init.worker n (λ _. refl));
  passed = refl;
  runs = λ j e. cc;
}
BarrierReach-Inv n small (works {s} r i lt) =
    worker-Inv n i s (s.worker i) small lt refl (BarrierReach-Inv n small r)
BarrierReach-Inv n small (drives {s} r) =
    driver-Inv n s s.driver small refl (BarrierReach-Inv n small r)

released-full : (n : ℕ) (d : DriverPc) (go : Bool) (k : ℕ) → Passed n d go k → go ≡ true → n ≤ k
released-full n waiting go k h e = cc
released-full n releasing go k h e = h.1
released-full n timing go k h e = h

-- With fewer than 2 ^ 31 workers, a worker of the barrier leaves the start line only when all the
-- workers have come to it.
pub leaves_together :
    (n : ℕ) {s : BarrierSystem}
    → n < 2 ^ 31
    → BarrierReach n s
    → (i j : ℕ) → j < n
    → s.worker i ≡ running
    → s.worker j ≢ arriving
leaves_together n {s} small r i j lt e =
    let inv = BarrierReach-Inv n small r in
    let full =
      released-full n s.driver s.barrier.released s.barrier.arrived inv.passed (inv.runs i e) in
    all_arrived s.worker n (omega (arith, full, inv.counts)) j lt
