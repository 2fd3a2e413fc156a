-- ===== src/Bench/Barrier.antt =====
-- spin_barrier (bench/harness.hpp): workers and a driver, an access at a time, in any order.
use lock_free_mpmc_queue.Base.{ℕ, ◌+◌, ◌%◌, ◌^◌, ◌<◌, Bool, true, false, ltb, if◌then◌else◌, update}

-- arrived_ is an int, kept here as its 32 bits.
pub record Barrier : Type 0 where
  pub arrived : ℕ
  pub released : Bool  -- go_

pub data WorkerPc : Type 0 where
  arriving : WorkerPc
  spinning : WorkerPc
  running : WorkerPc

pub data DriverPc : Type 0 where
  waiting : DriverPc
  releasing : DriverPc
  timing : DriverPc

pub record BarrierSystem : Type 0 where
  pub barrier : Barrier
  pub driver : DriverPc
  pub worker : ℕ → WorkerPc

-- The order of int on 32 bits in two's complement.
abbrev pub lt_int : ℕ → ℕ → Bool
lt_int a b = ltb ((a + 2 ^ 31) % 2 ^ 32) ((b + 2 ^ 31) % 2 ^ 32)

-- worker_arrive_and_wait by worker `i`.
unfoldable pub worker_step : ℕ → BarrierSystem → WorkerPc → BarrierSystem
worker_step i s arriving = record s {
  barrier = record { arrived = (s.barrier.arrived + 1) % 2 ^ 32; released = s.barrier.released };
  worker = update s.worker i spinning;
}
worker_step i s spinning = record s {
  worker = update s.worker i (if s.barrier.released then running else spinning);
}
worker_step i s running = record s { worker = update s.worker i running }

-- driver_wait_for of `n` workers, and driver_release.
unfoldable pub driver_step : ℕ → BarrierSystem → DriverPc → BarrierSystem
driver_step n s waiting = record s {
  driver = if lt_int s.barrier.arrived (n % 2 ^ 32) then waiting else releasing;
}
driver_step n s releasing = record s {
  barrier = record { arrived = s.barrier.arrived; released = true };
  driver = timing;
}
driver_step n s timing = record s { driver = timing }

abbrev pub barrier_init : BarrierSystem
barrier_init = record {
  barrier = record { arrived = 0; released = false };
  driver = waiting;
  worker = λ _. arriving;
}

-- What `n` workers and the driver can reach.
pub data BarrierReach (n : ℕ) : BarrierSystem → Type 0 where
  start : BarrierReach n barrier_init
  works :
      {s : BarrierSystem}
      → BarrierReach n s
      → (i : ℕ) → i < n
      → BarrierReach n (worker_step i s (s.worker i))
  drives : {s : BarrierSystem} → BarrierReach n s → BarrierReach n (driver_step n s s.driver)
