-- ===== src/Bench/Schedule.antt =====
-- A run of the barrier (bench/harness.hpp) by evaluation.
use lock_free_mpmc_queue.Base.{◌≡◌, ◌≢◌, refl, arith}
use lock_free_mpmc_queue.Bench.Barrier.{
  BarrierSystem, arriving, running, worker_step, driver_step, BarrierReach, start, works, drives,
}
use lock_free_mpmc_queue.Bench.Release.{leaves_together}

record BarrierRun : Type 0 where
  last : BarrierSystem
  reach : BarrierReach 2 last

worker_0 : BarrierRun → BarrierRun
worker_0 r = record { last = _; reach = works r.reach 0 (omega arith) }

worker_1 : BarrierRun → BarrierRun
worker_1 r = record { last = _; reach = works r.reach 1 (omega arith) }

driver : BarrierRun → BarrierRun
driver r = record { last = _; reach = drives r.reach }

-- The driver looks once too early; worker 0 leaves after the release.
abbrev released : BarrierRun
unfolding worker_0 worker_1 driver worker_step driver_step
released =
    let a : BarrierRun = record { last = _; reach = start } in
    worker_0 (driver (driver (worker_1 (driver (worker_0 (worker_0 a))))))

released_runs : released.last.worker 0 ≡ running
unfolding worker_0 worker_1 driver worker_step driver_step
released_runs = refl

leaves_together_example : released.last.worker 1 ≢ arriving
leaves_together_example =
    leaves_together 2 (omega arith) released.reach 0 1 (omega arith) released_runs
