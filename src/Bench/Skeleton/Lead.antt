-- ===== src/Bench/Skeleton/Lead.antt =====
-- What a step of run_threads itself keeps (bench/bench_main.cpp).
use lock_free_mpmc_queue.Base.{ℕ, ◌^◌, ◌≤◌, ◌<◌, ◌≡◌, ◌≢◌, Bool, refl, subst}
use lock_free_mpmc_queue.Bench.Barrier.{
  WorkerPc, arriving, spinning, running, DriverPc, waiting, releasing, timing, BarrierSystem,
  BarrierReach, worker_step, driver_step,
}
use lock_free_mpmc_queue.Bench.Barrier
use lock_free_mpmc_queue.Bench.Release.{BarrierReach-Inv, Passed}
use lock_free_mpmc_queue.Bench.Skeleton.{Boss, Skeleton}
use lock_free_mpmc_queue.Bench.Skeleton.Invariant.{stamps_of, AllUpto-mono, Place}
use lock_free_mpmc_queue.Bench.Skeleton.Sound.{Sound}

worker-driver_step :
    (n : ℕ) (l : BarrierSystem) (d : DriverPc) → (driver_step n l d).worker ≡ l.worker
unfolding driver_step
worker-driver_step n l waiting = refl
worker-driver_step n l releasing = refl
worker-driver_step n l timing = refl

-- Nobody is in a body before the release.
pub unreleased :
    (n : ℕ) (l : BarrierSystem) (d : DriverPc)
    → n < 2 ^ 31
    → BarrierReach n l
    → l.driver ≡ d
    → d ≢ timing
    → (i : ℕ) → l.worker i ≢ running
unreleased n l waiting small r e ne i run =
    let inv = BarrierReach-Inv n small r in
    let shut = subst (λ x. Passed n x l.barrier.released l.barrier.arrived) e inv.passed in
    cc (inv.runs i run)
unreleased n l releasing small r e ne i run =
    let inv = BarrierReach-Inv n small r in
    let shut = subst (λ x. Passed n x l.barrier.released l.barrier.arrived) e inv.passed in
    cc (inv.runs i run, shut.0)
unreleased n l timing small r e ne i run = absurd (ne refl)

-- A step of run_threads on the barrier, and where it stands then.
pub drives-Sound :
    (pins : ℕ → Bool) (n : ℕ) (s : Skeleton) (boss : Boss)
    → Sound pins n s
    → Place n boss (driver_step n s.line s.line.driver).driver s.body s.clock
    → Sound pins n (record s { line = driver_step n s.line s.line.driver; boss = boss })
drives-Sound pins n s boss h there =
    let same = worker-driver_step n s.line s.line.driver in
    record {
      line = Barrier.drives h.line;
      place = there;
      upto = h.upto;
      unborn = rw same h.unborn;
      lined = rw same h.lined;
      pinned = h.pinned;
      unpinned = h.unpinned;
    }

-- It goes on, and may read the clock.
pub goes_on-Sound :
    (pins : ℕ → Bool) (n now : ℕ) (s : Skeleton) (boss : Boss)
    → s.clock ≤ now
    → Sound pins n s
    → Place n boss s.line.driver s.body now
    → Sound pins n (record s { boss = boss; clock = now })
goes_on-Sound pins n now s boss le h there = record {
  line = h.line;
  place = there;
  upto = λ i. AllUpto-mono s.clock now (stamps_of (s.body i)) (h.upto i) le;
  unborn = h.unborn;
  lined = h.lined;
  pinned = h.pinned;
  unpinned = h.unpinned;
}
