-- ===== src/Bench/Skeleton.antt =====
-- run_threads (bench/bench_main.cpp): workers on the start line of spin_barrier, the clock about
-- them, and the join.
use lock_free_mpmc_queue.Base.{
  ℕ, ◌+◌, ◌<◌, Bool, true, false, List, [], ◌∷◌, ◌++◌, ltb, ◌==◌, if◌then◌else◌, update,
}
use lock_free_mpmc_queue.Bench.Barrier.{
  WorkerPc, arriving, spinning, running, DriverPc, waiting, releasing, timing, BarrierSystem,
  worker_step, driver_step, barrier_init,
}
pub mod Invariant
pub mod Sound
pub mod Lead
pub mod Timed
mod Runs

-- The body of a worker, with the times that it has read from the clock.
pub data Body : Type 0 where
  inside : (stamps : List ℕ) → Body
  ended : (stamps : List ℕ) → Body

-- Where run_threads stands: it has started `k` workers, is in driver_wait_for, before the first read
-- of the clock, before driver_release, has joined `k` workers, or has read the clock again.
pub data Boss : Type 0 where
  spawning : (k : ℕ) → Boss
  holding : Boss
  clocking : Boss
  freeing : (begin : ℕ) → Boss
  joining : (begin k : ℕ) → Boss
  stopping : (begin : ℕ) → Boss
  finished : (begin stop : ℕ) → Boss

pub record Skeleton : Type 0 where
  pub line : BarrierSystem
  pub all_pinned : Bool
  pub tried : ℕ → Bool  -- whether a worker has called pin_to_core
  pub body : ℕ → Body
  pub boss : Boss
  pub clock : ℕ  -- the last time that was read

-- The environment: the clock has moved on where it is read; a body reads the clock, or it ends.
pub data Beat : Type 0 where
  after : (ns : ℕ) → Beat
  leave : Beat

abbrev pub delay : Beat → ℕ
delay (after ns) = ns
delay leave = 0

-- How many workers have been started.
abbrev pub started : ℕ → Boss → ℕ
started n (spawning k) = k
started n _ = n

abbrev pub works_on : Beat → Skeleton → ℕ → Body → Skeleton
works_on (after ns) s i (inside stamps) = record s {
  body = update s.body i (inside (stamps ++ (s.clock + ns) ∷ []));
  clock = s.clock + ns;
}
works_on leave s i (inside stamps) = record s { body = update s.body i (ended stamps) }
works_on b s i (ended stamps) = s

abbrev pub lines_up : Beat → Skeleton → ℕ → WorkerPc → Skeleton
lines_up b s i running = works_on b s i (s.body i)
lines_up b s i pc = record s { line = worker_step i s.line pc }

-- The thread of worker `i` of `n`, where `pins` is what pin_to_core answers.
unfoldable pub thread_step : (ℕ → Bool) → ℕ → Beat → ℕ → Skeleton → Skeleton
thread_step pins n b i s =
    if ltb i (started n s.boss)
    then (if s.tried i then lines_up b s i (s.line.worker i) else record s {
      tried = update s.tried i true;
      all_pinned = if pins i then s.all_pinned else false;
    })
    else s

abbrev pub has_ended : Body → Bool
has_ended (inside stamps) = false
has_ended (ended stamps) = true

abbrev pub is_waiting : DriverPc → Bool
is_waiting waiting = true
is_waiting _ = false

unfoldable pub boss_step : ℕ → Beat → Skeleton → Boss → Skeleton
boss_step n b s (spawning k) = record s { boss = if k == n then holding else spawning (k + 1) }
boss_step n b s holding =
    let line = driver_step n s.line s.line.driver in
    record s { line = line; boss = if is_waiting line.driver then holding else clocking }
boss_step n b s clocking = record s {
  clock = s.clock + delay b;
  boss = freeing (s.clock + delay b);
}
boss_step n b s (freeing begin) = record s {
  line = driver_step n s.line s.line.driver;
  boss = joining begin 0;
}
boss_step n b s (joining begin k) = record s {
  boss =
      if k == n
      then stopping begin
      else if has_ended (s.body k)
      then joining begin (k + 1)
      else joining begin k;
}
boss_step n b s (stopping begin) = record s {
  clock = s.clock + delay b;
  boss = finished begin (s.clock + delay b);
}
boss_step n b s (finished begin stop) = s

abbrev pub skeleton_init : ℕ → Skeleton
skeleton_init t = record {
  line = barrier_init;
  all_pinned = true;
  tried = λ _. false;
  body = λ _. inside [];
  boss = spawning 0;
  clock = t;
}

-- What run_threads of `n` workers can reach from the time `t`.
pub data SkeletonReach (pins : ℕ → Bool) (n t : ℕ) : Skeleton → Type 0 where
  start : SkeletonReach pins n t (skeleton_init t)
  works :
      {s : Skeleton}
      → SkeletonReach pins n t s
      → (i : ℕ) (b : Beat) → SkeletonReach pins n t (thread_step pins n b i s)
  leads :
      {s : Skeleton}
      → SkeletonReach pins n t s
      → (b : Beat) → SkeletonReach pins n t (boss_step n b s s.boss)
