-- ===== src/Mutex/Schedule.antt =====
-- Runs of mutex_queue (include/lfq/mutex_queue.hpp) by evaluation.
use lock_free_mpmc_queue.Base.{ℕ, ◌≡◌, ◌≢◌, some, List, [], ◌∷◌, refl, arith}
use lock_free_mpmc_queue.Machine.State.{
  Label, calls_enqueue, calls_dequeue, returns, enqueued, dequeued,
}
use lock_free_mpmc_queue.Machine.System.{Runs}
use lock_free_mpmc_queue.Mutex.Queue.{
  Wish, go, enqueue, dequeue, fault, LockedSystem, locked_step, LockedReach, start, later,
}
use lock_free_mpmc_queue.Mutex.Linear.{locked_ops, locked_linearizable, never_faults}

record LockedRun : Type 0 where
  history : List (ℕ × Label ℕ)
  last : LockedSystem ℕ
  reach : LockedReach 3 history last

zeroth : LockedRun → Wish ℕ → LockedRun
zeroth r c = record { history = _; last = _; reach = later r.reach 0 c (omega arith) }

first : LockedRun → Wish ℕ → LockedRun
first r c = record { history = _; last = _; reach = later r.reach 1 c (omega arith) }

-- Thread 1 calls try_dequeue while thread 0 has the mutex, waits, and takes the value; then it
-- locks the mutex again, and finds nothing.
abbrev waits : LockedRun
unfolding zeroth first locked_step
waits =
    let r : LockedRun = record { history = []; last = _; reach = start } in
    let a = zeroth (zeroth (first (zeroth r (enqueue 7)) dequeue) go) go in
    let b = first (zeroth (zeroth (first a go) go) go) go in
    let c = first (first (first (first (first b go) go) go) go) go in
    first (first (first c dequeue) go) go

waits_history :
    waits.history
    ≡ (0, calls_enqueue 7)
      ∷ (1, calls_dequeue)
      ∷ (0, returns enqueued)
      ∷ (1, returns (dequeued (some 7)))
      ∷ (1, calls_dequeue)
      ∷ []
unfolding zeroth first locked_step
waits_history = refl

locked_linearizable_example : Runs waits.history waits.last.shared.queue (locked_ops waits.last)
locked_linearizable_example = locked_linearizable 3 waits.reach

never_faults_example : waits.last.pc 1 ≢ fault
never_faults_example = never_faults 3 waits.reach 1 (omega arith)
