-- ===== src/Mutex/Queue.antt =====
-- enqueue and try_dequeue of mutex_queue (include/lfq/mutex_queue.hpp), one access to the mutex or to
-- std::queue at a time, by threads in any order. std::queue is the list of its elements, front first.
use lock_free_mpmc_queue.Base.{
  ℕ, ◌<◌, Bool, true, false, none, some, List, [], ◌∷◌, ◌++◌, if◌then◌else◌, update,
}
use lock_free_mpmc_queue.Machine.State.{
  Returned, enqueued, dequeued, Label, silent, calls_enqueue, calls_dequeue, returns,
}
use lock_free_mpmc_queue.Machine.System.{log}

pub record Locked (V : Type 0) : Type 0 where
  pub is_locked : Bool  -- mutex_
  pub queue : List V  -- queue_

-- Where a thread stands. `fault` is front() or pop() of an empty std::queue, which is undefined.
pub data LockedPc (V : Type 0) : Type 0 where
  idle : LockedPc V
  lock_enqueue : V → LockedPc V
  push : V → LockedPc V
  lock_dequeue : LockedPc V
  test_empty : LockedPc V
  read_front : LockedPc V
  pop : V → LockedPc V
  unlock : Returned V → LockedPc V
  returning : Returned V → LockedPc V
  fault : LockedPc V

-- The operation that an idle thread starts.
pub data Wish (V : Type 0) : Type 0 where
  go : Wish V
  enqueue : V → Wish V
  dequeue : Wish V

pub record LockedAct (V : Type 0) : Type 0 where
  pub shared : Locked V
  pub pc : LockedPc V
  pub label : Label V

pub record LockedSystem (V : Type 0) : Type 0 where
  pub shared : Locked V
  pub pc : ℕ → LockedPc V

module _ {V : Type 0} where
  abbrev pub does : Locked V → LockedPc V → Label V → LockedAct V
  does m pc l = record { shared = m; pc = pc; label = l }

  -- The constructor of lock_guard: a thread that finds the mutex locked waits.
  abbrev pub lock : Locked V → (waits goes : LockedPc V) → LockedAct V
  lock m waits goes =
      if m.is_locked then does m waits silent else does (record m { is_locked = true }) goes silent

  -- queue_.front() and queue_.pop()
  abbrev pub front : Locked V → List V → LockedAct V
  front m [] = does m fault silent
  front m (v ∷ rest) = does m (pop v) silent

  abbrev pub pop_front : Locked V → V → List V → LockedAct V
  pop_front m v [] = does m fault silent
  pop_front m v (w ∷ rest) = does (record m { queue = rest }) (unlock (dequeued (some v))) silent

  abbrev pub is_empty : List V → Bool
  is_empty [] = true
  is_empty (v ∷ q) = false

  unfoldable pub locked_step : Wish V → Locked V → LockedPc V → LockedAct V
  locked_step (enqueue v) m idle = does m (lock_enqueue v) (calls_enqueue v)
  locked_step dequeue m idle = does m lock_dequeue calls_dequeue
  locked_step go m idle = does m idle silent
  locked_step c m (lock_enqueue v) = lock m (lock_enqueue v) (push v)
  locked_step c m (push v) = does (record m { queue = m.queue ++ v ∷ [] }) (unlock enqueued) silent
  locked_step c m lock_dequeue = lock m lock_dequeue test_empty
  locked_step c m test_empty =
      does m (if is_empty m.queue then unlock (dequeued none) else read_front) silent
  locked_step c m read_front = front m m.queue
  locked_step c m (pop v) = pop_front m v m.queue
  locked_step c m (unlock r) = does (record m { is_locked = false }) (returning r) silent
  locked_step c m (returning r) = does m idle (returns r)
  locked_step c m fault = does m fault silent

  abbrev pub locked_act : ℕ → Wish V → LockedSystem V → LockedAct V
  locked_act i c s = locked_step c s.shared (s.pc i)

  abbrev pub locked_advance : ℕ → Wish V → LockedSystem V → LockedSystem V
  locked_advance i c s = record {
    shared = (locked_act i c s).shared;
    pc = update s.pc i (locked_act i c s).pc;
  }

  abbrev pub locked_init : LockedSystem V
  locked_init = record { shared = record { is_locked = false; queue = [] }; pc = λ _. idle }

  -- What `n` threads can reach, with the history of calls and returns.
  pub data LockedReach (n : ℕ) : List (ℕ × Label V) → LockedSystem V → Type 0 where
    start : LockedReach n [] locked_init
    later :
        {h : List (ℕ × Label V)} {s : LockedSystem V}
        → LockedReach n h s
        → (i : ℕ) (c : Wish V) → i < n
        → LockedReach n (log h i (locked_act i c s).label) (locked_advance i c s)
