-- ===== src/Mutex/Exclusion.antt =====
-- Mutual exclusion of mutex_queue (include/lfq/mutex_queue.hpp).
use lock_free_mpmc_queue.Base.{
  ℕ, ◌+◌, ◌-◌, ◌≡◌, List, if◌then◌else◌, refl, sum_below, sum_below-update, sum_below-zero,
  le-sum_below, arith,
}
use lock_free_mpmc_queue.Machine.State.{Label}
use lock_free_mpmc_queue.Mutex.Queue.{
  Locked, LockedPc, idle, lock_enqueue, push, lock_dequeue, test_empty, read_front, pop, unlock,
  returning, fault, Wish, LockedSystem, locked_step, locked_act, LockedReach, locked_init, start,
  later,
}

module _ {V : Type 0} where
  -- Whether a thread is between its lock and its unlock.
  abbrev pub inside : LockedPc V → ℕ
  inside (push v) = 1
  inside test_empty = 1
  inside read_front = 1
  inside (pop v) = 1
  inside (unlock r) = 1
  inside fault = 1
  inside _ = 0

  abbrev pub holders : Locked V → ℕ
  holders m = if m.is_locked then 1 else 0

  step-holders :
      (c : Wish V) (m : Locked V) (pc : LockedPc V) (others : ℕ)
      → others + inside pc ≡ holders m
      → others + inside (locked_step c m pc).pc ≡ holders (locked_step c m pc).shared
  unfolding locked_step
  step-holders c m idle o h = ground arith
  step-holders c m (lock_enqueue v) o h = ground arith
  step-holders c m (push v) o h = h
  step-holders c m lock_dequeue o h = ground arith
  step-holders c m test_empty o h = ground arith
  step-holders c m read_front o h = ground arith
  step-holders c m (pop v) o h = ground arith
  step-holders c m (unlock r) o h = ground arith
  step-holders c m (returning r) o h = h
  step-holders c m fault o h = h

  -- In every reachable state the mutex is locked just while one thread is between its lock and its
  -- unlock, and no two threads are.
  pub mutual_exclusion :
      (n : ℕ) {h : List (ℕ × Label V)} {s : LockedSystem V}
      → LockedReach n h s
      → sum_below inside s.pc n ≡ holders s.shared
  mutual_exclusion n start = sum_below-zero inside (locked_init {V = V}).pc n (λ _. refl)
  mutual_exclusion n (later {s} r i c lt) =
      let a = locked_act i c s in
      let before = mutual_exclusion n r in
      let part = le-sum_below inside s.pc i n lt in
      let swap = sum_below-update inside s.pc i a.pc n lt in
      let after =
        step-holders c s.shared (s.pc i) (sum_below inside s.pc n - inside (s.pc i))
          (omega arith) in
      omega arith
