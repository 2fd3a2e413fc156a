-- ===== src/Mutex/Linear.antt =====
-- mutex_queue (include/lfq/mutex_queue.hpp) meets the specification of the queue: it is
-- linearizable.
use mathlib.Core.Path.{fun_ext}
use lock_free_mpmc_queue.Base.{
  ℕ, ◌+◌, ◌≤◌, ◌<◌, ◌≡◌, ◌≢◌, false, none, some, List, [], ◌∷◌, inl, inr, if◌then◌else◌, update,
  refl, subst, sum_below-update, le-sum_below, arith, eq-cases, Bool-cases,
}
use lock_free_mpmc_queue.Machine.State.{enqueued, dequeued, Label, silent}
use lock_free_mpmc_queue.Machine.Spec.{
  Op, resting, enqueueing, dequeueing, saw_empty, finished, Atomic,
}
use lock_free_mpmc_queue.Machine.System.{Runs, start, later}
use lock_free_mpmc_queue.Mutex.Queue.{
  Locked, LockedPc, idle, lock_enqueue, push, lock_dequeue, test_empty, read_front, pop, unlock,
  returning, fault, Wish, go, enqueue, dequeue, LockedSystem, locked_step, locked_act,
  locked_advance, LockedReach, start, later, is_empty, front,
}
use lock_free_mpmc_queue.Mutex.Exclusion.{inside, mutual_exclusion}

module _ {V : Type 0} where
  -- How far the operation of a thread has got.
  abbrev pub locked_op : LockedPc V → Op V
  locked_op idle = resting
  locked_op (lock_enqueue v) = enqueueing v
  locked_op (push v) = enqueueing v
  locked_op lock_dequeue = dequeueing
  locked_op test_empty = dequeueing
  locked_op read_front = dequeueing
  locked_op (pop v) = dequeueing
  locked_op (unlock (dequeued none)) = saw_empty
  locked_op (unlock r) = finished r
  locked_op (returning r) = finished r
  locked_op fault = resting

  abbrev pub locked_ops : LockedSystem V → ℕ → Op V
  locked_ops s j = locked_op (s.pc j)

  -- What a thread knows of the queue where it stands.
  abbrev Expects : List V → LockedPc V → Type 0
  Expects q read_front = is_empty q ≡ false
  Expects q (pop v) = (rest : List V) × (q ≡ v ∷ rest)
  Expects q fault = ⊥
  Expects q _ = Unit

  front-Expects :
      (m : Locked V) (q : List V)
      → m.queue ≡ q
      → is_empty q ≡ false
      → Expects (front m q).shared.queue (front m q).pc
  front-Expects m [] e h = cc
  front-Expects m (v ∷ rest) e h = (rest, e)

  step-Expects :
      (c : Wish V) (m : Locked V) (pc : LockedPc V)
      → Expects m.queue pc
      → Expects (locked_step c m pc).shared.queue (locked_step c m pc).pc
  unfolding locked_step
  step-Expects go m idle h = tt
  step-Expects (enqueue v) m idle h = tt
  step-Expects dequeue m idle h = tt
  step-Expects c m (lock_enqueue v) h = elim (Bool-cases m.is_locked) [
    | inl e ↦ rw e tt
    | inr e ↦ rw e tt
  ]
  step-Expects c m (push v) h = tt
  step-Expects c m lock_dequeue h = elim (Bool-cases m.is_locked) [
    | inl e ↦ rw e tt
    | inr e ↦ rw e tt
  ]
  step-Expects c m test_empty h = elim (Bool-cases (is_empty m.queue)) [
    | inl e ↦ rw e tt
    | inr e ↦ rw e e
  ]
  step-Expects c m read_front h = front-Expects m m.queue refl h
  step-Expects c m (pop v) h = rw (h.1) tt
  step-Expects c m (unlock r) h = tt
  step-Expects c m (returning r) h = tt
  step-Expects c m fault h = h

  -- Only a thread inside the lock writes the queue.
  step-queue :
      (c : Wish V) (m : Locked V) (pc : LockedPc V)
      → inside pc ≡ 0
      → (locked_step c m pc).shared.queue ≡ m.queue
  unfolding locked_step
  step-queue go m idle e = refl
  step-queue (enqueue v) m idle e = refl
  step-queue dequeue m idle e = refl
  step-queue c m (lock_enqueue v) e = ground arith
  step-queue c m lock_dequeue e = ground arith
  step-queue c m (returning r) e = refl
  step-queue c m (push v) e = absurd (omega (arith, e))
  step-queue c m test_empty e = absurd (omega (arith, e))
  step-queue c m read_front e = absurd (omega (arith, e))
  step-queue c m (pop v) e = absurd (omega (arith, e))
  step-queue c m (unlock r) e = absurd (omega (arith, e))
  step-queue c m fault e = absurd (omega (arith, e))

  other-Expects :
      (c : Wish V) (m : Locked V) (pc mover : LockedPc V)
      → Expects m.queue pc
      → inside pc + inside mover ≤ 1
      → Expects (locked_step c m mover).shared.queue pc
  other-Expects c m read_front mover h one = rw (step-queue c m mover (omega arith)) h
  other-Expects c m (pop v) mover h one = rw (step-queue c m mover (omega arith)) h
  other-Expects c m fault mover h one = h
  other-Expects c m idle mover h one = tt
  other-Expects c m (lock_enqueue v) mover h one = tt
  other-Expects c m (push v) mover h one = tt
  other-Expects c m lock_dequeue mover h one = tt
  other-Expects c m test_empty mover h one = tt
  other-Expects c m (unlock r) mover h one = tt
  other-Expects c m (returning r) mover h one = tt

  test-Atomic :
      (q : List V)
      → Atomic q dequeueing silent q
          (locked_op (if is_empty q then unlock (dequeued none) else read_front))
  test-Atomic [] = Atomic.finds_empty refl
  test-Atomic (v ∷ rest) = Atomic.stays

  front-Atomic :
      (m : Locked V) (q : List V)
      → is_empty q ≡ false
      → Atomic m.queue dequeueing
          (front m q).label
          (front m q).shared.queue
          (locked_op (front m q).pc)
  front-Atomic m [] h = cc
  front-Atomic m (v ∷ rest) h = Atomic.stays

  step-Atomic :
      (c : Wish V) (m : Locked V) (pc : LockedPc V)
      → Expects m.queue pc
      → Atomic m.queue
          (locked_op pc)
          (locked_step c m pc).label
          (locked_step c m pc).shared.queue
          (locked_op (locked_step c m pc).pc)
  unfolding locked_step
  step-Atomic go m idle h = Atomic.stays
  step-Atomic (enqueue v) m idle h = Atomic.calls_enqueue v
  step-Atomic dequeue m idle h = Atomic.calls_dequeue
  step-Atomic c m (lock_enqueue v) h = elim (Bool-cases m.is_locked) [
    | inl e ↦ rw e Atomic.stays
    | inr e ↦ rw e Atomic.stays
  ]
  step-Atomic c m (push v) h = Atomic.puts v
  step-Atomic c m lock_dequeue h = elim (Bool-cases m.is_locked) [
    | inl e ↦ rw e Atomic.stays
    | inr e ↦ rw e Atomic.stays
  ]
  step-Atomic c m test_empty h = test-Atomic m.queue
  step-Atomic c m read_front h = front-Atomic m m.queue h
  step-Atomic c m (pop v) h = let (rest, e) = h in rw e (Atomic.takes v rest refl)
  step-Atomic c m (unlock enqueued) h = Atomic.stays
  step-Atomic c m (unlock (dequeued none)) h = Atomic.settles
  step-Atomic c m (unlock (dequeued (some v))) h = Atomic.stays
  step-Atomic c m (returning r) h = Atomic.returns r
  step-Atomic c m fault h = absurd h

  -- Two threads are not both inside.
  two_inside :
      (n : ℕ) {h : List (ℕ × Label V)} {s : LockedSystem V}
      → LockedReach n h s
      → (i j : ℕ) → i < n
      → j < n
      → j ≢ i
      → inside (s.pc j) + inside (s.pc i) ≤ 1
  two_inside n {s} r i j lt ltj ne =
      let total = mutual_exclusion n r in
      let without = sum_below-update inside s.pc i idle n lt in
      let part = le-sum_below inside (update s.pc i idle) j n ltj in
      ground (arith, total, without, part)

  all-Expects :
      (n : ℕ) {h : List (ℕ × Label V)} {s : LockedSystem V}
      → LockedReach n h s
      → (j : ℕ) → j < n
      → Expects s.shared.queue (s.pc j)
  all-Expects n start j lt = tt
  all-Expects n (later {s} r i c lti) j lt = elim (eq-cases j i) [
    | inl e ↦
        let here : (locked_advance i c s).pc j ≡ (locked_act i c s).pc = ground arith in
        rw here (step-Expects c s.shared (s.pc i) (all-Expects n r i lti))
    | inr ne ↦
        let same : (locked_advance i c s).pc j ≡ s.pc j = ground arith in
        rw same (
          other-Expects c s.shared (s.pc j) (s.pc i) (all-Expects n r j lt)
            (two_inside n r i j lti lt ne))
  ]

  ops-advance :
      (i : ℕ) (c : Wish V) (s : LockedSystem V)
      → update (locked_ops s) i (locked_op (locked_act i c s).pc)
        ≡ locked_ops (locked_advance i c s)
  ops-advance i c s = fun_ext λ j. ground arith

  -- Every history of calls and returns that threads make on the queue under the mutex, in any order,
  -- is the history of operations that each take effect at one moment on a first-in first-out list,
  -- and this list is what std::queue holds.
  pub locked_linearizable :
      (n : ℕ) {h : List (ℕ × Label V)} {s : LockedSystem V}
      → LockedReach n h s
      → Runs h s.shared.queue (locked_ops s)
  locked_linearizable n start = start
  locked_linearizable n (later {s} r i c lt) =
      subst (Runs _ _) (ops-advance i c s) (
        later i _ (locked_linearizable n r)
          (step-Atomic c s.shared (s.pc i) (all-Expects n r i lt)))

  -- No thread reaches front() or pop() of an empty std::queue.
  pub never_faults :
      (n : ℕ) {h : List (ℕ × Label V)} {s : LockedSystem V}
      → LockedReach n h s
      → (i : ℕ) → i < n
      → s.pc i ≢ fault
  never_faults n {s} r i lt e = subst (Expects s.shared.queue) e (all-Expects n r i lt)
