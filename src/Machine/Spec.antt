-- ===== src/Machine/Spec.antt =====
-- What a user of the queue may rely on: a first-in first-out list on which every operation takes
-- effect at one moment between its call and its return.
use lock_free_mpmc_queue.Base.{
  ℕ, zero, suc, ◌-◌, ◌≡◌, none, some, List, [], ◌∷◌, ◌++◌, ◌==◌, if◌then◌else◌,
}
use lock_free_mpmc_queue.Machine.State.{
  null, EnqPc, swing_tail, DeqPc, set_next, check_head, retire_head, Returned, enqueued, dequeued,
  Caller, from_retire, Pc, enq, deq, scanning, unguard, Label, silent,
}
use lock_free_mpmc_queue.Machine.Invariant.Defs.{Ghost}

-- How far an operation has got. `saw_empty` is a dequeue that has found the queue empty and may
-- still try again.
pub data Op (V : Type 0) : Type 0 where
  resting : Op V
  enqueueing : V → Op V
  dequeueing : Op V
  saw_empty : Op V
  finished : Returned V → Op V

-- One step of one thread over the list `q`.
pub data Atomic {V : Type 0} (q : List V) : Op V → Label V → List V → Op V → Type 0 where
  stays : {o : Op V} → Atomic q o silent q o
  calls_enqueue : (v : V) → Atomic q resting (Label.calls_enqueue v) q (enqueueing v)
  calls_dequeue : Atomic q resting Label.calls_dequeue q dequeueing
  puts : (v : V) → Atomic q (enqueueing v) silent (q ++ v ∷ []) (finished enqueued)
  takes :
      (v : V) (rest : List V)
      → q ≡ v ∷ rest
      → Atomic q dequeueing silent rest (finished (dequeued (some v)))
  finds_empty : q ≡ [] → Atomic q dequeueing silent q saw_empty
  tries_again : Atomic q saw_empty silent q dequeueing
  settles : Atomic q saw_empty silent q (finished (dequeued none))
  returns : (r : Returned V) → Atomic q (finished r) (Label.returns r) q resting

module _ {V : Type 0} where
  -- How far the operation of a thread has got.
  abbrev pub op_enq : V → EnqPc → Op V
  op_enq v (swing_tail tail) = finished enqueued
  op_enq v _ = enqueueing v

  abbrev pub op_deq : DeqPc V → Op V
  op_deq (set_next h t nx) = if nx == null then saw_empty else dequeueing
  op_deq (check_head h t nx) = if nx == null then saw_empty else dequeueing
  op_deq (retire_head h v) = finished (dequeued (some v))
  op_deq _ = dequeueing

  abbrev pub op_caller : Caller V → Op V
  op_caller (from_retire v) = finished (dequeued (some v))
  op_caller _ = resting

  abbrev pub op_of : Pc V → Op V
  op_of (enq v n pc) = op_enq v pc
  op_of (deq pc) = op_deq pc
  op_of (scanning pc k) = op_caller k
  op_of (unguard k r) = finished r
  op_of _ = resting

  -- The `count` values behind index `lo`.
  unfoldable pub slice : (ℕ → V) → ℕ → ℕ → List V
  slice item lo zero = []
  slice item lo (suc count) = item (suc lo) ∷ slice item (suc lo) count

  -- The values in the queue, oldest first.
  abbrev pub contents : Ghost V → List V
  contents g = slice g.item g.lo (g.hi - g.lo)
