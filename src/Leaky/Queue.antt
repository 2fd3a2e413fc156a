-- ===== src/Leaky/Queue.antt =====
-- The operations of ms_queue_m (model/queue_model.hpp), an access at a time by threads in any order.
-- guard::protect of leaky_reclaimer is one load, and guard::set does nothing.
use lock_free_mpmc_queue.Base.{
  ℕ, ◌<◌, Bool, true, false, ◌&&◌, ◌||◌, not, none, some, List, [], ◌∷◌, ◌==◌, if◌then◌else◌,
  update,
}
use lock_free_mpmc_queue.Machine.State.{
  Ptr, null, Mem, Returned, enqueued, dequeued, Label, silent, calls_enqueue, calls_dequeue,
  returns,
}
use lock_free_mpmc_queue.Machine.System.{init, log}

-- Where a thread stands in `enqueue` and in `try_dequeue`.
pub data LeakyEnqPc : Type 0 where
  load_tail : LeakyEnqPc
  load_next : (tail : Ptr) → LeakyEnqPc
  check_tail : (tail next : Ptr) → LeakyEnqPc
  help : (tail next : Ptr) → LeakyEnqPc
  link : (tail : Ptr) → LeakyEnqPc
  swing_tail : (tail : Ptr) → LeakyEnqPc

pub data LeakyDeqPc (V : Type 0) : Type 0 where
  load_head : LeakyDeqPc V
  see_tail : (head : Ptr) → LeakyDeqPc V
  read_next : (head tail : Ptr) → LeakyDeqPc V
  check_head : (head tail next : Ptr) → LeakyDeqPc V
  help_tail : (head next : Ptr) → LeakyDeqPc V
  read_value : (head next : Ptr) → LeakyDeqPc V
  swing_head : (head next : Ptr) (value : V) → LeakyDeqPc V
  retire_head : (head : Ptr) (value : V) → LeakyDeqPc V

pub data LeakyPc (V : Type 0) : Type 0 where
  idle : LeakyPc V
  enq : (value : V) (node : Ptr) → LeakyEnqPc → LeakyPc V
  deq : LeakyDeqPc V → LeakyPc V
  returning : Returned V → LeakyPc V

-- The operation that an idle thread starts, with the address that `new` returns; or whether a weak
-- compare-exchange fails for no reason.
pub data LeakyChoice (V : Type 0) : Type 0 where
  go : LeakyChoice V
  fail : LeakyChoice V
  enqueue : V → Ptr → LeakyChoice V
  dequeue : LeakyChoice V

pub record LeakyAct (V : Type 0) : Type 0 where
  pub mem : Mem V
  pub junk : List Ptr
  pub pc : LeakyPc V
  pub label : Label V

-- The queue, and junk_; of `Mem`, the slots, orphans and counters are not used.
pub record LeakySystem (V : Type 0) : Type 0 where
  pub mem : Mem V
  pub junk : List Ptr
  pub pc : ℕ → LeakyPc V

module _ {V : Type 0} where
  abbrev pub spurious : LeakyChoice V → Bool
  spurious fail = true
  spurious _ = false

  abbrev pub at : Mem V → List Ptr → LeakyPc V → LeakyAct V
  at m j pc = record { mem = m; junk = j; pc = pc; label = silent }

  unfoldable pub leaky_enqueue :
      LeakyChoice V → V → Ptr → Mem V → List Ptr → LeakyEnqPc → LeakyAct V
  leaky_enqueue c v n m j load_tail = at m j (enq v n (load_next m.tail))
  leaky_enqueue c v n m j (load_next tail) = at m j (enq v n (check_tail tail (m.next tail)))
  leaky_enqueue c v n m j (check_tail tail next) = at m j (
      if tail == m.tail
      then (if next == null then enq v n (link tail) else enq v n (help tail next))
      else enq v n load_tail)
  leaky_enqueue c v n m j (help tail next) =
      at (if m.tail == tail && not (spurious c) then record m { tail = next } else m) j
        (enq v n load_tail)
  leaky_enqueue c v n m j (link tail) =
      if m.next tail == null && not (spurious c)
      then at (record m { next = update m.next tail n }) j (enq v n (swing_tail tail))
      else at m j (enq v n load_tail)
  leaky_enqueue c v n m j (swing_tail tail) =
      at (if m.tail == tail then record m { tail = n } else m) j (returning enqueued)

  unfoldable pub leaky_dequeue : LeakyChoice V → Mem V → List Ptr → LeakyDeqPc V → LeakyAct V
  leaky_dequeue c m j load_head = at m j (deq (see_tail m.head))
  leaky_dequeue c m j (see_tail head) = at m j (deq (read_next head m.tail))
  leaky_dequeue c m j (read_next head tail) = at m j (deq (check_head head tail (m.next head)))
  leaky_dequeue c m j (check_head head tail next) = at m j (
      if head == m.head
      then (if head == tail
          then (if next == null then returning (dequeued none) else deq (help_tail tail next))
          else deq (read_value head next))
      else deq load_head)
  leaky_dequeue c m j (help_tail tail next) =
      at (if m.tail == tail && not (spurious c) then record m { tail = next } else m) j
        (deq load_head)
  leaky_dequeue c m j (read_value head next) = at m j (deq (swing_head head next (m.value next)))
  leaky_dequeue c m j (swing_head head next v) =
      if m.head == head && not (spurious c)
      then at (record m { head = next }) j (deq (retire_head head v))
      else at m j (deq load_head)
  leaky_dequeue c m j (retire_head head v) = at m (head ∷ j) (returning (dequeued (some v)))

  -- A call by an idle thread; `new` refuses an address that is null or in use.
  unfoldable pub leaky_call : LeakyChoice V → Mem V → List Ptr → LeakyAct V
  leaky_call (enqueue v p) m j = if p == null || m.live p then at m j idle else record {
    mem = record m {
      live = update m.live p true;
      next = update m.next p null;
      value = λ q. if q == p then v else m.value q;
    };
    junk = j;
    pc = enq v p load_tail;
    label = calls_enqueue v;
  }
  leaky_call dequeue m j = record { mem = m; junk = j; pc = deq load_head; label = calls_dequeue }
  leaky_call go m j = at m j idle
  leaky_call fail m j = at m j idle

  unfoldable pub leaky_step : LeakyChoice V → Mem V → List Ptr → LeakyPc V → LeakyAct V
  unfolding leaky_enqueue leaky_dequeue leaky_call
  leaky_step c m j idle = leaky_call c m j
  leaky_step c m j (enq v n pc) = leaky_enqueue c v n m j pc
  leaky_step c m j (deq pc) = leaky_dequeue c m j pc
  leaky_step c m j (returning r) = record { mem = m; junk = j; pc = idle; label = returns r }

  abbrev pub leaky_act : ℕ → LeakyChoice V → LeakySystem V → LeakyAct V
  leaky_act i c s = leaky_step c s.mem s.junk (s.pc i)

  abbrev pub leaky_advance : ℕ → LeakyChoice V → LeakySystem V → LeakySystem V
  leaky_advance i c s = record {
    mem = (leaky_act i c s).mem;
    junk = (leaky_act i c s).junk;
    pc = update s.pc i (leaky_act i c s).pc;
  }

  -- init(): the dummy stands at `d`.
  abbrev pub leaky_init : Ptr → V → LeakySystem V
  leaky_init d blank = record { mem = (init d blank).mem; junk = []; pc = λ _. idle }

  pub data LeakyReach (n : ℕ) (d : Ptr) (blank : V)
      : List (ℕ × Label V) → LeakySystem V → Type 0 where
    start : LeakyReach n d blank [] (leaky_init d blank)
    later :
        {h : List (ℕ × Label V)} {s : LeakySystem V}
        → LeakyReach n d blank h s
        → (i : ℕ) (c : LeakyChoice V) → i < n
        → LeakyReach n d blank (log h i (leaky_act i c s).label) (leaky_advance i c s)
