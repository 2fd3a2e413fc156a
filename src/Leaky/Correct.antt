-- ===== src/Leaky/Correct.antt =====
-- What ms_queue_m promises (model/queue_model.hpp): it is linearizable, and its assertion holds.
use mathlib.Core.Path.{fun_ext}
use lock_free_mpmc_queue.Base.{
  ℕ, ◌-◌, ◌<◌, ◌≡◌, ◌≢◌, true, Option, none, some, List, sym, subst, update, arith,
}
use lock_free_mpmc_queue.Machine.State.{Ptr, null, Mem, Label}
use lock_free_mpmc_queue.Machine.Spec.{Op, op_of, contents, slice}
use lock_free_mpmc_queue.Machine.System.{Runs, start, later}
use lock_free_mpmc_queue.Machine.Refine.{Walk, walk}
use lock_free_mpmc_queue.Machine.Invariant.Defs.{Ghost, IsQueue, Knows}
use lock_free_mpmc_queue.Machine.Invariant.Reachable.{init_ghost}
use lock_free_mpmc_queue.Leaky.Queue.{
  LeakyPc, enq, deq, load_next, link, read_next, read_value, LeakyChoice, LeakySystem, leaky_act,
  leaky_advance, LeakyReach, start, later,
}
use lock_free_mpmc_queue.Leaky.Outcome.{place, HeldAt}
use lock_free_mpmc_queue.Leaky.Invariant.{
  LeakyInv, outcome, advance-LeakyInv, init-LeakyInv, LeakyReach-LeakyInv,
}

module _ {V : Type 0} where
  abbrev pub leaky_ops : LeakySystem V → ℕ → Op V
  leaky_ops s j = op_of (place (s.pc j))

  ops-advance :
      (i : ℕ) (c : LeakyChoice V) (s : LeakySystem V)
      → update (leaky_ops s) i (op_of (place (leaky_act i c s).pc))
        ≡ leaky_ops (leaky_advance i c s)
  ops-advance i c s = fun_ext λ j. ground arith

  -- The node that the next access of a thread reads or writes.
  abbrev pub leaky_touches : LeakyPc V → Option Ptr
  leaky_touches (enq v n (load_next tail)) = some tail
  leaky_touches (enq v n (link tail)) = some tail
  leaky_touches (deq (read_next head tail)) = some head
  leaky_touches (deq (read_value head next)) = some next
  leaky_touches _ = none

record LeakyLinear {V : Type 0} (n : ℕ) (h : List (ℕ × Label V)) (s : LeakySystem V) : Type 0 where
  ghost : Ghost V
  inv : LeakyInv n ghost s
  run : Runs h (contents ghost) (leaky_ops s)

module _ {V : Type 0} {g : Ghost V} {m : Mem V} (q : IsQueue g m) (i : ℕ) where
  touches-live :
      (pc : LeakyPc V) (p : Ptr)
      → HeldAt g (place pc)
      → Knows g m i (place pc)
      → leaky_touches pc ≡ some p
      → m.live p ≡ true
  touches-live (enq v n (load_next tail)) p held kn e = ground (arith, held 0, q.alloc tail)
  touches-live (enq v n (link tail)) p held kn e = ground (arith, held 0, q.alloc tail)
  touches-live (enq v n pc) p held kn e = cc
  touches-live (deq (read_next head tail)) p held kn e = ground (arith, held 0, q.alloc head)
  touches-live (deq (read_value head next)) p held kn e = ground (arith, held 1, q.alloc next)
  touches-live (deq pc) p held kn e = cc
  touches-live pc p held kn e = cc

module _ {V : Type 0} (n : ℕ) (d : Ptr) (blank : V) (real : d ≢ null) where
  leaky_linear :
      {h : List (ℕ × Label V)} {s : LeakySystem V} → LeakyReach n d blank h s → LeakyLinear n h s
  unfolding slice
  leaky_linear start = record {
    ghost = init_ghost d blank;
    inv = init-LeakyInv n d blank real;
    run = start;
  }
  leaky_linear (later {s} r i c lt) =
      let before = leaky_linear r in
      record {
        ghost = (outcome before.inv i c lt).ghost;
        inv = advance-LeakyInv before.inv i c lt;
        run =
            subst (Runs _ _) (ops-advance i c s)
              (later i _ before.run (outcome before.inv i c lt).atomic);
      }

  -- Every history of the queue that frees nothing is a history of operations that each take effect at
  -- one moment on a first-in first-out list, which is what the nodes from head_ hold.
  pub leaky_linearizable :
      {h : List (ℕ × Label V)} {s : LeakySystem V}
      → LeakyReach n d blank h s
      → (q : List V) × Runs h q (leaky_ops s) × Walk s.mem s.mem.head q
  leaky_linearizable {s} r =
      let l = leaky_linear r in
      let g = l.ghost in
      (
        contents g,
        l.run,
        subst (λ p. Walk s.mem p (contents g)) (sym l.inv.queue.at_head)
            (walk l.inv.queue (g.hi - g.lo) g.lo (omega arith) (omega (arith, l.inv.queue.order))),
      )

  -- No thread reads or writes a node that is not allocated, the null address included: where a
  -- dequeue has found its head behind the tail, there is a next node.
  pub assertion_holds :
      {h : List (ℕ × Label V)} {s : LeakySystem V}
      → LeakyReach n d blank h s
      → (i : ℕ) (p : Ptr) → i < n
      → leaky_touches (s.pc i) ≡ some p
      → (p ≢ null) × (s.mem.live p ≡ true)
  assertion_holds {s} r i p lt t =
      let (g, inv) = LeakyReach-LeakyInv n d blank real r in
      let live = touches-live inv.queue i (s.pc i) p (inv.held i lt) (inv.knows i lt) t in
      (ground (arith, live, inv.queue.alloc null, inv.queue.no_node), live)
