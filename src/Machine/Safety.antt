-- ===== src/Machine/Safety.antt =====
-- Memory safety of the queue under hazard pointers.
use lock_free_mpmc_queue.Base.{
  ℕ, ◌<◌, ◌≡◌, ◌≢◌, Option, none, some, true, List, ◌∷◌, if◌then◌else◌, has, has-append, arith,
}
use lock_free_mpmc_queue.Std.Search.{sort, binary_search}
use lock_free_mpmc_queue.Machine.State.{
  Ptr, null, Mem, load_next, link, read_next, read_value, sweep, Pc, enq, deq, scanning, System,
  Choice, Label,
}
use lock_free_mpmc_queue.Machine.System.{advance, Reach}
use lock_free_mpmc_queue.Machine.Invariant.Defs.{
  retired, Ghost, IsQueue, Knows, Guards, claim, owned_at,
}
use lock_free_mpmc_queue.Machine.Invariant.Change.{Change-Keeps}
use lock_free_mpmc_queue.Machine.Invariant.Change.Structure.{Change-IsQueue}
use lock_free_mpmc_queue.Machine.Invariant.Preserve.{owes, outcome, spares}
use lock_free_mpmc_queue.Machine.Invariant.Reachable.{Reach-Inv}

module _ {V : Type 0} where
  -- The node that the next access of a thread reads, writes or deletes.
  abbrev pub touches : Pc V → Option Ptr
  touches (enq v n (load_next tail)) = some tail
  touches (enq v n (link tail)) = some tail
  touches (deq (read_next head tail)) = some head
  touches (deq (read_value head next)) = some next
  touches (scanning (sweep hz kept freed (p ∷ todo)) k) =
      if binary_search (sort hz) p then none else some p
  touches _ = none

  touched-live :
      {g : Ghost V} {m : Mem V} (q : IsQueue g m) (i : ℕ) (pc : Pc V) (bag : List Ptr) (p : Ptr)
      → ((k : ℕ) → claim pc k ≢ null → Guards g m i k (claim pc k))
      → ((r : Ptr) → has r (owned_at pc bag) ≡ true → g.status r ≡ retired)
      → Knows g m i pc
      → touches pc ≡ some p
      → m.live p ≡ true
  touched-live q i (enq v n (load_next tail)) bag p gu ow kn e = ground (arith, gu 0, q.alloc tail)
  touched-live q i (enq v n (link tail)) bag p gu ow kn e = ground (arith, gu 0, q.alloc tail)
  touched-live q i (enq v n pc) bag p gu ow kn e = cc
  touched-live q i (deq (read_next h t)) bag p gu ow kn e = ground (arith, gu 0, q.alloc h)
  touched-live q i (deq (read_value h x)) bag p gu ow kn e = ground (arith, gu 1, q.alloc x)
  touched-live q i (deq pc) bag p gu ow kn e = cc
  touched-live q i (scanning (sweep hz kept f (r ∷ todo)) k) bag p gu ow kn e =
      ground (arith, ow r, has-append r kept (r ∷ todo), q.alloc r)
  touched-live q i (scanning pc k) bag p gu ow kn e = cc
  touched-live q i pc bag p gu ow kn e = cc

-- What thread `i` leaves of a node that thread `j` relies on.
pub record Untouched {V : Type 0} (m m' : Mem V) (p : Ptr) : Type 0 where
  pub live : m'.live p ≡ true
  pub next : m.next p ≢ null → m'.next p ≡ m.next p
  pub value : m'.value p ≡ m.value p

module _ {V : Type 0} (n : ℕ) (d : Ptr) (blank : V) (real : d ≢ null) where
  -- No thread ever reads, writes or deletes a node that is not allocated, the null address
  -- included: there is no use after free, no double free and no null dereference.
  pub no_use_after_free :
      {h : List (ℕ × Label V)} {s : System V}
      → Reach n d blank h s
      → (i : ℕ) (p : Ptr) → i < n
      → touches (s.thread i).pc ≡ some p
      → s.mem.live p ≡ true
  no_use_after_free {s} r i p lt e =
      let (g, inv) = Reach-Inv n d blank real r in
      touched-live inv.queue i (s.thread i).pc (s.thread i).bag p (λ k. inv.guards i k lt)
        (owes inv i lt) (inv.knows i lt) e

  -- While a thread relies on a hazard slot for a node, no step of another thread frees the node,
  -- changes its value, or changes its successor once it has one: the address is not reused.
  pub protected_stays :
      {h : List (ℕ × Label V)} {s : System V}
      → Reach n d blank h s
      → (i j k : ℕ) (c : Choice V) → i < n
      → j < n
      → j ≢ i
      → claim (s.thread j).pc k ≢ null
      → Untouched s.mem (advance n i c s).mem (claim (s.thread j).pc k)
  protected_stays {s} r i j k c lti ltj ne h =
      let (g, inv) = Reach-Inv n d blank real r in
      let p : Ptr = claim (s.thread j).pc k in
      let o = outcome inv i c lti in
      let held = (inv.guards j k ltj h).held in
      let kept = Change-Keeps o.change inv.queue p held (spares inv i c lti j ltj ne k h) in
      record {
        live = ground (arith, (Change-IsQueue o.change inv.queue).alloc p, kept.held);
        next = kept.next;
        value = kept.value;
      }
