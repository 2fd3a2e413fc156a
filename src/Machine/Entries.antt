-- ===== src/Machine/Entries.antt =====
-- The entries of the retire lists and of the orphan stack, and the nodes that dequeues have unlinked
-- and not retired yet (include/lfq/hazard_pointer.hpp, include/lfq/ms_queue.hpp).
use lock_free_mpmc_queue.Base.{
  ℕ, ◌+◌, ◌<◌, ◌≡◌, Option, none, some, List, [], refl, ◌==◌, if◌then◌else◌, count, sum_below,
  sum_below-add, sum_below_mono, ◌++◌, arith,
}
use lock_free_mpmc_queue.Machine.State.{
  Ptr, Thread, System, Pc, deq, retire_head, scanning, sweep, push_orphans, release, exited, idle,
}
use lock_free_mpmc_queue.Machine.Invariant.Defs.{owned, owned_at}

module _ {V : Type 0} where
  -- The retire list of a thread: in the sweep of a scan what it has kept and has not decided yet, and
  -- in ~tl_cache what is not pushed on the orphan stack yet.
  abbrev pub list_of : Pc V → List Ptr → List Ptr
  list_of (scanning (sweep hz kept freed todo) k) bag = kept ++ todo
  list_of (push_orphans todo) bag = todo
  list_of (release k) bag = []
  list_of exited bag = []
  list_of _ bag = bag

  -- The node that a dequeue has unlinked and is about to retire.
  abbrev pub unlinked : Pc V → Option Ptr
  unlinked (deq (retire_head h v)) = some h
  unlinked _ = none

  -- How many entries of the retire lists and of the orphan stack name `p`.
  abbrev pub entries : ℕ → System V → Ptr → ℕ
  entries n s p = sum_below (λ t. count p (list_of t.pc t.bag)) s.thread n + count p s.mem.orphans

  abbrev pub in_hand : Ptr → Pc V → ℕ
  in_hand p (deq (retire_head h v)) = if h == p then 1 else 0
  in_hand p _ = 0

  count-owned :
      (p : Ptr) (pc : Pc V) (bag : List Ptr)
      → count p (owned_at pc bag) ≡ count p (list_of pc bag) + in_hand p pc
  count-owned p idle bag = omega arith
  count-owned p (deq (retire_head h v)) bag = ground arith
  count-owned p (deq pc) bag = omega arith
  count-owned p (scanning (sweep hz kept freed todo) k) bag = omega arith
  count-owned p (scanning pc k) bag = omega arith
  count-owned p (push_orphans todo) bag = omega arith
  count-owned p (release k) bag = omega arith
  count-owned p exited bag = omega arith
  count-owned p pc bag = omega arith

  pub holds_it : (p : Ptr) (pc : Pc V) → 0 < in_hand p pc → unlinked pc ≡ some p
  holds_it p (deq (retire_head h v)) lt = ground arith
  holds_it p idle lt = absurd (omega arith)
  holds_it p (deq pc) lt = absurd (omega arith)
  holds_it p pc lt = absurd (omega arith)

  pub holds_none : (p : Ptr) (pc : Pc V) → unlinked pc ≡ none → in_hand p pc ≡ 0
  holds_none p (deq (retire_head h v)) e = cc
  holds_none p idle e = refl
  holds_none p (deq pc) e = refl
  holds_none p pc e = refl

  -- What the threads answer for is in a list or in a hand.
  pub owned-entries :
      (n : ℕ) (s : System V) (p : Ptr)
      → sum_below (λ t. count p (owned t)) s.thread n + count p s.mem.orphans
        ≡ entries n s p + sum_below (λ t. in_hand p t.pc) s.thread n
  owned-entries n s p =
      let v : Thread V → ℕ = λ t. count p (list_of t.pc t.bag) in
      let w : Thread V → ℕ = λ t. in_hand p t.pc in
      let o : Thread V → ℕ = λ t. count p (owned t) in
      let both : Thread V → ℕ = λ t. v t + w t in
      omega (
        arith,
        sum_below-add v w s.thread n,
        sum_below_mono o s.thread both s.thread n
            (λ j lt. omega (arith, count-owned p (s.thread j).pc (s.thread j).bag)),
        sum_below_mono both s.thread o s.thread n
            (λ j lt. omega (arith, count-owned p (s.thread j).pc (s.thread j).bag)),
      )
