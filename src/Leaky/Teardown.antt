-- ===== src/Leaky/Teardown.antt =====
-- teardown of ms_queue_m (model/queue_model.hpp): the chain from head_, then junk_.
use lock_free_mpmc_queue.Base.{
  ℕ, Bool, suc, ◌-◌, ◌≤◌, ◌<◌, ◌≡◌, ◌≢◌, true, false, ◌&&◌, not, Option, none, some, List, [], ◌∷◌,
  refl, ap, ◌∙◌, ◌==◌, if◌then◌else◌, update, count, sum_below, sum_below_mono, sum_below_same,
  arith,
}
use lock_free_mpmc_queue.Machine.State.{Ptr, null, Mem, Label}
use lock_free_mpmc_queue.Machine.Destroy.{destroy, destroy-chain, from_on}
use lock_free_mpmc_queue.Machine.Invariant.Defs.{
  Status, free, fresh, linked, retired, retired_flag, Ghost,
}
use lock_free_mpmc_queue.Leaky.Queue.{LeakySystem, LeakyReach, idle}
use lock_free_mpmc_queue.Leaky.Outcome.{in_hand}
use lock_free_mpmc_queue.Leaky.Invariant.{LeakyInv, LeakyReach-LeakyInv}

module _ {V : Type 0} where
  -- for (node* r : junk_) delete r. `none` is the deletion of a node that is not allocated.
  pub delete_all : Mem V → List Ptr → Option (Mem V)
  delete_all m [] = some m
  delete_all m (r ∷ todo) =
      let rest = delete_all (record m { live = update m.live r false }) todo in
      if m.live r then rest else none

  pub teardown : ℕ → LeakySystem V → Option (Mem V)
  teardown f s = elim (destroy f s.mem s.mem.head) [ none ↦ none | some m ↦ delete_all m s.junk ]

  teardown-parts :
      (f : ℕ) (s : LeakySystem V) {m m' : Mem V}
      → destroy f s.mem s.mem.head ≡ some m
      → delete_all m s.junk ≡ some m'
      → teardown f s ≡ some m'
  unfolding teardown
  teardown-parts f s chain frees = rw (chain, teardown) frees

  delete_all-each :
      (m : Mem V) (todo : List Ptr)
      → ((p : Ptr) → count p todo ≤ 1)
      → ((p : Ptr) → 0 < count p todo → m.live p ≡ true)
      → (m' : Mem V) × (delete_all m todo ≡ some m')
        × ((p : Ptr) → m'.live p ≡ (m.live p && (count p todo == 0)))
  unfolding delete_all
  delete_all-each m [] once alive = (m, refl, λ p. ground arith)
  delete_all-each m (r ∷ todo) once alive =
      let (m', runs, left) =
        delete_all-each (record m { live = update m.live r false }) todo
          (λ p. ground (arith, once p)) (λ p h. ground (arith, once p, alive p)) in
      (m', ground (arith, alive r, runs), λ p. ground (arith, left p, once p, alive p))

module _ {V : Type 0} {n : ℕ} {g : Ghost V} {s : LeakySystem V} (inv : LeakyInv n g s)
    (quiet : (j : ℕ) → j < n → s.pc j ≡ idle) where
  nothing_in_hand : (p : Ptr) → sum_below (in_hand p) s.pc n ≡ 0
  nothing_in_hand p = omega (
    arith,
    sum_below_mono (in_hand p) s.pc (λ x. 0) s.pc n (λ j lt. rw (quiet j lt) (omega arith)),
    sum_below_same s.pc 0 n,
  )

  junk_holds_retired : (p : Ptr) → count p s.junk ≡ retired_flag (g.status p)
  junk_holds_retired p = omega (arith, inv.ledger p, nothing_in_hand p)

  -- `b` is whether the deletion of the chain leaves `p` allocated.
  leaves_none :
      (p : Ptr) (b : Bool)
      → b ≡ (s.mem.live p && not (from_on g.lo (g.status p)))
      → (st : Status) → g.status p ≡ st
      → (b && (count p s.junk == 0)) ≡ false
  leaves_none p b e free h = ground (arith, inv.queue.alloc p)
  leaves_none p b e (fresh j) h =
      absurd (ground (arith, inv.nodes j p h, quiet j, inv.queue.no_node))
  leaves_none p b e (linked k) h = ground (arith, inv.queue.numbered p k h)
  leaves_none p b e retired h = ground (arith, junk_holds_retired p)

at_most_once : (st : Status) {k : ℕ} → k ≡ retired_flag st → k ≤ 1
at_most_once st e = ground arith

module _ {V : Type 0} (n : ℕ) (d : Ptr) (blank : V) (real : d ≢ null) where
  -- When every thread is idle, there is an amount of fuel with which teardown ends without a fault,
  -- each node being allocated when it is deleted, and no node stays allocated.
  pub teardown_frees_all :
      {h : List (ℕ × Label V)} {s : LeakySystem V}
      → LeakyReach n d blank h s
      → ((j : ℕ) → j < n → s.pc j ≡ idle)
      → (f : ℕ) × (m' : Mem V) × (teardown f s ≡ some m') × ((p : Ptr) → m'.live p ≡ false)
  teardown_frees_all {s} r quiet =
      let (g, inv) = LeakyReach-LeakyInv n d blank real r in
      let (m, runs, left) =
        destroy-chain inv.queue (g.hi - g.lo) g.lo (suc (suc (g.hi - g.lo))) s.mem.live refl
          (omega arith) (omega (arith, inv.queue.order))
          (λ j a b. ground (arith, inv.queue.alloc (g.node j), inv.queue.placed j)) in
      let junk = junk_holds_retired inv quiet in
      let (m', frees, none_left) =
        delete_all-each m s.junk (λ p. at_most_once (g.status p) (junk p))
          (λ p h. ground (arith, junk p, left p, inv.queue.alloc p)) in
      let chain : destroy (suc (suc (g.hi - g.lo))) s.mem s.mem.head ≡ some m =
        ap (destroy (suc (suc (g.hi - g.lo))) s.mem) inv.queue.at_head ∙ runs in
      (
        suc (suc (g.hi - g.lo)),
        m',
        teardown-parts _ s chain frees,
        λ p. none_left p ∙ leaves_none inv quiet p (m.live p) (left p) (g.status p) refl,
      )
