-- ===== src/Orphans/Schedule.antt =====
-- A run of the stack of orphans (include/lfq/hazard_pointer.hpp) by evaluation.
use lock_free_mpmc_queue.Base.{ℕ, ◌+◌, ◌<◌, ◌≡◌, refl, List, [], ◌∷◌, count, sum_below, arith}
use lock_free_mpmc_queue.Base.Segment.{Seg}
use lock_free_mpmc_queue.Orphans.Stack.{
  adopting, go, fail, allocate, retire, push, adopt, OrphanChoice, OrphanSystem, orphan_step,
  OrphanReach, start, later,
}
use lock_free_mpmc_queue.Orphans.Tracked.{Holds, live_flag}
use lock_free_mpmc_queue.Orphans.Items.{in_bag, in_nodes}
use lock_free_mpmc_queue.Orphans.Conserve.{orphans_conserved}

record OrphanRun : Type 0 where
  given : List ℕ
  last : OrphanSystem
  reach : OrphanReach 2 given last

zeroth : OrphanRun → OrphanChoice → OrphanRun
zeroth r c = record { given = _; last = _; reach = later r.reach 0 c (omega arith) }

first : OrphanRun → OrphanChoice → OrphanRun
first r c = record { given = _; last = _; reach = later r.reach 1 c (omega arith) }

-- Threads 0 and 1 push 70 and 80 at once; the compare-exchange of thread 0 fails twice, for no reason
-- and since the stack has changed. Thread 1 adopts both, and has deleted the upper node.
abbrev adopts : OrphanRun
unfolding zeroth first orphan_step
adopts =
    let r : OrphanRun = record { given = _; last = _; reach = start } in
    let a = zeroth (zeroth (zeroth (zeroth r (retire 70)) push) (allocate 4)) fail in
    let b = first (first (first (first a (retire 80)) push) (allocate 5)) go in
    let c = zeroth (zeroth b go) go in first (first c adopt) go

adopts_upper : adopts.last.pc 1 ≡ adopting 5 (70 ∷ [])
unfolding zeroth first orphan_step
adopts_upper = refl

orphans_conserved_example :
    (xs : List ℕ) × (ys : ℕ → List ℕ) × Seg adopts.last.shared.next adopts.last.shared.top xs
    × ((j : ℕ) → j < 2 → Holds adopts.last.shared (adopts.last.pc j) (ys j))
    × ((a : ℕ) → count a xs + sum_below (count a) ys 2 ≡ live_flag adopts.last.shared a)
    × ((p : ℕ)
        → count p adopts.given
          ≡ sum_below (in_bag p) adopts.last.pc 2
            + in_nodes adopts.last.shared p xs
            + sum_below (in_nodes adopts.last.shared p) ys 2)
orphans_conserved_example = orphans_conserved 2 adopts.reach
