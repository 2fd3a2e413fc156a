-- ===== src/Machine/Invariant/Lag.antt =====
-- How far the last node of the queue is behind a node (include/lfq/ms_queue.hpp).
use lock_free_mpmc_queue.Base.{ℕ, zero, suc, ◌+◌, ◌≤◌, ◌≡◌, ◌≢◌, arith}
use lock_free_mpmc_queue.Machine.State.{Ptr, null, Mem}
use lock_free_mpmc_queue.Machine.Invariant.Defs.{Ghost, IsQueue}

-- The last node is so many links behind `p`.
abbrev pub Lag : (Ptr → Ptr) → Ptr → ℕ → Type 0
Lag next p zero = next p ≡ null
Lag next p (suc k) = (next p ≢ null) × Lag next (next p) k

pub lag :
    {V : Type 0} {g : Ghost V} {m : Mem V} (q : IsQueue g m) (c k : ℕ)
    → g.lo ≤ k
    → g.hi ≡ k + c
    → Lag m.next (g.node k) c
lag {g} q zero k l e = let e' : g.hi ≡ k = omega arith in rw (← e') q.last
lag {g} {m} q (suc c) k l e =
    let next : m.next (g.node k) ≡ g.node (suc k) = q.chain k l (omega arith) in
    (
      ground (arith, q.placed (suc k), q.no_node, next),
      rw next (lag q c (suc k) (omega arith) (omega arith)),
    )
