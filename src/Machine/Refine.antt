-- ===== src/Machine/Refine.antt =====
-- The queue is linearizable: each history of calls and returns is one of the specification.
use mathlib.Core.Path.{fun_ext}
use lock_free_mpmc_queue.Base.{
  ℕ, zero, suc, ◌+◌, ◌-◌, ◌≤◌, ◌≡◌, ◌≢◌, List, [], ◌∷◌, sym, subst, update, arith,
}
use lock_free_mpmc_queue.Machine.State.{Ptr, null, Mem, System, Choice, Label}
use lock_free_mpmc_queue.Machine.System.{act_of, advance, Reach, Runs, start, later}
use lock_free_mpmc_queue.Machine.Spec.{Op, op_of, contents, slice}
use lock_free_mpmc_queue.Machine.Invariant.Defs.{Ghost, IsQueue, Inv}
use lock_free_mpmc_queue.Machine.Invariant.Preserve.{outcome, advance-Inv}
use lock_free_mpmc_queue.Machine.Invariant.Reachable.{init-Inv, init_ghost}

module _ {V : Type 0} where
  -- How far the operation of each thread has got.
  abbrev pub ops_of : System V → ℕ → Op V
  ops_of s j = op_of (s.thread j).pc

  pub ops-advance :
      (n i : ℕ) (c : Choice V) (s : System V)
      → update (ops_of s) i (op_of (act_of n i c s).pc) ≡ ops_of (advance n i c s)
  ops-advance n i c s = fun_ext λ j. ground arith

-- The values that are found by following `next` from the node `p`, without that of `p` itself.
pub data Walk {V : Type 0} (m : Mem V) : Ptr → List V → Type 0 where
  ends : {p : Ptr} → m.next p ≡ null → Walk m p []
  goes :
      {p : Ptr} {q : List V}
      → m.next p ≢ null
      → Walk m (m.next p) q
      → Walk m p (m.value (m.next p) ∷ q)

pub walk :
    {V : Type 0} {g : Ghost V} {m : Mem V} (q : IsQueue g m) (c k : ℕ)
    → g.lo ≤ k
    → g.hi ≡ k + c
    → Walk m (g.node k) (slice g.item k c)
unfolding slice
walk {g} q zero k l e = ends (let e' : g.hi ≡ k = omega arith in rw (← e') q.last)
walk {g} {m} q (suc c) k l e =
    let next : m.next (g.node k) ≡ g.node (suc k) = q.chain k l (omega arith) in
    let at : m.value (g.node (suc k)) ≡ g.item (suc k) =
      q.items (suc k) (omega arith) (omega arith) in
    rw (← at, ← next)
      (goes (ground (arith, q.placed (suc k), q.no_node, next))
        (rw next (walk q c (suc k) (omega arith) (omega arith))))

-- A history of the machine, with a run of the specification that has it.
pub record Linear {V : Type 0} (n : ℕ) (h : List (ℕ × Label V)) (s : System V) : Type 0 where
  pub ghost : Ghost V
  pub inv : Inv n ghost s
  pub run : Runs h (contents ghost) (ops_of s)

pub Linear-Walk :
    {V : Type 0} {n : ℕ} {h : List (ℕ × Label V)} {s : System V}
    → (l : Linear n h s) → Walk s.mem s.mem.head (contents l.ghost)
Linear-Walk {s} l =
    let g = l.ghost in
    subst (λ p. Walk s.mem p (contents g)) (sym l.inv.queue.at_head)
      (walk l.inv.queue (g.hi - g.lo) g.lo (omega arith) (omega (arith, l.inv.queue.order)))

module _ {V : Type 0} (n : ℕ) (d : Ptr) (blank : V) (real : d ≢ null) where
  unfoldable pub linear :
      {h : List (ℕ × Label V)} {s : System V} → Reach n d blank h s → Linear n h s
  unfolding slice
  linear start = record { ghost = init_ghost d blank; inv = init-Inv n d blank real; run = start }
  linear (later {s} r i c lt) =
      let before = linear r in
      record {
        ghost = (outcome before.inv i c lt).ghost;
        inv = advance-Inv before.inv i c lt;
        run =
            subst (Runs _ _) (ops-advance n i c s)
              (later i _ before.run (outcome before.inv i c lt).atomic);
      }

  -- Every history of calls and returns that threads make, over any interleaving, any addresses that
  -- the allocator returns, and any spurious failures, is the history of operations that each take
  -- effect at one moment on a first-in first-out list, which is what the nodes from head_ hold.
  pub linearizable :
      {h : List (ℕ × Label V)} {s : System V}
      → Reach n d blank h s
      → (q : List V) × Runs h q (ops_of s) × Walk s.mem s.mem.head q
  linearizable r = let l = linear r in (contents l.ghost, l.run, Linear-Walk l)
