-- ===== src/Machine/Destroy.antt =====
-- The destructor of ms_queue (include/lfq/ms_queue.hpp), and where every allocated node is.
use lock_free_mpmc_queue.Base.{
  ℕ, zero, suc, ◌+◌, ◌-◌, ◌≤◌, ◌<◌, ◌≡◌, ◌≢◌, ◌⊎◌, ◌↔◌, inl, inr, Bool, true, false, ◌&&◌, not,
  Option, none, some, List, refl, sym, subst, ◌∙◌, ap, leb, ◌==◌, if◌then◌else◌, update, sum_below,
  sum_below_mono, sum_below_same, find_heavy, eq-cases, arith,
}
use lock_free_mpmc_queue.Machine.State.{Ptr, null, Mem, Thread, System, Label}
use lock_free_mpmc_queue.Machine.System.{Reach}
use lock_free_mpmc_queue.Machine.Invariant.Defs.{
  Status, free, fresh, linked, retired, Ghost, IsQueue, new_node, retired_flag,
}
use lock_free_mpmc_queue.Machine.Entries.{
  unlinked, entries, in_hand, holds_it, holds_none, owned-entries,
}
use lock_free_mpmc_queue.Machine.Invariant.Reachable.{Reach-Inv}

-- Whether a node of the chain is number `k` or later.
abbrev pub from_on : ℕ → Status → Bool
from_on k (linked j) = leb k j
from_on k _ = false

module _ {V : Type 0} where
  -- ~ms_queue, from the node `p` on. `none` is a fault, the deletion of a node that is not
  -- allocated, or the end of the fuel.
  pub destroy : ℕ → Mem V → Ptr → Option (Mem V)
  destroy zero m p = none
  destroy (suc f) m p =
      let rest = destroy f (record m { live = update m.live p false }) (m.next p) in
      if p == null then some m else if m.live p then rest else none

  -- The nodes that `next` leads to from `p`, with `p`.
  pub data Along (m : Mem V) (r : Ptr) : Ptr → Type 0 where
    here : Along m r r
    further : {p : Ptr} → m.next p ≢ null → Along m r (m.next p) → Along m r p

  along :
      {g : Ghost V} {m : Mem V} (q : IsQueue g m) (c k j : ℕ)
      → j ≡ k + c
      → g.lo ≤ k
      → j ≤ g.hi
      → Along m (g.node j) (g.node k)
  along {g} q zero k j e l u = let e' : j ≡ k = omega arith in rw e' here
  along {g} {m} q (suc c) k j e l u =
      let next : m.next (g.node k) ≡ g.node (suc k) = q.chain k l (omega arith) in
      further (ground (arith, q.placed (suc k), q.no_node, next))
        (rw next (along q c (suc k) j (omega arith) (omega arith) u))

  pub destroy-chain :
      {g : Ghost V} {m : Mem V} (q : IsQueue g m) (c k f : ℕ) (live : Ptr → Bool)
      → f ≡ suc (suc c)
      → g.lo ≤ k
      → g.hi ≡ k + c
      → ((j : ℕ) → k ≤ j → j ≤ g.hi → live (g.node j) ≡ true)
      → (m' : Mem V) × (destroy f (record m { live = live }) (g.node k) ≡ some m')
        × ((p : Ptr) → m'.live p ≡ (live p && not (from_on k (g.status p))))
  unfolding destroy
  destroy-chain q zero k zero live fu l e alive = absurd (omega arith)
  destroy-chain q zero k (suc zero) live fu l e alive = absurd (omega arith)
  destroy-chain {g} {m} q zero k (suc (suc f)) live fu l e alive =
      let end : m.next (g.node k) ≡ null = let e' : g.hi ≡ k = omega arith in rw (← e') q.last in
      (
        record m { live = update live (g.node k) false },
        ground (arith, alive k, end, q.placed k, q.no_node),
        λ p. by_status p (g.status p) refl,
      )
    where
      by_status :
          (p : Ptr) (s : Status)
          → g.status p ≡ s
          → update live (g.node k) false p ≡ (live p && not (from_on k (g.status p)))
      by_status p (linked j) h = ground (arith, q.numbered p j, q.placed k)
      by_status p free h = ground (arith, q.placed k)
      by_status p (fresh i) h = ground (arith, q.placed k)
      by_status p retired h = ground (arith, q.placed k)
  destroy-chain q (suc c) k zero live fu l e alive = absurd (omega arith)
  destroy-chain {g} {m} q (suc c) k (suc f) live fu l e alive =
      let next : m.next (g.node k) ≡ g.node (suc k) = q.chain k l (omega arith) in
      let (m', runs, left) =
        destroy-chain q c (suc k) f (update live (g.node k) false) (omega arith) (omega arith)
          (omega arith) (λ j a b. ground (arith, alive j, q.placed j, q.placed k)) in
      (
        m',
        ground (arith, alive k, q.placed k, q.no_node, next, runs),
        λ p. left p ∙ by_status p (g.status p) refl,
      )
    where
      by_status :
          (p : Ptr) (s : Status)
          → g.status p ≡ s
          → (update live (g.node k) false p && not (from_on (suc k) (g.status p)))
            ≡ (live p && not (from_on k (g.status p)))
      by_status p (linked j) h = ground (arith, q.numbered p j, q.placed k)
      by_status p free h = ground (arith, q.placed k)
      by_status p (fresh i) h = ground (arith, q.placed k)
      by_status p retired h = ground (arith, q.placed k)

module _ {V : Type 0} (n : ℕ) (d : Ptr) (blank : V) (real : d ≢ null) where
  -- Nothing is lost: every allocated node is in the queue, or is the new node of an enqueue that has
  -- not linked it yet, or is the node that a dequeue has unlinked and is about to retire, which no
  -- entry names, or is named by just one entry of the retire lists and the orphan stack.
  pub nothing_lost :
      {h : List (ℕ × Label V)} {s : System V}
      → Reach n d blank h s
      → (p : Ptr) → s.mem.live p ≡ true
      → Along s.mem p s.mem.head
        ⊎ ((j : ℕ) × (j < n) × (new_node (s.thread j).pc ≡ p))
        ⊎ ((j : ℕ) × (j < n) × (unlinked (s.thread j).pc ≡ some p) × (entries n s p ≡ 0))
        ⊎ (entries n s p ≡ 1)
  nothing_lost {s} r p alive = by_status (g.status p) refl
    where
      open (Reach-Inv n d blank real r) use {«0» as g, «1» as inv}

      by_status :
          (st : Status)
          → g.status p ≡ st
          → Along s.mem p s.mem.head
            ⊎ ((j : ℕ) × (j < n) × (new_node (s.thread j).pc ≡ p))
            ⊎ ((j : ℕ) × (j < n) × (unlinked (s.thread j).pc ≡ some p) × (entries n s p ≡ 0))
            ⊎ (entries n s p ≡ 1)
      by_status free e = absurd (ground (arith, inv.queue.alloc p))
      by_status (fresh j) e = inr (inl (j, (inv.nodes j p e).0, (inv.nodes j p e).1))
      by_status (linked k) e =
          let (from, to, at) = inv.queue.numbered p k e in
          inl (
            subst (Along s.mem p) (sym inv.queue.at_head) (
              subst (λ x. Along s.mem x (g.node g.lo)) at
                (along inv.queue (k - g.lo) g.lo k (omega arith) (omega arith) to)))
      by_status retired e =
          let hands : ℕ = sum_below (λ t. in_hand p t.pc) s.thread n in
          let one : entries n s p + hands ≡ 1 = ground (arith, inv.ledger p, owned-entries n s p) in
          elim (eq-cases hands 0) [
            | inl none_has ↦ inr (inr (inr (omega arith)))
            | inr some_has ↦
                let (j, lt, heavy) =
                  find_heavy (λ (t : Thread V). in_hand p t.pc) s.thread n (omega arith) in
                inr (inr (inl (j, lt, holds_it p (s.thread j).pc heavy, omega arith)))
          ]

  -- While no enqueue is before its link, and no dequeue between the swing of head_ and the retirement
  -- of the old head, there is an amount of fuel with which the destructor from head_ ends without a
  -- fault: each node that it deletes is allocated then. It leaves allocated just the nodes that one
  -- entry of the retire lists and the orphan stack names.
  pub destroy-entries :
      {h : List (ℕ × Label V)} {s : System V}
      → Reach n d blank h s
      → ((j : ℕ) → j < n → new_node (s.thread j).pc ≡ null)
      → ((j : ℕ) → j < n → unlinked (s.thread j).pc ≡ none)
      → (f : ℕ) × (m' : Mem V) × (destroy f s.mem s.mem.head ≡ some m')
        × ((p : Ptr) → (m'.live p ≡ true) ↔ (entries n s p ≡ 1))
  destroy-entries {s} r quiet settled =
      let (m', runs, left) =
        destroy-chain inv.queue (g.hi - g.lo) g.lo (suc (suc (g.hi - g.lo))) s.mem.live refl
          (omega arith) (omega (arith, inv.queue.order))
          (λ j a b. ground (arith, inv.queue.alloc (g.node j), inv.queue.placed j)) in
      (
        suc (suc (g.hi - g.lo)),
        m',
        ap (destroy (suc (suc (g.hi - g.lo))) s.mem) inv.queue.at_head ∙ runs,
        λ p. by_status p m' (left p) (g.status p) refl,
      )
    where
      open (Reach-Inv n d blank real r) use {«0» as g, «1» as inv}

      ledger : (p : Ptr) → entries n s p ≡ retired_flag (g.status p)
      ledger p = omega (
        arith,
        inv.ledger p,
        owned-entries n s p,
        sum_below_mono (λ (t : Thread V). in_hand p t.pc) s.thread (λ (x : ℕ). 0) (λ x. x) n
            (λ j lt. omega (arith, holds_none p (s.thread j).pc (settled j lt))),
        sum_below_same (λ (x : ℕ). x) 0 n,
      )

      by_status :
          (p : Ptr) (m' : Mem V)
          → m'.live p ≡ (s.mem.live p && not (from_on g.lo (g.status p)))
          → (st : Status) → g.status p ≡ st
          → (m'.live p ≡ true) ↔ (entries n s p ≡ 1)
      by_status p m' l free e = ground (arith, inv.queue.alloc p, ledger p)
      by_status p m' l (fresh j) e =
          absurd (ground (arith, inv.nodes j p e, quiet j, inv.queue.no_node))
      by_status p m' l (linked k) e =
          ground (arith, inv.queue.alloc p, ledger p, inv.queue.numbered p k e)
      by_status p m' l retired e = ground (arith, inv.queue.alloc p, ledger p)
