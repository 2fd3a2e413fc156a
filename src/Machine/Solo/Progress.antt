-- ===== src/Machine/Solo/Progress.antt =====
-- Progress of ms_queue over hp_reclaimer (include/lfq/ms_queue.hpp, include/lfq/hazard_pointer.hpp):
-- in every reachable state a thread can end its operation on its own.
use lock_free_mpmc_queue.Base.{
  ℕ, zero, suc, ◌-◌, ◌<◌, ◌≡◌, ◌≢◌, refl, inl, inr, true, List, subst, arith, eq-cases,
}
use lock_free_mpmc_queue.Machine.State.{
  Ptr, null, Mem, protect_tail, load_next, check_tail, help, link, swing_tail, protect_head,
  load_tail, read_next, set_next, check_head, help_tail, read_value, swing_head, retire_head, Pc,
  idle, enq, deq, scanning, unguard, push_orphans, release, exited, Thread, System, go, Label,
}
use lock_free_mpmc_queue.Machine.Step.{step}
use lock_free_mpmc_queue.Machine.System.{act_of, advance, Reach, later}
use lock_free_mpmc_queue.Machine.Invariant.Lag.{Lag, lag}
use lock_free_mpmc_queue.Machine.Invariant.Reachable.{Reach-Inv}
use lock_free_mpmc_queue.Machine.Solo.{rests, alone, Ends, one_more, at_rest}
use lock_free_mpmc_queue.Machine.Solo.Scan.{
  unguard-Ends, release-Ends, push_orphans-Ends, scan-Ends,
}
use lock_free_mpmc_queue.Machine.Solo.Operations.{enqueue-Ends, dequeue-Ends, retire-Ends}

module _ {V : Type 0} where
  -- The steps of an attempt that are left; none at its start, and none behind the attempts.
  rank : Pc V → ℕ
  rank (enq v p (protect_tail pc)) = 0
  rank (enq v p (load_next t)) = 5
  rank (enq v p (check_tail t x)) = 4
  rank (enq v p (link t)) = 3
  rank (enq v p (swing_tail t)) = 2
  rank (enq v p (help t x)) = 1
  rank (deq (protect_head pc)) = 0
  rank (deq (load_tail h)) = 8
  rank (deq (read_next h t)) = 7
  rank (deq (set_next h t x)) = 6
  rank (deq (check_head h t x)) = 5
  rank (deq (read_value h x)) = 4
  rank (deq (swing_head h x v)) = 3
  rank (deq (help_tail h x)) = 1
  rank (deq (retire_head h v)) = 0
  rank idle = 0
  rank (scanning pc c) = 0
  rank (unguard k r) = 0
  rank (push_orphans todo) = 0
  rank (release k) = 0
  rank exited = 0

  rank-step :
      (n i : ℕ) (m : Mem V) (b : List Ptr) (pc : Pc V)
      → 0 < rank pc
      → rank (step n i go m b pc).pc < rank pc
  unfolding rank step
  rank-step n i m b (enq v p pc) h = ground arith
  rank-step n i m b (deq pc) h = ground arith
  rank-step n i m b pc h = absurd (ground arith)

module _ {V : Type 0} (n : ℕ) (d : Ptr) (blank : V) (real : d ≢ null) where
  last_behind :
      {h : List (ℕ × Label V)} {s : System V}
      → Reach n d blank h s
      → (k : ℕ) × Lag s.mem.next s.mem.tail k
  last_behind {s} r =
      let (g, inv) = Reach-Inv n d blank real r in
      (
        g.hi - g.mid,
        rw inv.queue.at_tail
            (lag inv.queue (g.hi - g.mid) g.mid inv.queue.order.0 (omega (arith, inv.queue.order))),
      )

  at_start :
      {h : List (ℕ × Label V)} {s : System V}
      → Reach n d blank h s
      → (i : ℕ) (b : List Ptr) (pc : Pc V) → rank pc ≡ 0
      → Ends n i s.mem b pc
  unfolding rank
  at_start {s} r i b (enq v p (protect_tail pc)) z =
      let (k, l) = last_behind r in enqueue-Ends n i v p k s.mem b pc l
  at_start r i b (enq v p pc) z = ground arith
  at_start {s} r i b (deq (protect_head pc)) z =
      let (k, l) = last_behind r in dequeue-Ends n i k s.mem b pc l
  at_start {s} r i b (deq (retire_head h v)) z = retire-Ends n i s.mem b h v
  at_start r i b (deq pc) z = ground arith
  at_start {s} r i b idle z = at_rest n i s.mem b idle refl
  at_start {s} r i b (scanning pc c) z = scan-Ends n i pc c s.mem b
  at_start {s} r i b (unguard k x) z = unguard-Ends n i k s.mem b x
  at_start {s} r i b (push_orphans todo) z = push_orphans-Ends n i todo s.mem b
  at_start {s} r i b (release k) z = release-Ends n i k s.mem b
  at_start {s} r i b exited z = at_rest n i s.mem b exited refl

  finishes_within :
      (f : ℕ) {h : List (ℕ × Label V)} {s : System V}
      → Reach n d blank h s
      → (i : ℕ) → i < n
      → rank (s.thread i).pc < f
      → Ends n i s.mem (s.thread i).bag (s.thread i).pc
  finishes_within zero r i lt small = absurd (omega arith)
  finishes_within (suc f) {s = s} r i lt small = elim (eq-cases (rank (s.thread i).pc) 0) [
    | inl z ↦ at_start r i (s.thread i).bag (s.thread i).pc z
    | inr pos ↦
        let s' : System V = advance n i go s in
        let a = act_of n i go s in
        let mine : s'.thread i ≡ record { pc = a.pc; bag = a.bag } = ground arith in
        let less = rank-step n i s.mem (s.thread i).bag (s.thread i).pc (omega (arith, pos)) in
        let smaller : rank (s'.thread i).pc < f = rw mine (omega (arith, less)) in
        one_more n i s.mem (s.thread i).bag (s.thread i).pc a refl (
          subst (λ (t : Thread V). Ends n i s'.mem t.bag t.pc) mine
            (finishes_within f (later r i go lt) i lt smaller))
  ]

  -- In every reachable state a thread that runs alone from there, without compare-exchanges that fail
  -- for no reason, ends the operation that it is in, the scan, the destruction of its guard and the
  -- exit of the thread included: it comes to stand outside of all operations.
  pub alone_finishes :
      {h : List (ℕ × Label V)} {s : System V}
      → Reach n d blank h s
      → (i : ℕ) → i < n
      → (k : ℕ) × (rests (alone n i k s.mem (s.thread i).bag (s.thread i).pc) ≡ true)
  alone_finishes {s} r i lt = finishes_within (suc (rank (s.thread i).pc)) r i lt (omega arith)
