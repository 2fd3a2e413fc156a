-- ===== src/Leaky/Solo.antt =====
-- Progress of ms_queue_m (model/queue_model.hpp): a thread that runs alone ends its operation.
use lock_free_mpmc_queue.Base.{
  ℕ, none, zero, suc, ◌-◌, ◌<◌, ◌≡◌, ◌≢◌, inl, inr, List, refl, sym, subst, ap, ◌∙◌, update, arith,
  eq-cases,
}
use lock_free_mpmc_queue.Machine.State.{Ptr, null, Mem, Returned, dequeued, Label}
use lock_free_mpmc_queue.Machine.Invariant.Lag.{Lag, lag}
use lock_free_mpmc_queue.Leaky.Queue.{
  load_tail, load_next, check_tail, help, link, swing_tail, load_head, see_tail, read_next,
  check_head, help_tail, read_value, swing_head, retire_head, LeakyPc, idle, enq, deq, returning,
  go, LeakyAct, at, leaky_step, LeakySystem, leaky_act, leaky_advance, LeakyReach, later,
}
use lock_free_mpmc_queue.Leaky.Invariant.{LeakyReach-LeakyInv}

module _ {V : Type 0} where
  -- `k` steps of a thread, while no other thread takes one and no compare-exchange fails for no reason.
  unfoldable pub alone : ℕ → Mem V → List Ptr → LeakyPc V → LeakyPc V
  unfolding leaky_step
  alone zero m j pc = pc
  alone (suc k) m j pc = let a = leaky_step go m j pc in alone k a.mem a.junk a.pc

  abbrev pub Ends : Mem V → List Ptr → LeakyPc V → Type 0
  Ends m j pc = (k : ℕ) × (alone k m j pc ≡ idle)

  one_more :
      (m : Mem V) (j : List Ptr) (pc : LeakyPc V) (a : LeakyAct V)
      → leaky_step go m j pc ≡ a
      → Ends a.mem a.junk a.pc
      → Ends m j pc
  unfolding alone
  one_more m j pc a e (k, ends) = (suc k, rw e ends)

  returning-Ends : (m : Mem V) (j : List Ptr) (r : Returned V) → Ends m j (returning r)
  unfolding alone
  returning-Ends m j r = (1, refl)

  enqueue-Ends :
      (k : ℕ) (m : Mem V) (j : List Ptr) (v : V) (n : Ptr)
      → Lag m.next m.tail k
      → Ends m j (enq v n load_tail)
  unfolding leaky_step
  enqueue-Ends zero m j v n e =
      let t : Ptr = m.tail in
      let linked : Mem V = record m { next = update m.next t n } in
      one_more m j (enq v n load_tail) (at m j (enq v n (load_next t))) refl (
        one_more m j (enq v n (load_next t)) (at m j (enq v n (check_tail t (m.next t)))) refl (
          one_more m j (enq v n (check_tail t (m.next t))) (at m j (enq v n (link t)))
            (ground (arith, e))
            (one_more m j (enq v n (link t)) (at linked j (enq v n (swing_tail t)))
              (ground (arith, e))
              (one_more linked j (enq v n (swing_tail t)) _ refl (returning-Ends _ _ _)))))
  enqueue-Ends (suc k) m j v n (ne, l) =
      let t : Ptr = m.tail in
      one_more m j (enq v n load_tail) (at m j (enq v n (load_next t))) refl (
        one_more m j (enq v n (load_next t)) (at m j (enq v n (check_tail t (m.next t)))) refl (
          one_more m j (enq v n (check_tail t (m.next t))) (at m j (enq v n (help t (m.next t))))
            (ground (arith, ne))
            (one_more m j (enq v n (help t (m.next t)))
              (at (record m { tail = m.next t }) j (enq v n load_tail)) (ground arith)
              (enqueue-Ends k (record m { tail = m.next t }) j v n l))))

  module _ (m : Mem V) (j : List Ptr) where
    -- The head, the tail and the successor of the head.
    first_looks :
        Ends m j (deq (check_head m.head m.tail (m.next m.head))) → Ends m j (deq load_head)
    unfolding leaky_step
    first_looks ends =
        let h : Ptr = m.head in
        one_more m j (deq load_head) (at m j (deq (see_tail h))) refl (
          one_more m j (deq (see_tail h)) (at m j (deq (read_next h m.tail))) refl (
            one_more m j (deq (read_next h m.tail)) (at m j (deq (check_head h m.tail (m.next h))))
              refl ends))

    takes_value : m.head ≢ m.tail → Ends m j (deq (check_head m.head m.tail (m.next m.head)))
    unfolding leaky_step
    takes_value ne =
        let h : Ptr = m.head in
        let x : Ptr = m.next h in
        let moved : Mem V = record m { head = x } in
        one_more m j (deq (check_head h m.tail x)) (at m j (deq (read_value h x)))
          (ground (arith, ne))
          (one_more m j (deq (read_value h x)) (at m j (deq (swing_head h x (m.value x)))) refl (
            one_more m j (deq (swing_head h x (m.value x)))
              (at moved j (deq (retire_head h (m.value x)))) (ground arith)
              (one_more moved j (deq (retire_head h (m.value x))) _ refl (returning-Ends _ _ _))))

  dequeue-Ends : (k : ℕ) (m : Mem V) (j : List Ptr) → Lag m.next m.tail k → Ends m j (deq load_head)
  unfolding leaky_step
  dequeue-Ends zero m j l = elim (eq-cases m.head m.tail) [
    | inl e ↦
        let x : Ptr = m.next m.head in
        let none_left : x ≡ null = ap m.next e ∙ l in
        first_looks m j (
          one_more m j (deq (check_head m.head m.tail x)) (at m j (returning (dequeued none)))
            (ground (arith, e, none_left)) (returning-Ends _ _ _))
    | inr ne ↦ first_looks m j (takes_value m j ne)
  ]
  dequeue-Ends (suc k) m j (more, l) = elim (eq-cases m.head m.tail) [
    | inl e ↦
        let x : Ptr = m.next m.head in
        let one_left : x ≢ null = λ z. more (ap m.next (sym e) ∙ z) in
        let helped : Mem V = record m { tail = x } in
        first_looks m j (
          one_more m j (deq (check_head m.head m.tail x)) (at m j (deq (help_tail m.tail x)))
            (ground (arith, e, one_left))
            (one_more m j (deq (help_tail m.tail x)) (at helped j (deq load_head)) (ground arith)
              (dequeue-Ends k helped j (subst (λ p. Lag m.next (m.next p) k) (sym e) l))))
    | inr ne ↦ first_looks m j (takes_value m j ne)
  ]

  -- The steps of an attempt that are left; none at its start, and none for an idle thread.
  rank : LeakyPc V → ℕ
  rank idle = 0
  rank (returning r) = 1
  rank (enq v n load_tail) = 0
  rank (enq v n (load_next t)) = 5
  rank (enq v n (check_tail t x)) = 4
  rank (enq v n (help t x)) = 1
  rank (enq v n (link t)) = 3
  rank (enq v n (swing_tail t)) = 2
  rank (deq load_head) = 0
  rank (deq (see_tail h)) = 7
  rank (deq (read_next h t)) = 6
  rank (deq (check_head h t x)) = 5
  rank (deq (help_tail h x)) = 1
  rank (deq (read_value h x)) = 4
  rank (deq (swing_head h x v)) = 3
  rank (deq (retire_head h v)) = 2

  rank-step :
      (m : Mem V) (j : List Ptr) (pc : LeakyPc V)
      → 0 < rank pc
      → rank (leaky_step go m j pc).pc < rank pc
  unfolding rank leaky_step
  rank-step m j idle h = ground arith
  rank-step m j (returning r) h = omega arith
  rank-step m j (enq v n pc) h = ground arith
  rank-step m j (deq pc) h = ground arith

module _ {V : Type 0} (n : ℕ) (d : Ptr) (blank : V) (real : d ≢ null) where
  last_behind :
      {h : List (ℕ × Label V)} {s : LeakySystem V}
      → LeakyReach n d blank h s
      → (k : ℕ) × Lag s.mem.next s.mem.tail k
  last_behind {s} r =
      let (g, inv) = LeakyReach-LeakyInv n d blank real r in
      (
        g.hi - g.mid,
        rw inv.queue.at_tail
            (lag inv.queue (g.hi - g.mid) g.mid inv.queue.order.0 (omega (arith, inv.queue.order))),
      )

  at_start :
      {h : List (ℕ × Label V)} {s : LeakySystem V}
      → LeakyReach n d blank h s
      → (pc : LeakyPc V) → rank pc ≡ 0
      → Ends s.mem s.junk pc
  unfolding rank alone
  at_start r idle z = (0, refl)
  at_start r (returning x) z = ground arith
  at_start {s} r (enq v p load_tail) z =
      let (k, l) = last_behind r in enqueue-Ends k s.mem s.junk v p l
  at_start {s} r (deq load_head) z = let (k, l) = last_behind r in dequeue-Ends k s.mem s.junk l
  at_start r (enq v p pc) z = ground arith
  at_start r (deq pc) z = ground arith

  finishes_within :
      (f : ℕ) {h : List (ℕ × Label V)} {s : LeakySystem V}
      → LeakyReach n d blank h s
      → (i : ℕ) → i < n
      → rank (s.pc i) < f
      → Ends s.mem s.junk (s.pc i)
  finishes_within zero r i lt small = absurd (omega arith)
  finishes_within (suc f) {s = s} r i lt small = elim (eq-cases (rank (s.pc i)) 0) [
    | inl z ↦ at_start r (s.pc i) z
    | inr pos ↦
        let s' : LeakySystem V = leaky_advance i go s in
        let mine : s'.pc i ≡ (leaky_act i go s).pc = ground arith in
        let less = rank-step s.mem s.junk (s.pc i) (omega (arith, pos)) in
        let smaller : rank (s'.pc i) < f = rw mine (omega (arith, less)) in
        one_more s.mem s.junk (s.pc i) (leaky_act i go s) refl
          (subst (Ends s'.mem s'.junk) mine (finishes_within f (later r i go lt) i lt smaller))
  ]

  -- In every reachable state of the queue that frees nothing, a thread that runs alone from there,
  -- without compare-exchanges that fail for no reason, ends the operation that it is in.
  pub solo_finishes :
      {h : List (ℕ × Label V)} {s : LeakySystem V}
      → LeakyReach n d blank h s
      → (i : ℕ) → i < n
      → (k : ℕ) × (alone k s.mem s.junk (s.pc i) ≡ idle)
  solo_finishes {s} r i lt = finishes_within (suc (rank (s.pc i))) r i lt (omega arith)
