-- ===== src/Machine/Empty.antt =====
-- ms_queue::empty (include/lfq/ms_queue.hpp), which is for states in which no thread uses the queue.
use lock_free_mpmc_queue.Base.{
  ℕ, zero, suc, ◌<◌, ◌≡◌, ◌≢◌, inl, inr, Bool, true, false, List, [], ◌∷◌, refl, subst, ◌∙◌, ◌==◌,
  Bool-cases, ◌||◌, arith,
}
use lock_free_mpmc_queue.Machine.State.{
  Ptr, null, Mem, Thread, System, Label, Pc, deq, retire_head, scanning, sweep, push_orphans,
  release, exited, idle, EnqPc, load_next, check_tail, help, link, swing_tail, DeqPc, load_tail,
  read_next, set_next, check_head, help_tail, read_value, swing_head, protect_tail, protect_head,
  adopt, load_slot, enqueue, leave, enter, Choice, enq, unguard,
}
use lock_free_mpmc_queue.Machine.System.{Reach, Runs, advance, act_of}
use lock_free_mpmc_queue.Machine.Refine.{Walk, ends, goes, ops_of, linearizable}
use lock_free_mpmc_queue.Machine.Step.{step}
use lock_free_mpmc_queue.Machine.Spec.{op_of, op_enq, op_deq, resting}
use lock_free_mpmc_queue.Machine.Books.{Onward, at_once, moves}

module _ {V : Type 0} where
  -- ms_queue::empty, which loads head_ from `m`, and later the successor of that node from `m'`.
  pub empty : (m m' : Mem V) → Bool
  empty m m' = m'.next m.head == null

  abbrev pub is_nil : List V → Bool
  is_nil [] = true
  is_nil (v ∷ q) = false

  Walk-empty : (m : Mem V) {p : Ptr} {q : List V} → Walk m p q → (m.next p == null) ≡ is_nil q
  Walk-empty m (ends e) = ground arith
  Walk-empty m (goes ne w) = ground arith

  -- No thread is in an operation of the queue.
  abbrev pub Unused : ℕ → System V → Type 0
  Unused n s = (j : ℕ) → j < n → op_of (s.thread j).pc ≡ resting

  busy_enq : (v : V) (pc : EnqPc) → op_enq v pc ≢ resting
  busy_enq v (swing_tail t) e = cc
  busy_enq v (protect_tail q) e = cc
  busy_enq v (load_next t) e = cc
  busy_enq v (check_tail t x) e = cc
  busy_enq v (help t x) e = cc
  busy_enq v (link t) e = cc

  busy_deq : (pc : DeqPc V) → op_deq pc ≢ resting
  busy_deq (set_next h t x) e = ground arith
  busy_deq (check_head h t x) e = ground arith
  busy_deq (retire_head h v) e = cc
  busy_deq (protect_head q) e = cc
  busy_deq (load_tail h) e = cc
  busy_deq (read_next h t) e = cc
  busy_deq (help_tail h x) e = cc
  busy_deq (read_value h x) e = cc
  busy_deq (swing_head h x v) e = cc

  starts_enqueue :
      (n i : ℕ) (v : V) (p : Ptr) (m : Mem V) (bag : List Ptr)
      → (p == null || m.live p) ≡ false
      → op_of (step n i (enqueue v p) m bag idle).pc ≢ resting
  unfolding step
  starts_enqueue n i v p m bag new e = ground (arith, new, e)

  -- A drain, or a thread that exits or enters, changes no node.
  resting-next :
      (n i : ℕ) (c : Choice V) (m : Mem V) (bag : List Ptr) (pc : Pc V)
      → op_of pc ≡ resting
      → op_of (step n i c m bag pc).pc ≡ resting
      → (step n i c m bag pc).mem.next ≡ m.next
  unfolding step
  resting-next n i (enqueue v p) m bag idle e e' = elim (Bool-cases (p == null || m.live p)) [
    | inl taken ↦ rw taken refl
    | inr new ↦ absurd (starts_enqueue n i v p m bag new e')
  ]
  resting-next n i leave m [] idle e e' = refl
  resting-next n i leave m (p ∷ bag) idle e e' = refl
  resting-next n i c m bag idle e e' = refl
  resting-next n i c m bag (enq v p pc) e e' = absurd (busy_enq v pc e)
  resting-next n i c m bag (deq pc) e e' = absurd (busy_deq pc e)
  resting-next n i c m bag (scanning adopt k) e e' = refl
  resting-next n i c m bag (scanning (load_slot zero l hz) k) e e' = refl
  resting-next n i c m bag (scanning (load_slot (suc r) l hz) k) e e' = refl
  resting-next n i c m bag (scanning (sweep hz kept f []) k) e e' = refl
  resting-next n i c m bag (scanning (sweep hz kept f (p ∷ todo)) k) e e' = ground arith
  resting-next n i c m bag (unguard l r) e e' = cc
  resting-next n i c m bag (push_orphans []) e e' = refl
  resting-next n i c m bag (push_orphans (p ∷ todo)) e e' = refl
  resting-next n i c m bag (release l) e e' = ground arith
  resting-next n i enter m bag exited e e' = refl
  resting-next n i c m bag exited e e' = refl

  Onward-last :
      {n : ℕ} {P : System V → Type 0} {s : System V} {k : ℕ} {t : System V} → Onward n P s k t → P t
  Onward-last (at_once u) = u
  Onward-last (moves o i c lt u) = u

  own :
      (n i : ℕ) (c : Choice V) (t : System V)
      → (advance n i c t).thread i ≡ record { pc = (act_of n i c t).pc; bag = (act_of n i c t).bag }
  own n i c t = ground arith

  next-Onward :
      (n : ℕ) {s : System V} {k : ℕ} {t : System V}
      → Onward n (Unused n) s k t
      → t.mem.next ≡ s.mem.next
  next-Onward n (at_once u) = refl
  next-Onward n (moves {k} {t} o i c lt u) =
      let mine : op_of (act_of n i c t).pc ≡ resting =
        subst (λ (x : Thread V). op_of x.pc ≡ resting) (own n i c t) (u i lt) in
      resting-next n i c t.mem (t.thread i).bag (t.thread i).pc (Onward-last o i lt) mine
      ∙ next-Onward n o

module _ {V : Type 0} (n : ℕ) (d : Ptr) (blank : V) (real : d ≢ null) where
  -- From a reachable state in which empty loads head_ to one in which it loads the successor, with
  -- drains, exits and entries of threads in between and no operation of the queue, it answers whether
  -- the list of the specification is empty.
  pub empty-is_nil :
      {h : List (ℕ × Label V)} {s t : System V} {k : ℕ}
      → Reach n d blank h s
      → Onward n (Unused n) s k t
      → (q : List V) × Runs h q (ops_of s) × (empty s.mem t.mem ≡ is_nil q)
  unfolding empty
  empty-is_nil {s} {t} r o =
      let (q, run, w) = linearizable n d blank real r in
      (q, run, rw (next-Onward n o) (Walk-empty s.mem w))
