-- ===== src/Machine/Solo/Quiet.antt =====
-- A drain while nobody uses the queue (include/lfq/hazard_pointer.hpp): all that is retired is freed,
-- and the books are balanced.
use lock_free_mpmc_queue.Base.{
  ℕ, ◌<◌, ◌≡◌, ◌≢◌, refl, sym, ap, subst, ◌∙◌, inl, inr, true, List, some, [], count, sum_below,
  sum_below_mono, sum_below_same, eq-cases, arith,
}
use lock_free_mpmc_queue.Machine.State.{
  Ptr, null, Mem, adopt, from_drain, Pc, idle, enq, deq, scanning, unguard, push_orphans, release,
  exited, Thread, System, drain, silent, Act, Label,
}
use lock_free_mpmc_queue.Machine.Step.{act, step}
use lock_free_mpmc_queue.Machine.System.{act_of, advance, Reach, later}
use lock_free_mpmc_queue.Machine.Books.{in_flight, outstanding_at, in_flight-none}
use lock_free_mpmc_queue.Machine.Destroy.{Along, nothing_lost}
use lock_free_mpmc_queue.Machine.Entries.{unlinked, list_of, entries}
use lock_free_mpmc_queue.Machine.Invariant.Defs.{new_node}
use lock_free_mpmc_queue.Machine.Invariant.Reachable.{Reach-Inv}
use lock_free_mpmc_queue.Machine.Solo.{rests, alone_act}
use lock_free_mpmc_queue.Machine.Solo.Drain.{
  solo, alone_of, solo_parts, solo-Reach, adopt-Drains, NoHazard,
}

-- A thread in no operation that has retired nothing.
abbrev pub HasNothing : {V : Type 0} → Thread V → Type 0
HasNothing t = (rests t.pc ≡ true) × (t.bag ≡ [])

record Empty {V : Type 0} (p : Ptr) (pc : Pc V) : Type 0 where
  no_node : new_node pc ≡ null
  holds : unlinked pc ≢ some p
  lists : count p (list_of pc []) ≡ 0
  owes : outstanding_at pc [] ≡ 0

rests-Empty : {V : Type 0} (p : Ptr) (pc : Pc V) → rests pc ≡ true → Empty p pc
rests-Empty p idle h = record { no_node = refl; holds = λ e. cc; lists = refl; owes = refl }
rests-Empty p exited h = record { no_node = refl; holds = λ e. cc; lists = refl; owes = refl }
rests-Empty p (enq v q pc) h = cc
rests-Empty p (deq pc) h = cc
rests-Empty p (scanning pc c) h = cc
rests-Empty p (unguard k r) h = cc
rests-Empty p (push_orphans todo) h = cc
rests-Empty p (release k) h = cc

module _ {V : Type 0} (n i : ℕ) (s : System V) where
  starts :
      (s.thread i).pc ≡ idle
      → act_of n i drain s ≡ act s.mem (scanning adopt from_drain) (s.thread i).bag silent
  unfolding step
  starts at_idle = rw (at_idle, step) refl

  unchanged : (j : ℕ) → j ≢ i → (advance n i drain s).thread j ≡ s.thread j
  unchanged j ne = ground arith

  mine :
      (advance n i drain s).thread i
      ≡ record { pc = (act_of n i drain s).pc; bag = (act_of n i drain s).bag }
  mine = ground arith

module _ {V : Type 0} (n : ℕ) (d : Ptr) (blank : V) (real : d ≢ null) where
  module _ {h : List (ℕ × Label V)} {s : System V} (r : Reach n d blank h s)
      (quiet : (j : ℕ) → j < n → HasNothing (s.thread j)) (no_orphans : s.mem.orphans ≡ []) where
    weighs_nothing :
        (weight : Thread V → ℕ)
        → ((t : Thread V) → HasNothing t → weight t ≡ 0)
        → sum_below weight s.thread n ≡ 0
    weighs_nothing weight light = omega (
      arith,
      sum_below_mono weight s.thread (λ t. 0) (λ t. t) n
          (λ j lt. omega (arith, light (s.thread j) (quiet j lt))),
      sum_below_same (λ t. t) 0 n,
    )

    none_outstanding : in_flight s.mem s.mem ≡ 0
    none_outstanding = in_flight-none n d blank r (
        rw no_orphans (
          omega (
            arith,
            weighs_nothing (λ t. outstanding_at t.pc t.bag)
                (λ t q. rw q.1 (rests-Empty null t.pc q.0).owes),
          )))

    all_in_queue : (p : Ptr) → s.mem.live p ≡ true → Along s.mem p s.mem.head
    all_in_queue p live = elim (nothing_lost n d blank real r p live) [
      | inl a ↦ a
      | inr (inl (j, lt, e)) ↦
          let (g, inv) = Reach-Inv n d blank real r in
          let no_node = (rests-Empty p (s.thread j).pc (quiet j lt).0).no_node in
          absurd (ground (arith, no_node, inv.queue.alloc p, inv.queue.no_node))
      | inr (inr (inl (j, lt, e, z))) ↦
          absurd ((rests-Empty p (s.thread j).pc (quiet j lt).0).holds e)
      | inr (inr (inr e)) ↦
          let others =
            weighs_nothing (λ t. count p (list_of t.pc t.bag))
              (λ t q. rw q.1 (rests-Empty p t.pc q.0).lists) in
          let none_left : entries n s p ≡ 0 = rw no_orphans (omega (arith, others)) in
          absurd (omega (arith, none_left))
    ]

  -- When no hazard slot holds a node and no other thread is in an operation or has a node in its
  -- retire list, a drain by an idle thread that nobody interrupts comes to an end, with no node in
  -- flight and every allocated node in the queue.
  pub quiet_drain :
      {h : List (ℕ × Label V)} {s : System V}
      → Reach n d blank h s
      → (i : ℕ) → i < n
      → (s.thread i).pc ≡ idle
      → NoHazard n s.mem
      → ((j : ℕ) → j < n → j ≢ i → HasNothing (s.thread j))
      → (k : ℕ) × (((solo n i k (advance n i drain s)).thread i).pc ≡ idle)
        × (in_flight (solo n i k (advance n i drain s)).mem (solo n i k (advance n i drain s)).mem
            ≡ 0)
        × ((p : Ptr)
            → (solo n i k (advance n i drain s)).mem.live p ≡ true
            → Along
                (solo n i k (advance n i drain s)).mem
                p
                (solo n i k (advance n i drain s)).mem.head)
  quiet_drain {s} r i lt at_idle no_hazard others =
      let s' : System V = advance n i drain s in
      let (k, drained) = adopt-Drains n i s.mem (s.thread i).bag no_hazard in
      let z : System V = solo n i k s' in
      let parts = solo_parts n i k s' in
      let same = ap (λ (a : Act V). alone_act n i k a.mem a.bag a.pc) (starts n i s at_idle) in
      let last : alone_of n i k s'
          ≡ alone_act n i k s.mem (s.thread i).bag (scanning adopt from_drain) =
        rw (mine n i s) same in
      let idle_then : (z.thread i).pc ≡ idle =
        ap (λ (t : Thread V). t.pc) parts.own ∙ ap (λ (a : Act V). a.pc) last ∙ drained.0 in
      let empty_then : (z.thread i).bag ≡ [] =
        ap (λ (t : Thread V). t.bag) parts.own ∙ ap (λ (a : Act V). a.bag) last ∙ drained.1 in
      let no_orphans : z.mem.orphans ≡ [] =
        ap (λ (m : Mem V). m.orphans) parts.shared
        ∙ ap (λ (a : Act V). a.mem.orphans) last
        ∙ drained.2 in
      let quiet : (j : ℕ) → j < n → HasNothing (z.thread j) = λ j ltj. elim (eq-cases j i) [
        | inl e ↦ rw e (ap rests idle_then, empty_then)
        | inr ne ↦
            subst HasNothing (sym (parts.others j ne ∙ unchanged n i s j ne)) (others j ltj ne)
      ] in
      let (h', r') = solo-Reach n i k s' lt (later r i drain lt) in
      (k, idle_then, none_outstanding r' quiet no_orphans, all_in_queue r' quiet no_orphans)
