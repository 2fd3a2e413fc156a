-- ===== src/Leaky/Invariant.antt =====
-- The invariant of ms_queue_m (model/queue_model.hpp), at the start and under every step.
use lock_free_mpmc_queue.Base.{
  ℕ, ◌+◌, ◌<◌, ◌≡◌, ◌≢◌, inl, inr, List, refl, ◌∙◌, count, sum_below, sum_below-update,
  sum_below-zero, arith, eq-cases,
}
use lock_free_mpmc_queue.Machine.State.{Ptr, null, Mem, Label}
use lock_free_mpmc_queue.Machine.Invariant.Defs.{
  fresh, new_node, retired_flag, Ghost, IsQueue, Knows, claim,
}
use lock_free_mpmc_queue.Machine.Invariant.Change.{freed, Change-fresh}
use lock_free_mpmc_queue.Machine.Invariant.Change.Structure.{Change-IsQueue}
use lock_free_mpmc_queue.Machine.Invariant.Others.{Knows-Change, keep}
use lock_free_mpmc_queue.Machine.Invariant.Reachable.{init-Inv, init_ghost}
use lock_free_mpmc_queue.Leaky.Queue.{
  LeakyPc, idle, enq, deq, returning, LeakyChoice, LeakySystem, leaky_step, leaky_act,
  leaky_advance, leaky_init, LeakyReach, start, later,
}
use lock_free_mpmc_queue.Leaky.Outcome.{place, in_hand, HeldAt, LeakyOutcome}
use lock_free_mpmc_queue.Leaky.Outcome.Step.{step-LeakyOutcome}

module _ {V : Type 0} where
  step-slot :
      (c : LeakyChoice V) (m : Mem V) (junk : List Ptr) (pc : LeakyPc V) (j k : ℕ)
      → (leaky_step c m junk pc).mem.slot j k ≡ m.slot j k
  unfolding leaky_step
  step-slot c m junk idle j k = ground arith
  step-slot c m junk (enq v n pc) j k = ground arith
  step-slot c m junk (deq pc) j k = ground arith
  step-slot c m junk (returning r) j k = refl

  pub record LeakyInv (n : ℕ) (g : Ghost V) (s : LeakySystem V) : Type 0 where
    pub queue : IsQueue g s.mem
    pub knows : (j : ℕ) → j < n → Knows g s.mem j (place (s.pc j))
    pub held : (j : ℕ) → j < n → HeldAt g (place (s.pc j))
    pub ledger :
        (p : Ptr) → sum_below (in_hand p) s.pc n + count p s.junk ≡ retired_flag (g.status p)
    pub nodes : (j : ℕ) (p : Ptr) → g.status p ≡ fresh j → (j < n) × (new_node (place (s.pc j)) ≡ p)

module _ {V : Type 0} {n : ℕ} {g : Ghost V} {s : LeakySystem V} (inv : LeakyInv n g s) (i : ℕ)
    (c : LeakyChoice V) (lt : i < n) where
  pub outcome : LeakyOutcome i g s.mem s.junk (s.pc i) (leaky_act i c s)
  outcome = step-LeakyOutcome inv.queue i s.junk c (s.pc i) (inv.knows i lt) (inv.held i lt)

  same : (j k : ℕ) → (leaky_act i c s).mem.slot j k ≡ s.mem.slot j k
  same j k = step-slot c s.mem s.junk (s.pc i) j k

  spares :
      (j k : ℕ) → claim (place (s.pc j)) k ≢ null → claim (place (s.pc j)) k ≢ freed outcome.change
  spares j k h e = h (e ∙ outcome.frees_none)

  other : (j : ℕ) → j ≢ i → (leaky_advance i c s).pc j ≡ s.pc j
  other j ne = ground arith

  mine : (leaky_advance i c s).pc i ≡ (leaky_act i c s).pc
  mine = ground arith

  pub advance-LeakyInv : LeakyInv n outcome.ghost (leaky_advance i c s)
  advance-LeakyInv = record {
    queue = Change-IsQueue outcome.change inv.queue;
    knows = λ j ltj. elim (eq-cases j i) [
      | inl e ↦ rw e (rw mine outcome.knows)
      | inr ne ↦ rw (other j ne) (
          Knows-Change outcome.change inv.queue j ne (same j) (place (s.pc j)) (inv.held j ltj)
            (spares j) (inv.knows j ltj))
    ];
    held = λ j ltj. elim (eq-cases j i) [
      | inl e ↦ rw e (rw mine outcome.held)
      | inr ne ↦ rw (other j ne) (λ k h.
          (keep outcome.change inv.queue j ne (same j) (place (s.pc j)) (inv.held j ltj) (spares j)
            k h).held)
    ];
    ledger = λ p. omega (
      arith,
      inv.ledger p,
      outcome.balance p,
      sum_below-update (in_hand p) s.pc i (leaky_act i c s).pc n lt,
    );
    nodes = λ j p h. elim (eq-cases j i) [
      | inl e ↦ rw e (rw mine (lt, outcome.nodes (λ r st. (inv.nodes i r st).1) p (ground arith)))
      | inr ne ↦ rw (other j ne) (inv.nodes j p (Change-fresh outcome.change j p ne h))
    ];
  }

module _ {V : Type 0} (n : ℕ) (d : Ptr) (blank : V) (real : d ≢ null) where
  pub init-LeakyInv : LeakyInv n (init_ghost d blank) (leaky_init d blank)
  init-LeakyInv = record {
    queue = (init-Inv n d blank real).queue;
    knows = λ j h. tt;
    held = λ j h k l. absurd (l refl);
    ledger = λ p. ground (arith, sum_below-zero (in_hand p) (leaky_init d blank).pc n (λ _. refl));
    nodes = λ j p h. ground arith;
  }

  pub LeakyReach-LeakyInv :
      {h : List (ℕ × Label V)} {s : LeakySystem V}
      → LeakyReach n d blank h s
      → (g : Ghost V) × LeakyInv n g s
  LeakyReach-LeakyInv start = (init_ghost d blank, init-LeakyInv)
  LeakyReach-LeakyInv (later r i c lt) =
      let (g, inv) = LeakyReach-LeakyInv r in
      ((outcome inv i c lt).ghost, advance-LeakyInv inv i c lt)
