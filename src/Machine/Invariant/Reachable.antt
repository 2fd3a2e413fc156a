-- ===== src/Machine/Invariant/Reachable.antt =====
-- The invariant holds at the start, and so in every state that the threads reach.
use lock_free_mpmc_queue.Base.{ℕ, ◌≢◌, List, refl, ◌==◌, if◌then◌else◌, sum_below-zero, arith}
use lock_free_mpmc_queue.Machine.State.{Ptr, null, System, Label}
use lock_free_mpmc_queue.Machine.System.{init, Reach, start, later}
use lock_free_mpmc_queue.Machine.Invariant.Defs.{free, linked, Ghost, Inv}
use lock_free_mpmc_queue.Machine.Invariant.Preserve.{weigh, outcome, advance-Inv}

-- The ghost of the start: the dummy is number 0.
abbrev pub init_ghost : {V : Type 0} → Ptr → V → Ghost V
init_ghost d blank = record {
  node = λ _. d;
  item = λ _. blank;
  lo = 0;
  mid = 0;
  hi = 0;
  status = λ p. if p == d then linked 0 else free;
}

module _ {V : Type 0} (n : ℕ) (d : Ptr) (blank : V) (real : d ≢ null) where
  pub init-Inv : Inv n (init_ghost d blank) (init d blank)
  init-Inv = record {
    queue = record {
      order = omega arith;
      at_head = refl;
      at_tail = refl;
      placed = λ k h l. ground arith;
      numbered = λ p k h. ground arith;
      chain = λ k h l. ground arith;
      last = refl;
      items = λ k h l. refl;
      alloc = λ p. ground arith;
      no_node = ground arith;
      gone = λ p h. ground arith;
    };
    knows = λ j h. tt;
    guards = λ j k h l. absurd (l refl);
    ledger = λ p. ground (arith, sum_below-zero (weigh p) (init d blank).thread n (λ _. refl));
    nodes = λ j p h. ground arith;
    scans = λ i j k p ne h l t. cc;
  }

  -- A state that the threads can reach has the invariant.
  pub Reach-Inv :
      {h : List (ℕ × Label V)} {s : System V} → Reach n d blank h s → (g : Ghost V) × Inv n g s
  Reach-Inv start = (init_ghost d blank, init-Inv)
  Reach-Inv (later r i c lt) =
      let (g, inv) = Reach-Inv r in ((outcome inv i c lt).ghost, advance-Inv inv i c lt)
