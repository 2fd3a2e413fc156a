-- ===== src/Machine/System.antt =====
-- All threads over one memory, interleaved in any order, with the history of calls and returns;
-- and the runs of the specification.
use lock_free_mpmc_queue.Base.{ℕ, ◌<◌, List, [], ◌∷◌, ◌++◌, ◌==◌, update}
use lock_free_mpmc_queue.Machine.State.{Ptr, null, exited, System, Choice, Label, silent, Act}
use lock_free_mpmc_queue.Machine.Step.{step}
use lock_free_mpmc_queue.Machine.Spec.{Op, resting, Atomic}

module _ {V : Type 0} where
  -- What thread `i` of `n` does next.
  abbrev pub act_of : ℕ → ℕ → Choice V → System V → Act V
  act_of n i c s = step n i c s.mem (s.thread i).bag (s.thread i).pc

  abbrev pub advance : ℕ → ℕ → Choice V → System V → System V
  advance n i c s = record {
    mem = (act_of n i c s).mem;
    thread = update s.thread i (record { pc = (act_of n i c s).pc; bag = (act_of n i c s).bag });
  }

  -- The constructor of ms_queue: the dummy node stands at `d`, with the value that T{} is. No
  -- thread has started.
  abbrev pub init : Ptr → V → System V
  init d blank = record {
    mem = record {
      head = d;
      tail = d;
      next = λ _. null;
      value = λ _. blank;
      live = λ p. p == d;
      slot = λ _ _. null;
      orphans = [];
      retired_count = 0;
      freed_count = 0;
    };
    thread = λ _. record { pc = exited; bag = [] };
  }

  -- The visible events, oldest first, each with its thread.
  abbrev pub log : List (ℕ × Label V) → ℕ → Label V → List (ℕ × Label V)
  log h i silent = h
  log h i l = h ++ (i, l) ∷ []

  pub data Reach (n : ℕ) (d : Ptr) (blank : V) : List (ℕ × Label V) → System V → Type 0 where
    start : Reach n d blank [] (init d blank)
    later :
        {h : List (ℕ × Label V)} {s : System V}
        → Reach n d blank h s
        → (i : ℕ) (c : Choice V) → i < n
        → Reach n d blank (log h i (act_of n i c s).label) (advance n i c s)

  -- A run of the specification: every thread's operation takes its steps over one list.
  pub data Runs : List (ℕ × Label V) → List V → (ℕ → Op V) → Type 0 where
    start : Runs [] [] (λ _. resting)
    later :
        {h : List (ℕ × Label V)} {q q' : List V} {ops : ℕ → Op V} {o : Op V} (i : ℕ) (l : Label V)
        → Runs h q ops
        → Atomic q (ops i) l q' o
        → Runs (log h i l) q' (update ops i o)
