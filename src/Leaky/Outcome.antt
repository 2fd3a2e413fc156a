-- ===== src/Leaky/Outcome.antt =====
-- What a step of a thread of ms_queue_m (model/queue_model.hpp) does to the shared structure. What
-- a thread knows is what it knows at the same place of the machine with hazard pointers.
use lock_free_mpmc_queue.Base.{
  ℕ, ◌+◌, ◌≡◌, ◌≢◌, true, List, refl, ◌∙◌, ◌==◌, if◌then◌else◌, count, arith,
}
use lock_free_mpmc_queue.Machine.State as M
use lock_free_mpmc_queue.Machine.State.{Ptr, null, Mem, Pc}
use lock_free_mpmc_queue.Machine.Spec.{Atomic, op_of, contents}
use lock_free_mpmc_queue.Machine.Invariant.Defs.{
  retired_flag, fresh, new_node, Ghost, is_held, IsQueue, Knows, claim,
}
use lock_free_mpmc_queue.Machine.Invariant.Change.{Change, aside, freed}
use lock_free_mpmc_queue.Leaky.Queue.{
  LeakyEnqPc, load_tail, load_next, check_tail, help, link, swing_tail, LeakyDeqPc, load_head,
  see_tail, read_next, check_head, help_tail, read_value, swing_head, retire_head, LeakyPc, idle,
  enq, deq, returning, LeakyAct, at,
}
pub mod Enqueue
pub mod Dequeue
pub mod Step

-- The same place of the machine with hazard pointers.
abbrev pub enq_place : LeakyEnqPc → M.EnqPc
enq_place load_tail = M.protect_tail M.load
enq_place (load_next t) = M.load_next t
enq_place (check_tail t x) = M.check_tail t x
enq_place (help t x) = M.help t x
enq_place (link t) = M.link t
enq_place (swing_tail t) = M.swing_tail t

module _ {V : Type 0} where
  abbrev pub deq_place : LeakyDeqPc V → M.DeqPc V
  deq_place load_head = M.protect_head M.load
  deq_place (see_tail h) = M.load_tail h
  deq_place (read_next h t) = M.read_next h t
  deq_place (check_head h t x) = M.set_next h t x
  deq_place (help_tail h x) = M.help_tail h x
  deq_place (read_value h x) = M.read_value h x
  deq_place (swing_head h x v) = M.swing_head h x v
  deq_place (retire_head h v) = M.retire_head h v

  abbrev pub place : LeakyPc V → Pc V
  place idle = M.idle
  place (enq v n pc) = M.enq v n (enq_place pc)
  place (deq pc) = M.deq (deq_place pc)
  place (returning r) = M.unguard 0 r

  -- A node that the thread has unlinked and not put in junk_ yet.
  abbrev pub in_hand : Ptr → LeakyPc V → ℕ
  in_hand p (deq (retire_head h v)) = if h == p then 1 else 0
  in_hand p _ = 0

  abbrev pub HeldAt : Ghost V → Pc V → Type 0
  HeldAt g pc = (k : ℕ) → claim pc k ≢ null → is_held (g.status (claim pc k)) ≡ true

  pub record LeakyOutcome (i : ℕ) (g : Ghost V) (m : Mem V) (junk : List Ptr) (pc : LeakyPc V)
      (a : LeakyAct V) : Type 0 where
    pub ghost : Ghost V
    pub change : Change i g m ghost a.mem
    pub frees_none : freed change ≡ null
    pub knows : Knows ghost a.mem i (place a.pc)
    pub held : HeldAt ghost (place a.pc)
    pub nodes :
        ((p : Ptr) → g.status p ≡ fresh i → new_node (place pc) ≡ p)
        → (p : Ptr) → ghost.status p ≡ fresh i
        → new_node (place a.pc) ≡ p
    pub balance :
        (p : Ptr)
        → in_hand p a.pc + count p a.junk + retired_flag (g.status p)
          ≡ in_hand p pc + count p junk + retired_flag (ghost.status p)
    pub atomic :
        Atomic (contents g) (op_of (place pc)) a.label (contents ghost) (op_of (place a.pc))

module _ {V : Type 0} {g : Ghost V} {m : Mem V} (q : IsQueue g m) (i : ℕ) (junk : List Ptr) where
  -- A step that writes nothing.
  looks :
      {pc : LeakyPc V} (pc' : LeakyPc V)
      → ((p : Ptr) → in_hand p pc' ≡ in_hand p pc)
      → new_node (place pc') ≡ new_node (place pc)
      → Knows g m i (place pc')
      → HeldAt g (place pc')
      → Atomic (contents g) (op_of (place pc)) M.silent (contents g) (op_of (place pc'))
      → LeakyOutcome i g m junk pc (at m junk pc')
  looks pc' hand node kn held atomic = record {
    ghost = g;
    change = aside m.slot m.orphans m.retired_count m.freed_count;
    frees_none = refl;
    knows = kn;
    held = held;
    nodes = λ old p e. node ∙ old p e;
    balance = λ p. omega (arith, hand p);
    atomic = atomic;
  }
