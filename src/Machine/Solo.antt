-- ===== src/Machine/Solo.antt =====
-- A thread that runs alone (include/lfq/ms_queue.hpp, include/lfq/hazard_pointer.hpp): no other
-- thread takes a step, and no compare-exchange fails for no reason.
use lock_free_mpmc_queue.Base.{ℕ, zero, suc, ◌≡◌, Bool, true, false, sym, subst, List}
use lock_free_mpmc_queue.Machine.State.{Ptr, Mem, Pc, idle, exited, go, silent, Act}
use lock_free_mpmc_queue.Machine.Step.{step}
pub mod Scan
pub mod Operations
pub mod Progress
pub mod Drain
pub mod Quiet

module _ {V : Type 0} where
  -- Whether a thread is in no operation.
  abbrev pub rests : Pc V → Bool
  rests idle = true
  rests exited = true
  rests _ = false

module _ {V : Type 0} (n i : ℕ) where
  -- What `k` steps of thread `i` of `n` leave behind.
  unfoldable pub alone_act : ℕ → Mem V → List Ptr → Pc V → Act V
  unfolding step
  alone_act zero m b pc = record { mem = m; pc = pc; bag = b; label = silent }
  alone_act (suc k) m b pc = let a = step n i go m b pc in alone_act k a.mem a.bag a.pc

  -- Where it stands after them.
  unfoldable pub alone : ℕ → Mem V → List Ptr → Pc V → Pc V
  unfolding alone_act
  alone k m b pc = (alone_act k m b pc).pc

  pub one_step :
      (Q : Act V → Type 0) (m : Mem V) (b : List Ptr) (pc : Pc V) (a : Act V)
      → step n i go m b pc ≡ a
      → (k : ℕ) × Q (alone_act k a.mem a.bag a.pc)
      → (k : ℕ) × Q (alone_act k m b pc)
  unfolding alone_act
  one_step Q m b pc a e (k, q) = (suc k, subst (λ x. Q (alone_act k x.mem x.bag x.pc)) (sym e) q)

  abbrev pub Ends : Mem V → List Ptr → Pc V → Type 0
  Ends m b pc = (k : ℕ) × (rests (alone k m b pc) ≡ true)

  pub one_more :
      (m : Mem V) (b : List Ptr) (pc : Pc V) (a : Act V)
      → step n i go m b pc ≡ a
      → Ends a.mem a.bag a.pc
      → Ends m b pc
  unfolding alone
  one_more m b pc a e ends = one_step (λ x. rests x.pc ≡ true) m b pc a e ends

  pub at_rest : (m : Mem V) (b : List Ptr) (pc : Pc V) → rests pc ≡ true → Ends m b pc
  unfolding alone
  at_rest m b pc e = (0, e)
