-- ===== src/Machine/Invariant/Snapshot.antt =====
-- The snapshot of a scan: once a slot has been read, its thread relies on no node that the scan
-- may free and did not see there.
use lock_free_mpmc_queue.Base.{
  ℕ, zero, suc, ◌<◌, ◌≤◌, ◌≡◌, ◌≢◌, List, [], ◌∷◌, refl, has-append, arith,
}
use lock_free_mpmc_queue.Machine.State.{
  Ptr, null, slot_count, Mem, swing_head, retire_head, adopt, load_slot, sweep, Pc, enq, deq,
  scanning, Choice,
}
use lock_free_mpmc_queue.Machine.Step.{step}
use lock_free_mpmc_queue.Machine.Invariant.Defs.{claim, Clears}

module _ {V : Type 0} where
  -- A thread uses no slot but the two of its record.
  claim_slots : (pc : Pc V) (k : ℕ) → slot_count ≤ k → claim pc k ≡ null
  claim_slots (enq v p pc) k h = ground arith
  claim_slots (deq (swing_head h nx v)) k l = ground arith
  claim_slots (deq (retire_head h v)) k l = refl
  claim_slots (deq pc) k h = ground arith
  claim_slots pc k h = refl

  -- A thread that scans relies on nothing.
  pub Clears-self : (pc : Pc V) (bag : List Ptr) (j k p : ℕ) → p ≢ null → Clears pc bag pc j k p
  Clears-self (enq v r pc) bag j k p h t s u e = cc
  Clears-self (deq pc) bag j k p h t s u e = cc
  Clears-self pc bag j k p h t s u e = ground arith

  pub step-Clears :
      (n i : ℕ) (c : Choice V) (m : Mem V) (bag : List Ptr) (pc other : Pc V) (j k p : ℕ)
      → p ≢ null
      → j < n
      → (claim other k ≢ null → m.slot j k ≡ claim other k)
      → Clears pc bag other j k p
      → Clears (step n i c m bag pc).pc (step n i c m bag pc).bag other j k p
  unfolding step
  step-Clears n i c m bag (scanning adopt x) other j k p ne lt gu old t s u e = ground arith
  step-Clears n i c m bag (scanning (load_slot zero l hz) x) other j k p ne lt gu old t s u e =
      ground arith
  step-Clears n i c m bag (scanning (load_slot (suc r) l hz) x) other j k p ne lt gu old t s u e =
      ground (arith, claim_slots other k, has-append p hz (m.slot r l ∷ []))
  step-Clears n i c m bag (scanning (sweep hz kept f []) x) other j k p ne lt gu old t s u e =
      ground arith
  step-Clears n i c m bag (scanning (sweep hz kept f (r ∷ todo)) x) other j k p ne lt gu old t s u
        e =
      ground arith
  step-Clears n i c m bag (enq v r pc) other j k p ne lt gu old t s u e = ground arith
  step-Clears n i c m bag (deq pc) other j k p ne lt gu old t s u e = ground arith
  step-Clears n i c m bag pc other j k p ne lt gu old t s u e = ground arith
