-- ===== src/Machine/Invariant/Others.antt =====
-- What thread `j` knows and relies on survives a step of thread `i`.
use lock_free_mpmc_queue.Base.{ℕ, ◌≡◌, ◌≢◌, true, List, arith}
use lock_free_mpmc_queue.Machine.State.{
  Ptr, null, Mem, EnqPc, protect_tail, load_next, check_tail, help, link, swing_tail, DeqPc,
  protect_head, load_tail, read_next, set_next, check_head, help_tail, read_value, swing_head,
  retire_head, load, publish, verify, load_slot, sweep, Pc, idle, enq, deq, scanning, Choice,
}
use lock_free_mpmc_queue.Machine.Step.{step}
use lock_free_mpmc_queue.Machine.Invariant.Defs.{
  Ghost, is_held, IsQueue, IsFresh, Knows, KnowsEnq, KnowsDeq, Guards, claim,
}
use lock_free_mpmc_queue.Machine.Invariant.Change.{
  Change, aside, makes, links, swings_tail, swings_head, frees, freed, Keeps, Change-Keeps,
}

module _ {V : Type 0} (n i : ℕ) (c : Choice V) (m : Mem V) (bag : List Ptr) (j k : ℕ)
    (ne : j ≢ i) where
  -- A thread writes its own hazard slots only.
  pub step-slot : (pc : Pc V) → (step n i c m bag pc).mem.slot j k ≡ m.slot j k
  unfolding step
  step-slot idle = ground arith
  step-slot (enq v p (protect_tail pc)) = ground arith
  step-slot (enq v p pc) = ground arith
  step-slot (deq (protect_head pc)) = ground arith
  step-slot (deq pc) = ground arith
  step-slot (scanning (load_slot r l hz) x) = ground arith
  step-slot (scanning (sweep hz kept f todo) x) = ground arith
  step-slot (scanning pc x) = ground arith
  step-slot pc = ground arith

module _ {V : Type 0} where
  pub Change-IsFresh :
      {i : ℕ} {g : Ghost V} {m : Mem V} {g' : Ghost V} {m' : Mem V} {j : ℕ} {v : V} {p : Ptr}
      → Change i g m g' m'
      → IsQueue g m
      → j ≢ i
      → IsFresh g m j v p
      → IsFresh g' m' j v p
  Change-IsFresh (aside s o r f) q ne h = h
  Change-IsFresh (makes p v a b) q ne h = ground arith
  Change-IsFresh (links p r v a b d e f) q ne h = ground arith
  Change-IsFresh (swings_tail r a b) q ne h = h
  Change-IsFresh {g} (swings_head r a b d) q ne h =
      ground (arith, q.at_head, q.order, q.placed g.lo)
  Change-IsFresh (frees p a) q ne h = ground arith

module _ {V : Type 0} {i : ℕ} {g : Ghost V} {m : Mem V} {g' : Ghost V} {m' : Mem V}
    (c : Change i g m g' m') (q : IsQueue g m) (j : ℕ) (ne : j ≢ i)
    (same : (k : ℕ) → m'.slot j k ≡ m.slot j k) where
  -- Neither of the nodes that thread `j` relies on is given back.
  abbrev pub Spares : Pc V → Type 0
  Spares pc = (k : ℕ) → claim pc k ≢ null → claim pc k ≢ freed c

  abbrev pub Guarded : Pc V → Type 0
  Guarded pc = (k : ℕ) → claim pc k ≢ null → Guards g m j k (claim pc k)

  abbrev pub Held : Pc V → Type 0
  Held pc = (k : ℕ) → claim pc k ≢ null → is_held (g.status (claim pc k)) ≡ true

  pub keep :
      (pc : Pc V) → Held pc → Spares pc → (k : ℕ) → claim pc k ≢ null → Keeps g m g' m' (claim pc k)
  keep pc gu sp k h = Change-Keeps c q (claim pc k) (gu k h) (sp k h)

  pub Guards-Change :
      (pc : Pc V)
      → Guarded pc
      → Spares pc
      → (k : ℕ) → claim pc k ≢ null
      → Guards g' m' j k (claim pc k)
  Guards-Change pc gu sp k h = record {
    published = ground (arith, same k, gu k);
    held = (keep pc (λ l x. (gu l x).held) sp k h).held;
  }

  KnowsEnq-Change :
      (v : V) (p : Ptr) (pc : EnqPc)
      → Held (enq v p pc)
      → Spares (enq v p pc)
      → KnowsEnq g m j v p pc
      → KnowsEnq g' m' j v p pc
  KnowsEnq-Change v p (protect_tail load) gu sp kn = Change-IsFresh c q ne kn
  KnowsEnq-Change v p (protect_tail (publish r)) gu sp kn = Change-IsFresh c q ne kn
  KnowsEnq-Change v p (protect_tail (verify r)) gu sp kn =
      (Change-IsFresh c q ne kn.0, ground (arith, same 0))
  KnowsEnq-Change v p (load_next t) gu sp kn = (Change-IsFresh c q ne kn.0, kn.1)
  KnowsEnq-Change v p (check_tail t x) gu sp kn = (
    Change-IsFresh c q ne kn.0,
    kn.1,
    λ h. ground (arith, keep (enq v p (check_tail t x)) gu sp 0 kn.1, kn.2 h),
  )
  KnowsEnq-Change v p (help t x) gu sp kn = (
    Change-IsFresh c q ne kn.0,
    kn.1,
    kn.2,
    ground (arith, keep (enq v p (help t x)) gu sp 0 kn.1),
  )
  KnowsEnq-Change v p (link t) gu sp kn = (Change-IsFresh c q ne kn.0, kn.1)
  KnowsEnq-Change v p (swing_tail t) gu sp kn =
      (kn.0, kn.1, ground (arith, keep (enq v p (swing_tail t)) gu sp 0 kn.0))

  KnowsDeq-Change :
      (pc : DeqPc V) → Held (deq pc) → Spares (deq pc) → KnowsDeq g m j pc → KnowsDeq g' m' j pc
  KnowsDeq-Change (protect_head load) gu sp kn = tt
  KnowsDeq-Change (protect_head (publish p)) gu sp kn = tt
  KnowsDeq-Change (protect_head (verify p)) gu sp kn = ground (arith, same 0)
  KnowsDeq-Change (retire_head h v) gu sp kn = tt
  KnowsDeq-Change (swing_head h nx v) gu sp kn =
      let k0 = keep (deq (swing_head h nx v)) gu sp 0 kn.0 in
      let k1 = keep (deq (swing_head h nx v)) gu sp 1 kn.3 in
      (kn.0, k0.was_head kn.1, k0.past kn.1 kn.2, kn.3, ground arith, ground arith)
  KnowsDeq-Change (load_tail h) gu sp kn =
      let k0 = keep (deq (load_tail h)) gu sp 0 kn.0 in (kn.0, k0.was_head kn.1)
  KnowsDeq-Change (read_next h t) gu sp kn =
      let k0 = keep (deq (read_next h t)) gu sp 0 kn.0 in
      (kn.0, k0.was_head kn.1, λ d. k0.past kn.1 (kn.2 d))
  KnowsDeq-Change (set_next h t nx) gu sp kn =
      let k0 = keep (deq (set_next h t nx)) gu sp 0 kn.0 in
      (kn.0, k0.was_head kn.1, λ d. k0.past kn.1 (kn.2 d), λ d. ground (arith, kn.3 d), kn.4)
  KnowsDeq-Change (check_head h t nx) gu sp kn =
      let k0 = keep (deq (check_head h t nx)) gu sp 0 kn.0 in
      (
        kn.0,
        k0.was_head kn.1,
        λ d. k0.past kn.1 (kn.2 d),
        λ d. ground (arith, kn.3 d),
        kn.4,
        ground (arith, same 1),
      )
  KnowsDeq-Change (help_tail h nx) gu sp kn =
      let k0 = keep (deq (help_tail h nx)) gu sp 0 kn.0 in
      (kn.0, k0.was_head kn.1, kn.2, ground arith)
  KnowsDeq-Change (read_value h nx) gu sp kn =
      let k0 = keep (deq (read_value h nx)) gu sp 0 kn.0 in
      (kn.0, k0.was_head kn.1, k0.past kn.1 kn.2, kn.3, ground arith)

  pub Knows-Change : (pc : Pc V) → Held pc → Spares pc → Knows g m j pc → Knows g' m' j pc
  Knows-Change (enq v p pc) gu sp kn = KnowsEnq-Change v p pc gu sp kn
  Knows-Change (deq pc) gu sp kn = KnowsDeq-Change pc gu sp kn
  Knows-Change pc gu sp kn = tt
