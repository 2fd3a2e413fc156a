-- ===== src/Machine/Invariant/Outcome/Defs.antt =====
-- The record that a step of a thread fills, and the contents of the queue under a change.
use lock_free_mpmc_queue.Base.{
  ℕ, zero, suc, ◌+◌, ◌-◌, ◌≤◌, ◌<◌, ◌≡◌, ◌≢◌, true, false, List, [], ◌∷◌, ◌++◌, refl, ap, ◌∙◌, ◌==◌,
  if◌then◌else◌, has, count, arith, ap₂,
}
use lock_free_mpmc_queue.Machine.State.{Ptr, null, Mem, Pc, Act, Label}
use lock_free_mpmc_queue.Machine.Step.{act}
use lock_free_mpmc_queue.Machine.Spec.{Atomic, op_of, slice, contents}
use lock_free_mpmc_queue.Machine.Invariant.Defs.{
  retired, retired_flag, fresh, new_node, Ghost, Knows, Guards, claim, owned_at, todo_at, snapshot,
  visited,
}
use lock_free_mpmc_queue.Machine.Invariant.Change.{Change, aside, freed}

pub record Outcome {V : Type 0} (i : ℕ) (g : Ghost V) (m : Mem V) (pc : Pc V) (bag : List Ptr)
    (a : Act V) : Type 0 where
  pub ghost : Ghost V
  pub change : Change i g m ghost a.mem
  pub knows : Knows ghost a.mem i a.pc
  pub guards : (k : ℕ) → claim a.pc k ≢ null → Guards ghost a.mem i k (claim a.pc k)
  pub newly :
      (k : ℕ) → claim a.pc k ≢ null → claim a.pc k ≢ claim pc k → g.status (claim a.pc k) ≢ retired
  pub nodes :
      ((p : Ptr) → g.status p ≡ fresh i → new_node pc ≡ p)
      → (p : Ptr) → ghost.status p ≡ fresh i
      → new_node a.pc ≡ p
  pub balance :
      (p : Ptr)
      → count p (owned_at a.pc a.bag) + count p a.mem.orphans + retired_flag (g.status p)
        ≡ count p (owned_at pc bag) + count p m.orphans + retired_flag (ghost.status p)
  pub decided :
      (p : Ptr)
      → p ≢ null
      → p ≡ freed change
      → (has p (todo_at pc bag) ≡ true)
        × (has p (snapshot pc) ≡ false)
        × ((j k : ℕ) → visited pc j k ≡ true)
  pub atomic : Atomic (contents g) (op_of pc) a.label (contents ghost) (op_of a.pc)

module _ {V : Type 0} {i : ℕ} {g : Ghost V} {m : Mem V} {pc : Pc V} {bag : List Ptr} where
  -- A step that leaves the nodes and the ends of the queue alone.
  pub writes :
      (s : ℕ → ℕ → Ptr) (o : List Ptr) (r f : ℕ) (pc' : Pc V) (bag' : List Ptr) (l : Label V)
      → let m' : Mem V = record m { slot = s; orphans = o; retired_count = r; freed_count = f } in
        ((p : Ptr)
          → count p (owned_at pc' bag') + count p o ≡ count p (owned_at pc bag) + count p m.orphans)
        → new_node pc' ≡ new_node pc
        → Knows g m' i pc'
        → ((k : ℕ) → claim pc' k ≢ null → Guards g m' i k (claim pc' k))
        → ((k : ℕ)
            → claim pc' k ≢ null
            → claim pc' k ≢ claim pc k
            → g.status (claim pc' k) ≢ retired)
        → Atomic (contents g) (op_of pc) l (contents g) (op_of pc')
        → Outcome i g m pc bag (act m' pc' bag' l)
  writes s o r f pc' bag' l own node kn gu new at = record {
    ghost = g;
    change = aside s o r f;
    knows = kn;
    guards = gu;
    newly = new;
    nodes = λ old p e. node ∙ old p e;
    balance = λ p. omega (arith, own p);
    decided = λ p h e. absurd (h e);
    atomic = at;
  }

  -- A step that writes no shared memory but hazard slots.
  pub quiet :
      (s : ℕ → ℕ → Ptr) (pc' : Pc V) (l : Label V)
      → owned_at pc' bag ≡ owned_at pc bag
      → new_node pc' ≡ new_node pc
      → Knows g (record m { slot = s }) i pc'
      → ((k : ℕ) → claim pc' k ≢ null → Guards g (record m { slot = s }) i k (claim pc' k))
      → ((k : ℕ) → claim pc' k ≢ null → claim pc' k ≢ claim pc k → g.status (claim pc' k) ≢ retired)
      → Atomic (contents g) (op_of pc) l (contents g) (op_of pc')
      → Outcome i g m pc bag (act (record m { slot = s }) pc' bag l)
  quiet s pc' l own = writes s m.orphans m.retired_count m.freed_count pc' bag l (λ p. rw own)

module _ {V : Type 0} where
  slice-congr :
      (f h : ℕ → V) (lo c : ℕ) → ((k : ℕ) → k ≤ lo + c → f k ≡ h k) → slice f lo c ≡ slice h lo c
  unfolding slice
  slice-congr f h lo zero e = refl
  slice-congr f h lo (suc c) e =
      ap₂ ◌∷◌ (e (suc lo) (omega arith)) (slice-congr f h (suc lo) c (λ k l. e k (omega arith)))

  slice-snoc :
      (f : ℕ → V) (lo c k : ℕ) → k ≡ lo + c → slice f lo (suc c) ≡ slice f lo c ++ f (suc k) ∷ []
  unfolding slice
  slice-snoc f lo zero k e = let e' : k ≡ lo = omega arith in rw e'
  slice-snoc f lo (suc c) k e = ap (λ t. f (suc lo) ∷ t) (slice-snoc f (suc lo) c k (omega arith))

  -- A link puts a value behind the others.
  pub contents-links :
      (g : Ghost V) (v : V)
      → g.lo ≤ g.hi
      → slice (λ k. if k == suc g.hi then v else g.item k) g.lo (suc g.hi - g.lo)
        ≡ contents g ++ v ∷ []
  contents-links g v h =
      let item : ℕ → V = λ k. if k == suc g.hi then v else g.item k in
      let width : suc g.hi - g.lo ≡ suc (g.hi - g.lo) = omega arith in
      let newest : item (suc g.hi) ≡ v = ground arith in
      ap (slice item g.lo) width
      ∙ slice-snoc item g.lo (g.hi - g.lo) g.hi (omega arith)
      ∙ ap₂ (λ s w. s ++ w ∷ []) (slice-congr item g.item g.lo (g.hi - g.lo) (λ k l. ground arith))
          newest

  -- The head swings past the first value.
  pub contents-swings_head :
      (g : Ghost V)
      → g.lo < g.hi
      → contents g ≡ g.item (suc g.lo) ∷ slice g.item (suc g.lo) (g.hi - suc g.lo)
  unfolding slice
  contents-swings_head g h =
      let width : g.hi - g.lo ≡ suc (g.hi - suc g.lo) = omega arith in ap (slice g.item g.lo) width

  pub contents-empty : (g : Ghost V) → g.lo ≡ g.hi → contents g ≡ []
  unfolding slice
  contents-empty g h = let width : g.hi - g.lo ≡ 0 = omega arith in ap (slice g.item g.lo) width
