-- ===== src/Machine/Invariant/Preserve.antt =====
-- Every step of every thread keeps the invariant.
use lock_free_mpmc_queue.Base.{
  ℕ, ◌+◌, ◌<◌, ◌≡◌, ◌≢◌, inl, inr, true, List, refl, sym, ◌∙◌, has, has-append, count, count_pos,
  sum_below, sum_below-update, le-sum_below, arith, eq-cases,
}
use lock_free_mpmc_queue.Machine.State.{
  Ptr, null, Pc, enq, deq, scanning, load_slot, sweep, Thread, System, Choice,
}
use lock_free_mpmc_queue.Machine.System.{act_of, advance}
use lock_free_mpmc_queue.Machine.Invariant.Defs.{
  fresh, new_node, retired, retired_flag, Ghost, Knows, Guards, claim, owned, owned_at, Inv, Clears,
  todo_at,
}
use lock_free_mpmc_queue.Machine.Invariant.Change.{Change-fresh, freed}
use lock_free_mpmc_queue.Machine.Invariant.Change.Structure.{Change-IsQueue}
use lock_free_mpmc_queue.Machine.Invariant.Outcome.Defs.{Outcome}
use lock_free_mpmc_queue.Machine.Invariant.Outcome.Rest.{step-Outcome}
use lock_free_mpmc_queue.Machine.Invariant.Others.{step-slot, Knows-Change, Guards-Change}
use lock_free_mpmc_queue.Machine.Invariant.Snapshot.{Clears-self, step-Clears}

abbrev pub weigh : {V : Type 0} → Ptr → Thread V → ℕ
weigh p t = count p (owned t)

-- What a scan may free is among what its thread answers for.
todo-owned :
    {V : Type 0} (pc : Pc V) (bag : List Ptr) (p : Ptr)
    → has p (todo_at pc bag) ≡ true
    → has p (owned_at pc bag) ≡ true
todo-owned (enq v r pc) bag p h = cc
todo-owned (deq pc) bag p h = cc
todo-owned (scanning (load_slot r l hz) k) bag p h = h
todo-owned (scanning (sweep hz kept f todo) k) bag p h = ground (arith, has-append p kept todo)
todo-owned pc bag p h = cc

module _ {V : Type 0} {n : ℕ} {g : Ghost V} {s : System V} (inv : Inv n g s) where
  open inv use {queue, knows, guards, ledger, scans}

  -- What a thread answers for is retired.
  pub owes : (j : ℕ) → j < n → (p : Ptr) → has p (owned (s.thread j)) ≡ true → g.status p ≡ retired
  owes j lt p h =
      ground (
        arith,
        count_pos p (owned (s.thread j)) h,
        le-sum_below (weigh p) s.thread j n lt,
        ledger p,
      )

  todo-owes :
      (j : ℕ)
      → j < n
      → (p : Ptr) → has p (todo_at (s.thread j).pc (s.thread j).bag) ≡ true
      → g.status p ≡ retired
  todo-owes j lt p h = owes j lt p (todo-owned (s.thread j).pc (s.thread j).bag p h)

  module _ (i : ℕ) (c : Choice V) (lt : i < n) where
    pub outcome : Outcome i g s.mem (s.thread i).pc (s.thread i).bag (act_of n i c s)
    outcome =
        step-Outcome queue n i c (s.thread i).bag (s.thread i).pc (knows i lt) (λ k. guards i k lt)
          (owes i lt)

    -- A step frees no node that another thread relies on.
    pub spares :
        (j : ℕ)
        → j < n
        → j ≢ i
        → (k : ℕ) → claim (s.thread j).pc k ≢ null
        → claim (s.thread j).pc k ≢ freed outcome.change
    spares j ltj ne k h e =
        let p : Ptr = claim (s.thread j).pc k in
        let (todo, unseen, all) = outcome.decided p h e in
        scans i j k p h lt ltj todo (all j k) unseen refl

    same : (j : ℕ) → j ≢ i → (k : ℕ) → (act_of n i c s).mem.slot j k ≡ s.mem.slot j k
    same j ne k = step-slot n i c s.mem (s.thread i).bag j k ne (s.thread i).pc

    other : (j : ℕ) → j ≢ i → (advance n i c s).thread j ≡ s.thread j
    other j ne = ground arith

    mine :
        (advance n i c s).thread i ≡ record { pc = (act_of n i c s).pc; bag = (act_of n i c s).bag }
    mine = ground arith

    knows' :
        (j : ℕ)
        → j < n
        → Knows outcome.ghost (advance n i c s).mem j ((advance n i c s).thread j).pc
    knows' j ltj = elim (eq-cases j i) [
      | inl e ↦ rw e (rw mine outcome.knows)
      | inr ne ↦ rw (other j ne) (
          Knows-Change outcome.change queue j ne (same j ne) (s.thread j).pc
            (λ k h. (guards j k ltj h).held) (spares j ltj ne) (knows j ltj))
    ]

    guards' :
        (j k : ℕ)
        → j < n
        → claim ((advance n i c s).thread j).pc k ≢ null
        → Guards outcome.ghost (advance n i c s).mem j k (claim ((advance n i c s).thread j).pc k)
    guards' j k ltj = elim (eq-cases j i) [
      | inl e ↦ rw e (rw mine (outcome.guards k))
      | inr ne ↦ rw (other j ne) (
          Guards-Change outcome.change queue j ne (same j ne) (s.thread j).pc (λ k. guards j k ltj)
            (spares j ltj ne) k)
    ]

    ledger' :
        (p : Ptr)
        → sum_below (weigh p) (advance n i c s).thread n + count p (advance n i c s).mem.orphans
          ≡ retired_flag (outcome.ghost.status p)
    ledger' p = omega (
      arith,
      ledger p,
      outcome.balance p,
      sum_below-update (weigh p) s.thread i
          (record { pc = (act_of n i c s).pc; bag = (act_of n i c s).bag }) n lt,
    )

    nodes' :
        (j : ℕ) (p : Ptr)
        → outcome.ghost.status p ≡ fresh j
        → (j < n) × (new_node ((advance n i c s).thread j).pc ≡ p)
    nodes' j p h = elim (eq-cases j i) [
      | inl e ↦ rw e (rw mine (lt, outcome.nodes (λ r st. (inv.nodes i r st).1) p (ground arith)))
      | inr ne ↦ rw (other j ne) (inv.nodes j p (Change-fresh outcome.change j p ne h))
    ]

    -- A claim that is new names no retired node; an old one was cleared before.
    scans_mover :
        (a k : ℕ) (p : Ptr)
        → p ≢ null
        → a < n
        → a ≢ i
        → Clears (s.thread a).pc (s.thread a).bag (act_of n i c s).pc i k p
    scans_mover a k p nz lta ne t u e h =
        let r : g.status p ≡ retired = todo-owes a lta p t in
        elim (eq-cases (claim (act_of n i c s).pc k) (claim (s.thread i).pc k)) [
          | inl old ↦ scans a i k p nz lta lt t u e (sym old ∙ h)
          | inr new ↦ ground (arith, outcome.newly k, queue.no_node)
        ]

    scans_scanner :
        (b k : ℕ) (p : Ptr)
        → p ≢ null
        → b < n
        → b ≢ i
        → Clears (act_of n i c s).pc (act_of n i c s).bag (s.thread b).pc b k p
    scans_scanner b k p nz ltb ne =
        step-Clears n i c s.mem (s.thread i).bag (s.thread i).pc (s.thread b).pc b k p nz ltb
          (λ h. (guards b k ltb h).published) (scans i b k p nz lt ltb)

    scans' :
        (a b k : ℕ) (p : Ptr)
        → p ≢ null
        → a < n
        → b < n
        → Clears
            ((advance n i c s).thread a).pc
            ((advance n i c s).thread a).bag
            ((advance n i c s).thread b).pc
            b
            k
            p
    scans' a b k p nz lta ltb = elim (eq-cases a i) [
      | inl e ↦ elim (eq-cases b i) [
        | inl f ↦
            rw (e, f) (rw mine (Clears-self (act_of n i c s).pc (act_of n i c s).bag i k p nz))
        | inr f ↦ rw e (rw (mine, other b f) (scans_scanner b k p nz ltb f))
      ]
      | inr e ↦ elim (eq-cases b i) [
        | inl f ↦ rw f (rw (mine, other a e) (scans_mover a k p nz lta e))
        | inr f ↦ rw (other a e, other b f) (scans a b k p nz lta ltb)
      ]
    ]

    pub advance-Inv : Inv n outcome.ghost (advance n i c s)
    advance-Inv = record {
      queue = Change-IsQueue outcome.change queue;
      knows = knows';
      guards = guards';
      ledger = ledger';
      nodes = nodes';
      scans = scans';
    }
