-- ===== src/Machine/Invariant/Defs.antt =====
-- The invariant of the machine: where each address stands, the chain of nodes from head_ to the
-- last one linked, what a thread's locals and its hazard slots say of them, and who owes what to
-- the allocator.
use lock_free_mpmc_queue.Base.{
  ℕ, suc, ◌+◌, ◌≤◌, ◌<◌, ◌≡◌, ◌≢◌, ◌⊎◌, Bool, true, false, ◌&&◌, ◌||◌, not, List, [], ◌∷◌, ◌++◌,
  ltb, leb, ◌==◌, if◌then◌else◌, has, count, sum_below,
}
use lock_free_mpmc_queue.Machine.State.{
  Ptr, null, Mem, verify, EnqPc, protect_tail, load_next, check_tail, help, link, swing_tail, DeqPc,
  protect_head, load_tail, read_next, set_next, check_head, help_tail, read_value, swing_head,
  retire_head, load_slot, sweep, Pc, enq, deq, scanning, push_orphans, release, exited, Thread,
  System,
}

-- What an address is: of no use to anyone, a node that thread `i` has not linked yet, the node
-- that was linked as number `k` and not unlinked since, or a node that waits to be freed.
pub data Status : Type 0 where
  free : Status
  fresh : (i : ℕ) → Status
  linked : (k : ℕ) → Status
  retired : Status

-- The nodes and the values in the order of their links. Node `lo` is the dummy, `mid` the one
-- that tail_ names, `hi` the last.
pub record Ghost (V : Type 0) : Type 0 where
  pub node : ℕ → Ptr
  pub item : ℕ → V
  pub lo : ℕ
  pub mid : ℕ
  pub hi : ℕ
  pub status : Ptr → Status

abbrev pub is_free : Status → Bool
is_free free = true
is_free _ = false

-- Linked at some time, and not freed since.
abbrev pub is_held : Status → Bool
is_held (linked k) = true
is_held retired = true
is_held _ = false

abbrev pub retired_flag : Status → ℕ
retired_flag retired = 1
retired_flag _ = 0

abbrev pub enq_claim : EnqPc → Ptr
enq_claim (protect_tail _) = null
enq_claim (load_next tail) = tail
enq_claim (check_tail tail next) = tail
enq_claim (help tail next) = tail
enq_claim (link tail) = tail
enq_claim (swing_tail tail) = tail

module _ {V : Type 0} where
  -- The shared structure.
  pub record IsQueue (g : Ghost V) (m : Mem V) : Type 0 where
    pub order : (g.lo ≤ g.mid) × (g.mid ≤ g.hi)
    pub at_head : m.head ≡ g.node g.lo
    pub at_tail : m.tail ≡ g.node g.mid
    pub placed : (k : ℕ) → g.lo ≤ k → k ≤ g.hi → g.status (g.node k) ≡ linked k
    pub numbered : (p k : ℕ) → g.status p ≡ linked k → (g.lo ≤ k) × (k ≤ g.hi) × (g.node k ≡ p)
    pub chain : (k : ℕ) → g.lo ≤ k → k < g.hi → m.next (g.node k) ≡ g.node (suc k)
    pub last : m.next (g.node g.hi) ≡ null
    pub items : (k : ℕ) → g.lo < k → k ≤ g.hi → m.value (g.node k) ≡ g.item k
    pub alloc : (p : Ptr) → m.live p ≡ not (is_free (g.status p))
    pub no_node : g.status null ≡ free
    pub gone : (p : Ptr) → g.status p ≡ retired → m.next p ≢ null

  -- A node that was head_ when it was checked is so still, or waits to be freed.
  abbrev pub WasHead : Ghost V → Mem V → Ptr → Type 0
  WasHead g m h = (m.head ≡ h) ⊎ (g.status h ≡ retired)

  -- What thread `i` knows of its new node.
  abbrev pub IsFresh : Ghost V → Mem V → ℕ → V → Ptr → Type 0
  IsFresh g m i v n = (g.status n ≡ fresh i) × (m.next n ≡ null) × (m.value n ≡ v)

  abbrev pub KnowsEnq : Ghost V → Mem V → ℕ → V → Ptr → EnqPc → Type 0
  KnowsEnq g m i v n (protect_tail (verify p)) = IsFresh g m i v n × (m.slot i 0 ≡ p)
  KnowsEnq g m i v n (protect_tail _) = IsFresh g m i v n
  KnowsEnq g m i v n (load_next tail) = IsFresh g m i v n × (tail ≢ null)
  KnowsEnq g m i v n (check_tail tail next) =
      IsFresh g m i v n × (tail ≢ null) × (next ≢ null → m.next tail ≡ next)
  KnowsEnq g m i v n (help tail next) =
      IsFresh g m i v n × (tail ≢ null) × (next ≢ null) × (m.next tail ≡ next)
  KnowsEnq g m i v n (link tail) = IsFresh g m i v n × (tail ≢ null)
  KnowsEnq g m i v n (swing_tail tail) = (tail ≢ null) × (n ≢ null) × (m.next tail ≡ n)

  abbrev pub KnowsDeq : Ghost V → Mem V → ℕ → DeqPc V → Type 0
  KnowsDeq g m i (protect_head (verify p)) = m.slot i 0 ≡ p
  KnowsDeq g m i (protect_head _) = Unit
  KnowsDeq g m i (load_tail h) = (h ≢ null) × WasHead g m h
  KnowsDeq g m i (read_next h t) = (h ≢ null) × WasHead g m h × (t ≢ h → m.tail ≢ h)
  KnowsDeq g m i (set_next h t nx) =
      (h ≢ null)
      × WasHead g m h
      × (t ≢ h → m.tail ≢ h)
      × (nx ≢ null → m.next h ≡ nx)
      × (nx ≡ null → t ≡ h)
  KnowsDeq g m i (check_head h t nx) =
      (h ≢ null)
      × WasHead g m h
      × (t ≢ h → m.tail ≢ h)
      × (nx ≢ null → m.next h ≡ nx)
      × (nx ≡ null → t ≡ h)
      × (m.slot i 1 ≡ nx)
  KnowsDeq g m i (help_tail h nx) = (h ≢ null) × WasHead g m h × (nx ≢ null) × (m.next h ≡ nx)
  KnowsDeq g m i (read_value h nx) =
      (h ≢ null) × WasHead g m h × (m.tail ≢ h) × (nx ≢ null) × (m.next h ≡ nx)
  KnowsDeq g m i (swing_head h nx v) =
      (h ≢ null) × WasHead g m h × (m.tail ≢ h) × (nx ≢ null) × (m.next h ≡ nx) × (m.value nx ≡ v)
  KnowsDeq g m i (retire_head h v) = Unit

  abbrev pub Knows : Ghost V → Mem V → ℕ → Pc V → Type 0
  Knows g m i (enq v n pc) = KnowsEnq g m i v n pc
  Knows g m i (deq pc) = KnowsDeq g m i pc
  Knows g m i _ = Unit

  abbrev pub deq_claim : DeqPc V → ℕ → Ptr
  deq_claim (protect_head _) k = null
  deq_claim (load_tail h) k = if k == 0 then h else null
  deq_claim (read_next h t) k = if k == 0 then h else null
  deq_claim (set_next h t nx) k = if k == 0 then h else null
  deq_claim (check_head h t nx) k = if k == 0 then h else null
  deq_claim (help_tail h nx) k = if k == 0 then h else null
  deq_claim (read_value h nx) k = if k == 0 then h else if k == 1 then nx else null
  deq_claim (swing_head h nx v) k = if k == 0 then h else if k == 1 then nx else null
  deq_claim (retire_head h v) k = null

  -- The node that a thread relies on its hazard slot `k` to keep; null if none.
  abbrev pub claim : Pc V → ℕ → Ptr
  claim (enq v n pc) k = if k == 0 then enq_claim pc else null
  claim (deq pc) k = deq_claim pc k
  claim _ k = null

  -- The node that a thread has made and not linked yet; null if none.
  abbrev pub new_node : Pc V → Ptr
  new_node (enq v n (swing_tail tail)) = null
  new_node (enq v n _) = n
  new_node _ = null

  pub record Guards (g : Ghost V) (m : Mem V) (i k p : ℕ) : Type 0 where
    pub published : m.slot i k ≡ p
    pub held : is_held (g.status p) ≡ true

  -- The retired nodes that a thread answers for.
  abbrev pub owned_at : Pc V → List Ptr → List Ptr
  owned_at (deq (retire_head h v)) bag = h ∷ bag
  owned_at (scanning (sweep hz kept freed todo) k) bag = kept ++ todo
  owned_at (push_orphans todo) bag = todo
  owned_at (release k) bag = []
  owned_at exited bag = []
  owned_at _ bag = bag

  abbrev pub owned : Thread V → List Ptr
  owned t = owned_at t.pc t.bag

  -- The part of a scan: what it still has to decide, the slots that it has read, what they held.
  abbrev pub todo_at : Pc V → List Ptr → List Ptr
  todo_at (scanning (load_slot r l hz) k) bag = bag
  todo_at (scanning (sweep hz kept freed todo) k) bag = todo
  todo_at _ bag = []

  abbrev pub visited : Pc V → ℕ → ℕ → Bool
  visited (scanning (load_slot r l hz) c) j k = leb r j || ((suc j == r) && ltb k l)
  visited _ j k = true

  abbrev pub snapshot : Pc V → List Ptr
  snapshot (scanning (load_slot r l hz) k) = hz
  snapshot (scanning (sweep hz kept freed todo) k) = hz
  snapshot _ = []

  -- Whether slot `k` of record `j`, if it was read, was seen to keep `p`: a scan of `pc` that may
  -- free `p` knows that thread `j` does not rely on it.
  abbrev pub Clears : Pc V → List Ptr → Pc V → ℕ → ℕ → Ptr → Type 0
  Clears pc bag other j k p =
      has p (todo_at pc bag) ≡ true
      → visited pc j k ≡ true
      → has p (snapshot pc) ≡ false
      → claim other k ≢ p

  pub record Inv (n : ℕ) (g : Ghost V) (s : System V) : Type 0 where
    pub queue : IsQueue g s.mem
    pub knows : (j : ℕ) → j < n → Knows g s.mem j (s.thread j).pc
    pub guards :
        (j k : ℕ)
        → j < n
        → claim (s.thread j).pc k ≢ null
        → Guards g s.mem j k (claim (s.thread j).pc k)
    pub ledger :
        (p : Ptr)
        → sum_below (λ t. count p (owned t)) s.thread n + count p s.mem.orphans
          ≡ retired_flag (g.status p)
    pub nodes : (j : ℕ) (p : Ptr) → g.status p ≡ fresh j → (j < n) × (new_node (s.thread j).pc ≡ p)
    pub scans :
        (i j k : ℕ) (p : Ptr)
        → p ≢ null
        → i < n
        → j < n
        → Clears (s.thread i).pc (s.thread i).bag (s.thread j).pc j k p
