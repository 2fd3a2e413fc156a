-- ===== src/Orphans/Stack.antt =====
-- push_orphan, as ~tl_cache calls it, and adopt_orphans of hp_domain
-- (include/lfq/hazard_pointer.hpp), an access at a time by threads in any order.
use lock_free_mpmc_queue.Base.{
  ℕ, ◌<◌, Bool, true, false, ◌&&◌, ◌||◌, not, List, [], ◌∷◌, ◌++◌, ◌==◌, if◌then◌else◌, update,
}

-- orphans_, and the nodes by address, 0 for null: `item` is what the retired item names.
pub record Orphans : Type 0 where
  pub top : ℕ
  pub next : ℕ → ℕ
  pub item : ℕ → ℕ
  pub live : ℕ → Bool

-- Where a thread stands, with its retire list: outside; in push_orphan of `p` before its node is made,
-- or before a compare-exchange with its node; in the loop of adopt_orphans.
pub data OrphanPc : Type 0 where
  rests : (bag : List ℕ) → OrphanPc
  make : (p : ℕ) (bag : List ℕ) → OrphanPc
  swap : (o : ℕ) (bag : List ℕ) → OrphanPc
  adopting : (o : ℕ) (bag : List ℕ) → OrphanPc

-- The environment: `new` returns an address; a weak compare-exchange fails for no reason; a thread
-- retires a node, pushes the first item of its list, or takes the orphans over.
pub data OrphanChoice : Type 0 where
  go : OrphanChoice
  fail : OrphanChoice
  allocate : ℕ → OrphanChoice
  retire : ℕ → OrphanChoice
  push : OrphanChoice
  adopt : OrphanChoice

pub record OrphanAct : Type 0 where
  pub shared : Orphans
  pub pc : OrphanPc

pub record OrphanSystem : Type 0 where
  pub shared : Orphans
  pub pc : ℕ → OrphanPc

abbrev pub then_at : Orphans → OrphanPc → OrphanAct
then_at m pc = record { shared = m; pc = pc }

abbrev pub is_fail : OrphanChoice → Bool
is_fail fail = true
is_fail _ = false

-- The next item of the loop in ~tl_cache.
abbrev pub push_first : List ℕ → OrphanPc
push_first [] = rests []
push_first (p ∷ bag) = make p bag

abbrev pub starts : Orphans → OrphanChoice → List ℕ → OrphanAct
starts m (retire p) bag = then_at m (rests (bag ++ p ∷ []))
starts m push bag = then_at m (push_first bag)
starts m adopt bag = then_at (record m { top = 0 }) (adopting m.top bag)
starts m c bag = then_at m (rests bag)

-- `new orphan`, whose `next` is what orphans_ holds: the address is not null and not in use.
abbrev pub new_orphan : Orphans → OrphanChoice → ℕ → List ℕ → OrphanAct
new_orphan m (allocate a) p bag =
    if a == 0 || m.live a
    then then_at m (make p bag)
    else then_at
        (record m {
          live = update m.live a true;
          item = update m.item a p;
          next = update m.next a m.top;
        })
        (swap a bag)
new_orphan m c p bag = then_at m (make p bag)

unfoldable pub orphan_step : OrphanChoice → Orphans → OrphanPc → OrphanAct
orphan_step c m (rests bag) = starts m c bag
orphan_step c m (make p bag) = new_orphan m c p bag
-- A compare-exchange that fails writes what it has read to `next`.
orphan_step c m (swap o bag) =
    if m.top == m.next o && not (is_fail c)
    then then_at (record m { top = o }) (rests bag)
    else then_at (record m { next = update m.next o m.top }) (swap o bag)
orphan_step c m (adopting o bag) =
    if o == 0
    then then_at m (rests bag)
    else then_at (record m { live = update m.live o false })
        (adopting (m.next o) (bag ++ m.item o ∷ []))

abbrev pub orphan_act : ℕ → OrphanChoice → OrphanSystem → OrphanAct
orphan_act i c s = orphan_step c s.shared (s.pc i)

abbrev pub orphan_advance : ℕ → OrphanChoice → OrphanSystem → OrphanSystem
orphan_advance i c s = record {
  shared = (orphan_act i c s).shared;
  pc = update s.pc i (orphan_act i c s).pc;
}

abbrev pub orphan_init : OrphanSystem
orphan_init = record {
  shared = record { top = 0; next = λ _. 0; item = λ _. 0; live = λ _. false };
  pc = λ _. rests [];
}

-- The item that a step adds to the retire list of its thread.
abbrev pub retires : OrphanPc → OrphanChoice → List ℕ
retires (rests bag) (retire p) = p ∷ []
retires _ _ = []

-- What `n` threads can reach, with what they have retired.
pub data OrphanReach (n : ℕ) : List ℕ → OrphanSystem → Type 0 where
  start : OrphanReach n [] orphan_init
  later :
      {given : List ℕ} {s : OrphanSystem}
      → OrphanReach n given s
      → (i : ℕ) (c : OrphanChoice) → i < n
      → OrphanReach n (retires (s.pc i) c ++ given) (orphan_advance i c s)
