-- ===== src/Registry/Acquire.antt =====
-- local_record and acquire_record of hp_domain, what a thread publishes in the slots of its record,
-- the snapshot of scan, and the release of a record at thread exit
-- (include/lfq/hazard_pointer.hpp), an access at a time by threads in any order.
use lock_free_mpmc_queue.Base.{
  ℕ, ◌+◌, ◌%◌, ◌^◌, ◌<◌, Bool, true, false, ◌&&◌, ◌||◌, not, Option, none, some, List, [], ◌∷◌,
  ◌++◌, ltb, ◌==◌, if◌then◌else◌, update,
}

-- The records by address, 0 for null: head_, nrecords_, and of each record whether it was made, and
-- its fields `active`, `next` and `slot`.
pub record Records : Type 0 where
  pub head : ℕ
  pub nrecords : ℕ
  pub made : ℕ → Bool
  pub active : ℕ → Bool
  pub next : ℕ → ℕ
  pub slot : ℕ → ℕ → ℕ

-- Where a thread stands: without a record, in the walk of acquire_record before the exchange of `r`,
-- at its end, with a new record that is not linked yet, with its record, in its release before the
-- store to slot `k`, or in the snapshot of a scan: before the load of head_, before the load of slot
-- `k` of record `r`, or behind it, with the record that the thread has.
pub data RecordPc : Type 0 where
  without : RecordPc
  load_head : RecordPc
  claim : (r : ℕ) → RecordPc
  make : RecordPc
  add_record : (r : ℕ) → RecordPc
  load_link : (r : ℕ) → RecordPc
  link : (r h : ℕ) → RecordPc
  owns : (r : ℕ) → RecordPc
  clear : (r k : ℕ) → RecordPc
  scan_head : (mine : Option ℕ) → RecordPc
  visit : (mine : Option ℕ) (r k : ℕ) (hazards : List ℕ) → RecordPc
  collected : (mine : Option ℕ) (hazards : List ℕ) → RecordPc

-- The environment: a thread goes on, or it exits; `new` returns an address; a weak compare-exchange
-- fails for no reason; a thread stores to a slot of its record, as guard::protect, guard::set and
-- ~guard do, or scans.
pub data RecordChoice : Type 0 where
  go : RecordChoice
  fail : RecordChoice
  exit : RecordChoice
  allocate : ℕ → RecordChoice
  store : (k p : ℕ) → RecordChoice
  scan : RecordChoice

pub record RecordAct : Type 0 where
  pub shared : Records
  pub pc : RecordPc

pub record RecordSystem : Type 0 where
  pub shared : Records
  pub pc : ℕ → RecordPc

abbrev pub then_at : Records → RecordPc → RecordAct
then_at m pc = record { shared = m; pc = pc }

-- The test of the loop over the records.
abbrev pub walk_to : ℕ → RecordPc
walk_to r = if r == 0 then make else claim r

-- `new record()`: the address is not null and not in use.
abbrev pub new_record : Records → ℕ → RecordAct
new_record m p =
    if p == 0 || m.made p
    then then_at m make
    else then_at
        (record m {
          made = update m.made p true;
          active = update m.active p true;
          next = update m.next p 0;
          slot = update m.slot p (λ k. 0);
        })
        (add_record p)

-- Slot `k` of record `r`, of which there are two.
abbrev pub store_hazard : Records → (r k p : ℕ) → Records
store_hazard m r k p = record m { slot = update m.slot r (update (m.slot r) k p) }

-- A thread outside of an operation on the list.
abbrev pub rests : Option ℕ → RecordPc
rests none = without
rests (some r) = owns r

-- What a thread with a record does next.
abbrev pub uses : Records → RecordChoice → ℕ → RecordAct
uses m exit r = then_at m (clear r 0)
uses m (store k p) r = then_at (if ltb k 2 then store_hazard m r k p else m) (owns r)
uses m scan r = then_at m (scan_head (some r))
uses m c r = then_at m (owns r)

-- What a thread without a record does next: drain scans, and a guard acquires one.
abbrev pub begins : RecordChoice → RecordPc
begins scan = scan_head none
begins c = load_head

abbrev pub is_fail : RecordChoice → Bool
is_fail fail = true
is_fail _ = false

abbrev pub links_record : Records → RecordChoice → (r h : ℕ) → RecordAct
links_record m c r h =
    if m.head == h && not (is_fail c)
    then then_at (record m { next = update m.next r h; head = r }) (owns r)
    else then_at (record m { next = update m.next r h }) (link r m.head)

-- The test of the snapshot's loop over the records.
abbrev pub visit_next : Option ℕ → ℕ → List ℕ → RecordPc
visit_next mine r hazards = if r == 0 then collected mine hazards else visit mine r 0 hazards

abbrev pub add_hazard : ℕ → List ℕ → List ℕ
add_hazard p hazards = if p == 0 then hazards else hazards ++ p ∷ []

abbrev pub makes : Records → RecordChoice → RecordAct
makes m (allocate p) = new_record m p
makes m c = then_at m make

unfoldable pub record_step : RecordChoice → Records → RecordPc → RecordAct
record_step c m without = then_at m (begins c)
record_step c m load_head = then_at m (walk_to m.head)
record_step c m (claim r) =
    if m.active r
    then then_at m (walk_to (m.next r))
    else then_at (record m { active = update m.active r true }) (owns r)
record_step c m make = makes m c
record_step c m (add_record r) =
    then_at (record m { nrecords = (m.nrecords + 1) % 2 ^ 64 }) (load_link r)
record_step c m (load_link r) = then_at m (link r m.head)
record_step c m (link r h) = links_record m c r h
record_step c m (owns r) = uses m c r
record_step c m (clear r k) =
    if ltb k 2
    then then_at (store_hazard m r k 0) (clear r (k + 1))
    else then_at (record m { active = update m.active r false }) without
record_step c m (scan_head mine) = then_at m (visit_next mine m.head [])
record_step c m (visit mine r k hazards) = then_at m (
    if k == 0
    then visit mine r 1 (add_hazard (m.slot r k) hazards)
    else visit_next mine (m.next r) (add_hazard (m.slot r k) hazards))
record_step c m (collected mine hazards) = then_at m (rests mine)

abbrev pub record_act : ℕ → RecordChoice → RecordSystem → RecordAct
record_act i c s = record_step c s.shared (s.pc i)

abbrev pub record_advance : ℕ → RecordChoice → RecordSystem → RecordSystem
record_advance i c s = record {
  shared = (record_act i c s).shared;
  pc = update s.pc i (record_act i c s).pc;
}

abbrev pub record_init : RecordSystem
record_init = record {
  shared = record {
    head = 0;
    nrecords = 0;
    made = λ _. false;
    active = λ _. false;
    next = λ _. 0;
    slot = λ _ k. 0;
  };
  pc = λ _. without;
}

-- What `n` threads can reach.
pub data RecordReach (n : ℕ) : RecordSystem → Type 0 where
  start : RecordReach n record_init
  later :
      {s : RecordSystem}
      → RecordReach n s
      → (i : ℕ) (c : RecordChoice) → i < n
      → RecordReach n (record_advance i c s)
