-- ===== src/Machine/State.antt =====
-- The shared memory of include/lfq/ms_queue.hpp and include/lfq/hazard_pointer.hpp, and where a
-- thread stands between two accesses to it, with the locals that are live there.
use lock_free_mpmc_queue.Base.{ℕ, Bool, Option, List}

abbrev pub Ptr : Type 0
Ptr = ℕ

-- nullptr
abbrev pub null : Ptr
null = 0

-- hp_domain::kSlots
abbrev pub slot_count : ℕ
slot_count = 2

-- The nodes by address, the queue's two ends, and the globals of hp_domain. `live` says which
-- addresses hold a node that `delete` has not had; any other may be what `new` returns next.
pub record Mem (V : Type 0) : Type 0 where
  pub head : Ptr
  pub tail : Ptr
  pub next : Ptr → Ptr
  pub value : Ptr → V
  pub live : Ptr → Bool
  pub slot : ℕ → ℕ → Ptr  -- record, slot
  pub orphans : List Ptr  -- top of the stack first
  pub retired_count : ℕ  -- uint64_t
  pub freed_count : ℕ  -- uint64_t

-- guard::protect
pub data ProtectPc : Type 0 where
  load : ProtectPc
  publish : (p : Ptr) → ProtectPc
  verify : (p : Ptr) → ProtectPc

-- ms_queue::enqueue, from its first access on
pub data EnqPc : Type 0 where
  protect_tail : ProtectPc → EnqPc
  load_next : (tail : Ptr) → EnqPc
  check_tail : (tail next : Ptr) → EnqPc
  help : (tail next : Ptr) → EnqPc
  link : (tail : Ptr) → EnqPc
  swing_tail : (tail : Ptr) → EnqPc

-- ms_queue::try_dequeue
pub data DeqPc (V : Type 0) : Type 0 where
  protect_head : ProtectPc → DeqPc V
  load_tail : (head : Ptr) → DeqPc V
  read_next : (head tail : Ptr) → DeqPc V
  set_next : (head tail next : Ptr) → DeqPc V
  check_head : (head tail next : Ptr) → DeqPc V
  help_tail : (head next : Ptr) → DeqPc V
  read_value : (head next : Ptr) → DeqPc V
  swing_head : (head next : Ptr) (value : V) → DeqPc V
  retire_head : (head : Ptr) (value : V) → DeqPc V

-- What an operation returns.
pub data Returned (V : Type 0) : Type 0 where
  enqueued : Returned V
  dequeued : Option V → Returned V

-- hp_domain::scan. `load_slot (suc r)` has the records below `suc r` still to read.
pub data ScanPc : Type 0 where
  adopt : ScanPc
  load_slot : (records slot : ℕ) (hazards : List Ptr) → ScanPc
  sweep : (hazards kept : List Ptr) (freed : ℕ) (todo : List Ptr) → ScanPc

-- Who called `scan`: `retire`, `drain`, or the destructor of tl_cache.
pub data Caller (V : Type 0) : Type 0 where
  from_retire : V → Caller V
  from_drain : Caller V
  from_exit : Caller V

pub data Pc (V : Type 0) : Type 0 where
  idle : Pc V
  enq : (value : V) (node : Ptr) → EnqPc → Pc V
  deq : DeqPc V → Pc V
  scanning : ScanPc → Caller V → Pc V
  unguard : (slot : ℕ) → Returned V → Pc V  -- ~guard
  push_orphans : (todo : List Ptr) → Pc V  -- ~tl_cache, after its scan
  release : (slot : ℕ) → Pc V  -- ~tl_cache, its record
  exited : Pc V

-- tl_cache: the retire list of a thread, beside its program counter.
pub record Thread (V : Type 0) : Type 0 where
  pub pc : Pc V
  pub bag : List Ptr

pub record System (V : Type 0) : Type 0 where
  pub mem : Mem V
  pub thread : ℕ → Thread V

-- What the environment decides: the operation that an idle thread starts, with the address that
-- `new` returns, and whether a weak compare-exchange fails for no reason.
pub data Choice (V : Type 0) : Type 0 where
  go : Choice V
  fail : Choice V
  enqueue : V → Ptr → Choice V
  dequeue : Choice V
  drain : Choice V
  leave : Choice V
  enter : Choice V

-- What the user of the queue sees of a step: the calls and the returns.
pub data Label (V : Type 0) : Type 0 where
  silent : Label V
  calls_enqueue : V → Label V
  calls_dequeue : Label V
  returns : Returned V → Label V

-- What a step leaves behind.
pub record Act (V : Type 0) : Type 0 where
  pub mem : Mem V
  pub pc : Pc V
  pub bag : List Ptr
  pub label : Label V
