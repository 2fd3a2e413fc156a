-- ===== src/Model/Protocol.antt =====
-- hp_protocol_suite (model/hp_model.hpp): one protector, one retirer. The stores of a thread wait in
-- a buffer, first in first out, and reach the memory at any later time; a fence waits until the
-- thread's buffer is empty. So a store may pass a later load, which the fences are there to forbid.
use lock_free_mpmc_queue.Base.{ℕ, Bool, true, false, List, [], ◌∷◌, ◌++◌, ◌==◌, if◌then◌else◌}

-- hp_bug
pub data HpBug : Type 0 where
  hp_none : HpBug
  hp_missing_publish_fence : HpBug
  hp_missing_scan_fence : HpBug

-- &n1 and &n2; the null pointer is 0.
abbrev pub n1 : ℕ
n1 = 1

abbrev pub n2 : ℕ
n2 = 2

pub data ProtectorPc : Type 0 where
  load_src : ProtectorPc
  publish : (p : ℕ) → ProtectorPc
  publish_fence : (p : ℕ) → ProtectorPc
  verify : (p : ℕ) → ProtectorPc
  read_data : (p : ℕ) → ProtectorPc
  clear : (p : ℕ) → ProtectorPc
  left : ProtectorPc

pub data RetirerPc : Type 0 where
  unlink : RetirerPc
  scan_fence : (old : ℕ) → RetirerPc
  load_slot : (old : ℕ) → RetirerPc
  poison : (old : ℕ) → RetirerPc
  stopped : RetirerPc

-- `poisoned` is the node whose data the retirer has overwritten, 0 for none.
pub record Protocol : Type 0 where
  pub src : ℕ
  pub slot : ℕ
  pub slot_stores : List ℕ  -- the protector's buffer, oldest first
  pub src_stores : List ℕ  -- the retirer's
  pub protector : ProtectorPc
  pub retirer : RetirerPc
  pub poisoned : ℕ

-- What happens next: a step of a thread, or a buffered store that reaches the memory.
pub data Turn : Type 0 where
  protects : Turn
  retires : Turn
  slot_arrives : Turn
  src_arrives : Turn

-- What the retirer reads of `src`: its own last store, if it has one that waits.
abbrev newest : ℕ → List ℕ → ℕ
newest x [] = x
newest x (y ∷ ys) = newest y ys

abbrev pub nothing_waits : List ℕ → Bool
nothing_waits [] = true
nothing_waits (x ∷ xs) = false

-- Whether a fence lets its thread pass.
abbrev pub passes_publish : HpBug → List ℕ → Bool
passes_publish hp_missing_publish_fence stores = true
passes_publish _ stores = nothing_waits stores

abbrev pub passes_scan : HpBug → List ℕ → Bool
passes_scan hp_missing_scan_fence stores = true
passes_scan _ stores = nothing_waits stores

unfoldable pub protector_step : HpBug → Protocol → ProtectorPc → Protocol
protector_step bug s load_src = record s { protector = publish s.src }
protector_step bug s (publish p) = record s {
  slot_stores = s.slot_stores ++ p ∷ [];
  protector = publish_fence p;
}
protector_step bug s (publish_fence p) = record s {
  protector = if passes_publish bug s.slot_stores then verify p else publish_fence p;
}
protector_step bug s (verify p) = record s {
  protector = if s.src == p then read_data p else publish s.src;
}
protector_step bug s (read_data p) = record s { protector = clear p }
protector_step bug s (clear p) = record s {
  slot_stores = s.slot_stores ++ 0 ∷ [];
  protector = left;
}
protector_step bug s left = record s { protector = left }

unfoldable pub retirer_step : HpBug → Protocol → RetirerPc → Protocol
retirer_step bug s unlink = record s {
  src_stores = s.src_stores ++ n2 ∷ [];
  retirer = scan_fence (newest s.src s.src_stores);
}
retirer_step bug s (scan_fence old) = record s {
  retirer = if passes_scan bug s.src_stores then load_slot old else scan_fence old;
}
retirer_step bug s (load_slot old) = record s {
  retirer = if s.slot == old then stopped else poison old;
}
retirer_step bug s (poison old) = record s { poisoned = old; retirer = stopped }
retirer_step bug s stopped = record s { retirer = stopped }

abbrev pub slot_arrival : Protocol → List ℕ → Protocol
slot_arrival s [] = s
slot_arrival s (p ∷ stores) = record s { slot = p; slot_stores = stores }

abbrev pub src_arrival : Protocol → List ℕ → Protocol
src_arrival s [] = s
src_arrival s (p ∷ stores) = record s { src = p; src_stores = stores }

unfoldable pub protocol_step : HpBug → Turn → Protocol → Protocol
unfolding protector_step retirer_step
protocol_step bug protects s = protector_step bug s s.protector
protocol_step bug retires s = retirer_step bug s s.retirer
protocol_step bug slot_arrives s = slot_arrival s s.slot_stores
protocol_step bug src_arrives s = src_arrival s s.src_stores

-- before()
abbrev pub before : Protocol
before = record {
  src = n1;
  slot = 0;
  slot_stores = [];
  src_stores = [];
  protector = load_src;
  retirer = unlink;
  poisoned = 0;
}

pub data ProtocolReach (bug : HpBug) : Protocol → Type 0 where
  start : ProtocolReach bug before
  later :
      {s : Protocol} → ProtocolReach bug s → (t : Turn) → ProtocolReach bug (protocol_step bug t s)
