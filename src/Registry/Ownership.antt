-- ===== src/Registry/Ownership.antt =====
-- A hazard record belongs to one thread at a time (include/lfq/hazard_pointer.hpp).
use lock_free_mpmc_queue.Base.{
  ℕ, ◌+◌, ◌-◌, ◌<◌, Option, none, some, ◌≡◌, true, ◌==◌, if◌then◌else◌, inl, inr, eq-cases, refl,
  sum_below, sum_below-update, sum_below-zero, le-sum_below, arith,
}
use lock_free_mpmc_queue.Registry.Acquire.{
  Records, RecordPc, without, load_head, claim, make, add_record, load_link, link, owns, clear,
  scan_head, visit, collected, RecordChoice, exit, allocate, store, scan, RecordSystem, record_step,
  record_act, record_advance, record_init, RecordReach, start, later,
}
use lock_free_mpmc_queue.Registry.Chain.{Chain, Knows, Knows-step, step-Knows, step-Chain}

abbrev has_own : ℕ → Option ℕ → ℕ
has_own r none = 0
has_own r (some p) = if p == r then 1 else 0

-- Whether a thread has the record `r`, its new one included.
abbrev pub has_record : ℕ → RecordPc → ℕ
has_record r (add_record p) = if p == r then 1 else 0
has_record r (load_link p) = if p == r then 1 else 0
has_record r (link p h) = if p == r then 1 else 0
has_record r (owns p) = if p == r then 1 else 0
has_record r (clear p k) = if p == r then 1 else 0
has_record r (scan_head mine) = has_own r mine
has_record r (visit mine p k hazards) = has_own r mine
has_record r (collected mine hazards) = has_own r mine
has_record r _ = 0

abbrev pub active_flag : Records → ℕ → ℕ
active_flag m r = if m.active r then 1 else 0

step-has_record :
    (c : RecordChoice) (m : Records) (pc : RecordPc) (r others : ℕ)
    → ((p : ℕ) → m.active p ≡ true → m.made p ≡ true)
    → others + has_record r pc ≡ active_flag m r
    → others + has_record r (record_step c m pc).pc ≡ active_flag (record_step c m pc).shared r
unfolding record_step
step-has_record scan m without r o k h = h
step-has_record c m without r o k h = h
step-has_record c m load_head r o k h = ground arith
step-has_record c m (claim p) r o k h = ground arith
step-has_record (allocate p) m make r o k h = ground (arith, k p)
step-has_record c m make r o k h = h
step-has_record c m (link p q) r o k h = ground arith
step-has_record exit m (owns p) r o k h = h
step-has_record scan m (owns p) r o k h = h
step-has_record (store l v) m (owns p) r o k h = ground arith
step-has_record c m (owns p) r o k h = h
step-has_record c m (clear p l) r o k h = ground arith
step-has_record c m (scan_head mine) r o k h = ground arith
step-has_record c m (visit mine p l hz) r o k h = ground arith
step-has_record c m (collected none hz) r o k h = h
step-has_record c m (collected (some p) hz) r o k h = h
step-has_record c m pc r o k h = h

pub record InvOf (n : ℕ) (s : RecordSystem) : Type 0 where
  pub chain : Chain s.shared
  pub knows : (j : ℕ) → j < n → Knows s.shared (s.pc j)
  pub owners : (r : ℕ) → sum_below (has_record r) s.pc n ≡ active_flag s.shared r

advance-owners :
    (n i : ℕ) (c : RecordChoice) (s : RecordSystem)
    → i < n
    → InvOf n s
    → (r : ℕ)
    → sum_below (has_record r) (record_advance i c s).pc n
      ≡ active_flag (record_advance i c s).shared r
advance-owners n i c s lt inv r =
    let w = has_record r in
    let part = le-sum_below w s.pc i n lt in
    let total = inv.owners r in
    let after =
      step-has_record c s.shared (s.pc i) r (sum_below w s.pc n - w (s.pc i))
        (λ p. inv.chain.of_active p) (omega arith) in
    omega (arith, sum_below-update w s.pc i (record_act i c s).pc n lt)

pub RecordReach-Inv : (n : ℕ) {s : RecordSystem} → RecordReach n s → InvOf n s
RecordReach-Inv n start = record {
  chain = record {
    of_active = λ r a. cc;
    of_head = λ ne. absurd (ne refl);
    of_next = λ r ne. absurd (ne refl);
  };
  knows = λ j lt. tt;
  owners = λ r. sum_below-zero (has_record r) record_init.pc n (λ _. refl);
}
RecordReach-Inv n (later {s} r i c lt) =
    let inv = RecordReach-Inv n r in
    record {
      chain = step-Chain c s.shared (s.pc i) inv.chain (inv.knows i lt);
      knows = λ j ltj. elim (eq-cases j i) [
        | inl e ↦
            let here : (record_advance i c s).pc j ≡ (record_act i c s).pc = ground arith in
            rw here (step-Knows c s.shared (s.pc i) inv.chain (inv.knows i lt))
        | inr ne ↦
            let same : (record_advance i c s).pc j ≡ s.pc j = ground arith in
            rw same (Knows-step c s.shared (s.pc i) (s.pc j) (inv.knows j ltj))
      ];
      owners = advance-owners n i c s lt inv;
    }

-- In every reachable state a record is active just while one thread has it, as its own or as the new
-- record that it is about to link, and no two threads have it.
pub one_owner :
    (n : ℕ) {s : RecordSystem}
    → RecordReach n s
    → (r : ℕ) → sum_below (has_record r) s.pc n ≡ active_flag s.shared r
one_owner n r = (RecordReach-Inv n r).owners
