-- ===== src/Registry/News.antt =====
-- The records that were made and are not on the list yet (include/lfq/hazard_pointer.hpp).
use lock_free_mpmc_queue.Base.{ℕ, ◌+◌, ◌≡◌, none, some, List, ◌==◌, if◌then◌else◌, count, arith}
use lock_free_mpmc_queue.Registry.Acquire.{
  Records, RecordPc, without, load_head, claim, make, add_record, load_link, link, owns, clear,
  scan_head, visit, collected, RecordChoice, exit, allocate, store, scan, record_step,
}
use lock_free_mpmc_queue.Registry.Listed.{grown}

-- Whether a thread has made `r` and not linked it yet.
abbrev pub is_new : ℕ → RecordPc → ℕ
is_new r (add_record p) = if p == r then 1 else 0
is_new r (load_link p) = if p == r then 1 else 0
is_new r (link p h) = if p == r then 1 else 0
is_new r _ = 0

abbrev pub made_flag : Records → ℕ → ℕ
made_flag m r = if m.made r then 1 else 0

pub step-is_new :
    (c : RecordChoice) (m : Records) (pc : RecordPc) (xs : List ℕ) (r others : ℕ)
    → count r xs + (others + is_new r pc) ≡ made_flag m r
    → count r (grown c m pc xs) + (others + is_new r (record_step c m pc).pc)
      ≡ made_flag (record_step c m pc).shared r
unfolding record_step
step-is_new scan m without xs r o h = h
step-is_new c m without xs r o h = h
step-is_new c m load_head xs r o h = ground arith
step-is_new c m (claim p) xs r o h = ground arith
step-is_new (allocate p) m make xs r o h = ground arith
step-is_new c m make xs r o h = h
step-is_new c m (link p q) xs r o h = ground arith
step-is_new exit m (owns p) xs r o h = h
step-is_new scan m (owns p) xs r o h = h
step-is_new (store l v) m (owns p) xs r o h = ground arith
step-is_new c m (owns p) xs r o h = h
step-is_new c m (clear p l) xs r o h = ground arith
step-is_new c m (scan_head mine) xs r o h = ground arith
step-is_new c m (visit mine p l hz) xs r o h = ground arith
step-is_new c m (collected none hz) xs r o h = h
step-is_new c m (collected (some p) hz) xs r o h = h
step-is_new c m pc xs r o h = h
