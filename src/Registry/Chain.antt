-- ===== src/Registry/Chain.antt =====
-- The list of hazard records holds records that were made (include/lfq/hazard_pointer.hpp).
use lock_free_mpmc_queue.Base.{
  ℕ, ◌≡◌, ◌≢◌, true, ◌==◌, ◌&&◌, ◌||◌, not, inl, inr, none, some, ltb, Bool-cases, arith,
}
use lock_free_mpmc_queue.Registry.Acquire.{
  Records, RecordPc, without, load_head, claim, make, add_record, load_link, link, owns, clear,
  scan_head, visit, collected, RecordChoice, allocate, exit, store, scan, is_fail, record_step,
}

-- What is on the list, or is active, was made.
pub record Chain (m : Records) : Type 0 where
  pub of_active : (r : ℕ) → m.active r ≡ true → m.made r ≡ true
  pub of_head : m.head ≢ 0 → m.made m.head ≡ true
  pub of_next : (r : ℕ) → m.next r ≢ 0 → m.made (m.next r) ≡ true

abbrev pub Knows : Records → RecordPc → Type 0
Knows m (claim r) = m.made r ≡ true
Knows m (add_record r) = m.made r ≡ true
Knows m (load_link r) = m.made r ≡ true
Knows m (link r h) = (m.made r ≡ true) × (h ≢ 0 → m.made h ≡ true)
Knows m _ = Unit

made-step :
    (c : RecordChoice) (m : Records) (pc : RecordPc) (r : ℕ)
    → m.made r ≡ true
    → (record_step c m pc).shared.made r ≡ true
unfolding record_step
made-step c m (claim p) r h = ground arith
made-step (allocate p) m make r h = ground arith
made-step c m make r h = h
made-step c m (link p q) r h = ground arith
made-step exit m (owns p) r h = h
made-step (store k v) m (owns p) r h = ground arith
made-step c m (owns p) r h = h
made-step c m (clear p k) r h = ground arith
made-step c m (visit mine p k hz) r h = h
made-step c m pc r h = h

pub Knows-step :
    (c : RecordChoice) (m : Records) (mover pc : RecordPc)
    → Knows m pc
    → Knows (record_step c m mover).shared pc
Knows-step c m mover (claim r) k = made-step c m mover r k
Knows-step c m mover (add_record r) k = made-step c m mover r k
Knows-step c m mover (load_link r) k = made-step c m mover r k
Knows-step c m mover (link r h) k =
    (made-step c m mover r k.0, λ ne. made-step c m mover h (k.1 ne))
Knows-step c m mover load_head k = tt
Knows-step c m mover pc k = tt

pub step-Knows :
    (c : RecordChoice) (m : Records) (pc : RecordPc)
    → Chain m
    → Knows m pc
    → Knows (record_step c m pc).shared (record_step c m pc).pc
unfolding record_step
step-Knows c m load_head h k = ground (arith, h.of_head)
step-Knows c m (claim p) h k = ground (arith, h.of_next p)
step-Knows (allocate p) m make h k = ground arith
step-Knows c m make h k = tt
step-Knows c m (add_record p) h k = k
step-Knows c m (load_link p) h k = (k, h.of_head)
step-Knows c m (link p q) h k = ground (arith, h.of_head)
step-Knows scan m without h k = tt
step-Knows c m without h k = tt
step-Knows exit m (owns p) h k = tt
step-Knows (store l v) m (owns p) h k = tt
step-Knows scan m (owns p) h k = tt
step-Knows c m (owns p) h k = tt
step-Knows c m (clear p l) h k = ground arith
step-Knows c m (scan_head mine) h k = ground arith
step-Knows c m (visit mine p l hz) h k = ground arith
step-Knows c m (collected none hz) h k = tt
step-Knows c m (collected (some r) hz) h k = tt

-- Another part of the memory has changed.
same_list :
    {m : Records} {slot : ℕ → ℕ → ℕ} {count : ℕ}
    → Chain m
    → Chain (record m { slot = slot; nrecords = count })
same_list h = record { of_active = h.of_active; of_head = h.of_head; of_next = h.of_next }

pub step-Chain :
    (c : RecordChoice) (m : Records) (pc : RecordPc)
    → Chain m
    → Knows m pc
    → Chain (record_step c m pc).shared
unfolding record_step
step-Chain c m (claim p) h k = elim (Bool-cases (m.active p)) [
  | inl e ↦ rw e h
  | inr e ↦ rw e (record {
    of_active = λ r a. ground (arith, h.of_active r);
    of_head = h.of_head;
    of_next = h.of_next;
  })
]
step-Chain (allocate p) m make h k = elim (Bool-cases (p == 0 || m.made p)) [
  | inl e ↦ rw e h
  | inr e ↦ rw e (record {
    of_active = λ r a. ground (arith, h.of_active r);
    of_head = λ ne. ground (arith, h.of_head);
    of_next = λ r ne. ground (arith, h.of_next r);
  })
]
step-Chain c m make h k = h
step-Chain c m (add_record p) h k = same_list h
step-Chain c m (link p q) h k = elim (Bool-cases (m.head == q && not (is_fail c))) [
  | inl e ↦ rw e (record {
    of_active = h.of_active;
    of_head = λ ne. k.0;
    of_next = λ r ne. ground (arith, h.of_next r);
  })
  | inr e ↦ rw e (record {
    of_active = h.of_active;
    of_head = h.of_head;
    of_next = λ r ne. ground (arith, h.of_next r);
  })
]
step-Chain (store l v) m (owns p) h k = elim (Bool-cases (ltb l 2)) [
  | inl e ↦ rw e (same_list h)
  | inr e ↦ rw e h
]
step-Chain exit m (owns p) h k = h
step-Chain c m (owns p) h k = h
step-Chain c m (clear p l) h k = elim (Bool-cases (ltb l 2)) [
  | inl e ↦ rw e (same_list h)
  | inr e ↦ rw e (record {
    of_active = λ r a. ground (arith, h.of_active r);
    of_head = h.of_head;
    of_next = h.of_next;
  })
]
step-Chain c m (scan_head mine) h k = h
step-Chain c m pc h k = h
