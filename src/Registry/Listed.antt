-- ===== src/Registry/Listed.antt =====
-- The list of hazard records, and what a thread knows of it (include/lfq/hazard_pointer.hpp).
use lock_free_mpmc_queue.Base.{
  ℕ, ◌+◌, ◌%◌, ◌^◌, ◌≤◌, ◌≡◌, ◌≢◌, inl, inr, Bool, true, false, ◌&&◌, ◌||◌, not, Option, none, some,
  List, ◌∷◌, ◌==◌, if◌then◌else◌, length, has, count, count-eq-zero, update, Bool-cases, refl, ap,
  ◌∙◌, ltb, arith,
}
use lock_free_mpmc_queue.Registry.Acquire.{
  Records, RecordPc, without, load_head, claim, make, add_record, load_link, link, owns, clear,
  scan_head, visit, collected, RecordChoice, exit, allocate, store, scan, is_fail, record_step,
}
use lock_free_mpmc_queue.Registry.Ownership.{has_record}
use lock_free_mpmc_queue.Base.Segment.{Seg, Seg-update, has-head, has-next}

-- Behind its fetch_add on nrecords_, and before its record is on the list.
abbrev pub is_linking : RecordPc → ℕ
is_linking (load_link r) = 1
is_linking (link r h) = 1
is_linking _ = 0

abbrev pub On : List ℕ → Option ℕ → Type 0
On xs none = Unit
On xs (some r) = has r xs ≡ true

-- What a thread knows of the list `xs`.
abbrev pub KnowsList : List ℕ → RecordPc → Type 0
KnowsList xs (claim r) = has r xs ≡ true
KnowsList xs (add_record r) = (r ≢ 0) × (has r xs ≡ false)
KnowsList xs (load_link r) = (r ≢ 0) × (has r xs ≡ false)
KnowsList xs (link r h) = (r ≢ 0) × (has r xs ≡ false)
KnowsList xs (owns r) = has r xs ≡ true
KnowsList xs (clear r k) = has r xs ≡ true
KnowsList xs (scan_head mine) = On xs mine
KnowsList xs (visit mine r k hazards) = On xs mine × (has r xs ≡ true)
KnowsList xs (collected mine hazards) = On xs mine
KnowsList xs _ = Unit

-- The list behind a step.
abbrev pub grown : RecordChoice → Records → RecordPc → List ℕ → List ℕ
grown c m (link r h) xs = if m.head == h && not (is_fail c) then r ∷ xs else xs
grown c m _ xs = xs

-- The list, and its number with `others` for the threads that link a record.
pub record IsList (m : Records) (xs : List ℕ) (linking : ℕ) : Type 0 where
  pub seg : Seg m.next m.head xs
  pub of_made : (r : ℕ) → has r xs ≡ true → m.made r ≡ true
  pub once : (r : ℕ) → count r xs ≤ 1
  pub counted : m.nrecords ≡ (length xs + linking) % 2 ^ 64

-- Another part of the memory has changed.
same_records :
    {m : Records} {slot : ℕ → ℕ → ℕ} {active : ℕ → Bool} {xs : List ℕ} {linking : ℕ}
    → IsList m xs linking
    → IsList (record m { slot = slot; active = active }) xs linking
same_records h = record { seg = h.seg; of_made = h.of_made; once = h.once; counted = h.counted }

pub step-IsList :
    (c : RecordChoice) (m : Records) (pc : RecordPc) (xs : List ℕ) (others : ℕ)
    → KnowsList xs pc
    → ((r : ℕ) → has_record r pc ≡ 1 → m.made r ≡ true)
    → IsList m xs (others + is_linking pc)
    → IsList
        (record_step c m pc).shared
        (grown c m pc xs)
        (others + is_linking (record_step c m pc).pc)
unfolding record_step
step-IsList scan m without xs o k made h = h
step-IsList c m without xs o k made h = h
step-IsList c m load_head xs o k made h = ground arith
step-IsList c m (claim p) xs o k made h = elim (Bool-cases (m.active p)) [
  | inl e ↦ rw e (ground arith)
  | inr e ↦ rw e (same_records h)
]
step-IsList (allocate p) m make xs o k made h = elim (Bool-cases (p == 0 || m.made p)) [
  | inl e ↦ rw e h
  | inr e ↦
      let out : has p xs ≡ false = ground (arith, h.of_made p) in
      rw e (record {
        seg = Seg-update m.next p 0 m.head xs out h.seg;
        of_made = λ r i. ground (arith, h.of_made r);
        once = h.once;
        counted = h.counted;
      })
]
step-IsList c m make xs o k made h = h
step-IsList c m (add_record p) xs o k made h = record {
  seg = h.seg;
  of_made = h.of_made;
  once = h.once;
  counted = omega (arith, h.counted);
}
step-IsList c m (load_link p) xs o k made h = h
step-IsList c m (link p q) xs o k made h =
    let apart = Seg-update m.next p q m.head xs k.1 h.seg in
    elim (Bool-cases (m.head == q && not (is_fail c))) [
      | inl e ↦
          let at : m.head ≡ q = ground arith in
          let after : update m.next p q p ≡ m.head = ground arith in
          rw e (record {
            seg = (refl, k.0, rw after apart);
            of_made = λ r i. ground (arith, h.of_made r, made p);
            once = λ r. ground (arith, h.once r, count-eq-zero p xs k.1);
            counted = h.counted ∙ ap (λ t. t % 2 ^ 64) (omega arith);
          })
      | inr e ↦
          rw e (record { seg = apart; of_made = h.of_made; once = h.once; counted = h.counted })
    ]
step-IsList (store l v) m (owns p) xs o k made h = elim (Bool-cases (ltb l 2)) [
  | inl e ↦ rw e (same_records h)
  | inr e ↦ rw e h
]
step-IsList exit m (owns p) xs o k made h = h
step-IsList scan m (owns p) xs o k made h = h
step-IsList c m (owns p) xs o k made h = h
step-IsList c m (clear p l) xs o k made h = elim (Bool-cases (ltb l 2)) [
  | inl e ↦ rw e (same_records h)
  | inr e ↦ rw e (same_records h)
]
step-IsList c m (scan_head mine) xs o k made h = ground arith
step-IsList c m (visit mine p l hz) xs o k made h = ground arith
step-IsList c m (collected none hz) xs o k made h = h
step-IsList c m (collected (some p) hz) xs o k made h = h

pub step-KnowsList :
    (c : RecordChoice) (m : Records) (pc : RecordPc) (xs : List ℕ)
    → Seg m.next m.head xs
    → ((r : ℕ) → has r xs ≡ true → m.made r ≡ true)
    → KnowsList xs pc
    → KnowsList (grown c m pc xs) (record_step c m pc).pc
unfolding record_step
step-KnowsList scan m without xs s made k = tt
step-KnowsList c m without xs s made k = tt
step-KnowsList c m load_head xs s made k = ground (arith, has-head m.next m.head xs s)
step-KnowsList c m (claim p) xs s made k = ground (arith, has-next m.next m.head p xs s)
step-KnowsList (allocate p) m make xs s made k = ground (arith, made p)
step-KnowsList c m make xs s made k = tt
step-KnowsList c m (add_record p) xs s made k = k
step-KnowsList c m (load_link p) xs s made k = k
step-KnowsList c m (link p q) xs s made k = ground arith
step-KnowsList exit m (owns p) xs s made k = k
step-KnowsList scan m (owns p) xs s made k = k
step-KnowsList (store l v) m (owns p) xs s made k = k
step-KnowsList c m (owns p) xs s made k = k
step-KnowsList c m (clear p l) xs s made k = ground arith
step-KnowsList c m (scan_head mine) xs s made k = ground (arith, has-head m.next m.head xs s)
step-KnowsList c m (visit mine p l hz) xs s made k = ground (arith, has-next m.next m.head p xs s)
step-KnowsList c m (collected none hz) xs s made k = tt
step-KnowsList c m (collected (some p) hz) xs s made k = k

pub has-grown :
    (c : RecordChoice) (m : Records) (mover : RecordPc) (xs : List ℕ) (r : ℕ)
    → has r xs ≡ true
    → has r (grown c m mover xs) ≡ true
has-grown c m (link p q) xs r h = ground arith
has-grown c m (claim p) xs r h = h
has-grown c m pc xs r h = h

grown-lacks :
    (c : RecordChoice) (m : Records) (mover : RecordPc) (xs : List ℕ) (r : ℕ)
    → has_record r mover ≡ 0
    → has r xs ≡ false
    → has r (grown c m mover xs) ≡ false
grown-lacks c m (link p q) xs r e h = ground arith
grown-lacks c m (claim p) xs r e h = h
grown-lacks c m pc xs r e h = h

-- A thread that moves links no other thread's record.
pub others-KnowsList :
    (c : RecordChoice) (m : Records) (mover pc : RecordPc) (xs : List ℕ)
    → ((r : ℕ) → has_record r mover + has_record r pc ≤ 1)
    → KnowsList xs pc
    → KnowsList (grown c m mover xs) pc
others-KnowsList c m mover without xs apart k = tt
others-KnowsList c m mover load_head xs apart k = tt
others-KnowsList c m mover (claim r) xs apart k = has-grown c m mover xs r k
others-KnowsList c m mover make xs apart k = tt
others-KnowsList c m mover (add_record r) xs apart k =
    (k.0, grown-lacks c m mover xs r (ground (arith, apart r)) k.1)
others-KnowsList c m mover (load_link r) xs apart k =
    (k.0, grown-lacks c m mover xs r (ground (arith, apart r)) k.1)
others-KnowsList c m mover (link r h) xs apart k =
    (k.0, grown-lacks c m mover xs r (ground (arith, apart r)) k.1)
others-KnowsList c m mover (owns r) xs apart k = has-grown c m mover xs r k
others-KnowsList c m mover (clear r l) xs apart k = has-grown c m mover xs r k
others-KnowsList c m mover (scan_head none) xs apart k = tt
others-KnowsList c m mover (scan_head (some r)) xs apart k = has-grown c m mover xs r k
others-KnowsList c m mover (visit none p l hz) xs apart k = (tt, has-grown c m mover xs p k.1)
others-KnowsList c m mover (visit (some r) p l hz) xs apart k =
    (has-grown c m mover xs r k.0, has-grown c m mover xs p k.1)
others-KnowsList c m mover (collected none hz) xs apart k = tt
others-KnowsList c m mover (collected (some r) hz) xs apart k = has-grown c m mover xs r k
