-- ===== src/Registry/Snapshot.antt =====
-- What the snapshot of scan holds, while other threads push records on the list and store to slots
-- (include/lfq/hazard_pointer.hpp).
use lock_free_mpmc_queue.Base.{
  ℕ, ◌≤◌, ◌<◌, ◌≡◌, ◌≢◌, ◌⊎◌, inl, inr, true, false, ◌&&◌, ◌||◌, not, Option, none, some, List, [],
  ◌∷◌, ◌==◌, has, has-append, eq-cases, Bool-cases, ltb, arith,
}
use lock_free_mpmc_queue.Registry.Acquire.{
  Records, RecordPc, load_head, claim, make, link, owns, clear, scan_head, visit, collected,
  RecordChoice, exit, allocate, store, is_fail, add_hazard, visit_next, RecordSystem, record_step,
  record_advance,
}
use lock_free_mpmc_queue.Registry.Ownership.{has_record}
use lock_free_mpmc_queue.Base.Segment.{Seg, Seg-update}
use lock_free_mpmc_queue.Registry.Listed.{KnowsList, grown, has-grown, IsList}
use lock_free_mpmc_queue.Registry.News.{is_new}

-- A run of `n` threads from `s`, with `P` at its start and after each step.
pub data Along (n : ℕ) (P : RecordSystem → Type 0) (s : RecordSystem) : RecordSystem → Type 0 where
  stays : P s → Along n P s s
  moves :
      {t : RecordSystem}
      → Along n P s t
      → (i : ℕ) (c : RecordChoice) → i < n
      → P (record_advance i c t)
      → Along n P s (record_advance i c t)

pub Along-last : {n : ℕ} {P : RecordSystem → Type 0} {s t : RecordSystem} → Along n P s t → P t
Along-last (stays h) = h
Along-last (moves al i c lt h) = h

-- A thread takes a snapshot, or has just taken it.
abbrev pub InScan : RecordPc → Type 0
InScan (scan_head mine) = Unit
InScan (visit mine r k hazards) = Unit
InScan (collected mine hazards) = Unit
InScan _ = ⊥

-- A write to a record that is not on the list leaves a part of the list as it is.
step-Seg :
    (c : RecordChoice) (m : Records) (pc : RecordPc) (xs : List ℕ) (linking a : ℕ) (ys : List ℕ)
    → IsList m xs linking
    → KnowsList xs pc
    → ((b : ℕ) → has b ys ≡ true → has b xs ≡ true)
    → Seg m.next a ys
    → Seg (record_step c m pc).shared.next a ys
unfolding record_step
step-Seg c m (claim p) xs w a ys h k sub s = ground arith
step-Seg (allocate p) m make xs w a ys h k sub s = elim (Bool-cases (p == 0 || m.made p)) [
  | inl e ↦ rw e s
  | inr e ↦ rw e (Seg-update m.next p 0 a ys (ground (arith, h.of_made p, sub p)) s)
]
step-Seg c m make xs w a ys h k sub s = s
step-Seg c m (link p q) xs w a ys h k sub s =
    let apart = Seg-update m.next p q a ys (ground (arith, sub p)) s in
    elim (Bool-cases (m.head == q && not (is_fail c))) [ inl e ↦ rw e apart | inr e ↦ rw e apart ]
step-Seg (store l v) m (owns p) xs w a ys h k sub s = elim (Bool-cases (ltb l 2)) [
  | inl e ↦ rw e s
  | inr e ↦ rw e s
]
step-Seg exit m (owns p) xs w a ys h k sub s = s
step-Seg c m (owns p) xs w a ys h k sub s = s
step-Seg c m (clear p l) xs w a ys h k sub s = elim (Bool-cases (ltb l 2)) [
  | inl e ↦ rw e s
  | inr e ↦ rw e s
]
step-Seg c m (load_head) xs w a ys h k sub s = s
step-Seg c m pc xs w a ys h k sub s = s

pub has-owner :
    (xs : List ℕ) (pc : RecordPc) (r : ℕ)
    → KnowsList xs pc
    → has_record r pc ≡ 1
    → is_new r pc ≡ 0
    → has r xs ≡ true
has-owner xs (owns p) r k e new = ground arith
has-owner xs (clear p l) r k e new = ground arith
has-owner xs (scan_head none) r k e new = ground arith
has-owner xs (scan_head (some p)) r k e new = ground arith
has-owner xs (visit none p l hz) r k e new = ground arith
has-owner xs (visit (some q) p l hz) r k e new = ground arith
has-owner xs (collected none hz) r k e new = ground arith
has-owner xs (collected (some p) hz) r k e new = ground arith
has-owner xs pc r k e new = ground arith

has-add_hazard :
    (p v : ℕ) (hazards : List ℕ) → has p hazards ≡ true → has p (add_hazard v hazards) ≡ true
has-add_hazard p v hazards h = ground (arith, has-append p hazards (v ∷ []))

-- The hazard `p` in slot `k` of record `r`.
module _ (r k p : ℕ) (small : k < 2) (real : p ≢ 0) where
  -- The walk is still to come to the slot.
  abbrev pub Ahead : List ℕ → (ℕ → ℕ) → (a l : ℕ) → Type 0
  Ahead xs next a l =
      (ys : List ℕ) × Seg next a ys
      × (has r ys ≡ true)
      × (a ≡ r → l ≤ k)
      × ((b : ℕ) → has b ys ≡ true → has b xs ≡ true)

  abbrev pub Sees : List ℕ → Records → RecordPc → Type 0
  Sees xs m (scan_head mine) = has r xs ≡ true
  Sees xs m (visit mine a l hazards) = (has p hazards ≡ true) ⊎ Ahead xs m.next a l
  Sees xs m (collected mine hazards) = has p hazards ≡ true
  Sees xs m _ = Unit

  pub others-Sees :
      (c : RecordChoice) (m : Records) (mover pc : RecordPc) (xs : List ℕ) (linking : ℕ)
      → IsList m xs linking
      → KnowsList xs mover
      → Sees xs m pc
      → Sees (grown c m mover xs) (record_step c m mover).shared pc
  others-Sees c m mover (scan_head mine) xs w h kn s = has-grown c m mover xs r s
  others-Sees c m mover (visit mine a l hz) xs w h kn (inl s) = inl s
  others-Sees c m mover (visit mine a l hz) xs w h kn (inr (ys, seg, on, at, sub)) = inr (
    ys,
    step-Seg c m mover xs w a ys h kn sub seg,
    on,
    at,
    λ b i. has-grown c m mover xs b (sub b i),
  )
  others-Sees c m mover (collected mine hz) xs w h kn s = s
  others-Sees c m mover (load_head) xs w h kn s = tt
  others-Sees c m mover pc xs w h kn s = tt

  has-add_self : (hazards : List ℕ) → has p (add_hazard p hazards) ≡ true
  has-add_self hazards = ground (arith, has-append p hazards (p ∷ []))

  -- From the head of a part of the list that holds `r`.
  visit_next-Sees :
      (m : Records) (xs ys : List ℕ) (mine : Option ℕ) (a : ℕ) (hazards : List ℕ)
      → Seg m.next a ys
      → has r ys ≡ true
      → ((b : ℕ) → has b ys ≡ true → has b xs ≡ true)
      → Sees xs m (visit_next mine a hazards)
  visit_next-Sees m xs [] mine a hz seg on sub = cc
  visit_next-Sees m xs (y ∷ ys) mine a hz seg on sub =
      let real : (a == 0) ≡ false = ground arith in
      rw real (inr (y ∷ ys, seg, on, λ e. omega arith, sub))

  -- Once it is in the snapshot it stays there.
  visit_next-Holds :
      (m : Records) (xs : List ℕ) (mine : Option ℕ) (a : ℕ) (hazards : List ℕ)
      → has p hazards ≡ true
      → Sees xs m (visit_next mine a hazards)
  visit_next-Holds m xs mine a hz h = elim (Bool-cases (a == 0)) [
    | inl e ↦ rw e h
    | inr e ↦ rw e (inl h)
  ]

  visit-Holds :
      (c : RecordChoice) (m : Records) (xs : List ℕ) (mine : Option ℕ) (a l : ℕ) (hazards : List ℕ)
      → has p (add_hazard (m.slot a l) hazards) ≡ true
      → Sees xs m (record_step c m (visit mine a l hazards)).pc
  unfolding record_step
  visit-Holds c m xs mine a l hz h = elim (Bool-cases (l == 0)) [
    | inl e ↦ rw e (inl h)
    | inr e ↦ rw e (visit_next-Holds m xs mine (m.next a) (add_hazard (m.slot a l) hz) h)
  ]

  visit-Ahead :
      (c : RecordChoice) (m : Records) (xs : List ℕ) (mine : Option ℕ) (a l : ℕ) (hazards : List ℕ)
      → m.slot r k ≡ p
      → Ahead xs m.next a l
      → Sees xs m (record_step c m (visit mine a l hazards)).pc
  unfolding record_step
  visit-Ahead c m xs mine a l hz full ([], seg, on, at, sub) = cc
  visit-Ahead c m xs mine a l hz full (y ∷ ys, seg, on, at, sub) =
      let read = add_hazard (m.slot a l) hz in
      elim (eq-cases a r) [
        | inl here ↦ elim (eq-cases l k) [
          | inl this ↦
              let found : m.slot a l ≡ p = cc in
              visit-Holds c m xs mine a l hz (rw found (has-add_self hz))
          | inr other ↦
              let first : (l == 0) ≡ true = ground (arith, at here) in
              rw first (inr (y ∷ ys, seg, on, λ e. omega (arith, at here), sub))
        ]
        | inr away ↦ elim (Bool-cases (l == 0)) [
          | inl e ↦ rw e (inr (y ∷ ys, seg, on, λ same. absurd (away same), sub))
          | inr e ↦
              let after : Seg m.next (m.next a) ys = rw seg.0 seg.2 in
              rw e (
                visit_next-Sees m xs ys mine (m.next a) read after (ground arith)
                  (λ b i. sub b (ground arith)))
        ]
      ]

  pub own-Sees :
      (c : RecordChoice) (m : Records) (pc : RecordPc) (xs : List ℕ) (linking : ℕ)
      → InScan pc
      → IsList m xs linking
      → m.slot r k ≡ p
      → Sees xs m pc
      → Sees (grown c m pc xs) (record_step c m pc).shared (record_step c m pc).pc
  unfolding record_step
  own-Sees c m (scan_head mine) xs w i h full s =
      visit_next-Sees m xs xs mine m.head [] h.seg s (λ b in_list. in_list)
  own-Sees c m (visit mine a l hz) xs w i h full (inl s) =
      unfold record_step in visit-Holds c m xs mine a l hz (has-add_hazard p (m.slot a l) hz s)
  own-Sees c m (visit mine a l hz) xs w i h full (inr s) = visit-Ahead c m xs mine a l hz full s
  own-Sees c m (collected none hz) xs w i h full s = tt
  own-Sees c m (collected (some q) hz) xs w i h full s = tt
  own-Sees c m (claim q) xs w i h full s = absurd i
  own-Sees c m pc xs w i h full s = absurd i
