-- ===== src/Registry/Schedule.antt =====
-- Runs of acquire_record and of the snapshot of scan (include/lfq/hazard_pointer.hpp) by evaluation.
use lock_free_mpmc_queue.Base.{
  ℕ, ◌+◌, ◌%◌, ◌^◌, ◌≡◌, refl, true, some, List, [], ◌∷◌, length, has, count, sum_below, arith,
}
use lock_free_mpmc_queue.Registry.Acquire.{
  RecordSystem, owns, RecordChoice, go, exit, allocate, store, scan, record_step, RecordReach,
  start, later,
}
use lock_free_mpmc_queue.Registry.Ownership.{has_record, active_flag, one_owner}
use lock_free_mpmc_queue.Base.Segment.{Seg}
use lock_free_mpmc_queue.Registry.Listed.{is_linking}
use lock_free_mpmc_queue.Registry.News.{is_new, made_flag}
use lock_free_mpmc_queue.Registry.Growth.{listed}
use lock_free_mpmc_queue.Registry.Snapshot.{Along, stays, moves, InScan}
use lock_free_mpmc_queue.Registry.Complete.{scan_sees}

record RecordRun : Type 0 where
  last : RecordSystem
  reach : RecordReach 3 last

first : RecordRun → RecordChoice → RecordRun
first r c = record { last = _; reach = later r.reach 0 c (omega arith) }

second : RecordRun → RecordChoice → RecordRun
second r c = record { last = _; reach = later r.reach 1 c (omega arith) }

-- Thread 0 makes the record 5 and exits; thread 1 takes it over, and thread 0 makes another.
abbrev recycled : RecordRun
unfolding first second record_step
recycled =
    let a : RecordRun = record { last = _; reach = start } in
    let b = first (first (first (first (first (first a go) go) (allocate 5)) go) go) go in
    let c = first (first (first (first b exit) go) go) go in
    let d = second (second (second c go) go) go in
    first (first (first (first (first (first (first d go) go) go) (allocate 6)) go) go) go

recycled_owners :
    (recycled.last.pc 0 ≡ owns 6)
    × (recycled.last.pc 1 ≡ owns 5)
    × (recycled.last.shared.head ≡ 6)
    × (recycled.last.shared.nrecords ≡ 2)
unfolding first second record_step
recycled_owners = (refl, refl, refl, refl)

one_owner_example : sum_below (has_record 5) recycled.last.pc 3 ≡ active_flag recycled.last.shared 5
one_owner_example = one_owner 3 recycled.reach 5

listed_example :
    (xs : List ℕ) × Seg recycled.last.shared.next recycled.last.shared.head xs
    × ((r : ℕ)
        → count r xs + sum_below (is_new r) recycled.last.pc 3 ≡ made_flag recycled.last.shared r)
    × (recycled.last.shared.nrecords
        ≡ (length xs + sum_below is_linking recycled.last.pc 3) % 2 ^ 64)
listed_example = listed 3 recycled.reach

-- Thread 1 has published 77 in slot 1 of record 5, and thread 0 is about to scan.
abbrev published : RecordRun
unfolding first second record_step
published = first (second recycled (store 1 77)) scan

abbrev Stands : RecordSystem → Type 0
Stands u = (u.shared.slot 5 1 ≡ 77) × InScan (u.pc 0)

record ScanRun : Type 0 where
  last : RecordSystem
  along : Along 3 Stands published.last last

-- While thread 0 reads the slots, thread 2 makes the record 7 and links it.
abbrev scanned : ScanRun
unfolding first second record_step
scanned =
    let a : ScanRun = record { last = _; along = stays (refl, tt) } in
    let b : ScanRun = record { last = _; along = moves a.along 0 go (omega arith) (refl, tt) } in
    let c : ScanRun = record { last = _; along = moves b.along 2 go (omega arith) (refl, tt) } in
    let d : ScanRun = record { last = _; along = moves c.along 2 go (omega arith) (refl, tt) } in
    let e : ScanRun = record { last = _; along = moves d.along 2 go (omega arith) (refl, tt) } in
    let f : ScanRun = record { last = _; along = moves e.along 2 go (omega arith) (refl, tt) } in
    let g : ScanRun = record {
      last = _;
      along = moves f.along 2 (allocate 7) (omega arith) (refl, tt);
    } in
    let h : ScanRun = record { last = _; along = moves g.along 2 go (omega arith) (refl, tt) } in
    let i : ScanRun = record { last = _; along = moves h.along 2 go (omega arith) (refl, tt) } in
    let j : ScanRun = record { last = _; along = moves i.along 2 go (omega arith) (refl, tt) } in
    let k : ScanRun = record { last = _; along = moves j.along 0 go (omega arith) (refl, tt) } in
    let l : ScanRun = record { last = _; along = moves k.along 0 go (omega arith) (refl, tt) } in
    let o : ScanRun = record { last = _; along = moves l.along 0 go (omega arith) (refl, tt) } in
    record { last = _; along = moves o.along 0 go (omega arith) (refl, tt) }

linked_meanwhile : (scanned.last.shared.head ≡ 7) × (scanned.last.pc 2 ≡ owns 7)
unfolding first second record_step
linked_meanwhile = (refl, refl)

scan_sees_example : has 77 (77 ∷ []) ≡ true
unfolding first second record_step
scan_sees_example =
    scan_sees 3 0 1 5 1 77 (some 6) (some 6) (77 ∷ []) (omega arith) (omega arith) (omega arith)
      (omega arith) published.reach refl refl refl scanned.along refl
