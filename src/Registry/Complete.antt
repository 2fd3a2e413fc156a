-- ===== src/Registry/Complete.antt =====
-- A scan from its load of head_ to the end of its snapshot (include/lfq/hazard_pointer.hpp).
use lock_free_mpmc_queue.Base.{
  ℕ, ◌<◌, ◌≡◌, ◌≢◌, inl, inr, true, Option, List, has, eq-cases, sum_below, subst, arith,
}
use lock_free_mpmc_queue.Registry.Acquire.{
  scan_head, collected, RecordSystem, record_act, record_advance, RecordReach, later,
}
use lock_free_mpmc_queue.Registry.Ownership.{has_record, RecordReach-Inv}
use lock_free_mpmc_queue.Registry.Listed.{is_linking, grown}
use lock_free_mpmc_queue.Registry.News.{is_new}
use lock_free_mpmc_queue.Registry.Snapshot.{
  Along, stays, moves, Along-last, InScan, Sees, own-Sees, others-Sees, has-owner,
}
use lock_free_mpmc_queue.Registry.Growth.{Listing, advance-Listing, RecordReach-Listing}

module _ (r k p : ℕ) (small : k < 2) (real : p ≢ 0) (n i : ℕ) where
  -- The hazard stands in its slot, and thread `i` is in its scan.
  abbrev pub Watched : RecordSystem → Type 0
  Watched t = (t.shared.slot r k ≡ p) × InScan (t.pc i)

  record Midway (t : RecordSystem) : Type 0 where
    reach : RecordReach n t
    seen : (xs : List ℕ) × Listing n t xs × Sees r k p small real xs t.shared (t.pc i)

  Along-Midway : {s t : RecordSystem} → Midway s → Along n Watched s t → Midway t
  Along-Midway start_mid (stays w) = start_mid
  Along-Midway start_mid (moves {t} al j c ltj w) =
      let mid = Along-Midway start_mid al in
      let (xs, l, s) = mid.seen in
      record {
        reach = later mid.reach j c ltj;
        seen = (
          grown c t.shared (t.pc j) xs,
          advance-Listing n j c t ltj xs (RecordReach-Inv n mid.reach) l,
          elim (eq-cases i j) [
            | inl e ↦
                let here : (record_advance j c t).pc i ≡ (record_act j c t).pc = ground arith in
                rw here (
                  own-Sees r k p small real c t.shared (t.pc j) xs (sum_below is_linking t.pc n)
                    (subst (λ q. InScan (t.pc q)) e (Along-last al).1) l.shared (Along-last al).0
                    (subst (λ q. Sees r k p small real xs t.shared (t.pc q)) e s))
            | inr ne ↦
                let same : (record_advance j c t).pc i ≡ t.pc i = ground arith in
                rw same (
                  others-Sees r k p small real c t.shared (t.pc j) (t.pc i) xs
                    (sum_below is_linking t.pc n) l.shared (l.knows j ltj) s)
          ],
        );
      }

-- A hazard that stands in a slot of a record all through a scan is in the snapshot that the scan has
-- taken, if the record was linked, and its thread had it, where the scan was about to load
-- head_: whatever the other threads push on the list, release or store in the meantime.
pub scan_sees :
    (n i j r k p : ℕ) (mine mine' : Option ℕ) (hazards : List ℕ) {s t : RecordSystem} (lti : i < n)
    (ltj : j < n) (small : k < 2) (real : p ≢ 0)
    → RecordReach n s
    → s.pc i ≡ scan_head mine
    → has_record r (s.pc j) ≡ 1
    → is_new r (s.pc j) ≡ 0
    → Along n (λ u. (u.shared.slot r k ≡ p) × InScan (u.pc i)) s t
    → t.pc i ≡ collected mine' hazards
    → has p hazards ≡ true
scan_sees n i j r k p mine mine' hazards {s} {t} lti ltj small real reach begin own old along end =
    let (xs, l) = RecordReach-Listing n reach in
    let on = has-owner xs (s.pc j) r (l.knows j ltj) own old in
    let first : Sees r k p small real xs s.shared (s.pc i) = rw begin on in
    let mid : Midway r k p small real n i t =
      Along-Midway r k p small real n i (record { reach = reach; seen = (xs, l, first) }) along in
    let (ys, _, seen) = mid.seen in subst (Sees r k p small real ys t.shared) end seen
