-- ===== src/Machine/Solo/Scan.antt =====
-- A thread alone ends a scan, the destructor of its guard and its exit
-- (include/lfq/hazard_pointer.hpp).
use lock_free_mpmc_queue.Base.{
  ℕ, zero, suc, ◌+◌, ◌≤◌, ◌≡◌, refl, inl, inr, false, List, [], ◌∷◌, ◌++◌, some, ltb, ◌==◌,
  if◌then◌else◌, update, length, Bool-cases, arith,
}
use lock_free_mpmc_queue.Std.Search.{sort, binary_search}
use lock_free_mpmc_queue.Machine.State.{
  Ptr, null, slot_count, Mem, ScanPc, adopt, load_slot, sweep, Caller, from_retire, from_drain,
  from_exit, idle, scanning, unguard, push_orphans, release, exited, Returned, dequeued, silent,
  returns,
}
use lock_free_mpmc_queue.Machine.Step.{
  add64, next_slot, store_slot, act, resume_caller, left_in_bag, step,
}
use lock_free_mpmc_queue.Machine.Solo.{Ends, one_more, at_rest}

module _ {V : Type 0} (n i : ℕ) where
  unguard-Ends_from :
      (f k : ℕ) (m : Mem V) (b : List Ptr) (r : Returned V)
      → slot_count ≤ k + f
      → Ends n i m b (unguard k r)
  unfolding step
  unguard-Ends_from zero k m b r h =
      one_more n i m b (unguard k r) (act (store_slot i k null m) idle b (returns r)) (ground arith)
        (at_rest n i _ _ _ refl)
  unguard-Ends_from (suc f) k m b r h = elim (Bool-cases (ltb (k + 1) slot_count)) [
    | inl e ↦
        one_more n i m b (unguard k r) (act (store_slot i k null m) (unguard (k + 1) r) b silent)
          (rw e refl) (unguard-Ends_from f (k + 1) (store_slot i k null m) b r (omega arith))
    | inr e ↦
        one_more n i m b (unguard k r) (act (store_slot i k null m) idle b (returns r)) (rw e refl)
          (at_rest n i _ _ _ refl)
  ]

  pub unguard-Ends :
      (k : ℕ) (m : Mem V) (b : List Ptr) (r : Returned V) → Ends n i m b (unguard k r)
  unguard-Ends k m b r = unguard-Ends_from slot_count k m b r (omega arith)

  release-Ends_from :
      (f k : ℕ) (m : Mem V) (b : List Ptr) → slot_count ≤ k + f → Ends n i m b (release k)
  unfolding step
  release-Ends_from zero k m b h =
      one_more n i m b (release k) (act m exited b silent) (ground arith) (at_rest n i _ _ _ refl)
  release-Ends_from (suc f) k m b h = elim (Bool-cases (ltb k slot_count)) [
    | inl e ↦
        one_more n i m b (release k) (act (store_slot i k null m) (release (k + 1)) b silent)
          (rw e refl) (release-Ends_from f (k + 1) (store_slot i k null m) b (omega arith))
    | inr e ↦
        one_more n i m b (release k) (act m exited b silent) (rw e refl) (at_rest n i _ _ _ refl)
  ]

  pub release-Ends : (k : ℕ) (m : Mem V) (b : List Ptr) → Ends n i m b (release k)
  release-Ends k m b = release-Ends_from slot_count k m b (omega arith)

  pub push_orphans-Ends :
      (todo : List Ptr) (m : Mem V) (b : List Ptr) → Ends n i m b (push_orphans todo)
  unfolding step
  push_orphans-Ends [] m b =
      one_more n i m b (push_orphans []) (act m (release 0) b silent) refl (release-Ends 0 m b)
  push_orphans-Ends (p ∷ todo) m b =
      let m' : Mem V = record m { orphans = p ∷ m.orphans } in
      one_more n i m b (push_orphans (p ∷ todo)) (act m' (push_orphans todo) b silent) refl
        (push_orphans-Ends todo m' b)

  resume-Ends :
      (c : Caller V) (kept : List Ptr) (m : Mem V) (b : List Ptr)
      → Ends n i m b (resume_caller c kept)
  resume-Ends (from_retire v) kept m b = unguard-Ends 0 m b (dequeued (some v))
  resume-Ends from_drain kept m b = at_rest n i m b idle refl
  resume-Ends from_exit kept m b = push_orphans-Ends kept m b

  sweep-Ends :
      (todo : List Ptr) (hazards kept : List Ptr) (freed : ℕ) (c : Caller V) (m : Mem V)
      (b : List Ptr)
      → Ends n i m b (scanning (sweep hazards kept freed todo) c)
  unfolding step
  sweep-Ends [] hazards kept freed c m b =
      one_more n i m b (scanning (sweep hazards kept freed []) c)
        (act (record m { freed_count = add64 m.freed_count freed }) (resume_caller c kept)
          (left_in_bag c kept) silent)
        refl (resume-Ends c kept _ _)
  sweep-Ends (p ∷ todo) hazards kept freed c m b =
      elim (Bool-cases (binary_search (sort hazards) p)) [
        | inl e ↦
            one_more n i m b (scanning (sweep hazards kept freed (p ∷ todo)) c)
              (act m (scanning (sweep hazards (kept ++ p ∷ []) freed todo) c) b silent) (rw e refl)
              (sweep-Ends todo hazards (kept ++ p ∷ []) freed c m b)
        | inr e ↦
            let m' : Mem V = record m { live = update m.live p false } in
            one_more n i m b (scanning (sweep hazards kept freed (p ∷ todo)) c)
              (act m' (scanning (sweep hazards kept (freed + 1) todo) c) b silent) (rw e refl)
              (sweep-Ends todo hazards kept (freed + 1) c m' b)
      ]

  -- After the last slot of a record.
  past_record :
      (r l : ℕ) (hazards : List Ptr) (c : Caller V) (m : Mem V) (b : List Ptr)
      → ltb (l + 1) slot_count ≡ false
      → Ends n i m b (scanning (load_slot r 0 hazards) c)
      → Ends n i m b (scanning (next_slot r l hazards b) c)
  past_record r l hazards c m b e rest = elim (Bool-cases (r == 0)) [
    | inl z ↦ rw (e, z) (sweep-Ends b hazards [] 0 c m b)
    | inr s ↦ rw (e, s) rest
  ]

  abbrev snapshot : Mem V → (r l : ℕ) → List Ptr → List Ptr
  snapshot m r l hazards = if m.slot r l == null then hazards else hazards ++ m.slot r l ∷ []

  load_slot-Ends_from :
      (r f l : ℕ) (hazards : List Ptr) (c : Caller V) (m : Mem V) (b : List Ptr)
      → slot_count ≤ l + f
      → Ends n i m b (scanning (load_slot r l hazards) c)
  unfolding step
  load_slot-Ends_from zero f l hazards c m b h =
      one_more n i m b (scanning (load_slot zero l hazards) c)
        (act m (scanning (sweep hazards [] 0 b) c) b silent) refl (sweep-Ends b hazards [] 0 c m b)
  load_slot-Ends_from (suc r) zero l hazards c m b h =
      let seen : List Ptr = snapshot m r l hazards in
      one_more n i m b (scanning (load_slot (suc r) l hazards) c)
        (act m (scanning (next_slot r l seen b) c) b silent) refl
        (past_record r l seen c m b (ground arith)
          (load_slot-Ends_from r slot_count 0 seen c m b (omega arith)))
  load_slot-Ends_from (suc r) (suc f) l hazards c m b h =
      let seen : List Ptr = snapshot m r l hazards in
      let to_next : Ends n i m b (scanning (load_slot r 0 seen) c) =
        load_slot-Ends_from r slot_count 0 seen c m b (omega arith) in
      one_more n i m b (scanning (load_slot (suc r) l hazards) c)
        (act m (scanning (next_slot r l seen b) c) b silent) refl
        (elim (Bool-cases (ltb (l + 1) slot_count)) [
          | inl e ↦ rw e (load_slot-Ends_from (suc r) f (l + 1) seen c m b (omega arith))
          | inr e ↦ past_record r l seen c m b e to_next
        ])

  adopt-Ends : (c : Caller V) (m : Mem V) (b : List Ptr) → Ends n i m b (scanning adopt c)
  unfolding step
  adopt-Ends c m b =
      let m' : Mem V = record m { orphans = [] } in
      let all : List Ptr = b ++ m.orphans in
      elim (Bool-cases (length all == 0)) [
        | inl e ↦
            one_more n i m b (scanning adopt c) (act m' (resume_caller c []) all silent) (rw e refl)
              (resume-Ends c [] m' all)
        | inr e ↦ elim (Bool-cases (n == 0)) [
          | inl z ↦
              one_more n i m b (scanning adopt c)
                (act m' (scanning (sweep [] [] 0 all) c) all silent) (rw (e, z) refl)
                (sweep-Ends all [] [] 0 c m' all)
          | inr s ↦
              one_more n i m b (scanning adopt c)
                (act m' (scanning (load_slot n 0 []) c) all silent) (rw (e, s) refl)
                (load_slot-Ends_from n slot_count 0 [] c m' all (omega arith))
        ]
      ]

  -- A scan ends wherever it stands.
  pub scan-Ends :
      (pc : ScanPc) (c : Caller V) (m : Mem V) (b : List Ptr) → Ends n i m b (scanning pc c)
  scan-Ends adopt c m b = adopt-Ends c m b
  scan-Ends (load_slot r l hazards) c m b =
      load_slot-Ends_from r slot_count l hazards c m b (omega arith)
  scan-Ends (sweep hazards kept freed todo) c m b = sweep-Ends todo hazards kept freed c m b
