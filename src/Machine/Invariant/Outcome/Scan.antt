-- ===== src/Machine/Invariant/Outcome/Scan.antt =====
-- The steps of `scan`: only the sweep changes the shared structure, by freeing what the snapshot
-- does not hold.
use lock_free_mpmc_queue.Base.{
  ℕ, zero, suc, ◌+◌, ◌≡◌, inl, inr, true, List, [], ◌∷◌, ◌++◌, refl, sym, ◌∙◌, ◌==◌, has, count,
  count-append, length-zero, has-append, arith, Bool-cases, length,
}
use lock_free_mpmc_queue.Std.Search.{sort, binary_search, binary_search-sort}
use lock_free_mpmc_queue.Machine.State.{
  Ptr, Mem, ScanPc, adopt, load_slot, sweep, Caller, from_retire, from_drain, from_exit, scanning,
  silent,
}
use lock_free_mpmc_queue.Machine.Step.{scan_step, resume_caller, left_in_bag, next_slot, act, add64}
use lock_free_mpmc_queue.Machine.Spec.{stays}
use lock_free_mpmc_queue.Machine.Invariant.Defs.{retired, Ghost, IsQueue, owned_at}
use lock_free_mpmc_queue.Machine.Invariant.Change.{frees}
use lock_free_mpmc_queue.Machine.Invariant.Outcome.Defs.{Outcome, quiet, writes}

left_in_bag-nil : {V : Type 0} (k : Caller V) → left_in_bag k [] ≡ []
left_in_bag-nil (from_retire v) = refl
left_in_bag-nil from_drain = refl
left_in_bag-nil from_exit = refl

module _ {V : Type 0} {g : Ghost V} {m : Mem V} (q : IsQueue g m) (n i : ℕ) where
  -- The step back to the caller, with what the sweep kept.
  resumes :
      (k : Caller V) (pc : ScanPc) (bag bag' kept : List Ptr) (o : List Ptr) (f : ℕ)
      → ((p : Ptr)
          → count p kept + count p o ≡ count p (owned_at (scanning pc k) bag) + count p m.orphans)
      → bag' ≡ left_in_bag k kept
      → Outcome i g m
          (scanning pc k)
          bag
          (act (record m { orphans = o; freed_count = f }) (resume_caller k kept) bag' silent)
  resumes (from_retire v) pc bag bag' kept o f e b =
      writes m.slot o m.retired_count f _ _ _ (λ p. ground (arith, e p)) refl tt (λ j. ground arith)
        (λ j. ground arith) stays
  resumes from_drain pc bag bag' kept o f e b =
      writes m.slot o m.retired_count f _ _ _ (λ p. ground (arith, e p)) refl tt (λ j. ground arith)
        (λ j. ground arith) stays
  resumes from_exit pc bag bag' kept o f e b =
      writes m.slot o m.retired_count f _ _ _ (λ p. ground (arith, e p)) refl tt (λ j. ground arith)
        (λ j. ground arith) stays

  next_slot-owned :
      (k : Caller V) (r l : ℕ) (hz bag : List Ptr)
      → owned_at (scanning (next_slot r l hz bag) k) bag ≡ bag
  next_slot-owned k r l hz bag = ground arith

  pub scan-Outcome :
      (k : Caller V) (bag : List Ptr) (pc : ScanPc)
      → ((p : Ptr) → has p (owned_at (scanning pc k) bag) ≡ true → g.status p ≡ retired)
      → Outcome i g m (scanning pc k) bag (scan_step n k m bag pc)
  unfolding scan_step
  scan-Outcome k bag adopt owes = elim (Bool-cases (length (bag ++ m.orphans) == 0)) [
    | inl e ↦
        let none_left : bag ++ m.orphans ≡ [] = length-zero _ (ground arith) in
        rw e (
          resumes k adopt bag (bag ++ m.orphans) [] [] m.freed_count
            (λ p. rw (← count-append p bag m.orphans) (rw none_left))
            (none_left ∙ sym (left_in_bag-nil k)))
    | inr e ↦ elim (Bool-cases (n == 0)) [
      | inl z ↦
          rw (e, z)
            (writes m.slot [] m.retired_count m.freed_count _ _ _
              (λ p. omega (arith, count-append p bag m.orphans)) refl tt (λ j. ground arith)
              (λ j. ground arith) stays)
      | inr z ↦
          rw (e, z)
            (writes m.slot [] m.retired_count m.freed_count _ _ _
              (λ p. omega (arith, count-append p bag m.orphans)) refl tt (λ j. ground arith)
              (λ j. ground arith) stays)
    ]
  ]
  scan-Outcome k bag (load_slot zero l hz) owes =
      quiet m.slot _ _ refl refl tt (λ j. ground arith) (λ j. ground arith) stays
  scan-Outcome k bag (load_slot (suc r) l hz) owes =
      quiet m.slot _ _ (next_slot-owned k r l _ bag) refl tt (λ j. ground arith) (λ j. ground arith)
        stays
  scan-Outcome k bag (sweep hz kept freed []) owes =
      resumes k (sweep hz kept freed []) bag (left_in_bag k kept) kept m.orphans
        (add64 m.freed_count freed) (λ p. omega (arith, count-append p kept [])) refl
  scan-Outcome k bag (sweep hz kept freed (p ∷ todo)) owes =
      elim (Bool-cases (binary_search (sort hz) p)) [
        | inl e ↦ rw e (
            writes m.slot m.orphans m.retired_count m.freed_count _ _ _
              (λ r. ground (
                arith,
                count-append r (kept ++ p ∷ []) todo,
                count-append r kept (p ∷ []),
                count-append r kept (p ∷ todo),
              ))
              refl tt (λ j. ground arith) (λ j. ground arith) stays)
        | inr e ↦ rw e (record {
          ghost = _;
          change = frees p (owes p (ground (arith, has-append p kept (p ∷ todo))));
          knows = tt;
          guards = λ j. ground arith;
          newly = λ j. ground arith;
          nodes = λ old r st. ground (arith, old r);
          balance = λ r. ground (
            arith,
            count-append r kept todo,
            count-append r kept (p ∷ todo),
            owes r,
            has-append r kept (p ∷ todo),
          );
          decided = λ r h f. (ground arith, ground (arith, binary_search-sort p hz), λ j k. refl);
          atomic = stays;
        })
      ]
