-- ===== src/Registry/Growth.antt =====
-- The list of hazard records in reachable states (include/lfq/hazard_pointer.hpp).
use lock_free_mpmc_queue.Base.{
  ℕ, ◌+◌, ◌-◌, ◌%◌, ◌^◌, ◌<◌, ◌≡◌, inl, inr, true, List, [], length, count, sum_below,
  sum_below-update, sum_below-zero, le-sum_below, add-le-sum_below, eq-cases, refl, subst, sym,
  arith,
}
use lock_free_mpmc_queue.Registry.Acquire.{
  RecordPc, RecordChoice, RecordSystem, record_act, record_advance, record_init, RecordReach, start,
  later,
}
use lock_free_mpmc_queue.Registry.Ownership.{has_record, InvOf, RecordReach-Inv}
use lock_free_mpmc_queue.Base.Segment.{Seg}
use lock_free_mpmc_queue.Registry.Listed.{
  is_linking, KnowsList, grown, IsList, step-IsList, step-KnowsList, others-KnowsList,
}
use lock_free_mpmc_queue.Registry.News.{is_new, made_flag, step-is_new}

-- The records on the list, from its head.
pub record Listing (n : ℕ) (s : RecordSystem) (xs : List ℕ) : Type 0 where
  pub shared : IsList s.shared xs (sum_below is_linking s.pc n)
  pub knows : (j : ℕ) → j < n → KnowsList xs (s.pc j)
  pub news : (r : ℕ) → count r xs + sum_below (is_new r) s.pc n ≡ made_flag s.shared r

module _ (n i : ℕ) (c : RecordChoice) (s : RecordSystem) (lt : i < n) where
  weighs :
      (w : RecordPc → ℕ)
      → sum_below w (record_advance i c s).pc n
        ≡ (sum_below w s.pc n - w (s.pc i)) + w (record_act i c s).pc
  weighs w =
      omega
        (arith, le-sum_below w s.pc i n lt, sum_below-update w s.pc i (record_act i c s).pc n lt)

  before : (w : RecordPc → ℕ) → sum_below w s.pc n ≡ (sum_below w s.pc n - w (s.pc i)) + w (s.pc i)
  before w = omega (arith, le-sum_below w s.pc i n lt)

  made_own : InvOf n s → (j r : ℕ) → j < n → has_record r (s.pc j) ≡ 1 → s.shared.made r ≡ true
  made_own inv j r ltj e =
      inv.chain.of_active r (ground (arith, inv.owners r, le-sum_below (has_record r) s.pc j n ltj))

  pub advance-Listing :
      (xs : List ℕ)
      → InvOf n s
      → Listing n s xs
      → Listing n (record_advance i c s) (grown c s.shared (s.pc i) xs)
  advance-Listing xs inv l = record {
    shared =
        let now = subst (IsList s.shared xs) (before is_linking) l.shared in
        let after =
          step-IsList c s.shared (s.pc i) xs _ (l.knows i lt) (λ r. made_own inv i r lt) now in
        subst (IsList _ _) (sym (weighs is_linking)) after;
    knows = λ j ltj. elim (eq-cases j i) [
      | inl e ↦
          let here : (record_advance i c s).pc j ≡ (record_act i c s).pc = ground arith in
          rw here
            (step-KnowsList c s.shared (s.pc i) xs l.shared.seg l.shared.of_made (l.knows i lt))
      | inr ne ↦
          let same : (record_advance i c s).pc j ≡ s.pc j = ground arith in
          rw same (
            others-KnowsList c s.shared (s.pc i) (s.pc j) xs
              (λ r. ground (arith, inv.owners r, add-le-sum_below (has_record r) s.pc i j n lt ltj))
              (l.knows j ltj))
    ];
    news = λ r. omega (
      arith,
      weighs (is_new r),
      step-is_new c s.shared (s.pc i) xs r (sum_below (is_new r) s.pc n - is_new r (s.pc i))
          (omega (arith, before (is_new r), l.news r)),
    );
  }

pub RecordReach-Listing :
    (n : ℕ) {s : RecordSystem} → RecordReach n s → (xs : List ℕ) × Listing n s xs
RecordReach-Listing n start = (
  [],
  record {
    shared = record {
      seg = refl;
      of_made = λ r h. cc;
      once = λ r. omega arith;
      counted = omega (arith, sum_below-zero is_linking record_init.pc n (λ _. refl));
    };
    knows = λ j lt. tt;
    news = λ r. omega (arith, sum_below-zero (is_new r) record_init.pc n (λ _. refl));
  },
)
RecordReach-Listing n (later {s} r i c lt) =
    let (xs, l) = RecordReach-Listing n r in
    (grown c s.shared (s.pc i) xs, advance-Listing n i c s lt xs (RecordReach-Inv n r) l)

-- In every reachable state the links from head_ lead to null through a list of records that holds each
-- record that was ever made just once, but for those that their threads have not linked yet, which
-- it does not hold, and no other; and nrecords_ is, modulo 2 ^ 64, its length and the number of
-- threads between their fetch_add on nrecords_ and the link of their record.
pub listed :
    (n : ℕ) {s : RecordSystem}
    → RecordReach n s
    → (xs : List ℕ) × Seg s.shared.next s.shared.head xs
      × ((r : ℕ) → count r xs + sum_below (is_new r) s.pc n ≡ made_flag s.shared r)
      × (s.shared.nrecords ≡ (length xs + sum_below is_linking s.pc n) % 2 ^ 64)
listed n r = let (xs, l) = RecordReach-Listing n r in (xs, l.shared.seg, l.news, l.shared.counted)
