-- ===== src/Orphans/Conserve.antt =====
-- The nodes and the items of the stack of orphans in reachable states
-- (include/lfq/hazard_pointer.hpp).
use lock_free_mpmc_queue.Base.{
  ℕ, ◌+◌, ◌-◌, ◌≤◌, ◌<◌, ◌≡◌, ◌≢◌, inl, inr, List, [], ◌∷◌, ◌++◌, count, count_pos, eq-cases,
  sum_below, sum_below-update, sum_below-zero, sum_below_mono, le-sum_below, add-le-sum_below,
  update, refl, sym, ap, arith,
}
use lock_free_mpmc_queue.Base.Segment.{Seg}
use lock_free_mpmc_queue.Orphans.Stack.{
  Orphans, OrphanPc, rests, make, swap, adopting, OrphanChoice, allocate, adopt, retires,
  OrphanSystem, orphan_act, orphan_advance, orphan_init, OrphanReach, start, later,
}
use lock_free_mpmc_queue.Orphans.Tracked.{
  Holds, live_flag, Spares, stack_after, nodes_after, step-stack, step-Holds, others-Holds,
  step-ledger,
}
use lock_free_mpmc_queue.Orphans.Items.{in_bag, in_nodes, step-in_nodes, own-in_nodes, step-items}

-- A step writes to no node of a list that shares none with its thread, and to no free address.
apart-Spares :
    (m : Orphans) (pc : OrphanPc) (c : OrphanChoice) (own l : List ℕ)
    → Holds m pc own
    → ((a : ℕ) → count a own + count a l ≤ live_flag m a)
    → Spares m pc c l
apart-Spares m (rests bag) adopt own l k apart = tt
apart-Spares m (rests bag) c own l k apart = tt
apart-Spares m (make p bag) (allocate a) own l k apart =
    λ unused. ground (arith, apart a, count_pos a l)
apart-Spares m (make p bag) c own l k apart = tt
apart-Spares m (swap o bag) c own l k apart =
    let mine : count o own ≡ count o (o ∷ []) = ap (count o) k.0 in
    ground (arith, apart o, count_pos o l)
apart-Spares m (adopting o bag) c own l k apart = tt

-- The nodes `xs` of the stack, and `ys j` of thread `j`.
record Tracking (n : ℕ) (given : List ℕ) (s : OrphanSystem) (xs : List ℕ) (ys : ℕ → List ℕ)
    : Type 0 where
  stack : Seg s.shared.next s.shared.top xs
  holds : (j : ℕ) → j < n → Holds s.shared (s.pc j) (ys j)
  ledger : (a : ℕ) → count a xs + sum_below (count a) ys n ≡ live_flag s.shared a
  items :
      (p : ℕ)
      → count p given
        ≡ sum_below (in_bag p) s.pc n
          + in_nodes s.shared p xs
          + sum_below (in_nodes s.shared p) ys n

module _ (n i : ℕ) (c : OrphanChoice) (s : OrphanSystem) (lt : i < n) (given xs : List ℕ)
    (ys : ℕ → List ℕ) (t : Tracking n given s xs ys) where
  stack-Spares : Spares s.shared (s.pc i) c xs
  stack-Spares =
      apart-Spares s.shared (s.pc i) c (ys i) xs (t.holds i lt)
        (λ a. omega (arith, t.ledger a, le-sum_below (count a) ys i n lt))

  other-Spares : (j : ℕ) → j < n → j ≢ i → Spares s.shared (s.pc i) c (ys j)
  other-Spares j ltj ne =
      apart-Spares s.shared (s.pc i) c (ys i) (ys j) (t.holds i lt) (λ a.
        omega (arith, t.ledger a, add-le-sum_below (count a) ys i j n lt ltj (λ e. ne (sym e))))

  own_after : List ℕ
  own_after = nodes_after s.shared (s.pc i) c xs (ys i)

  same_nodes :
      (p j : ℕ) → j < n → in_nodes (orphan_act i c s).shared p (ys j) ≡ in_nodes s.shared p (ys j)
  same_nodes p j ltj = elim (eq-cases j i) [
    | inl e ↦ rw e (own-in_nodes c s.shared (s.pc i) p (ys i) (t.holds i lt))
    | inr ne ↦ step-in_nodes c s.shared (s.pc i) p (ys j) (other-Spares j ltj ne)
  ]

  all_same :
      (p : ℕ)
      → sum_below (in_nodes (orphan_act i c s).shared p) ys n ≡ sum_below (in_nodes s.shared p) ys n
  all_same p =
      let before = in_nodes s.shared p in
      let after = in_nodes (orphan_act i c s).shared p in
      omega (
        arith,
        sum_below_mono after ys before ys n (λ j ltj. omega (arith, same_nodes p j ltj)),
        sum_below_mono before ys after ys n (λ j ltj. omega (arith, same_nodes p j ltj)),
      )

  advance-Tracking :
      Tracking n
        (retires (s.pc i) c ++ given)
        (orphan_advance i c s)
        (stack_after s.shared (s.pc i) c xs)
        (update ys i own_after)
  unfolding own_after
  advance-Tracking = record {
    stack = step-stack c s.shared (s.pc i) xs (ys i) stack-Spares (t.holds i lt) t.stack;
    holds = λ j ltj. elim (eq-cases j i) [
      | inl e ↦
          let pc_here : (orphan_advance i c s).pc j ≡ (orphan_act i c s).pc = ground arith in
          let own_here : update ys i own_after j ≡ own_after = ground arith in
          rw (pc_here, own_here) (step-Holds c s.shared (s.pc i) xs (ys i) t.stack (t.holds i lt))
      | inr ne ↦
          let pc_same : (orphan_advance i c s).pc j ≡ s.pc j = ground arith in
          let own_same : update ys i own_after j ≡ ys j = ground arith in
          rw (pc_same, own_same)
            (others-Holds c s.shared (s.pc i) (s.pc j) (ys j) (other-Spares j ltj ne)
              (t.holds j ltj))
    ];
    ledger = λ a. omega (
      arith,
      le-sum_below (count a) ys i n lt,
      sum_below-update (count a) ys i own_after n lt,
      step-ledger c s.shared (s.pc i) xs (ys i) a (sum_below (count a) ys n - count a (ys i))
          (t.holds i lt) (omega (arith, t.ledger a, le-sum_below (count a) ys i n lt)),
    );
    items = λ p.
        let bags = sum_below (in_bag p) s.pc n - in_bag p (s.pc i) in
        let nodes = sum_below (in_nodes s.shared p) ys n - in_nodes s.shared p (ys i) in
        let less = le-sum_below (in_bag p) s.pc i n lt in
        let fewer = le-sum_below (in_nodes s.shared p) ys i n lt in
        omega (
          arith,
          less,
          fewer,
          sum_below-update (in_bag p) s.pc i (orphan_act i c s).pc n lt,
          sum_below-update (in_nodes (orphan_act i c s).shared p) ys i own_after n lt,
          same_nodes p i lt,
          all_same p,
          step-items c s.shared (s.pc i) xs (ys i) given p (bags + nodes) stack-Spares
              (t.holds i lt) (omega (arith, t.items p, less, fewer)),
        );
  }

Reach-Tracking :
    (n : ℕ) {given : List ℕ} {s : OrphanSystem}
    → OrphanReach n given s
    → (xs : List ℕ) × (ys : ℕ → List ℕ) × Tracking n given s xs ys
Reach-Tracking n start = (
  [],
  λ _. [],
  record {
    stack = refl;
    holds = λ j lt. refl;
    ledger = λ a. omega (arith, sum_below-zero (count a) (λ _. []) n (λ _. refl));
    items = λ p. omega (
      arith,
      sum_below-zero (in_bag p) orphan_init.pc n (λ _. refl),
      sum_below-zero (in_nodes orphan_init.shared p) (λ _. []) n (λ _. refl),
    );
  },
)
Reach-Tracking n (later {given} {s} r i c lt) =
    let (xs, ys, t) = Reach-Tracking n r in (_, _, advance-Tracking n i c s lt given xs ys t)

-- In every reachable state there are nodes `xs` to which orphans_ leads, and nodes of each thread,
-- its new one or those that it has taken over and not deleted: an address is allocated just if it is one
-- of them, and is so once; and what the threads have retired is, each item as often, in their retire
-- lists, in their hands, on the stack and in the nodes that they have.
pub orphans_conserved :
    (n : ℕ) {given : List ℕ} {s : OrphanSystem}
    → OrphanReach n given s
    → (xs : List ℕ) × (ys : ℕ → List ℕ) × Seg s.shared.next s.shared.top xs
      × ((j : ℕ) → j < n → Holds s.shared (s.pc j) (ys j))
      × ((a : ℕ) → count a xs + sum_below (count a) ys n ≡ live_flag s.shared a)
      × ((p : ℕ)
          → count p given
            ≡ sum_below (in_bag p) s.pc n
              + in_nodes s.shared p xs
              + sum_below (in_nodes s.shared p) ys n)
orphans_conserved n r =
    let (xs, ys, t) = Reach-Tracking n r in (xs, ys, t.stack, t.holds, t.ledger, t.items)
