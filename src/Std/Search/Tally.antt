-- ===== src/Std/Search/Tally.antt =====
-- How many elements of a vector are below a value or at most that value, before and after std::sort;
-- the element of a sorted vector at an index is the one of that rank.
use lock_free_mpmc_queue.Base.{
  ℕ, zero, suc, ◌+◌, ◌≤◌, ◌<◌, ◌≡◌, refl, List, [], ◌∷◌, ◌++◌, ltb, leb, if◌then◌else◌, length,
  get_or, arith,
}
use lock_free_mpmc_queue.Std.Search.{insert, sort, AllGe, IsSorted, AllGe-get_or, sort-IsSorted}

abbrev pub tally_below : ℕ → List ℕ → ℕ
tally_below v [] = 0
tally_below v (x ∷ xs) = (if ltb x v then 1 else 0) + tally_below v xs

abbrev pub tally_upto : ℕ → List ℕ → ℕ
tally_upto v [] = 0
tally_upto v (x ∷ xs) = (if leb x v then 1 else 0) + tally_upto v xs

pub tally_below-append :
    (v : ℕ) (xs ys : List ℕ) → tally_below v (xs ++ ys) ≡ tally_below v xs + tally_below v ys
tally_below-append v [] ys = omega arith
tally_below-append v (x ∷ xs) ys = omega (arith, tally_below-append v xs ys)

pub tally_upto-append :
    (v : ℕ) (xs ys : List ℕ) → tally_upto v (xs ++ ys) ≡ tally_upto v xs + tally_upto v ys
tally_upto-append v [] ys = omega arith
tally_upto-append v (x ∷ xs) ys = omega (arith, tally_upto-append v xs ys)

tally_below-insert : (v a : ℕ) (xs : List ℕ) → tally_below v (insert a xs) ≡ tally_below v (a ∷ xs)
unfolding insert
tally_below-insert v a [] = refl
tally_below-insert v a (x ∷ xs) = ground (arith, tally_below-insert v a xs)

tally_upto-insert : (v a : ℕ) (xs : List ℕ) → tally_upto v (insert a xs) ≡ tally_upto v (a ∷ xs)
unfolding insert
tally_upto-insert v a [] = refl
tally_upto-insert v a (x ∷ xs) = ground (arith, tally_upto-insert v a xs)

length-insert : (a : ℕ) (xs : List ℕ) → length (insert a xs) ≡ suc (length xs)
unfolding insert
length-insert a [] = refl
length-insert a (x ∷ xs) = ground (arith, length-insert a xs)

pub tally_below-sort : (v : ℕ) (xs : List ℕ) → tally_below v (sort xs) ≡ tally_below v xs
unfolding sort
tally_below-sort v [] = refl
tally_below-sort v (x ∷ xs) = omega (arith, tally_below-insert v x (sort xs), tally_below-sort v xs)

pub tally_upto-sort : (v : ℕ) (xs : List ℕ) → tally_upto v (sort xs) ≡ tally_upto v xs
unfolding sort
tally_upto-sort v [] = refl
tally_upto-sort v (x ∷ xs) = omega (arith, tally_upto-insert v x (sort xs), tally_upto-sort v xs)

pub length-sort : (xs : List ℕ) → length (sort xs) ≡ length xs
unfolding sort
length-sort [] = refl
length-sort (x ∷ xs) = omega (arith, length-insert x (sort xs), length-sort xs)

-- The smaller elements stand before an index, and those that are no greater reach past it.
tally_below-none : (v : ℕ) (xs : List ℕ) → AllGe v xs → tally_below v xs ≡ 0
tally_below-none v [] h = refl
tally_below-none v (x ∷ xs) h = ground (arith, tally_below-none v xs)

tally_below-index :
    (xs : List ℕ) (i : ℕ) → IsSorted xs → i < length xs → tally_below (get_or xs i 0) xs ≤ i
tally_below-index [] i s h = elim h [ ]
tally_below-index (x ∷ xs) zero s h = ground (arith, tally_below-none x xs)
tally_below-index (x ∷ xs) (suc i) s h = ground (arith, tally_below-index xs i s.1)

tally_upto-index :
    (xs : List ℕ) (i : ℕ) → IsSorted xs → i < length xs → i < tally_upto (get_or xs i 0) xs
tally_upto-index [] i s h = elim h [ ]
tally_upto-index (x ∷ xs) zero s h = ground arith
tally_upto-index (x ∷ xs) (suc i) s h =
    ground (arith, tally_upto-index xs i s.1, AllGe-get_or x xs i s.0)

-- The element at index `i` of the sorted vector: at most `i` elements are smaller, and more than `i`
-- are no greater.
pub sort_rank :
    (xs : List ℕ) (i : ℕ)
    → i < length xs
    → let v = get_or (sort xs) i 0 in (tally_below v xs ≤ i) × (i < tally_upto v xs)
sort_rank xs i h =
    let s = sort-IsSorted xs in
    let v : ℕ = get_or (sort xs) i 0 in
    omega (
      arith,
      tally_below-sort v xs,
      tally_upto-sort v xs,
      tally_below-index (sort xs) i s (omega (arith, length-sort xs)),
      tally_upto-index (sort xs) i s (omega (arith, length-sort xs)),
    )
