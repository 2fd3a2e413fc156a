-- ===== src/Std/Search.antt =====
-- std::sort and std::binary_search on a vector of addresses, as `hp_domain::scan` of
-- include/lfq/hazard_pointer.hpp uses them. The search halves its range, as std::lower_bound does,
-- and is right only on a sorted vector.
use lock_free_mpmc_queue.Base.{
  ℕ, zero, suc, ◌+◌, ◌-◌, ◌/◌, ◌≤◌, ◌<◌, ◌≡◌, refl, ap, ◌∙◌, inl, inr, Bool, false, ◌&&◌, List, [],
  ◌∷◌, arith, ltb, leb, ◌==◌, if◌then◌else◌, Bool-cases, length, has, get_or, has-get_or,
  get_or-has, ◌||◌,
}
pub mod Tally

insert : ℕ → List ℕ → List ℕ
insert a [] = a ∷ []
insert a (x ∷ xs) = if leb a x then a ∷ x ∷ xs else x ∷ insert a xs

unfoldable pub sort : List ℕ → List ℕ
unfolding insert
sort [] = []
sort (x ∷ xs) = insert x (sort xs)

-- The loop of std::lower_bound over `len` elements from `lo`, with `len` rounds or more of fuel.
lower_bound : ℕ → List ℕ → ℕ → ℕ → ℕ → ℕ
lower_bound zero xs p lo len = lo
lower_bound (suc f) xs p lo len =
    let half = len / 2 in
    let rest =
      lower_bound f xs p (if ltb (get_or xs (lo + half) 0) p then lo + half + 1 else lo)
        (if ltb (get_or xs (lo + half) 0) p then len - half - 1 else half) in
    if len == 0 then lo else rest

unfoldable pub binary_search : List ℕ → ℕ → Bool
unfolding lower_bound
binary_search xs p =
    let r = lower_bound (length xs) xs p 0 (length xs) in ltb r (length xs) && leb (get_or xs r 0) p

abbrev pub AllGe : ℕ → List ℕ → Type 0
AllGe a [] = Unit
AllGe a (x ∷ xs) = (a ≤ x) × AllGe a xs

abbrev pub IsSorted : List ℕ → Type 0
IsSorted [] = Unit
IsSorted (x ∷ xs) = AllGe x xs × IsSorted xs

AllGe-trans : (a b : ℕ) (xs : List ℕ) → a ≤ b → AllGe b xs → AllGe a xs
AllGe-trans a b [] h k = tt
AllGe-trans a b (x ∷ xs) h k = (omega arith, AllGe-trans a b xs h k.1)

AllGe-insert : (a b : ℕ) (xs : List ℕ) → a ≤ b → AllGe a xs → AllGe a (insert b xs)
unfolding insert
AllGe-insert a b [] h k = (h, tt)
AllGe-insert a b (x ∷ xs) h k = elim (Bool-cases (leb b x)) [
  | inl e ↦ rw e (h, k)
  | inr e ↦ rw e (k.0, AllGe-insert a b xs h k.1)
]

insert-IsSorted : (a : ℕ) (xs : List ℕ) → IsSorted xs → IsSorted (insert a xs)
unfolding insert
insert-IsSorted a [] s = (tt, tt)
insert-IsSorted a (x ∷ xs) s = elim (Bool-cases (leb a x)) [
  | inl e ↦ rw e ((ground arith, AllGe-trans a x xs (ground arith) s.0), s)
  | inr e ↦ rw e (AllGe-insert x a xs (ground arith) s.0, insert-IsSorted a xs s.1)
]

pub sort-IsSorted : (xs : List ℕ) → IsSorted (sort xs)
unfolding sort
sort-IsSorted [] = tt
sort-IsSorted (x ∷ xs) = insert-IsSorted x (sort xs) (sort-IsSorted xs)

has-insert : (p a : ℕ) (xs : List ℕ) → has p (insert a xs) ≡ ((a == p) || has p xs)
unfolding insert
has-insert p a [] = refl
has-insert p a (x ∷ xs) = ground (arith, has-insert p a xs)

has-sort : (p : ℕ) (xs : List ℕ) → has p (sort xs) ≡ has p xs
unfolding sort
has-sort p [] = refl
has-sort p (x ∷ xs) = has-insert p x (sort xs) ∙ ap (λ b. (x == p) || b) (has-sort p xs)

AllGe-get_or : (a : ℕ) (xs : List ℕ) (i : ℕ) → AllGe a xs → i < length xs → a ≤ get_or xs i 0
AllGe-get_or a [] i k h = elim h [ ]
AllGe-get_or a (x ∷ xs) zero k h = k.0
AllGe-get_or a (x ∷ xs) (suc i) k h = AllGe-get_or a xs i k.1 (omega arith)

pub get_or_mono :
    (xs : List ℕ) (i j : ℕ) → IsSorted xs → i ≤ j → j < length xs → get_or xs i 0 ≤ get_or xs j 0
get_or_mono [] i j s h k = elim k [ ]
get_or_mono (x ∷ xs) zero zero s h k = omega arith
get_or_mono (x ∷ xs) zero (suc j) s h k = AllGe-get_or x xs j s.0 (omega arith)
get_or_mono (x ∷ xs) (suc i) zero s h k = absurd (omega arith)
get_or_mono (x ∷ xs) (suc i) (suc j) s h k = get_or_mono xs i j s.1 (omega arith) (omega arith)

-- What std::lower_bound promises of its result `r`.
record Bound (xs : List ℕ) (p r : ℕ) : Type 0 where
  inside : r ≤ length xs
  below : (i : ℕ) → i < r → get_or xs i 0 < p
  above : (i : ℕ) → r ≤ i → i < length xs → p ≤ get_or xs i 0

module _ (xs : List ℕ) (p : ℕ) (s : IsSorted xs) where
  lower_bound-Bound :
      (f lo len : ℕ)
      → len ≤ f
      → lo + len ≤ length xs
      → ((i : ℕ) → i < lo → get_or xs i 0 < p)
      → ((i : ℕ) → lo + len ≤ i → i < length xs → p ≤ get_or xs i 0)
      → Bound xs p (lower_bound f xs p lo len)
  unfolding lower_bound
  lower_bound-Bound zero lo len h k b a = record {
    inside = omega arith;
    below = b;
    above = λ i g. a i (omega arith);
  }
  lower_bound-Bound (suc f) lo zero h k b a = record {
    inside = omega arith;
    below = b;
    above = λ i g. a i (omega arith);
  }
  lower_bound-Bound (suc f) lo (suc m) h k b a =
      let more : (suc m == 0) ≡ false = ground arith in
      elim (Bool-cases (ltb (get_or xs (lo + suc m / 2) 0) p)) [
        | inl e ↦
            rw (e, more)
              (lower_bound-Bound f (lo + suc m / 2 + 1) (suc m - suc m / 2 - 1) (omega arith)
                (omega arith) (λ i g. ground (arith, get_or_mono xs i (lo + suc m / 2) s))
                (λ i g. a i (omega arith)))
        | inr e ↦
            rw (e, more)
              (lower_bound-Bound f lo (suc m / 2) (omega arith) (omega arith) b
                (λ i g r. ground (arith, get_or_mono xs (lo + suc m / 2) i s)))
      ]

  found : Bound xs p (lower_bound (length xs) xs p 0 (length xs))
  found =
      lower_bound-Bound (length xs) 0 (length xs) (omega arith) (omega arith)
        (λ i g. absurd (omega arith)) (λ i g r. absurd (omega arith))

  -- On a sorted vector the search answers whether the element is there.
  binary_search-has : binary_search xs p ≡ has p xs
  unfolding binary_search
  binary_search-has = elim (Bool-cases (has p xs)) [
    | inl e ↦
        let (i, lt, at) = has-get_or p xs e in
        let r : ℕ = lower_bound (length xs) xs p 0 (length xs) in
        ground (arith, found.inside, found.below i, found.above r, get_or_mono xs r i s)
    | inr e ↦
        let r : ℕ = lower_bound (length xs) xs p 0 (length xs) in
        ground (arith, found.above r, get_or-has xs r)
  ]

-- `scan` finds an address in its sorted snapshot exactly when the snapshot holds it.
pub binary_search-sort : (p : ℕ) (xs : List ℕ) → binary_search (sort xs) p ≡ has p xs
binary_search-sort p xs = binary_search-has (sort xs) p (sort-IsSorted xs) ∙ has-sort p xs
