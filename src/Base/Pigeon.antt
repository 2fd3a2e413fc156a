-- ===== src/Base/Pigeon.antt =====
-- The pigeonhole principle on lists of numbers.
use Prim.Native.Nat.{ℕ, suc, ◌≤◌}
use mathlib.Core.Path.{◌≡◌}
use mathlib.Core.Logic.{inl, inr, ◌≢◌}
use mathlib.Core.Bool.{true}
use mathlib.Core.List.{List, [], ◌∷◌}
use native.Mathlib.Omega.{arith}
use lock_free_mpmc_queue.Base.Tests.{◌==◌, if◌then◌else◌, eq-cases}
use lock_free_mpmc_queue.Base.Lists.{length, has, count, count_pos}

-- Less its first `p`.
without : ℕ → List ℕ → List ℕ
without p [] = []
without p (x ∷ xs) = if x == p then xs else x ∷ without p xs

length-without : (p : ℕ) (xs : List ℕ) → has p xs ≡ true → length xs ≡ suc (length (without p xs))
unfolding without
length-without p [] h = cc
length-without p (x ∷ xs) h = ground (arith, length-without p xs)

has-without : (p r : ℕ) (xs : List ℕ) → r ≢ p → has r xs ≡ true → has r (without p xs) ≡ true
unfolding without
has-without p r [] ne h = h
has-without p r (x ∷ xs) ne h = ground (arith, has-without p r xs)

-- A list that repeats nothing is no longer than one that holds all its members.
pub length-le_of_has :
    (xs ys : List ℕ)
    → ((p : ℕ) → count p xs ≤ 1)
    → ((p : ℕ) → has p xs ≡ true → has p ys ≡ true)
    → length xs ≤ length ys
length-le_of_has [] ys once into = omega arith
length-le_of_has (x ∷ xs) ys once into = omega (
  arith,
  length-without x ys (into x (ground arith)),
  length-le_of_has xs (without x ys) (λ p. ground (arith, once p)) rest,
)
  where
    rest : (p : ℕ) → has p xs ≡ true → has p (without x ys) ≡ true
    rest p h = elim (eq-cases p x) [
      | inl e ↦ absurd (ground (arith, once p, count_pos p xs h))
      | inr ne ↦ has-without x p ys ne (into p (ground arith))
    ]
