-- ===== src/Base/Lists.antt =====
-- Lists measured by native numbers: length, Boolean membership, and how often a number occurs.
use Prim.Native.Nat.{ℕ, zero, suc, ◌+◌, ◌<◌}
use mathlib.Core.Logic.{inl, inr}
use mathlib.Core.Path.{◌≡◌, refl}
use mathlib.Core.Bool.{Bool, true, false, ◌||◌}
use mathlib.Core.List.{List, [], ◌∷◌, ◌++◌}
use native.Mathlib.Omega.{arith}
use lock_free_mpmc_queue.Base.Tests.{◌==◌, if◌then◌else◌, eq-cases}

module _ {ℓ} {A : Type ℓ} where
  abbrev pub length : List A → ℕ
  length [] = 0
  length (x ∷ xs) = suc (length xs)

  pub length-append : (xs ys : List A) → length (xs ++ ys) ≡ length xs + length ys
  length-append [] ys = omega arith
  length-append (x ∷ xs) ys = omega (arith, length-append xs ys)

pub length-zero {ℓ} : {A : Type ℓ} (xs : List A) → length xs ≡ 0 → xs ≡ []
length-zero [] h = refl
length-zero (x ∷ xs) h = absurd (omega arith)

abbrev pub has : ℕ → List ℕ → Bool
has a [] = false
has a (x ∷ xs) = (x == a) || has a xs

pub has-append : (a : ℕ) (xs ys : List ℕ) → has a (xs ++ ys) ≡ (has a xs || has a ys)
has-append a [] ys = refl
has-append a (x ∷ xs) ys = ground (arith, has-append a xs ys)

abbrev pub count : ℕ → List ℕ → ℕ
count p [] = 0
count p (x ∷ xs) = if x == p then suc (count p xs) else count p xs

pub count-append :
    (p : ℕ) (here there : List ℕ) → count p (here ++ there) ≡ count p here + count p there
count-append p [] there = omega arith
count-append p (x ∷ here) there = ground (arith, count-append p here there)

pub count_pos : (a : ℕ) (xs : List ℕ) → has a xs ≡ true → 0 < count a xs
count_pos a [] h = cc
count_pos a (x ∷ xs) h = ground (arith, count_pos a xs)

pub count-eq-zero : (a : ℕ) (xs : List ℕ) → has a xs ≡ false → count a xs ≡ 0
count-eq-zero a [] h = refl
count-eq-zero a (x ∷ xs) h = ground (arith, count-eq-zero a xs)

abbrev pub get_or : List ℕ → ℕ → ℕ → ℕ
get_or [] i d = d
get_or (x ∷ xs) zero d = x
get_or (x ∷ xs) (suc i) d = get_or xs i d

pub has-get_or :
    (a : ℕ) (xs : List ℕ) → has a xs ≡ true → (i : ℕ) × (i < length xs) × (get_or xs i 0 ≡ a)
has-get_or a [] h = cc
has-get_or a (x ∷ xs) h = elim (eq-cases x a) [
  | inl e ↦ (0, omega arith, e)
  | inr ne ↦ let (i, lt, e) = has-get_or a xs (ground arith) in (suc i, omega arith, e)
]

pub get_or-has : (xs : List ℕ) (i : ℕ) → i < length xs → has (get_or xs i 0) xs ≡ true
get_or-has [] i h = elim h [ ]
get_or-has (x ∷ xs) zero h = ground arith
get_or-has (x ∷ xs) (suc i) h = ground (arith, get_or-has xs i)
