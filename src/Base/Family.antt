-- ===== src/Base/Family.antt =====
-- Families `ℕ → A` indexed by a thread or an address: a write at one index, and what the members
-- below a bound weigh together.
use Prim.Native.Nat.{ℕ, zero, suc, ◌+◌, ◌*◌, ◌≤◌, ◌<◌}
use mathlib.Core.Path.{◌≡◌, refl, ap, ◌∙◌, subst}
use mathlib.Core.Bool.{true}
use mathlib.Core.Logic.{◌≢◌, inl, inr}
use native.Mathlib.Omega.{arith}
use lock_free_mpmc_queue.Base.Tests.{ltb, ◌==◌, if◌then◌else◌, Bool-cases, eq-cases}

abbrev pub update {ℓ} : {A : Type ℓ} → (ℕ → A) → ℕ → A → ℕ → A
update f i a j = if j == i then a else f j

module _ {ℓ} {A : Type ℓ} (weight : A → ℕ) (f : ℕ → A) where
  unfoldable pub sum_below : ℕ → ℕ
  sum_below zero = 0
  sum_below (suc n) = weight (f n) + sum_below n

  -- No member weighs more than all together.
  pub le-sum_below : (i n : ℕ) → i < n → weight (f i) ≤ sum_below n
  unfolding sum_below
  le-sum_below i zero lt = elim lt [ ]
  le-sum_below i (suc n) lt = ground (arith, le-sum_below i n)

  pub sum_below-zero : (n : ℕ) → ((i : ℕ) → weight (f i) ≡ 0) → sum_below n ≡ 0
  unfolding sum_below
  sum_below-zero zero light = refl
  sum_below-zero (suc n) light = omega (arith, light n, sum_below-zero n light)

module _ {ℓ} {A : Type ℓ} (weight : A → ℕ) (f : ℕ → A) (i : ℕ) (a : A) where
  sum_below-update_any :
      (n : ℕ)
      → sum_below weight (update f i a) n + (if ltb i n then weight (f i) else 0)
        ≡ sum_below weight f n + (if ltb i n then weight a else 0)
  unfolding sum_below
  sum_below-update_any zero = ground arith
  sum_below-update_any (suc n) = ground (arith, sum_below-update_any n)

  -- A write exchanges one weight for another.
  pub sum_below-update :
      (n : ℕ)
      → i < n
      → sum_below weight (update f i a) n + weight (f i) ≡ sum_below weight f n + weight a
  sum_below-update n lt = ground (arith, sum_below-update_any n)

-- Two members weigh no more than all together.
pub add-le-sum_below {ℓ} :
    {A : Type ℓ} (weight : A → ℕ) (f : ℕ → A) (i j n : ℕ)
    → i < n
    → j < n
    → i ≢ j
    → weight (f i) + weight (f j) ≤ sum_below weight f n
unfolding sum_below
add-le-sum_below w f i j zero lti ltj ne = elim lti [ ]
add-le-sum_below w f i j (suc n) lti ltj ne =
    ground (arith, le-sum_below w f i n, le-sum_below w f j n, add-le-sum_below w f i j n)

pub sum_below-add {ℓ} :
    {A : Type ℓ} (v w : A → ℕ) (f : ℕ → A) (n : ℕ)
    → sum_below (λ a. v a + w a) f n ≡ sum_below v f n + sum_below w f n
unfolding sum_below
sum_below-add v w f zero = omega arith
sum_below-add v w f (suc n) = omega (arith, sum_below-add v w f n)

-- A member that weighs something.
pub find_heavy {ℓ} :
    {A : Type ℓ} (w : A → ℕ) (f : ℕ → A) (n : ℕ)
    → 0 < sum_below w f n
    → (j : ℕ) × (j < n) × (0 < w (f j))
unfolding sum_below
find_heavy w f zero h = absurd (omega arith)
find_heavy w f (suc n) h = elim (eq-cases (w (f n)) 0) [
  | inl e ↦ let (j, lt, heavy) = find_heavy w f n (omega arith) in (j, omega arith, heavy)
  | inr ne ↦ (n, omega arith, omega arith)
]

module _ {ℓ κ} {A : Type ℓ} {B : Type κ} (v : A → ℕ) (f : ℕ → A) (w : B → ℕ) (g : ℕ → B) where
  pub sum_below_mono :
      (n : ℕ) → ((i : ℕ) → i < n → v (f i) ≤ w (g i)) → sum_below v f n ≤ sum_below w g n
  unfolding sum_below
  sum_below_mono zero h = omega arith
  sum_below_mono (suc n) h =
      omega (arith, h n (omega arith), sum_below_mono n (λ i lt. h i (omega arith)))

  -- One member that weighs less makes the total less.
  pub sum_below_strict :
      (n j : ℕ)
      → ((i : ℕ) → i < n → v (f i) ≤ w (g i))
      → j < n
      → v (f j) < w (g j)
      → sum_below v f n < sum_below w g n
  unfolding sum_below
  sum_below_strict zero j h lt less = elim lt [ ]
  sum_below_strict (suc n) j h lt less = elim (eq-cases j n) [
    | inl e ↦
        let last : v (f n) < w (g n) = subst (λ i. v (f i) < w (g i)) e less in
        omega (arith, last, sum_below_mono n (λ i l. h i (omega arith)))
    | inr ne ↦ omega (
      arith,
      h n (omega arith),
      sum_below_strict n j (λ i l. h i (omega arith)) (omega arith) less,
    )
  ]

sum_below_all : (p a n : ℕ) → n ≤ p → sum_below (λ t. if ltb t p then a else 0) (λ t. t) n ≡ n * a
unfolding sum_below
sum_below_all p a zero h = omega arith
sum_below_all p a (suc n) h =
    let test : ltb n p ≡ true = ground arith in
    let product : suc n * a ≡ n * a + a = grind arith in
    rw test (omega (arith, sum_below_all p a n (omega arith), product))

-- The members below `p` of the first `n` weigh `a` each, and the others nothing.
pub sum_below_first :
    (p a n : ℕ) → p ≤ n → sum_below (λ t. if ltb t p then a else 0) (λ t. t) n ≡ p * a
unfolding sum_below
sum_below_first p a zero h = sum_below_all p a zero (omega arith) ∙ ap (λ m. m * a) (omega arith)
sum_below_first p a (suc n) h = elim (Bool-cases (ltb n p)) [
  | inl e ↦ sum_below_all p a (suc n) (ground arith) ∙ ap (λ m. m * a) (ground arith)
  | inr e ↦ rw e (omega (arith, sum_below_first p a n (ground arith)))
]

pub sum_below_same {ℓ} : {A : Type ℓ} (f : ℕ → A) (a n : ℕ) → sum_below (λ x. a) f n ≡ n * a
unfolding sum_below
sum_below_same f a zero = omega arith
sum_below_same f a (suc n) =
    let product : suc n * a ≡ n * a + a = grind arith in
    omega (arith, sum_below_same f a n, product)
