-- ===== src/Base/Bits.antt =====
-- Laws of `bit_or` and `bit_xor`, from the recursion on binary digits that they stand for.
use Prim.Native.Nat.{
  ℕ, zero, suc, ◌+◌, ◌*◌, ◌/◌, ◌%◌, ◌^◌, ◌≤◌, ◌<◌, max, bit_or, bit_xor, differ, digits,
  bit_or-bitwise, bit_xor-bitwise,
}
use mathlib.Core.Path.{◌≡◌, refl, sym, ap}
use native.Mathlib.Nat.{pow-suc}
use native.Mathlib.Omega.{arith}

module _ (f : ℕ → ℕ → ℕ) where
  abbrev merge : ℕ → ℕ → ℕ → ℕ
  merge n a b = digits (λ b. b) f n a b

  -- More digits than the first number has change nothing.
  merge_fuel : (n m a b : ℕ) → a ≤ n → a ≤ m → merge n a b ≡ merge m a b
  merge_fuel zero zero a b p q = refl
  merge_fuel zero (suc m) zero b p q = refl
  merge_fuel zero (suc m) (suc a) b p q = absurd (omega arith)
  merge_fuel (suc n) zero zero b p q = refl
  merge_fuel (suc n) zero (suc a) b p q = absurd (omega arith)
  merge_fuel (suc n) (suc m) zero b p q = refl
  merge_fuel (suc n) (suc m) (suc a) b p q =
      omega (arith, merge_fuel n m (suc a / 2) (b / 2) (omega arith) (omega arith))

pub zero-bit_or : (b : ℕ) → bit_or 0 b ≡ b
zero-bit_or b = bit_or-bitwise 0 b

pub bit_or_step : (a b : ℕ) → bit_or a b ≡ bit_or (a / 2) (b / 2) * 2 + max (a % 2) (b % 2)
bit_or_step zero b = omega (arith, zero-bit_or b, zero-bit_or (b / 2))
bit_or_step (suc a) b = omega (
  arith,
  bit_or-bitwise (suc a) b,
  bit_or-bitwise (suc a / 2) (b / 2),
  merge_fuel max a (suc a / 2) (suc a / 2) (b / 2) (omega arith) (omega arith),
)

bit_or-zero_below : (n a : ℕ) → a ≤ n → bit_or a 0 ≡ a
bit_or-zero_below n zero h = zero-bit_or 0
bit_or-zero_below zero (suc a) h = absurd (omega arith)
bit_or-zero_below (suc n) (suc a) h =
    omega (arith, bit_or_step (suc a) 0, bit_or-zero_below n (suc a / 2) (omega arith))

-- A multiple of a power of two and a smaller number have no digit in common.
pub bit_or-add : (k p s : ℕ) → s < 2 ^ k → bit_or (p * 2 ^ k) s ≡ p * 2 ^ k + s
bit_or-add zero p s h =
    let e : s ≡ 0 = omega arith in
    rw e (omega (arith, bit_or-zero_below (p * 1) (p * 1) (omega arith)))
bit_or-add (suc k) p s h =
    let twice : p * 2 ^ suc k ≡ p * 2 ^ k * 2 = rw (pow-suc 2 k) (grind arith) in
    let small : s / 2 < 2 ^ k = omega (arith, h, pow-suc 2 k) in
    let halved : p * 2 ^ k * 2 / 2 ≡ p * 2 ^ k = omega arith in
    let rest : bit_or (p * 2 ^ k * 2 / 2) (s / 2) ≡ p * 2 ^ k + s / 2 =
      rw halved (bit_or-add k p (s / 2) small) in
    rw twice (omega (arith, bit_or_step (p * 2 ^ k * 2) s, rest))

pub zero-bit_xor : (b : ℕ) → bit_xor 0 b ≡ b
zero-bit_xor b = bit_xor-bitwise 0 b

pub bit_xor_step : (a b : ℕ) → bit_xor a b ≡ bit_xor (a / 2) (b / 2) * 2 + differ (a % 2) (b % 2)
bit_xor_step zero b = omega (arith, zero-bit_xor b, zero-bit_xor (b / 2))
bit_xor_step (suc a) b = omega (
  arith,
  bit_xor-bitwise (suc a) b,
  bit_xor-bitwise (suc a / 2) (b / 2),
  merge_fuel differ a (suc a / 2) (suc a / 2) (b / 2) (omega arith) (omega arith),
)

differ-eq-zero : (x y : ℕ) → differ x y ≡ 0 → x ≡ y
differ-eq-zero zero y e = sym e
differ-eq-zero (suc x) zero e = absurd (omega arith)
differ-eq-zero (suc x) (suc y) e = ap suc (differ-eq-zero x y e)

differ-le : (x y : ℕ) → x ≤ 1 → y ≤ 1 → differ x y ≤ 1
differ-le zero y hx hy = hy
differ-le (suc x) zero hx hy = hx
differ-le (suc x) (suc y) hx hy = differ-le x y (omega arith) (omega arith)

-- Two numbers without a digit in which they differ are the same.
bit_xor-eq-zero_below : (n a b : ℕ) → a ≤ n → bit_xor a b ≡ 0 → a ≡ b
bit_xor-eq-zero_below n zero b h e = omega (arith, zero-bit_xor b)
bit_xor-eq-zero_below zero (suc a) b h e = absurd (omega arith)
bit_xor-eq-zero_below (suc n) (suc a) b h e =
    let step = bit_xor_step (suc a) b in
    let high : bit_xor (suc a / 2) (b / 2) ≡ 0 = omega arith in
    let low : differ (suc a % 2) (b % 2) ≡ 0 = omega arith in
    omega (
      arith,
      bit_xor-eq-zero_below n (suc a / 2) (b / 2) (omega arith) high,
      differ-eq-zero (suc a % 2) (b % 2) low,
    )

pub bit_xor-eq-zero : (a b : ℕ) → bit_xor a b ≡ 0 → a ≡ b
bit_xor-eq-zero a b e = bit_xor-eq-zero_below a a b (omega arith) e

pub bit_xor-lt : (k a b : ℕ) → a < 2 ^ k → b < 2 ^ k → bit_xor a b < 2 ^ k
bit_xor-lt zero a b ha hb = let e : a ≡ 0 = omega arith in rw e (omega (arith, zero-bit_xor b))
bit_xor-lt (suc k) a b ha hb =
    let double = pow-suc 2 k in
    omega (
      arith,
      double,
      bit_xor_step a b,
      bit_xor-lt k (a / 2) (b / 2) (omega (arith, double)) (omega (arith, double)),
      differ-le (a % 2) (b % 2) (omega arith) (omega arith),
    )

pub bit_or-lt : (k a b : ℕ) → a < 2 ^ k → b < 2 ^ k → bit_or a b < 2 ^ k
bit_or-lt zero a b ha hb = let e : a ≡ 0 = omega arith in rw e (omega (arith, zero-bit_or b))
bit_or-lt (suc k) a b ha hb =
    let double = pow-suc 2 k in
    omega (
      arith,
      double,
      bit_or_step a b,
      bit_or-lt k (a / 2) (b / 2) (omega (arith, double)) (omega (arith, double)),
    )
