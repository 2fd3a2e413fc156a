-- ===== src/Bench/Numbers/Decimal.antt =====
-- strtoul reads back a decimal numeral, and stops inside its text (bench/bench_main.cpp).
use mathlib.Core.List.{append_assoc, append-nil}
use lock_free_mpmc_queue.Base.{
  ℕ, zero, suc, ◌+◌, ◌-◌, ◌*◌, ◌/◌, ◌%◌, ◌^◌, ◌≤◌, ◌<◌, ◌≡◌, refl, Bool, true, false, List, [], ◌∷◌,
  ◌++◌, ltb, ◌==◌, if◌then◌else◌, Bool-cases, inl, inr, length, ◌∙◌, ap, subst, arith,
}
use lock_free_mpmc_queue.Bench.Numbers.{
  digits_value, skip_space, unsigned_number, after_sign, strtoul, is_digit, is_space, starts_number,
}

skip_space-le : (s : List ℕ) → length (skip_space s) ≤ length s
unfolding skip_space
skip_space-le [] = omega arith
skip_space-le (c ∷ s) = ground (arith, skip_space-le s)

digits_value-le : (acc : ℕ) (s : List ℕ) → length (digits_value acc s).1 ≤ length s
unfolding digits_value
digits_value-le acc [] = omega arith
digits_value-le acc (c ∷ s) = ground (arith, digits_value-le (acc * 10 + (c - b'0')) s)

unsigned_number-le :
    (b : Bool) (text body : List ℕ)
    → length body ≤ length text
    → length (unsigned_number b text body).end ≤ length text
unfolding unsigned_number
unsigned_number-le b text body h = ground (arith, digits_value-le 0 body)

after_sign-le :
    (text s : List ℕ) → length s ≤ length text → length (after_sign text s).end ≤ length text
unfolding after_sign
after_sign-le text [] h = unsigned_number-le false text [] h
after_sign-le text (c ∷ s) h = ground (
  arith,
  unsigned_number-le true text s,
  unsigned_number-le false text s,
  unsigned_number-le false text (c ∷ s),
)

-- The conversion stops inside the text.
pub strtoul-le : (s : List ℕ) → length (strtoul s).end ≤ length s
unfolding strtoul
strtoul-le s = after_sign-le s (skip_space s) (skip_space-le s)

-- The decimal numeral of `n`, with more than as many rounds as it has digits.
pub decimal_digits : ℕ → ℕ → List ℕ
decimal_digits zero n = []
decimal_digits (suc f) n =
    if ltb n 10 then (b'0' + n) ∷ [] else decimal_digits f (n / 10) ++ (b'0' + n % 10) ∷ []

unfoldable pub decimal : ℕ → List ℕ
unfolding decimal_digits
decimal n = decimal_digits (suc n) n

digits_value-digit :
    (acc d : ℕ) (rest : List ℕ)
    → d < 10
    → digits_value acc ((b'0' + d) ∷ rest) ≡ digits_value (acc * 10 + d) rest
unfolding digits_value
digits_value-digit acc d rest h =
    let digit : is_digit (b'0' + d) ≡ true = ground arith in
    rw digit (ap (λ v. digits_value v rest) (omega arith))

digits_value-decimal_digits :
    (f n : ℕ) (rest : List ℕ)
    → n < f
    → digits_value 0 (decimal_digits f n ++ rest) ≡ digits_value n rest
unfolding decimal_digits
digits_value-decimal_digits zero n rest h = elim h [ ]
digits_value-decimal_digits (suc f) n rest h = elim (Bool-cases (ltb n 10)) [
  | inl e ↦
      rw e
        (digits_value-digit 0 n rest (ground arith) ∙ ap (λ v. digits_value v rest) (omega arith))
  | inr e ↦
      let last : List ℕ = (b'0' + n % 10) ∷ [] in
      rw e (
        ap (digits_value 0) (append_assoc (decimal_digits f (n / 10)) last rest)
        ∙ digits_value-decimal_digits f (n / 10) (last ++ rest) (ground arith)
        ∙ digits_value-digit (n / 10) (n % 10) rest (omega arith)
        ∙ ap (λ v. digits_value v rest) (omega arith))
]

starts_number-decimal_digits :
    (f n : ℕ) (rest : List ℕ) → n < f → starts_number (decimal_digits f n ++ rest) ≡ true
unfolding decimal_digits
starts_number-decimal_digits zero n rest h = elim h [ ]
starts_number-decimal_digits (suc f) n rest h = elim (Bool-cases (ltb n 10)) [
  | inl e ↦ rw e (ground arith)
  | inr e ↦
      let last : List ℕ = (b'0' + n % 10) ∷ [] in
      rw e (
        ap starts_number (append_assoc (decimal_digits f (n / 10)) last rest)
        ∙ starts_number-decimal_digits f (n / 10) (last ++ rest) (ground arith))
]

strtoul-digit : (s : List ℕ) → starts_number s ≡ true → strtoul s ≡ unsigned_number false s s
unfolding strtoul
strtoul-digit [] h = cc
strtoul-digit (c ∷ s) h =
    let plain : is_space c ≡ false = ground arith in
    let minus : (c == b'-') ≡ false = ground arith in
    let plus : (c == b'+') ≡ false = ground arith in rw plain (rw (minus, plus))

digits_value-stop : (n : ℕ) (s : List ℕ) → starts_number s ≡ false → digits_value n s ≡ (n, s)
unfolding digits_value
digits_value-stop n [] h = refl
digits_value-stop n (c ∷ s) h = ground arith

-- A decimal numeral is read back, and the conversion stops behind it.
pub strtoul-decimal :
    (n : ℕ) (rest : List ℕ)
    → n < 2 ^ 64
    → starts_number rest ≡ false
    → strtoul (decimal n ++ rest) ≡ record { value = n; end = rest }
unfolding unsigned_number decimal
strtoul-decimal n rest small stop =
    let digit = starts_number-decimal_digits (suc n) n rest (omega arith) in
    let read =
      digits_value-decimal_digits (suc n) n rest (omega arith) ∙ digits_value-stop n rest stop in
    strtoul-digit (decimal n ++ rest) digit ∙ rw (digit, read) (ground arith)

pub starts_number-decimal : (n : ℕ) (rest : List ℕ) → starts_number (decimal n ++ rest) ≡ true
unfolding decimal
starts_number-decimal n rest = starts_number-decimal_digits (suc n) n rest (omega arith)

pub strtoul-decimal_end :
    (n : ℕ) → n < 2 ^ 64 → strtoul (decimal n) ≡ record { value = n; end = [] }
strtoul-decimal_end n small =
    subst (λ s. strtoul s ≡ record { value = n; end = [] }) (append-nil (decimal n))
      (strtoul-decimal n [] small refl)

pub length-decimal : (n : ℕ) → 0 < length (decimal n)
length-decimal n =
    starts-nonempty (decimal n)
      (subst (λ s. starts_number s ≡ true) (append-nil (decimal n)) (starts_number-decimal n []))
  where
    starts-nonempty : (s : List ℕ) → starts_number s ≡ true → 0 < length s
    starts-nonempty [] h = cc
    starts-nonempty (c ∷ s) h = omega arith
