-- ===== src/Bench/Numbers.antt =====
-- strtoul of the C library in base 10, which bench/bench_main.cpp reads its numbers with.
use lock_free_mpmc_queue.Base.{
  ℕ, zero, suc, ◌+◌, ◌-◌, ◌*◌, ◌/◌, ◌%◌, ◌^◌, ◌≤◌, ◌<◌, ◌≡◌, refl, Bool, true, false, ◌&&◌, ◌||◌,
  List, [], ◌∷◌, ◌++◌, ltb, leb, ◌==◌, if◌then◌else◌, length, arith,
}
pub mod Decimal

-- The value, and the text from where the conversion stopped; the text itself if there was none.
pub record Number : Type 0 where
  pub value : ℕ
  pub end : List ℕ

abbrev pub is_digit : ℕ → Bool
is_digit c = leb b'0' c && leb c b'9'

abbrev pub is_space : ℕ → Bool
is_space c = c == b' ' || (leb 9 c && leb c 13)

pub skip_space : List ℕ → List ℕ
skip_space [] = []
skip_space (c ∷ s) = if is_space c then skip_space s else c ∷ s

-- The digits at the front, with `acc` for those before.
pub digits_value : ℕ → List ℕ → ℕ × List ℕ
digits_value acc [] = (acc, [])
digits_value acc (c ∷ s) =
    if is_digit c then digits_value (acc * 10 + (c - b'0')) s else (acc, c ∷ s)

abbrev pub starts_number : List ℕ → Bool
starts_number [] = false
starts_number (c ∷ s) = is_digit c

-- A value out of range is ULONG_MAX, and a minus sign negates modulo 2 ^ 64.
abbrev pub signed_value : Bool → ℕ → ℕ
signed_value negative v =
    if leb (2 ^ 64) v then 2 ^ 64 - 1 else if negative then (2 ^ 64 - v) % 2 ^ 64 else v

unfoldable pub unsigned_number : Bool → (text body : List ℕ) → Number
unfolding digits_value
unsigned_number negative text body =
    if starts_number body
    then (let (v, rest) = digits_value 0 body in
        record { value = signed_value negative v; end = rest })
    else record { value = 0; end = text }

unfoldable pub after_sign : List ℕ → List ℕ → Number
unfolding unsigned_number
after_sign text [] = unsigned_number false text []
after_sign text (c ∷ s) =
    if c == b'-'
    then unsigned_number true text s
    else if c == b'+'
    then unsigned_number false text s
    else unsigned_number false text (c ∷ s)

unfoldable pub strtoul : List ℕ → Number
unfolding skip_space after_sign
strtoul text = after_sign text (skip_space text)
