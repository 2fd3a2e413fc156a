-- ===== src/Inject.antt =====
-- The injection points of the adversarial builds (include/lfq/inject.hpp): a xorshift generator for
-- each thread, which chooses between a yield, a short spin and neither.
use Prim.Native.Nat.{bit_and, bit_or, bit_xor}
use lock_free_mpmc_queue.Base.{
  ℕ, zero, suc, ◌+◌, ◌*◌, ◌/◌, ◌%◌, ◌^◌, ◌≤◌, ◌<◌, ◌≡◌, ◌≢◌, refl, ◌==◌, if◌then◌else◌, arith,
  eq-cases, inl, inr,
}
use lock_free_mpmc_queue.Base.Bits.{bit_xor-eq-zero, bit_xor-lt, bit_or-lt, bit_or_step}
mod Draws

-- What a thread does at an injection point.
pub data Delay : Type 0 where
  yields : Delay
  spins : (rounds : ℕ) → Delay
  goes_on : Delay

-- The first state, from the address of the variable.
unfoldable pub seed : ℕ → ℕ
seed a = bit_or (bit_xor a (a / 2 ^ 32) % 2 ^ 32) 1

unfoldable pub shift_left_13 : ℕ → ℕ
shift_left_13 x = bit_xor x (x * 2 ^ 13 % 2 ^ 32)

unfoldable pub shift_right_17 : ℕ → ℕ
shift_right_17 x = bit_xor x (x / 2 ^ 17)

unfoldable pub shift_left_5 : ℕ → ℕ
shift_left_5 x = bit_xor x (x * 2 ^ 5 % 2 ^ 32)

unfoldable pub next_state : ℕ → ℕ
next_state x = shift_left_5 (shift_right_17 (shift_left_13 x))

unfoldable pub delay_of : ℕ → Delay
delay_of x =
    if bit_and x 7 == 0 then yields else if bit_and x 7 == 1 then spins (bit_and x 255) else goes_on

-- inject_point: the new state, and the delay.
unfoldable pub inject_point : ℕ → ℕ × Delay
inject_point x = (next_state x, delay_of (next_state x))

-- The state after some calls.
unfoldable pub state_after : ℕ → ℕ → ℕ
unfolding inject_point
state_after zero a = seed a
state_after (suc n) a = (inject_point (state_after n a)).0

abbrev IsState : ℕ → Type 0
IsState x = (x ≢ 0) × (x < 2 ^ 32)

seed-IsState : (a : ℕ) → IsState (seed a)
unfolding seed
seed-IsState a =
    let x : ℕ = bit_xor a (a / 2 ^ 32) % 2 ^ 32 in
    (ground (arith, bit_or_step x 1), bit_or-lt 32 x 1 (omega arith) (omega arith))

shift_left_13-IsState : (x : ℕ) → IsState x → IsState (shift_left_13 x)
unfolding shift_left_13
shift_left_13-IsState x s = (
  λ e. omega (arith, s, bit_xor-eq-zero x (x * 2 ^ 13 % 2 ^ 32) e),
  bit_xor-lt 32 x (x * 2 ^ 13 % 2 ^ 32) s.1 (omega arith),
)

shift_right_17-IsState : (x : ℕ) → IsState x → IsState (shift_right_17 x)
unfolding shift_right_17
shift_right_17-IsState x s = (
  λ e. omega (arith, s, bit_xor-eq-zero x (x / 2 ^ 17) e),
  bit_xor-lt 32 x (x / 2 ^ 17) s.1 (omega (arith, s)),
)

shift_left_5-IsState : (x : ℕ) → IsState x → IsState (shift_left_5 x)
unfolding shift_left_5
shift_left_5-IsState x s = (
  λ e. omega (arith, s, bit_xor-eq-zero x (x * 2 ^ 5 % 2 ^ 32) e),
  bit_xor-lt 32 x (x * 2 ^ 5 % 2 ^ 32) s.1 (omega arith),
)

-- The generator of a thread never comes to 0, where it would stay, and stays an uint32_t.
pub state_after-IsState : (n a : ℕ) → (state_after n a ≢ 0) × (state_after n a < 2 ^ 32)
unfolding state_after next_state
state_after-IsState zero a = seed-IsState a
state_after-IsState (suc n) a =
    shift_left_5-IsState _
      (shift_right_17-IsState _ (shift_left_13-IsState _ (state_after-IsState n a)))
