-- ===== src/Inject/Draws.antt =====
-- The generator of include/lfq/inject.hpp at an address.
use lock_free_mpmc_queue.Base.{◌^◌, ◌<◌, ◌≡◌, ◌≢◌, refl}
use lock_free_mpmc_queue.Inject.{state_after, state_after-IsState, seed}

first_state : seed 0x7f0012345678 ≡ 0x12342979
unfolding seed
first_state = refl

state_after-IsState_example :
    (state_after 3 0x7f0012345678 ≢ 0) × (state_after 3 0x7f0012345678 < 2 ^ 32)
state_after-IsState_example = state_after-IsState 3 0x7f0012345678
