-- ===== src/Leaky/Clients/Runs.antt =====
-- Runs of queue_suite by evaluation (model/queue_model.hpp).
use native.Mathlib.Decide.{dec_lt}
use lock_free_mpmc_queue.Base.{
  ℕ, zero, suc, ◌+◌, ◌<◌, ◌≡◌, ◌≢◌, true, refl, List, [], ◌∷◌, ◌++◌, arith,
}
use lock_free_mpmc_queue.Leaky.Clients.{
  check, done, failed, SuiteState, client_step, SuiteReach, start, later, after,
}
use lock_free_mpmc_queue.Leaky.Clients.Verdict.{assertions_hold, after_holds}

record SuiteRun (P C K : ℕ) : Type 0 where
  last : SuiteState
  reach : SuiteReach P C K last

turn : (P C K : ℕ) → SuiteRun P C K → ℕ → SuiteRun P C K
unfolding dec_lt
turn P C K r idx = elim (dec_lt idx (P + C)) [
  | yes lt ↦ record { last = _; reach = later r.reach idx lt }
  | no _ ↦ r
]

turns : (P C K : ℕ) → SuiteRun P C K → List ℕ → SuiteRun P C K
turns P C K r [] = r
turns P C K r (i ∷ is) = turns P C K (turn P C K r i) is

suite : (P C K : ℕ) → List ℕ → SuiteRun P C K
unfolding turns turn client_step
suite P C K = turns P C K (record { last = _; reach = start })

abbrev many : ℕ → ℕ → List ℕ
many zero i = []
many (suc k) i = i ∷ many k i

-- Two producers of two values each and a consumer, which has the first value of producer 1.
abbrev midway : SuiteRun 2 1 2
midway = suite 2 1 2 (0 ∷ 1 ∷ 0 ∷ many 7 2)

midway_at : (midway.last.client 2).pc ≡ check 256
unfolding suite
midway_at = refl

assertions_hold_example : (midway.last.client 2).pc ≢ failed
assertions_hold_example = assertions_hold (omega arith) midway.reach 2 (omega arith)

abbrev whole : SuiteRun 2 1 2
whole = suite 2 1 2 (0 ∷ 1 ∷ 0 ∷ many 7 2 ++ 0 ∷ 1 ∷ 1 ∷ many 16 2)

all_done : (j : ℕ) → j < 3 → (whole.last.client j).pc ≡ done
unfolding suite
all_done zero lt = refl
all_done (suc zero) lt = refl
all_done (suc (suc zero)) lt = refl
all_done (suc (suc (suc j))) lt = absurd (omega arith)

after_holds_example : after 2 2 whole.last.shared ≡ true
after_holds_example = after_holds (omega arith) whole.reach (omega arith) all_done
