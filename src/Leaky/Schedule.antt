-- ===== src/Leaky/Schedule.antt =====
-- Reachable states of ms_queue_m (model/queue_model.hpp) by evaluation: the threads take their steps
-- in a given order.
use native.Mathlib.Decide.{dec_lt}
use lock_free_mpmc_queue.Base.{
  ℕ, zero, suc, ◌<◌, ◌≡◌, ◌≢◌, true, false, some, List, [], ◌∷◌, ◌++◌, refl, arith,
}
use lock_free_mpmc_queue.Machine.State.{
  Ptr, null, Mem, Label, calls_enqueue, calls_dequeue, returns, enqueued, dequeued,
}
use lock_free_mpmc_queue.Machine.System.{Runs}
use lock_free_mpmc_queue.Machine.Refine.{Walk}
use lock_free_mpmc_queue.Leaky.Queue.{
  LeakyChoice, go, enqueue, dequeue, LeakySystem, leaky_init, leaky_step, LeakyReach, start, later,
  idle,
}
use lock_free_mpmc_queue.Leaky.Correct.{leaky_ops, leaky_linearizable, assertion_holds}
use lock_free_mpmc_queue.Leaky.Solo.{alone, solo_finishes}
use lock_free_mpmc_queue.Leaky.Teardown.{teardown, teardown_frees_all}

record Run (n : ℕ) : Type 0 where
  history : List (ℕ × Label ℕ)
  last : LeakySystem ℕ
  reach : LeakyReach n 1 0 history last

turn : (n : ℕ) → Run n → ℕ × LeakyChoice ℕ → Run n
unfolding dec_lt
turn n r (i, c) = elim (dec_lt i n) [
  | yes lt ↦ record { history = _; last = _; reach = later r.reach i c lt }
  | no _ ↦ r
]

turns : (n : ℕ) → Run n → List (ℕ × LeakyChoice ℕ) → Run n
turns n r [] = r
turns n r (x ∷ xs) = turns n (turn n r x) xs

run : (n : ℕ) → List (ℕ × LeakyChoice ℕ) → Run n
unfolding turns turn leaky_step
run n = turns n (record { history = []; last = leaky_init 1 0; reach = start })

-- `k` accesses of thread `i`.
abbrev many : ℕ → ℕ → List (ℕ × LeakyChoice ℕ)
many zero i = []
many (suc k) i = (i, go) ∷ many k i

-- Thread 0 enqueues 7 in the node 2; thread 1 stands before its read of the value.
abbrev before_read : Run 2
before_read = run 2 ((0, enqueue 7 2) ∷ many 7 0 ++ (1, dequeue) ∷ many 4 1)

-- Thread 1 has dequeued it, and the first dummy is in junk_.
abbrev one_value : Run 2
one_value = run 2 ((0, enqueue 7 2) ∷ many 7 0 ++ (1, dequeue) ∷ many 8 1)

one_value_history :
    (one_value.history
      ≡ (0, calls_enqueue 7)
        ∷ (0, returns enqueued)
        ∷ (1, calls_dequeue)
        ∷ (1, returns (dequeued (some 7)))
        ∷ [])
    × (one_value.last.junk ≡ 1 ∷ [])
unfolding run
one_value_history = (refl, refl)

leaky_linearizable_example :
    (q : List ℕ) × Runs one_value.history q (leaky_ops one_value.last)
    × Walk one_value.last.mem one_value.last.mem.head q
leaky_linearizable_example = leaky_linearizable 2 1 0 (omega arith) one_value.reach

assertion_holds_example : (2 ≢ null) × (before_read.last.mem.live 2 ≡ true)
unfolding run
assertion_holds_example =
    assertion_holds 2 1 0 (omega arith) before_read.reach 1 2 (omega arith) refl

all_idle : (j : ℕ) → j < 2 → one_value.last.pc j ≡ idle
unfolding run
all_idle zero lt = refl
all_idle (suc zero) lt = refl
all_idle (suc (suc j)) lt = absurd (omega arith)

teardown_frees_all_example :
    (f : ℕ) × (m : Mem ℕ) × (teardown f one_value.last ≡ some m) × ((p : Ptr) → m.live p ≡ false)
teardown_frees_all_example = teardown_frees_all 2 1 0 (omega arith) one_value.reach all_idle

solo_finishes_example :
    (k : ℕ) × (alone k before_read.last.mem before_read.last.junk (before_read.last.pc 1) ≡ idle)
solo_finishes_example = solo_finishes 2 1 0 (omega arith) before_read.reach 1 (omega arith)
