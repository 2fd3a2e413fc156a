-- ===== src/Machine/Schedule.antt =====
-- Reachable states by evaluation: the threads take their steps in a given order. What the theorems
-- about the machine say is checked here at such states.
use lock_free_mpmc_queue.Base.{
  ℕ, zero, suc, ◌<◌, ◌≤◌, ◌+◌, ◌*◌, ◌≡◌, ◌≢◌, true, none, some, List, [], ◌∷◌, ◌++◌, refl, arith,
  sum_below, count, ◌⊎◌, ◌↔◌,
}
use native.Mathlib.Decide.{dec_lt}
use lock_free_mpmc_queue.Machine.State.{
  Ptr, slot_count, Mem, idle, System, Choice, go, enqueue, dequeue, drain, enter, Label,
  calls_enqueue, calls_dequeue, returns, enqueued, dequeued,
}
use lock_free_mpmc_queue.Machine.Step.{step, scan_threshold}
use lock_free_mpmc_queue.Std.Search.{sort, binary_search}
use lock_free_mpmc_queue.Machine.System.{advance, init, Reach, start, later, Runs}
use lock_free_mpmc_queue.Machine.Refine.{linearizable, ops_of, Walk}
use lock_free_mpmc_queue.Machine.Safety.{no_use_after_free, protected_stays, Untouched}
use lock_free_mpmc_queue.Machine.Invariant.Defs.{claim, new_node}
use lock_free_mpmc_queue.Machine.Conserve.{values_conserved, total, called, gave, carries}
use lock_free_mpmc_queue.Machine.Books.{
  in_flight-outstanding, in_flight, outstanding, Onward, at_once, moves,
}
use lock_free_mpmc_queue.Machine.Bound.{garbage_bounded}
use lock_free_mpmc_queue.Machine.Solo.{rests, alone}
use lock_free_mpmc_queue.Machine.Solo.Progress.{alone_finishes}
use lock_free_mpmc_queue.Machine.Solo.Drain.{solo, NoHazard}
use lock_free_mpmc_queue.Machine.Solo.Quiet.{quiet_drain, HasNothing}
use lock_free_mpmc_queue.Machine.Entries.{entries, unlinked}
use lock_free_mpmc_queue.Machine.Destroy.{nothing_lost, destroy-entries, destroy, Along}
use lock_free_mpmc_queue.Machine.Empty.{empty-is_nil, empty, is_nil, Unused}

record Run (n : ℕ) : Type 0 where
  history : List (ℕ × Label ℕ)
  last : System ℕ
  reach : Reach n 1 0 history last

turn : (n : ℕ) → Run n → ℕ × Choice ℕ → Run n
unfolding dec_lt
turn n r (i, c) = elim (dec_lt i n) [
  | yes lt ↦ record { history = _; last = _; reach = later r.reach i c lt }
  | no _ ↦ r
]

turns : (n : ℕ) → Run n → List (ℕ × Choice ℕ) → Run n
turns n r [] = r
turns n r (x ∷ xs) = turns n (turn n r x) xs

run : (n : ℕ) → List (ℕ × Choice ℕ) → Run n
unfolding turns turn step sort binary_search
run n = turns n (record { history = []; last = init 1 0; reach = start })

-- `k` accesses of thread `i`.
abbrev many : ℕ → ℕ → List (ℕ × Choice ℕ)
many zero i = []
many (suc k) i = (i, go) ∷ many k i

-- Thread 0 enqueues 7 in the node 2, and thread 1 dequeues it.
abbrev one_value : Run 2
one_value =
    run 2 ((0, enter) ∷ (1, enter) ∷ (0, enqueue 7 2) ∷ many 9 0 ++ (1, dequeue) ∷ many 12 1)

one_value_history :
    one_value.history
    ≡ (0, calls_enqueue 7)
      ∷ (0, returns enqueued)
      ∷ (1, calls_dequeue)
      ∷ (1, returns (dequeued (some 7)))
      ∷ []
unfolding run
one_value_history = refl

-- Thread 1 has protected the dummy and stops; thread 0 dequeues past it, retires it and drains.
-- The dummy stays, for the hazard of thread 1 names it; once thread 1 has gone on, a second drain
-- frees it, and `new` may return its address again.
abbrev stalled : Run 2
stalled = run 2 (
    (0, enter) ∷ (1, enter) ∷ (0, enqueue 7 2) ∷ many 9 0
    ++ (1, dequeue) ∷ many 4 1
    ++ (0, dequeue) ∷ many 12 0
    ++ (0, drain) ∷ many 7 0)

stalled_keeps : (stalled.last.mem.live 1 ≡ true) × ((stalled.last.thread 0).bag ≡ 1 ∷ [])
unfolding run
stalled_keeps = (refl, refl)

stalled_later : Run 2
unfolding run
stalled_later = turns 2 stalled (many 16 1 ++ (0, drain) ∷ many 7 0 ++ (0, enqueue 8 1) ∷ [])

stalled_frees :
    (stalled_later.history
      ≡ stalled.history ++ (1, returns (dequeued none)) ∷ (0, calls_enqueue 8) ∷ [])
    × (stalled_later.last.mem.freed_count ≡ 1)
unfolding stalled_later
stalled_frees = (refl, refl)

linearizable_example :
    (q : List ℕ) × Runs stalled_later.history q (ops_of stalled_later.last)
    × Walk stalled_later.last.mem stalled_later.last.mem.head q
linearizable_example = linearizable 2 1 0 (omega arith) stalled_later.reach

-- Thread 1 stands before its read of the successor of the dummy, which thread 0 has retired.
no_use_after_free_example : stalled.last.mem.live 1 ≡ true
unfolding run
no_use_after_free_example =
    no_use_after_free 2 1 0 (omega arith) stalled.reach 1 1 (omega arith) refl

protected_stays_example :
    Untouched stalled.last.mem
      (advance 2 0 drain stalled.last).mem
      (claim (stalled.last.thread 1).pc 0)
unfolding run
protected_stays_example =
    protected_stays 2 1 0 (omega arith) stalled.reach 0 1 0 drain (omega arith) (omega arith)
      (omega arith) (omega arith)

-- Thread 1 has unlinked the dummy, and its next step is the fetch_add of `retire`.
abbrev unlinking : Run 2
unlinking = run 2 ((0, enter) ∷ (1, enter) ∷ (0, enqueue 7 2) ∷ many 9 0 ++ (1, dequeue) ∷ many 9 1)

unlinking_keeps : (unlinking.last.mem.live 1 ≡ true) × (entries 2 unlinking.last 1 ≡ 0)
unfolding run sum_below
unlinking_keeps = (refl, refl)

-- It retires the dummy between the two loads of in_flight.
retires_one : Onward 2 (λ u. Unit {0}) unlinking.last 1 (advance 2 1 go unlinking.last)
unfolding run
retires_one = moves (at_once tt) 1 go (omega arith) tt

in_flight-outstanding_example :
    in_flight unlinking.last.mem (advance 2 1 go unlinking.last).mem
    ≡ outstanding 2 unlinking.last + 1
unfolding run sum_below
in_flight-outstanding_example =
    let none_yet : unlinking.last.mem.freed_count + outstanding 2 unlinking.last ≡ 0 = refl in
    in_flight-outstanding 2 1 0 unlinking.reach retires_one (omega (arith, none_yet))

garbage_bounded_example :
    (outstanding 2 unlinking.last
      ≤ 2 * (scan_threshold 2 + 2 * (slot_count * 2)) + 2 * (slot_count * 2))
    × (in_flight unlinking.last.mem (advance 2 1 go unlinking.last).mem
        ≤ 2 * (scan_threshold 2 + 2 * (slot_count * 2)) + 2 * (slot_count * 2) + 1)
garbage_bounded_example = garbage_bounded 2 1 0 (omega arith) unlinking.reach retires_one

nothing_lost_example :
    Along unlinking.last.mem 1 unlinking.last.mem.head
    ⊎ ((j : ℕ) × (j < 2) × (new_node (unlinking.last.thread j).pc ≡ 1))
    ⊎ ((j : ℕ) × (j < 2)
        × (unlinked (unlinking.last.thread j).pc ≡ some 1)
        × (entries 2 unlinking.last 1 ≡ 0))
    ⊎ (entries 2 unlinking.last 1 ≡ 1)
unfolding run
nothing_lost_example = nothing_lost 2 1 0 (omega arith) unlinking.reach 1 refl

nobody_holds : (j : ℕ) → j < 2 → unlinked (stalled.last.thread j).pc ≡ none
unfolding run
nobody_holds zero lt = refl
nobody_holds (suc zero) lt = refl
nobody_holds (suc (suc j)) lt = absurd (omega arith)

destroy-entries_example :
    (f : ℕ) × (m' : Mem ℕ) × (destroy f stalled.last.mem stalled.last.mem.head ≡ some m')
    × ((p : Ptr) → (m'.live p ≡ true) ↔ (entries 2 stalled.last p ≡ 1))
unfolding run
destroy-entries_example =
    destroy-entries 2 1 0 (omega arith) stalled.reach (λ j lt. ground arith) nobody_holds

nobody_in : Unused 2 one_value.last
unfolding run
nobody_in zero lt = refl
nobody_in (suc zero) lt = refl
nobody_in (suc (suc j)) lt = absurd (omega arith)

nobody_in_yet : Unused 2 (advance 2 1 drain one_value.last)
unfolding run
nobody_in_yet zero lt = refl
nobody_in_yet (suc zero) lt = refl
nobody_in_yet (suc (suc j)) lt = absurd (omega arith)

-- Thread 1 begins a drain between the two loads of empty.
empty-is_nil_example :
    (q : List ℕ) × Runs one_value.history q (ops_of one_value.last)
    × (empty one_value.last.mem (advance 2 1 drain one_value.last).mem ≡ is_nil q)
empty-is_nil_example =
    empty-is_nil 2 1 0 (omega arith) one_value.reach
      (moves (at_once nobody_in) 1 drain (omega arith) nobody_in_yet)

values_conserved_example :
    (q : List ℕ) × Walk stalled_later.last.mem stalled_later.last.mem.head q
    × ((v : ℕ)
        → total (called v) stalled_later.history
          ≡ count v q
            + sum_below (carries v) (ops_of stalled_later.last) 2
            + total (gave v) stalled_later.history)
values_conserved_example = values_conserved 2 1 0 (omega arith) stalled_later.reach

alone_finishes_example :
    (k : ℕ) × (rests
        (alone 2 1 k stalled.last.mem (stalled.last.thread 1).bag (stalled.last.thread 1).pc)
      ≡ true)
alone_finishes_example = alone_finishes 2 1 0 (omega arith) stalled.reach 1 (omega arith)

no_hazard : NoHazard 2 one_value.last.mem
unfolding run
no_hazard zero zero j k = refl
no_hazard zero (suc zero) j k = refl
no_hazard (suc zero) zero j k = refl
no_hazard (suc zero) (suc zero) j k = refl
no_hazard (suc (suc i)) l j k = absurd (omega arith)
no_hazard zero (suc (suc l)) j k = absurd (omega arith)
no_hazard (suc zero) (suc (suc l)) j k = absurd (omega arith)

others_rest : (j : ℕ) → j < 2 → j ≢ 1 → HasNothing (one_value.last.thread j)
unfolding run
others_rest zero lt ne = (refl, refl)
others_rest (suc zero) lt ne = absurd (omega arith)
others_rest (suc (suc j)) lt ne = absurd (omega arith)

at_idle : (one_value.last.thread 1).pc ≡ idle
unfolding run
at_idle = refl

quiet_drain_example :
    (k : ℕ) × (((solo 2 1 k (advance 2 1 drain one_value.last)).thread 1).pc ≡ idle)
    × (in_flight
          (solo 2 1 k (advance 2 1 drain one_value.last)).mem
          (solo 2 1 k (advance 2 1 drain one_value.last)).mem
        ≡ 0)
    × ((p : Ptr)
        → (solo 2 1 k (advance 2 1 drain one_value.last)).mem.live p ≡ true
        → Along
            (solo 2 1 k (advance 2 1 drain one_value.last)).mem
            p
            (solo 2 1 k (advance 2 1 drain one_value.last)).mem.head)
quiet_drain_example =
    quiet_drain 2 1 0 (omega arith) one_value.reach 1 (omega arith) at_idle no_hazard others_rest
