-- ===== src/Model/Schedule.antt =====
-- The theorem on the fences at one of the three variants of the model (model/hp_model.hpp), and that
-- on the driver with an answer of Relacy that finds nothing (model/model_check.cpp).
use lock_free_mpmc_queue.Base.{ℕ, Bool, true, false, ◌≡◌, ◌↔◌, ◌⊎◌}
use lock_free_mpmc_queue.Model.Protocol.{
  hp_none, hp_missing_publish_fence, hp_missing_scan_fence, Protocol, ProtocolReach,
}
use lock_free_mpmc_queue.Model.Fences.{IsSafe, fences_needed}
use lock_free_mpmc_queue.Model.Driver.{
  Checked, protocol, queue, bug_none, bug_relaxed_tail_load, bug_relaxed_link_cas, Search,
  sched_full, sched_bound, sched_random, driver, driver_verdict,
}

fences_needed_example :
    ((s : Protocol) → ProtocolReach hp_missing_scan_fence s → IsSafe s)
    ↔ (hp_missing_scan_fence ≡ hp_none)
fences_needed_example = fences_needed hp_missing_scan_fence

abbrev always_clean : Checked → Search → ℕ → Bool
always_clean suite sched n = true

-- An answer that finds no violation at all.
driver_verdict_example :
    let simulate = always_clean in
    ((driver simulate ≡ 0) ↔ (
      (simulate (protocol hp_none) sched_full 100000000 ≡ true)
      × (simulate (queue bug_none 1 1 2) sched_bound 10000000 ≡ true)
      × (simulate (queue bug_none 1 2 1) sched_random 300000 ≡ true)
      × (simulate (queue bug_none 2 1 2) sched_random 300000 ≡ true)
      × (simulate (queue bug_none 2 2 1) sched_random 300000 ≡ true)
      × (simulate (protocol hp_missing_publish_fence) sched_full 100000000 ≡ false)
      × (simulate (protocol hp_missing_scan_fence) sched_full 100000000 ≡ false)
      × (simulate (queue bug_relaxed_link_cas 1 1 1) sched_random 100000 ≡ false)
      × (simulate (queue bug_relaxed_tail_load 1 2 1) sched_random 1000000 ≡ false)))
    × ((driver simulate ≡ 0) ⊎ (driver simulate ≡ 1))
driver_verdict_example = driver_verdict always_clean
