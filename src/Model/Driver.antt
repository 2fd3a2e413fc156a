-- ===== src/Model/Driver.antt =====
-- The driver of the model checker (model/model_check.cpp). What Relacy answers, `simulate`, is a
-- parameter: whether a search of so many executions of a suite is clean.
use lock_free_mpmc_queue.Base.{
  ℕ, ◌+◌, ◌≡◌, ◌↔◌, ◌⊎◌, refl, Bool, true, false, List, [], ◌∷◌, ◌==◌, if◌then◌else◌, arith,
}
use lock_free_mpmc_queue.Model.Protocol.{
  HpBug, hp_none, hp_missing_publish_fence, hp_missing_scan_fence,
}

pub data QueueBug : Type 0 where
  bug_none : QueueBug
  bug_relaxed_tail_load : QueueBug
  bug_relaxed_link_cas : QueueBug

-- rl::scheduler_type_e
pub data Search : Type 0 where
  sched_random : Search
  sched_bound : Search
  sched_full : Search

-- hp_protocol_suite, and queue_suite with its numbers of producers, of consumers and of values.
pub data Checked : Type 0 where
  protocol : HpBug → Checked
  queue : QueueBug → (P C K : ℕ) → Checked

-- The arguments of a call of run, but the name.
pub record Call : Type 0 where
  pub suite : Checked
  pub sched : Search
  pub iters : ℕ
  pub expect_clean : Bool

abbrev pub calls : List Call
calls =
    record { suite = protocol hp_none; sched = sched_full; iters = 100000000; expect_clean = true }
    ∷ record {
      suite = queue bug_none 1 1 2;
      sched = sched_bound;
      iters = 10000000;
      expect_clean = true;
    }
    ∷ record {
      suite = queue bug_none 1 2 1;
      sched = sched_random;
      iters = 300000;
      expect_clean = true;
    }
    ∷ record {
      suite = queue bug_none 2 1 2;
      sched = sched_random;
      iters = 300000;
      expect_clean = true;
    }
    ∷ record {
      suite = queue bug_none 2 2 1;
      sched = sched_random;
      iters = 300000;
      expect_clean = true;
    }
    ∷ record {
      suite = protocol hp_missing_publish_fence;
      sched = sched_full;
      iters = 100000000;
      expect_clean = false;
    }
    ∷ record {
      suite = protocol hp_missing_scan_fence;
      sched = sched_full;
      iters = 100000000;
      expect_clean = false;
    }
    ∷ record {
      suite = queue bug_relaxed_link_cas 1 1 1;
      sched = sched_random;
      iters = 100000;
      expect_clean = false;
    }
    ∷ record {
      suite = queue bug_relaxed_tail_load 1 2 1;
      sched = sched_random;
      iters = 1000000;
      expect_clean = false;
    }
    ∷ []

abbrev pub same : Bool → Bool → Bool
same true b = b
same false true = false
same false false = true

module _ (simulate : Checked → Search → ℕ → Bool) where
  -- Whether the run comes out as expected.
  unfoldable pub run : Call → Bool
  run c = same (simulate c.suite c.sched c.iters) c.expect_clean

  pub failures : List Call → ℕ
  unfolding run
  failures [] = 0
  failures (c ∷ cs) = (if run c then 0 else 1) + failures cs

  -- The exit status of main.
  unfoldable pub driver : ℕ
  unfolding failures
  driver = if failures calls == 0 then 0 else 1

  abbrev AsExpected : List Call → Type 0
  AsExpected [] = Unit
  AsExpected (c ∷ cs) = (simulate c.suite c.sched c.iters ≡ c.expect_clean) × AsExpected cs

  run-expected : (c : Call) → simulate c.suite c.sched c.iters ≡ c.expect_clean → run c ≡ true
  unfolding run
  run-expected c e = ground arith

  failures-expected : (cs : List Call) → AsExpected cs → failures cs ≡ 0
  unfolding failures
  failures-expected [] h = refl
  failures-expected (c ∷ cs) h = rw (run-expected c h.0) (omega (arith, failures-expected cs h.1))

  expected-failures : (cs : List Call) → failures cs ≡ 0 → AsExpected cs
  unfolding failures run
  expected-failures [] e = tt
  expected-failures (c ∷ cs) e = (ground arith, expected-failures cs (ground arith))

  -- The driver returns 0 just if the search finds nothing in the protocol of the hazard pointers
  -- and in the queue with one or two producers and consumers, each searched as stated, and finds a
  -- violation in each of the four variants: the protocol without the fence after the publication,
  -- that without the fence of the scan, the queue with a relaxed compare-exchange at the link, and
  -- that with a relaxed load of the tail. It returns 1 otherwise.
  pub driver_verdict :
      ((driver ≡ 0) ↔ (
        (simulate (protocol hp_none) sched_full 100000000 ≡ true)
        × (simulate (queue bug_none 1 1 2) sched_bound 10000000 ≡ true)
        × (simulate (queue bug_none 1 2 1) sched_random 300000 ≡ true)
        × (simulate (queue bug_none 2 1 2) sched_random 300000 ≡ true)
        × (simulate (queue bug_none 2 2 1) sched_random 300000 ≡ true)
        × (simulate (protocol hp_missing_publish_fence) sched_full 100000000 ≡ false)
        × (simulate (protocol hp_missing_scan_fence) sched_full 100000000 ≡ false)
        × (simulate (queue bug_relaxed_link_cas 1 1 1) sched_random 100000 ≡ false)
        × (simulate (queue bug_relaxed_tail_load 1 2 1) sched_random 1000000 ≡ false)))
      × ((driver ≡ 0) ⊎ (driver ≡ 1))
  unfolding driver
  driver_verdict = (
    (
      λ e.
          let h = expected-failures calls (ground arith) in
          (
            h.0, h.1.0, h.1.1.0, h.1.1.1.0, h.1.1.1.1.0, h.1.1.1.1.1.0, h.1.1.1.1.1.1.0,
            h.1.1.1.1.1.1.1.0, h.1.1.1.1.1.1.1.1.0,
          ),
      λ h.
          rw
            (failures-expected calls
              (h.0, (h.1, (h.2, (h.3, (h.4, (h.5, (h.6, (h.7, (h.8, tt))))))))))
            refl,
    ),
    ground arith,
  )
