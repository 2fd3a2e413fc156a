-- ===== src/Bench/Skeleton/Timed.antt =====
-- run_threads in reachable states (bench/bench_main.cpp).
use lock_free_mpmc_queue.Base.{
  ℕ, ◌+◌, ◌^◌, ◌%◌, ◌<◌, ◌≡◌, ◌↔◌, Bool, true, inl, inr, List, ◌==◌, if◌then◌else◌, Bool-cases,
  eq-cases, refl, subst, arith,
}
use lock_free_mpmc_queue.Bench.Barrier.{
  WorkerPc, arriving, spinning, running, DriverPc, waiting, releasing, timing, BarrierSystem,
  BarrierReach, worker_step, driver_step, lt_int,
}
use lock_free_mpmc_queue.Bench.Barrier
use lock_free_mpmc_queue.Bench.Skeleton.{
  Body, inside, ended, Boss, spawning, holding, clocking, freeing, joining, stopping, finished,
  Skeleton, Beat, delay, has_ended, is_waiting, boss_step, SkeletonReach, start, works, leads,
}
use lock_free_mpmc_queue.Bench.Skeleton.Invariant.{stamps_of, AllFrom, AllUpto, AllUpto-mono, Place}
use lock_free_mpmc_queue.Bench.Skeleton.Sound.{Sound, thread-Sound}
use lock_free_mpmc_queue.Bench.Skeleton.Lead.{unreleased, drives-Sound, goes_on-Sound}

-- Where a look of the driver at the barrier leaves it.
looked :
    (n : ℕ) (l : BarrierSystem) (d : DriverPc) (body : ℕ → Body) (now : ℕ)
    → d ≡ waiting
    → Place n
        (if is_waiting (driver_step n l d).driver then holding else clocking)
        (driver_step n l d).driver
        body
        now
unfolding driver_step
looked n l d body now e = rw e (elim (Bool-cases (lt_int l.barrier.arrived (n % 2 ^ 32))) [
  | inl t ↦ rw t refl
  | inr t ↦ rw t refl
])

ended_below :
    (n : ℕ) (body : ℕ → Body) (k : ℕ)
    → ((i : ℕ) → i < k → has_ended (body i) ≡ true)
    → has_ended (body k) ≡ true
    → (i : ℕ) → i < k + 1
    → has_ended (body i) ≡ true
ended_below n body k h over i lt = elim (eq-cases i k) [
  | inl e ↦ rw e over
  | inr ne ↦ h i (omega arith)
]

boss-Sound :
    (pins : ℕ → Bool) (n : ℕ) (b : Beat) (s : Skeleton) (boss : Boss)
    → n < 2 ^ 31
    → s.boss ≡ boss
    → Sound pins n s
    → Sound pins n (boss_step n b s boss)
unfolding boss_step
boss-Sound pins n b s (spawning k) small e h =
    let place : Place n (spawning k) s.line.driver s.body s.clock =
      subst (λ x. Place n x s.line.driver s.body s.clock) e h.place in
    elim (Bool-cases (k == n)) [
      | inl all ↦ rw all (goes_on-Sound pins n s.clock s holding (omega arith) h place.1)
      | inr more ↦ rw more (
          goes_on-Sound pins n s.clock s (spawning (k + 1)) (omega arith) h (ground arith, place.1))
    ]
boss-Sound pins n b s holding small e h =
    let place : Place n holding s.line.driver s.body s.clock =
      subst (λ x. Place n x s.line.driver s.body s.clock) e h.place in
    drives-Sound pins n s _ h (looked n s.line s.line.driver s.body s.clock place)
boss-Sound pins n b s clocking small e h =
    let place : Place n clocking s.line.driver s.body s.clock =
      subst (λ x. Place n x s.line.driver s.body s.clock) e h.place in
    let now = s.clock + delay b in
    goes_on-Sound pins n now s (freeing now) (omega arith) h (place, omega arith)
boss-Sound pins n b s (freeing begin) small e h =
    let place : Place n (freeing begin) s.line.driver s.body s.clock =
      subst (λ x. Place n x s.line.driver s.body s.clock) e h.place in
    let still = unreleased n s.line releasing small h.line place.0 (λ x. cc) in
    drives-Sound pins n s (joining begin 0) h
      (place.1, λ i. rw (h.unborn i (still i)) tt, λ i lt. absurd (omega arith))
boss-Sound pins n b s (joining begin k) small e h =
    let place : Place n (joining begin k) s.line.driver s.body s.clock =
      subst (λ x. Place n x s.line.driver s.body s.clock) e h.place in
    elim (Bool-cases (k == n)) [
      | inl all ↦ rw all (
          goes_on-Sound pins n s.clock s (stopping begin) (omega arith) h
            (place.0, place.1, λ i lt. place.2 i (ground arith)))
      | inr more ↦ elim (Bool-cases (has_ended (s.body k))) [
        | inl over ↦
            rw (more, over)
              (goes_on-Sound pins n s.clock s (joining begin (k + 1)) (omega arith) h
                (place.0, place.1, λ i lt. ended_below n s.body k place.2 over i lt))
        | inr busy ↦
            rw (more, busy) (goes_on-Sound pins n s.clock s (joining begin k) (omega arith) h place)
      ]
    ]
boss-Sound pins n b s (stopping begin) small e h =
    let place : Place n (stopping begin) s.line.driver s.body s.clock =
      subst (λ x. Place n x s.line.driver s.body s.clock) e h.place in
    let now = s.clock + delay b in
    goes_on-Sound pins n now s (finished begin now) (omega arith) h (
      omega (arith, place.0),
      place.1,
      place.2,
      λ i lt. AllUpto-mono s.clock now (stamps_of (s.body i)) (h.upto i) (omega arith),
    )
boss-Sound pins n b s (finished begin stop) small e h = h

SkeletonReach-Sound :
    (pins : ℕ → Bool) (n t : ℕ) {s : Skeleton}
    → n < 2 ^ 31
    → SkeletonReach pins n t s
    → Sound pins n s
SkeletonReach-Sound pins n t small start = record {
  line = Barrier.start;
  place = (omega arith, refl);
  upto = λ i. tt;
  unborn = λ i ne. refl;
  lined = λ i ne. absurd (ne refl);
  pinned = λ e i a. cc;
  unpinned = λ e. cc;
}
SkeletonReach-Sound pins n t small (works {s} r i b) =
    thread-Sound pins n i b s (SkeletonReach-Sound pins n t small r)
SkeletonReach-Sound pins n t small (leads {s} r b) =
    boss-Sound pins n b s s.boss small refl (SkeletonReach-Sound pins n t small r)

ended-stamps : (body : Body) → has_ended body ≡ true → body ≡ ended (stamps_of body)
ended-stamps (inside l) e = cc
ended-stamps (ended l) e = refl

-- A worker that has ended has called pin_to_core.
tried_of_ended :
    (pins : ℕ → Bool) (n : ℕ) (s : Skeleton) (i : ℕ)
    → Sound pins n s
    → has_ended (s.body i) ≡ true
    → s.tried i ≡ true
tried_of_ended pins n s i h over =
    h.lined i
      (λ a. let fresh = h.unborn i (λ run. cc) in cc (subst (λ x. has_ended x ≡ true) fresh over))

-- When run_threads of fewer than 2 ^ 31 workers has read the clock for the second time, every worker
-- has ended its body, all times that the bodies have read lie between the two reads, and
-- all_pinned is true just if pin_to_core has answered so for each worker.
pub run_timed :
    (pins : ℕ → Bool) (n t begin stop : ℕ) {s : Skeleton}
    → n < 2 ^ 31
    → SkeletonReach pins n t s
    → s.boss ≡ finished begin stop
    → ((i : ℕ) → i < n → (l : List ℕ) × (s.body i ≡ ended l) × AllFrom begin l × AllUpto stop l)
      × ((s.all_pinned ≡ true) ↔ ((i : ℕ) → i < n → pins i ≡ true))
run_timed pins n t begin stop {s} small r e =
    let h = SkeletonReach-Sound pins n t small r in
    let place : Place n (finished begin stop) s.line.driver s.body s.clock =
      subst (λ x. Place n x s.line.driver s.body s.clock) e h.place in
    (
      λ i lt.
          (stamps_of (s.body i), ended-stamps (s.body i) (place.2 i lt), place.1 i, place.3 i lt),
      (
        λ good i lt. h.pinned good i (tried_of_ended pins n s i h (place.2 i lt)),
        λ all. elim (Bool-cases s.all_pinned) [
          | inl good ↦ good
          | inr bad ↦ let (i, lt, missed) = h.unpinned bad in cc (all i lt)
        ],
      ),
    )
