-- ===== src/Machine/Conserve.antt =====
-- What the specification means for the users of the queue (include/lfq/ms_queue.hpp): every value
-- that is enqueued is dequeued once at most, and what is dequeued was enqueued.
use lock_free_mpmc_queue.Base.{
  ℕ, ◌+◌, ◌≡◌, ◌≢◌, some, none, List, [], ◌∷◌, ◌++◌, ◌==◌, if◌then◌else◌, refl, arith, count,
  count-append, sum_below, sum_below-update, sum_below-zero, ap,
}
use lock_free_mpmc_queue.Machine.State.{
  Ptr, null, enqueued, dequeued, System, Label, silent, calls_enqueue, calls_dequeue, returns,
}
use lock_free_mpmc_queue.Machine.Spec.{Op, enqueueing, finished, Atomic, op_of, contents, slice}
use lock_free_mpmc_queue.Machine.System.{log, act_of, init, Reach, start, later}
use lock_free_mpmc_queue.Machine.Invariant.Preserve.{outcome}
use lock_free_mpmc_queue.Machine.Refine.{Linear-Walk, Walk, linear, ops_of, ops-advance}

abbrev same : ℕ → ℕ → ℕ
same v w = if v == w then 1 else 0

-- The enqueue calls of `v` in a history, and the dequeues that have returned it.
abbrev pub called : ℕ → Label ℕ → ℕ
called v (calls_enqueue w) = same v w
called v _ = 0

abbrev pub gave : ℕ → Label ℕ → ℕ
gave v (returns (dequeued (some w))) = same v w
gave v _ = 0

-- The operations in progress that still have to put `v` in the queue, or that have taken it out and
-- not returned it yet.
abbrev pub carries : ℕ → Op ℕ → ℕ
carries v (enqueueing w) = same v w
carries v (finished (dequeued (some w))) = same v w
carries v _ = 0

abbrev pub total : (Label ℕ → ℕ) → List (ℕ × Label ℕ) → ℕ
total w [] = 0
total w ((i, l) ∷ h) = w l + total w h

total-append :
    (w : Label ℕ → ℕ) (h k : List (ℕ × Label ℕ)) → total w (h ++ k) ≡ total w h + total w k
total-append w [] k = omega arith
total-append w ((i, l) ∷ h) k = omega (arith, total-append w h k)

total-log :
    (w : Label ℕ → ℕ) (h : List (ℕ × Label ℕ)) (i : ℕ) (l : Label ℕ)
    → w silent ≡ 0
    → total w (log h i l) ≡ total w h + w l
total-log w h i silent z = omega (arith, z)
total-log w h i (calls_enqueue v) z = omega (arith, total-append w h ((i, calls_enqueue v) ∷ []))
total-log w h i calls_dequeue z = omega (arith, total-append w h ((i, calls_dequeue) ∷ []))
total-log w h i (returns r) z = omega (arith, total-append w h ((i, returns r) ∷ []))

Atomic-carries :
    (v : ℕ) {q q' : List ℕ} {o o' : Op ℕ} {l : Label ℕ}
    → Atomic q o l q' o'
    → count v q + carries v o + called v l ≡ count v q' + carries v o' + gave v l
Atomic-carries v Atomic.stays = omega arith
Atomic-carries v (Atomic.calls_enqueue w) = omega arith
Atomic-carries v Atomic.calls_dequeue = refl
Atomic-carries v {q} (Atomic.puts w) = ground (arith, count-append v q (w ∷ []))
Atomic-carries v (Atomic.takes w rest e) = rw e (ground arith)
Atomic-carries v (Atomic.finds_empty e) = refl
Atomic-carries v Atomic.tries_again = refl
Atomic-carries v Atomic.settles = refl
Atomic-carries v (Atomic.returns enqueued) = omega arith
Atomic-carries v (Atomic.returns (dequeued none)) = omega arith
Atomic-carries v (Atomic.returns (dequeued (some w))) = omega arith

module _ (n : ℕ) (d : Ptr) (blank : ℕ) (real : d ≢ null) where
  linear-carries :
      {h : List (ℕ × Label ℕ)} {s : System ℕ}
      → (r : Reach n d blank h s) → (v : ℕ)
      → total (called v) h
        ≡ count v (contents (linear n d blank real r).ghost)
          + sum_below (carries v) (ops_of s) n
          + total (gave v) h
  unfolding linear slice
  linear-carries start v =
      omega (arith, sum_below-zero (carries v) (ops_of (init d blank)) n (λ _. refl))
  linear-carries (later {h} {s} r i c lt) v =
      let before = linear n d blank real r in
      let one = Atomic-carries v (outcome before.inv i c lt).atomic in
      let sum = sum_below-update (carries v) (ops_of s) i (op_of (act_of n i c s).pc) n lt in
      let moved = ap (λ ops. sum_below (carries v) ops n) (ops-advance n i c s) in
      omega (
        arith,
        linear-carries r v,
        one,
        sum,
        moved,
        total-log (called v) h i (act_of n i c s).label refl,
        total-log (gave v) h i (act_of n i c s).label refl,
      )

  -- In every reachable state the list of values behind head_ is such that each value has been passed
  -- to enqueue just as often as it is in that list, is carried by an operation in progress, and was
  -- returned by try_dequeue, together: no value is lost, duplicated or made up.
  pub values_conserved :
      {h : List (ℕ × Label ℕ)} {s : System ℕ}
      → Reach n d blank h s
      → (q : List ℕ) × Walk s.mem s.mem.head q
        × ((v : ℕ)
            → total (called v) h
              ≡ count v q + sum_below (carries v) (ops_of s) n + total (gave v) h)
  values_conserved {s} r =
      let l = linear n d blank real r in (contents l.ghost, Linear-Walk l, linear-carries r)
