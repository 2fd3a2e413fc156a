-- ===== src/Leaky/Clients/Lanes.antt =====
-- The values of one producer in the queue of queue_suite (model/queue_model.hpp): they come in the
-- order of their numbers.
use lock_free_mpmc_queue.Base.{
  ℕ, suc, ◌+◌, ◌*◌, ◌%◌, ◌^◌, ◌≤◌, ◌<◌, ◌≡◌, Bool, true, ◌&&◌, ◌||◌, not, List, [], ◌∷◌, ◌++◌, ltb,
  ◌==◌, if◌then◌else◌, arith,
}
use lock_free_mpmc_queue.Base.Bits.{bit_or-add}
use lock_free_mpmc_queue.Leaky.Clients.{pack, producer_of, seq_of}

-- Whether the numbers of producer `p` in the queue are `a`, `a + 1` and so on, short of `b`.
abbrev pub is_lane : (p a b : ℕ) → List ℕ → Bool
is_lane p a b [] = a == b
is_lane p a b (v ∷ q) =
    (not (producer_of v == p) || (seq_of v == a))
    && is_lane p (if producer_of v == p then suc a else a) b q

-- Whether all values come from the first `P` producers.
abbrev pub all_below : ℕ → List ℕ → Bool
all_below P [] = true
all_below P (v ∷ q) = ltb (producer_of v) P && all_below P q

pub all_below-snoc :
    (P v : ℕ) (q : List ℕ)
    → all_below P q ≡ true
    → producer_of v < P
    → all_below P (q ++ v ∷ []) ≡ true
all_below-snoc P v [] h lt = ground arith
all_below-snoc P v (x ∷ q) h lt = ground (arith, all_below-snoc P v q)

pub is_lane-le : (p a b : ℕ) (q : List ℕ) → is_lane p a b q ≡ true → a ≤ b
is_lane-le p a b [] h = ground arith
is_lane-le p a b (v ∷ q) h =
    ground (arith, is_lane-le p (if producer_of v == p then suc a else a) b q)

pub is_lane-snoc :
    (p a b v : ℕ) (q : List ℕ)
    → is_lane p a b q ≡ true
    → (producer_of v ≡ p → seq_of v ≡ b)
    → is_lane p a (if producer_of v == p then suc b else b) (q ++ v ∷ []) ≡ true
is_lane-snoc p a b v [] h at = ground (arith, at)
is_lane-snoc p a b v (x ∷ q) h at =
    ground (arith, is_lane-snoc p (if producer_of x == p then suc a else a) b v q)

pub pack_parts :
    (idx s : ℕ)
    → idx < 2 ^ 24
    → s < 2 ^ 8
    → (producer_of (pack idx s) ≡ idx) × (seq_of (pack idx s) ≡ s)
pack_parts idx s hi hs =
    let whole : idx * 2 ^ 8 % 2 ^ 32 ≡ idx * 2 ^ 8 = omega arith in
    let sum : pack idx s ≡ idx * 2 ^ 8 + s = rw whole (bit_or-add 8 idx s hs) in
    rw sum (omega arith)
