-- ===== src/Leaky/Clients.antt =====
-- queue_suite (model/queue_model.hpp): P producers of K values each and consumers, with the
-- assertions that they make. An operation of the queue is one step, as the queue promises.
use Prim.Native.Nat.{bit_or}
use lock_free_mpmc_queue.Base.{
  ℕ, zero, suc, ◌+◌, ◌-◌, ◌*◌, ◌/◌, ◌%◌, ◌^◌, ◌<◌, Bool, true, false, ◌&&◌, not, List, [], ◌∷◌,
  ◌++◌, ltb, ◌==◌, if◌then◌else◌, update,
}
use lock_free_mpmc_queue.Bench.Barrier.{lt_int}
pub mod Lanes
pub mod Step
pub mod Invariant
pub mod Verdict
mod Runs

-- Where a thread stands; `failed` is an assertion that does not hold.
pub data ClientPc : Type 0 where
  send : (s : ℕ) → ClientPc
  poll : ClientPc
  take : ClientPc
  check : (v : ℕ) → ClientPc
  mark : (p s : ℕ) → ClientPc
  count : ClientPc
  done : ClientPc
  failed : ClientPc

-- A thread, with `last`, an int for each producer, kept as its 32 bits.
pub record Client : Type 0 where
  pub pc : ClientPc
  pub last : ℕ → ℕ

pub record Shared : Type 0 where
  pub queue : List ℕ
  pub seen : ℕ → ℕ → ℕ
  pub consumed : ℕ

pub record SuiteState : Type 0 where
  pub shared : Shared
  pub client : ℕ → Client

pub record ClientAct : Type 0 where
  pub shared : Shared
  pub client : Client

-- (idx << 8) | s, and its two parts.
abbrev pub pack : ℕ → ℕ → ℕ
pack idx s = bit_or (idx * 2 ^ 8 % 2 ^ 32) s

abbrev pub producer_of : ℕ → ℕ
producer_of v = v / 2 ^ 8

abbrev pub seq_of : ℕ → ℕ
seq_of v = v % 2 ^ 8

abbrev pub expected : (P K : ℕ) → ℕ
expected P K = P * K % 2 ^ 32

abbrev pub turns_to : Shared → ClientPc → Client → ClientAct
turns_to m pc w = record { shared = m; client = record { pc = pc; last = w.last } }

abbrev pub mark_seen : (ℕ → ℕ → ℕ) → ℕ → ℕ → ℕ → ℕ → ℕ
mark_seen seen p s = update seen p (update (seen p) s 1)

-- try_dequeue
abbrev pub dequeues : Shared → List ℕ → Client → ClientAct
dequeues m [] w = turns_to m poll w
dequeues m (v ∷ q) w = turns_to (record m { queue = q }) (check v) w

-- The three assertions on a value, the last of which reads seen[p][s].
abbrev pub checks : (P K : ℕ) → Shared → (ℕ → ℕ) → (p s : ℕ) → Bool
checks P K m last p s = (ltb p P && ltb s K) && (lt_int (last p) s && (m.seen p s == 0))

-- One step of thread `idx`.
unfoldable pub client_step : (P K idx : ℕ) → Shared → Client → ClientPc → ClientAct
client_step P K idx m w (send s) =
    if ltb s K
    then turns_to (record m { queue = m.queue ++ pack idx s ∷ [] }) (send (s + 1)) w
    else turns_to m done w
client_step P K idx m w poll = turns_to m (if ltb m.consumed (expected P K) then take else done) w
client_step P K idx m w take = dequeues m m.queue w
client_step P K idx m w (check v) =
    let p = producer_of v in
    let s = seq_of v in
    if checks P K m w.last p s
    then record { shared = m; client = record { pc = mark p s; last = update w.last p s } }
    else turns_to m failed w
client_step P K idx m w (mark p s) = turns_to (record m { seen = mark_seen m.seen p s }) count w
client_step P K idx m w count = turns_to (record m { consumed = (m.consumed + 1) % 2 ^ 32 }) poll w
client_step P K idx m w done = turns_to m done w
client_step P K idx m w failed = turns_to m failed w

abbrev pub suite_advance : (P K idx : ℕ) → SuiteState → SuiteState
suite_advance P K idx s =
    let a = client_step P K idx s.shared (s.client idx) (s.client idx).pc in
    record { shared = a.shared; client = update s.client idx a.client }

-- before(), and the start of the threads; -1 is 2 ^ 32 - 1.
abbrev pub suite_init : (P : ℕ) → SuiteState
suite_init P = record {
  shared = record { queue = []; seen = λ p s. 0; consumed = 0 };
  client = λ idx. record { pc = if ltb idx P then send 0 else poll; last = λ p. 2 ^ 32 - 1 };
}

-- What `P` producers and `C` consumers can reach, in any order.
pub data SuiteReach (P C K : ℕ) : SuiteState → Type 0 where
  start : SuiteReach P C K (suite_init P)
  later :
      {s : SuiteState}
      → SuiteReach P C K s
      → (idx : ℕ) → idx < P + C
      → SuiteReach P C K (suite_advance P K idx s)

-- after(): the queue is empty, and all values have been seen.
abbrev pub queue_empty : List ℕ → Bool
queue_empty [] = true
queue_empty (v ∷ q) = false

pub row_seen : (ℕ → ℕ) → ℕ → Bool
row_seen row zero = true
row_seen row (suc s) = row_seen row s && (row s == 1)

pub all_seen : (ℕ → ℕ → ℕ) → (P K : ℕ) → Bool
unfolding row_seen
all_seen seen zero K = true
all_seen seen (suc p) K = all_seen seen p K && row_seen (seen p) K

unfoldable pub after : (P K : ℕ) → Shared → Bool
unfolding all_seen
after P K m = queue_empty m.queue && all_seen m.seen P K
