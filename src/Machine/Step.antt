-- ===== src/Machine/Step.antt =====
-- One access of one thread: enqueue and try_dequeue of include/lfq/ms_queue.hpp, and protect, set,
-- the guard's destructor, retire, scan and a thread's exit of include/lfq/hazard_pointer.hpp.
use Prim.Native.Nat.{max}
use lock_free_mpmc_queue.Base.{
  ℕ, zero, suc, ◌+◌, ◌*◌, ◌%◌, ◌^◌, Bool, true, false, ◌&&◌, ◌||◌, not, none, some, List, [], ◌∷◌,
  ◌++◌, ltb, leb, ◌==◌, if◌then◌else◌, length, update,
}
use lock_free_mpmc_queue.Std.Search.{sort, binary_search}
use lock_free_mpmc_queue.Machine.State.{
  Ptr, null, slot_count, Mem, ProtectPc, load, publish, verify, EnqPc, protect_tail, load_next,
  check_tail, help, link, swing_tail, DeqPc, protect_head, load_tail, read_next, set_next,
  check_head, help_tail, read_value, swing_head, retire_head, enqueued, dequeued, ScanPc, adopt,
  load_slot, sweep, Caller, from_retire, from_drain, from_exit, Pc, idle, enq, deq, scanning,
  unguard, push_orphans, release, exited, Choice, fail, enqueue, dequeue, drain, leave, enter,
  Label, silent, calls_enqueue, calls_dequeue, returns, Act,
}

-- A fetch_add on a uint64_t.
abbrev pub add64 : ℕ → ℕ → ℕ
add64 a b = (a + b) % 2 ^ 64

-- hp_domain::scan_threshold, with `n` records in the list
abbrev pub scan_threshold : ℕ → ℕ
scan_threshold n = max 64 (2 * slot_count * n)

abbrev pub is_spurious : {V : Type 0} → Choice V → Bool
is_spurious fail = true
is_spurious _ = false

-- What follows the slot `k` of the records below `suc r` in the snapshot.
abbrev pub next_slot : ℕ → ℕ → List Ptr → List Ptr → ScanPc
next_slot r k hazards bag =
    if ltb (k + 1) slot_count
    then load_slot (suc r) (k + 1) hazards
    else if r == 0
    then sweep hazards [] 0 bag
    else load_slot r 0 hazards

module _ {V : Type 0} where
  -- The store of `guard::set` and of the publish in `protect`; the fence is implied.
  abbrev pub store_slot : ℕ → ℕ → Ptr → Mem V → Mem V
  store_slot i k p m = record m { slot = λ j l. if (j == i) && (l == k) then p else m.slot j l }

  abbrev pub act : Mem V → Pc V → List Ptr → Label V → Act V
  act m pc b l = record { mem = m; pc = pc; bag = b; label = l }

  -- guard::protect on slot `k`, where `src` is what the source holds now. `resume` is the
  -- caller's place in the loop, `found` its place after it.
  unfoldable pub protect :
      (i k : ℕ) (src : Ptr)
      → (resume : ProtectPc → Pc V) (found : Ptr → Pc V) → Mem V
      → List Ptr
      → ProtectPc
      → Act V
  protect i k src resume found m b load = act m (resume (publish src)) b silent
  protect i k src resume found m b (publish p) =
      act (store_slot i k p m) (resume (verify p)) b silent
  protect i k src resume found m b (verify p) =
      act m (if src == p then found p else resume (publish src)) b silent

  -- ms_queue::enqueue of `v` in the node `n`, by thread `i`.
  unfoldable pub enqueue_step : ℕ → Choice V → V → Ptr → Mem V → List Ptr → EnqPc → Act V
  unfolding protect
  enqueue_step i c v n m b (protect_tail pc) =
      protect i 0 m.tail (λ q. enq v n (protect_tail q)) (λ p. enq v n (load_next p)) m b pc
  enqueue_step i c v n m b (load_next tail) =
      act m (enq v n (check_tail tail (m.next tail))) b silent
  enqueue_step i c v n m b (check_tail tail next) =
      act m
        (if tail == m.tail
          then (if next == null then enq v n (link tail) else enq v n (help tail next))
          else enq v n (protect_tail load))
        b silent
  enqueue_step i c v n m b (help tail next) =
      act (if m.tail == tail && not (is_spurious c) then record m { tail = next } else m)
        (enq v n (protect_tail load)) b silent
  enqueue_step i c v n m b (link tail) =
      if m.next tail == null && not (is_spurious c)
      then act (record m { next = update m.next tail n }) (enq v n (swing_tail tail)) b silent
      else act m (enq v n (protect_tail load)) b silent
  enqueue_step i c v n m b (swing_tail tail) =
      act (if m.tail == tail then record m { tail = n } else m) (unguard 0 enqueued) b silent

  -- hp_domain::retire of `p`, with `n` records in the list.
  unfoldable pub retire : ℕ → Ptr → V → Mem V → List Ptr → Act V
  retire n p v m b =
      act (record m { retired_count = add64 m.retired_count 1 })
        (if leb (scan_threshold n) (length (b ++ p ∷ []))
          then scanning adopt (from_retire v)
          else unguard 0 (dequeued (some v)))
        (b ++ p ∷ []) silent

  -- ms_queue::try_dequeue by thread `i` of `n`.
  unfoldable pub dequeue_step : (n i : ℕ) → Choice V → Mem V → List Ptr → DeqPc V → Act V
  unfolding protect retire
  dequeue_step n i c m b (protect_head pc) =
      protect i 0 m.head (λ q. deq (protect_head q)) (λ p. deq (load_tail p)) m b pc
  dequeue_step n i c m b (load_tail head) = act m (deq (read_next head m.tail)) b silent
  dequeue_step n i c m b (read_next head tail) =
      act m (deq (set_next head tail (m.next head))) b silent
  dequeue_step n i c m b (set_next head tail next) =
      act (store_slot i 1 next m) (deq (check_head head tail next)) b silent
  dequeue_step n i c m b (check_head head tail next) =
      act m
        (if head == m.head
          then (if head == tail
              then (if next == null then unguard 0 (dequeued none) else deq (help_tail tail next))
              else deq (read_value head next))
          else deq (protect_head load))
        b silent
  dequeue_step n i c m b (help_tail tail next) =
      act (if m.tail == tail && not (is_spurious c) then record m { tail = next } else m)
        (deq (protect_head load)) b silent
  dequeue_step n i c m b (read_value head next) =
      act m (deq (swing_head head next (m.value next))) b silent
  dequeue_step n i c m b (swing_head head next v) =
      if m.head == head && not (is_spurious c)
      then act (record m { head = next }) (deq (retire_head head v)) b silent
      else act m (deq (protect_head load)) b silent
  dequeue_step n i c m b (retire_head head v) = retire n head v m b

  -- Where `scan` goes back to. In ~tl_cache the leftovers become orphans, and the bag is cleared.
  abbrev pub resume_caller : Caller V → List Ptr → Pc V
  resume_caller (from_retire v) kept = unguard 0 (dequeued (some v))
  resume_caller from_drain kept = idle
  resume_caller from_exit kept = push_orphans kept

  abbrev pub left_in_bag : Caller V → List Ptr → List Ptr
  left_in_bag from_exit kept = []
  left_in_bag _ kept = kept

  -- hp_domain::scan over `n` records. Only the last access of the sweep writes the bag back.
  unfoldable pub scan_step : ℕ → Caller V → Mem V → List Ptr → ScanPc → Act V
  scan_step n k m b adopt =
      act (record m { orphans = [] })
        (if length (b ++ m.orphans) == 0
          then resume_caller k []
          else scanning (if n == 0 then sweep [] [] 0 (b ++ m.orphans) else load_slot n 0 []) k)
        (b ++ m.orphans) silent
  scan_step n k m b (load_slot zero l hazards) = act m (scanning (sweep hazards [] 0 b) k) b silent
  scan_step n k m b (load_slot (suc r) l hazards) =
      act m
        (scanning
          (next_slot r l (if m.slot r l == null then hazards else hazards ++ m.slot r l ∷ []) b) k)
        b silent
  scan_step n k m b (sweep hazards kept freed []) =
      act (record m { freed_count = add64 m.freed_count freed }) (resume_caller k kept)
        (left_in_bag k kept) silent
  scan_step n k m b (sweep hazards kept freed (p ∷ todo)) =
      if binary_search (sort hazards) p
      then act m (scanning (sweep hazards (kept ++ p ∷ []) freed todo) k) b silent
      else act (record m { live = update m.live p false })
          (scanning (sweep hazards kept (freed + 1) todo) k) b silent

  -- A call by an idle thread. `new` refuses an address that is null or in use; T must have a
  -- value, and the node starts with a null `next`.
  unfoldable pub call : Choice V → Mem V → List Ptr → Act V
  call (enqueue v p) m b =
      if p == null || m.live p
      then act m idle b silent
      else act
          (record m {
            live = update m.live p true;
            next = update m.next p null;
            value = λ q. if q == p then v else m.value q;
          })
          (enq v p (protect_tail load)) b (calls_enqueue v)
  call dequeue m b = act m (deq (protect_head load)) b calls_dequeue
  call drain m b = act m (scanning adopt from_drain) b silent
  call leave m [] = act m (release 0) [] silent
  call leave m (p ∷ b) = act m (scanning adopt from_exit) (p ∷ b) silent
  call _ m b = act m idle b silent

  -- One access of thread `i` of `n`.
  unfoldable pub step : (n i : ℕ) → Choice V → Mem V → List Ptr → Pc V → Act V
  unfolding enqueue_step dequeue_step scan_step call
  step n i c m b idle = call c m b
  step n i c m b (enq v p pc) = enqueue_step i c v p m b pc
  step n i c m b (deq pc) = dequeue_step n i c m b pc
  step n i c m b (scanning pc k) = scan_step n k m b pc
  -- ~guard clears the slots in order.
  step n i c m b (unguard k r) =
      if ltb (k + 1) slot_count
      then act (store_slot i k null m) (unguard (k + 1) r) b silent
      else act (store_slot i k null m) idle b (returns r)
  step n i c m b (push_orphans []) = act m (release 0) b silent
  step n i c m b (push_orphans (p ∷ todo)) =
      act (record m { orphans = p ∷ m.orphans }) (push_orphans todo) b silent
  -- The record's slots, then `active`.
  step n i c m b (release k) =
      if ltb k slot_count
      then act (store_slot i k null m) (release (k + 1)) b silent
      else act m exited b silent
  -- A later thread takes the record over.
  step n i enter m b exited = act m idle [] silent
  step n i c m b exited = act m exited b silent
