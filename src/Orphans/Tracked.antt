-- ===== src/Orphans/Tracked.antt =====
-- Which thread has which node of the stack of orphans (include/lfq/hazard_pointer.hpp).
use lock_free_mpmc_queue.Base.{
  ℕ, ◌+◌, ◌≡◌, ◌≢◌, true, false, ◌&&◌, ◌||◌, not, inl, inr, List, [], ◌∷◌, ◌==◌, if◌then◌else◌, has,
  count, Bool-cases, refl, arith, ap,
}
use lock_free_mpmc_queue.Base.Segment.{Seg, Seg-update}
use lock_free_mpmc_queue.Orphans.Stack.{
  Orphans, OrphanPc, rests, make, swap, adopting, OrphanChoice, allocate, retire, push, adopt,
  is_fail, orphan_step,
}

-- The nodes `l` of a thread: its new one, or those that it has taken over and not yet deleted.
abbrev pub Holds : Orphans → OrphanPc → List ℕ → Type 0
Holds m (rests bag) l = l ≡ []
Holds m (make p bag) l = l ≡ []
Holds m (swap o bag) l = (l ≡ o ∷ []) × (o ≢ 0)
Holds m (adopting o bag) l = Seg m.next o l

abbrev pub live_flag : Orphans → ℕ → ℕ
live_flag m a = if m.live a then 1 else 0

abbrev pub tail : List ℕ → List ℕ
tail [] = []
tail (x ∷ xs) = xs

-- The nodes on the stack behind a step.
abbrev pub stack_after : Orphans → OrphanPc → OrphanChoice → List ℕ → List ℕ
stack_after m (rests bag) adopt xs = []
stack_after m (swap o bag) c xs = if m.top == m.next o && not (is_fail c) then o ∷ xs else xs
stack_after m _ c xs = xs

-- The nodes of the thread behind its step.
abbrev pub nodes_after : Orphans → OrphanPc → OrphanChoice → (xs l : List ℕ) → List ℕ
nodes_after m (rests bag) adopt xs l = xs
nodes_after m (make p bag) (allocate a) xs l = if a == 0 || m.live a then [] else a ∷ []
nodes_after m (swap o bag) c xs l = if m.top == m.next o && not (is_fail c) then [] else l
nodes_after m (adopting o bag) c xs l = tail l
nodes_after m _ c xs l = l

-- The node that a step writes to is not in `l`.
abbrev pub Spares : Orphans → OrphanPc → OrphanChoice → List ℕ → Type 0
Spares m (make p bag) (allocate a) l = m.live a ≡ false → has a l ≡ false
Spares m (swap o bag) c l = has o l ≡ false
Spares m _ c l = Unit

pub step-Seg :
    (c : OrphanChoice) (m : Orphans) (pc : OrphanPc) (a : ℕ) (l : List ℕ)
    → Spares m pc c l
    → Seg m.next a l
    → Seg (orphan_step c m pc).shared.next a l
unfolding orphan_step
step-Seg (allocate b) m (make p bag) a l out s = elim (Bool-cases (b == 0 || m.live b)) [
  | inl e ↦ rw e s
  | inr e ↦ rw e (Seg-update m.next b m.top a l (out (ground arith)) s)
]
step-Seg c m (make p bag) a l out s = s
step-Seg c m (swap o bag) a l out s = elim (Bool-cases (m.top == m.next o && not (is_fail c))) [
  | inl e ↦ rw e s
  | inr e ↦ rw e (Seg-update m.next o m.top a l out s)
]
step-Seg c m (adopting o bag) a l out s = elim (Bool-cases (o == 0)) [
  | inl e ↦ rw e s
  | inr e ↦ rw e s
]
step-Seg adopt m (rests bag) a l out s = s
step-Seg push m (rests bag) a l out s = s
step-Seg (retire p) m (rests bag) a l out s = s
step-Seg c m (rests bag) a l out s = s

pub step-stack :
    (c : OrphanChoice) (m : Orphans) (pc : OrphanPc) (xs l : List ℕ)
    → Spares m pc c xs
    → Holds m pc l
    → Seg m.next m.top xs
    → Seg (orphan_step c m pc).shared.next (orphan_step c m pc).shared.top (stack_after m pc c xs)
unfolding orphan_step
step-stack adopt m (rests bag) xs l out k s = refl
step-stack (retire p) m (rests bag) xs l out k s = s
step-stack push m (rests bag) xs l out k s = s
step-stack c m (rests bag) xs l out k s = s
step-stack (allocate b) m (make p bag) xs l out k s = elim (Bool-cases (b == 0 || m.live b)) [
  | inl e ↦ rw e s
  | inr e ↦ rw e (Seg-update m.next b m.top m.top xs (out (ground arith)) s)
]
step-stack c m (make p bag) xs l out k s = s
step-stack c m (swap o bag) xs l out k s =
    elim (Bool-cases (m.top == m.next o && not (is_fail c))) [
      | inl e ↦ let at : m.next o ≡ m.top = ground arith in rw e (refl, k.1, rw at s)
      | inr e ↦ rw e (Seg-update m.next o m.top m.top xs out s)
    ]
step-stack c m (adopting o bag) xs l out k s = elim (Bool-cases (o == 0)) [
  | inl e ↦ rw e s
  | inr e ↦ rw e s
]

pub step-Holds :
    (c : OrphanChoice) (m : Orphans) (pc : OrphanPc) (xs l : List ℕ)
    → Seg m.next m.top xs
    → Holds m pc l
    → Holds (orphan_step c m pc).shared (orphan_step c m pc).pc (nodes_after m pc c xs l)
unfolding orphan_step
step-Holds adopt m (rests bag) xs l s k = s
step-Holds (retire p) m (rests bag) xs l s k = k
step-Holds push m (rests []) xs l s k = k
step-Holds push m (rests (p ∷ bag)) xs l s k = k
step-Holds c m (rests bag) xs l s k = k
step-Holds (allocate b) m (make p bag) xs l s k = elim (Bool-cases (b == 0 || m.live b)) [
  | inl e ↦ rw e refl
  | inr e ↦ rw e (refl, ground arith)
]
step-Holds c m (make p bag) xs l s k = k
step-Holds c m (swap o bag) xs l s k = elim (Bool-cases (m.top == m.next o && not (is_fail c))) [
  | inl e ↦ rw e refl
  | inr e ↦ rw e k
]
step-Holds c m (adopting o bag) xs [] s k =
    let none_left : (o == 0) ≡ true = ground arith in rw none_left refl
step-Holds c m (adopting o bag) xs (x ∷ l) s k =
    let more : (o == 0) ≡ false = ground arith in rw more (rw k.0 k.2)

pub others-Holds :
    (c : OrphanChoice) (m : Orphans) (mover pc : OrphanPc) (l : List ℕ)
    → Spares m mover c l
    → Holds m pc l
    → Holds (orphan_step c m mover).shared pc l
others-Holds c m mover (rests bag) l out k = k
others-Holds c m mover (make p bag) l out k = k
others-Holds c m mover (swap o bag) l out k = k
others-Holds c m mover (adopting o bag) l out k = step-Seg c m mover o l out k

pub step-ledger :
    (c : OrphanChoice) (m : Orphans) (pc : OrphanPc) (xs l : List ℕ) (a others : ℕ)
    → Holds m pc l
    → count a xs + (others + count a l) ≡ live_flag m a
    → count a (stack_after m pc c xs) + (others + count a (nodes_after m pc c xs l))
      ≡ live_flag (orphan_step c m pc).shared a
unfolding orphan_step
step-ledger adopt m (rests bag) xs l a o k h =
    let nothing : count a l ≡ 0 = rw k refl in omega (arith, h)
step-ledger (retire p) m (rests bag) xs l a o k h = h
step-ledger push m (rests bag) xs l a o k h = h
step-ledger c m (rests bag) xs l a o k h = h
step-ledger (allocate b) m (make p bag) xs l a o k h =
    let nothing : count a l ≡ 0 = rw k refl in ground arith
step-ledger c m (make p bag) xs l a o k h = h
step-ledger c m (swap q bag) xs l a o k h =
    let one : count a l ≡ count a (q ∷ []) = ap (count a) k.0 in ground arith
step-ledger c m (adopting q bag) xs [] a o k h = ground arith
step-ledger c m (adopting q bag) xs (x ∷ l) a o k h = ground arith
