-- ===== src/Orphans/Items.antt =====
-- What the orphans are: the items on the stack, in retire lists and in hands
-- (include/lfq/hazard_pointer.hpp).
use lock_free_mpmc_queue.Base.{
  ℕ, ◌+◌, ◌≡◌, true, false, ◌&&◌, ◌||◌, not, inl, inr, List, [], ◌∷◌, ◌++◌, map, ◌==◌, has, count,
  count-append, Bool-cases, update, refl, ap, ◌∙◌, arith,
}
use lock_free_mpmc_queue.Orphans.Stack.{
  Orphans, OrphanPc, rests, make, swap, adopting, OrphanChoice, allocate, retire, push, adopt,
  is_fail, orphan_step, retires,
}
use lock_free_mpmc_queue.Orphans.Tracked.{Holds, Spares, stack_after, nodes_after}

-- How often a thread has the item in its list, or is about to push it.
abbrev pub in_bag : ℕ → OrphanPc → ℕ
in_bag p (rests bag) = count p bag
in_bag p (make q bag) = count p (q ∷ bag)
in_bag p (swap o bag) = count p bag
in_bag p (adopting o bag) = count p bag

-- How often the nodes of a list name the item.
abbrev pub in_nodes : Orphans → ℕ → List ℕ → ℕ
in_nodes m p l = count p (map m.item l)

map-update : (f : ℕ → ℕ) (b v : ℕ) (l : List ℕ) → has b l ≡ false → map (update f b v) l ≡ map f l
map-update f b v [] out = refl
map-update f b v (x ∷ l) out =
    let same : update f b v x ≡ f x = ground arith in
    ap (λ y. y ∷ map (update f b v) l) same
    ∙ ap (λ ys. f x ∷ ys) (map-update f b v l (ground arith))

-- A step changes the item of no node that was there.
pub step-in_nodes :
    (c : OrphanChoice) (m : Orphans) (pc : OrphanPc) (p : ℕ) (l : List ℕ)
    → Spares m pc c l
    → in_nodes (orphan_step c m pc).shared p l ≡ in_nodes m p l
unfolding orphan_step
step-in_nodes adopt m (rests bag) p l out = refl
step-in_nodes push m (rests bag) p l out = refl
step-in_nodes (retire q) m (rests bag) p l out = refl
step-in_nodes c m (rests bag) p l out = refl
step-in_nodes (allocate b) m (make q bag) p l out = elim (Bool-cases (b == 0 || m.live b)) [
  | inl e ↦ rw e refl
  | inr e ↦ rw e (ap (count p) (map-update m.item b q l (out (ground arith))))
]
step-in_nodes c m (make q bag) p l out = refl
step-in_nodes c m (swap o bag) p l out = elim (Bool-cases (m.top == m.next o && not (is_fail c))) [
  | inl e ↦ rw e refl
  | inr e ↦ rw e refl
]
step-in_nodes c m (adopting o bag) p l out = elim (Bool-cases (o == 0)) [
  | inl e ↦ rw e refl
  | inr e ↦ rw e refl
]

-- Nor of a node that its thread has.
pub own-in_nodes :
    (c : OrphanChoice) (m : Orphans) (pc : OrphanPc) (p : ℕ) (l : List ℕ)
    → Holds m pc l
    → in_nodes (orphan_step c m pc).shared p l ≡ in_nodes m p l
unfolding orphan_step
own-in_nodes c m (rests bag) p l k = step-in_nodes c m (rests bag) p l tt
own-in_nodes c m (make q bag) p l k = rw k refl
own-in_nodes c m (swap o bag) p l k = elim (Bool-cases (m.top == m.next o && not (is_fail c))) [
  | inl e ↦ rw e refl
  | inr e ↦ rw e refl
]
own-in_nodes c m (adopting o bag) p l k = step-in_nodes c m (adopting o bag) p l tt

pub step-items :
    (c : OrphanChoice) (m : Orphans) (pc : OrphanPc) (xs l given : List ℕ) (p others : ℕ)
    → Spares m pc c xs
    → Holds m pc l
    → count p given ≡ others + in_bag p pc + in_nodes m p xs + in_nodes m p l
    → count p (retires pc c ++ given)
      ≡ others
        + in_bag p (orphan_step c m pc).pc
        + in_nodes (orphan_step c m pc).shared p (stack_after m pc c xs)
        + in_nodes (orphan_step c m pc).shared p (nodes_after m pc c xs l)
unfolding orphan_step
step-items adopt m (rests bag) xs l given p o out k h =
    let nothing : in_nodes m p l ≡ 0 = rw k refl in omega (arith, h)
step-items push m (rests []) xs l given p o out k h = h
step-items push m (rests (q ∷ bag)) xs l given p o out k h = h
step-items (retire q) m (rests bag) xs l given p o out k h =
    ground (arith, count-append p bag (q ∷ []))
step-items c m (rests bag) xs l given p o out k h = h
step-items (allocate b) m (make q bag) xs l given p o out k h =
    let nothing : in_nodes m p l ≡ 0 = rw k refl in
    elim (Bool-cases (b == 0 || m.live b)) [
      | inl e ↦ rw e (ground arith)
      | inr e ↦
          let same = map-update m.item b q xs (out (ground arith)) in
          rw e (ground (arith, ap (count p) same))
    ]
step-items c m (make q bag) xs l given p o out k h = h
step-items c m (swap q bag) xs l given p o out k h =
    let one : in_nodes m p l ≡ in_nodes m p (q ∷ []) = ap (in_nodes m p) k.0 in
    elim (Bool-cases (m.top == m.next q && not (is_fail c))) [
      | inl e ↦ rw e (ground arith)
      | inr e ↦ rw e h
    ]
step-items c m (adopting q bag) xs [] given p o out k h =
    let none_left : (q == 0) ≡ true = ground arith in rw none_left h
step-items c m (adopting q bag) xs (x ∷ l) given p o out k h =
    let more : (q == 0) ≡ false = ground arith in
    rw more (ground (arith, count-append p bag (m.item q ∷ [])))
