-- ===== src/Machine/Invariant/Change.antt =====
-- The six ways in which a step changes the shared structure, each with the facts that it rests
-- on, and what they leave of a node that another thread relies on.
use lock_free_mpmc_queue.Base.{
  ℕ, suc, ◌≡◌, ◌≢◌, refl, true, false, List, ◌==◌, if◌then◌else◌, update, arith,
}
use lock_free_mpmc_queue.Machine.State.{Ptr, null, Mem}
use lock_free_mpmc_queue.Machine.Invariant.Defs.{
  Status, free, fresh, linked, retired, Ghost, is_held, IsQueue, WasHead,
}
pub mod Structure

module _ {V : Type 0} where
  pub data Change (i : ℕ) (g : Ghost V) (m : Mem V) : Ghost V → Mem V → Type 0 where
    aside :
        (slot : ℕ → ℕ → Ptr) (orphans : List Ptr) (retired_count freed_count : ℕ)
        → Change i g m g (record m {
          slot = slot;
          orphans = orphans;
          retired_count = retired_count;
          freed_count = freed_count;
        })
    makes :
        (p : Ptr) (v : V)
        → p ≢ null
        → g.status p ≡ free
        → Change i g m
            (record g { status = λ q. if q == p then fresh i else g.status q })
            (record m {
              live = update m.live p true;
              next = update m.next p null;
              value = λ q. if q == p then v else m.value q;
            })
    links :
        (p q : Ptr) (v : V)
        → is_held (g.status p) ≡ true
        → m.next p ≡ null
        → g.status q ≡ fresh i
        → m.next q ≡ null
        → m.value q ≡ v
        → Change i g m
            (record g {
              node = update g.node (suc g.hi) q;
              item = λ k. if k == suc g.hi then v else g.item k;
              hi = suc g.hi;
              status = λ r. if r == q then linked (suc g.hi) else g.status r;
            })
            (record m { next = update m.next p q })
    swings_tail :
        (q : Ptr)
        → q ≢ null
        → m.next m.tail ≡ q
        → Change i g m (record g { mid = suc g.mid }) (record m { tail = q })
    swings_head :
        (q : Ptr)
        → q ≢ null
        → m.next m.head ≡ q
        → m.tail ≢ m.head
        → Change i g m
            (record g { lo = suc g.lo; status = λ r. if r == m.head then retired else g.status r })
            (record m { head = q })
    frees :
        (p : Ptr)
        → g.status p ≡ retired
        → Change i g m
            (record g { status = λ r. if r == p then free else g.status r })
            (record m { live = update m.live p false })

  -- What a change leaves of an address that some thread relies on.
  pub record Keeps (g : Ghost V) (m : Mem V) (g' : Ghost V) (m' : Mem V) (p : Ptr) : Type 0 where
    pub held : is_held (g'.status p) ≡ true
    pub next : m.next p ≢ null → m'.next p ≡ m.next p
    pub value : m'.value p ≡ m.value p
    pub was_head : WasHead g m p → WasHead g' m' p
    pub past : WasHead g m p → m.tail ≢ p → m'.tail ≢ p

  -- The address that a change gives back, null if it is none.
  abbrev pub freed :
      {i : ℕ} {g : Ghost V} {m : Mem V} {g' : Ghost V} {m' : Mem V} → Change i g m g' m' → Ptr
  freed (frees p a) = p
  freed _ = null

  pub Change-Keeps :
      {i : ℕ} {g : Ghost V} {m : Mem V} {g' : Ghost V} {m' : Mem V}
      → (c : Change i g m g' m') → IsQueue g m
      → (p : Ptr) → is_held (g.status p) ≡ true
      → p ≢ freed c
      → Keeps g m g' m' p
  Change-Keeps (aside s o r f) q p h ne = ground arith
  Change-Keeps (makes r v a b) q p h ne = ground arith
  Change-Keeps (links s r v a b c d e) q p h ne = ground arith
  Change-Keeps {g} (swings_tail r a b) q p h ne = ground (
    arith,
    q.at_tail,
    q.at_head,
    q.order,
    q.last,
    q.chain g.mid,
    q.placed g.lo,
    q.placed (suc g.mid),
  )
  Change-Keeps (swings_head r a b c) q p h ne = ground arith
  Change-Keeps (frees r a) q p h ne = ground arith

  -- A change makes no new node but of its own thread.
  pub Change-fresh :
      {i : ℕ} {g : Ghost V} {m : Mem V} {g' : Ghost V} {m' : Mem V}
      → Change i g m g' m'
      → (j : ℕ) (p : Ptr) → j ≢ i
      → g'.status p ≡ fresh j
      → g.status p ≡ fresh j
  Change-fresh (aside s o r f) j p ne h = h
  Change-fresh (makes r v a b) j p ne h = ground arith
  Change-fresh (links s r v a b c d e) j p ne h = ground arith
  Change-fresh (swings_tail r a b) j p ne h = h
  Change-fresh (swings_head r a b c) j p ne h = ground arith
  Change-fresh (frees r a) j p ne h = ground arith
