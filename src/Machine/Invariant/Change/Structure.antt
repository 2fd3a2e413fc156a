-- ===== src/Machine/Invariant/Change/Structure.antt =====
-- Each change keeps the shared structure.
use lock_free_mpmc_queue.Base.{
  ℕ, suc, ◌≡◌, ◌≢◌, refl, true, false, ◌==◌, if◌then◌else◌, update, arith,
}
use lock_free_mpmc_queue.Machine.State.{Ptr, null, Mem}
use lock_free_mpmc_queue.Machine.Invariant.Defs.{
  Status, free, fresh, linked, retired, Ghost, is_held, IsQueue,
}
use lock_free_mpmc_queue.Machine.Invariant.Change.{
  Change, aside, makes, links, swings_tail, swings_head, frees,
}

module _ {V : Type 0} {g : Ghost V} {m : Mem V} (q : IsQueue g m) where
  open q use {order, at_head, at_tail, placed, numbered, chain, last, items, alloc, no_node, gone}

  -- A node that is held and has no successor is the last one.
  pub held-last :
      (p : Ptr)
      → is_held (g.status p) ≡ true
      → m.next p ≡ null
      → (g.status p ≡ linked g.hi) × (g.node g.hi ≡ p)
  held-last p h e = by_status (g.status p) refl
    where
      by_status : (s : Status) → g.status p ≡ s → (g.status p ≡ linked g.hi) × (g.node g.hi ≡ p)
      by_status free a = ground arith
      by_status (fresh i) a = ground arith
      by_status (linked k) a = ground (arith, numbered p k, chain k, placed (suc k))
      by_status retired a = ground (arith, gone p)

  makes-IsQueue :
      (i : ℕ) (p : Ptr) (v : V)
      → p ≢ null
      → g.status p ≡ free
      → IsQueue
          (record g { status = λ q. if q == p then fresh i else g.status q })
          (record m {
            live = update m.live p true;
            next = update m.next p null;
            value = λ q. if q == p then v else m.value q;
          })
  makes-IsQueue i p v a b = record {
    order = order;
    at_head = at_head;
    at_tail = at_tail;
    placed = λ k h l. ground (arith, placed k);
    numbered = λ r k h. ground (arith, numbered r k);
    chain = λ k h l. ground (arith, placed k, chain k);
    last = ground (arith, placed g.hi);
    items = λ k h l. ground (arith, placed k, items k);
    alloc = λ r. ground (arith, alloc r);
    no_node = ground arith;
    gone = λ r h. ground (arith, gone r);
  }

  links-IsQueue :
      (i : ℕ) (p r : Ptr) (v : V)
      → is_held (g.status p) ≡ true
      → m.next p ≡ null
      → g.status r ≡ fresh i
      → m.next r ≡ null
      → m.value r ≡ v
      → IsQueue
          (record g {
            node = update g.node (suc g.hi) r;
            item = λ k. if k == suc g.hi then v else g.item k;
            hi = suc g.hi;
            status = λ o. if o == r then linked (suc g.hi) else g.status o;
          })
          (record m { next = update m.next p r })
  links-IsQueue i p r v a b c d e =
      let end = held-last p a b in
      record {
        order = omega arith;
        at_head = ground arith;
        at_tail = ground arith;
        placed = λ k h l. ground (arith, placed k);
        numbered = λ o k h. ground (arith, numbered o k);
        chain = λ k h l. ground (arith, placed k, chain k);
        last = ground arith;
        items = λ k h l. ground (arith, items k);
        alloc = λ o. ground (arith, alloc o);
        no_node = ground arith;
        gone = λ o h. ground (arith, gone o);
      }

  swings_tail-IsQueue :
      (r : Ptr)
      → r ≢ null
      → m.next m.tail ≡ r
      → IsQueue (record g { mid = suc g.mid }) (record m { tail = r })
  swings_tail-IsQueue r a b = record {
    order = ground (arith, at_tail, last);
    at_head = at_head;
    at_tail = ground (arith, at_tail, last, chain g.mid);
    placed = placed;
    numbered = numbered;
    chain = chain;
    last = last;
    items = items;
    alloc = alloc;
    no_node = no_node;
    gone = gone;
  }

  swings_head-IsQueue :
      (r : Ptr)
      → r ≢ null
      → m.next m.head ≡ r
      → m.tail ≢ m.head
      → IsQueue
          (record g { lo = suc g.lo; status = λ o. if o == m.head then retired else g.status o })
          (record m { head = r })
  swings_head-IsQueue r a b c = record {
    order = ground (arith, at_tail, at_head);
    at_head = ground (arith, at_tail, at_head, chain g.lo);
    at_tail = at_tail;
    placed = λ k h l. ground (arith, placed k, placed g.lo);
    numbered = λ o k h. ground (arith, numbered o k, at_head);
    chain = λ k h l. ground (arith, chain k);
    last = last;
    items = λ k h l. ground (arith, items k);
    alloc = λ o. ground (arith, alloc o, placed g.lo, at_head);
    no_node = ground (arith, placed g.lo, at_head);
    gone = λ o h. ground (arith, gone o);
  }

  frees-IsQueue :
      (p : Ptr)
      → g.status p ≡ retired
      → IsQueue
          (record g { status = λ r. if r == p then free else g.status r })
          (record m { live = update m.live p false })
  frees-IsQueue p a = record {
    order = order;
    at_head = at_head;
    at_tail = at_tail;
    placed = λ k h l. ground (arith, placed k);
    numbered = λ r k h. ground (arith, numbered r k);
    chain = chain;
    last = last;
    items = items;
    alloc = λ r. ground (arith, alloc r);
    no_node = ground arith;
    gone = λ r h. ground (arith, gone r);
  }

module _ {V : Type 0} where
  pub Change-IsQueue :
      {i : ℕ} {g : Ghost V} {m : Mem V} {g' : Ghost V} {m' : Mem V}
      → Change i g m g' m'
      → IsQueue g m
      → IsQueue g' m'
  Change-IsQueue (aside s o r f) q = record {
    order = q.order;
    at_head = q.at_head;
    at_tail = q.at_tail;
    placed = q.placed;
    numbered = q.numbered;
    chain = q.chain;
    last = q.last;
    items = q.items;
    alloc = q.alloc;
    no_node = q.no_node;
    gone = q.gone;
  }
  Change-IsQueue {i} (makes p v a b) q = makes-IsQueue q i p v a b
  Change-IsQueue {i} (links p r v a b c d e) q = links-IsQueue q i p r v a b c d e
  Change-IsQueue (swings_tail r a b) q = swings_tail-IsQueue q r a b
  Change-IsQueue (swings_head r a b c) q = swings_head-IsQueue q r a b c
  Change-IsQueue (frees p a) q = frees-IsQueue q p a
