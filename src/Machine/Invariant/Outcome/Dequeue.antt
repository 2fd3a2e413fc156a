-- ===== src/Machine/Invariant/Outcome/Dequeue.antt =====
-- The steps of `try_dequeue`, with `retire` at its end.
use lock_free_mpmc_queue.Base.{
  ℕ, suc, ◌-◌, ◌<◌, ◌≡◌, ◌≢◌, inl, inr, true, false, not, ◌&&◌, List, [], ◌∷◌, ◌++◌, refl, ap, ◌∙◌,
  ◌==◌, leb, count-append, arith, Bool-cases, eq-cases, ◌⊎◌, length,
}
use lock_free_mpmc_queue.Machine.State.{
  Ptr, null, Mem, DeqPc, protect_head, load_tail, read_next, set_next, check_head, help_tail,
  read_value, swing_head, retire_head, load, publish, verify, deq, Choice,
}
use lock_free_mpmc_queue.Machine.Step.{dequeue_step, is_spurious, scan_threshold, add64}
use lock_free_mpmc_queue.Machine.Spec.{slice, stays, takes, finds_empty, tries_again, settles}
use lock_free_mpmc_queue.Machine.Invariant.Defs.{
  linked, retired, Ghost, is_held, IsQueue, Knows, Guards, claim,
}
use lock_free_mpmc_queue.Machine.Invariant.Change.{aside, swings_tail, swings_head}
use lock_free_mpmc_queue.Machine.Invariant.Change.Structure.{held-last}
use lock_free_mpmc_queue.Machine.Invariant.Outcome.Defs.{
  Outcome, quiet, contents-swings_head, contents-empty,
}

module _ {V : Type 0} {g : Ghost V} {m : Mem V} (q : IsQueue g m) (n i : ℕ) (bag : List Ptr) where
  -- A node that was the head and has no successor is the head and the tail still.
  pub alone :
      (h : Ptr)
      → (m.head ≡ h) ⊎ (g.status h ≡ retired)
      → is_held (g.status h) ≡ true
      → m.next h ≡ null
      → (m.tail ≡ h) × (g.lo ≡ g.hi)
  alone h w held e = ground (
    arith,
    held-last q h held e,
    q.placed g.lo,
    q.numbered h g.hi,
    q.order,
    q.at_head,
    q.at_tail,
    q.gone h,
  )

  pub dequeue-Outcome :
      (c : Choice V) (pc : DeqPc V)
      → Knows g m i (deq pc)
      → ((k : ℕ) → claim (deq pc) k ≢ null → Guards g m i k (claim (deq pc) k))
      → Outcome i g m (deq pc) bag (dequeue_step n i c m bag pc)
  unfolding dequeue_step
  dequeue-Outcome c (protect_head load) kn gu =
      quiet m.slot _ _ refl refl tt (λ k. ground arith) (λ k. ground arith) stays
  dequeue-Outcome c (protect_head (publish p)) kn gu =
      quiet _ _ _ refl refl (ground arith) (λ k. ground arith) (λ k. ground arith) stays
  dequeue-Outcome c (protect_head (verify p)) kn gu = elim (Bool-cases (m.head == p)) [
    | inl e ↦ rw e (
        quiet m.slot _ _ refl refl (ground (arith, q.at_head, q.placed g.lo, q.order, q.no_node))
          (λ k. ground (arith, q.at_head, q.placed g.lo, q.order))
          (λ k. ground (arith, q.at_head, q.placed g.lo, q.order)) stays)
    | inr e ↦ rw e (quiet m.slot _ _ refl refl tt (λ k. ground arith) (λ k. ground arith) stays)
  ]
  dequeue-Outcome c (load_tail h) kn gu =
      quiet m.slot _ _ refl refl (ground arith) gu (λ k. ground arith) stays
  dequeue-Outcome c (read_next h t) kn gu = elim (eq-cases (m.next h) null) [
    | inl e ↦
        let last = alone h kn.1 (ground (arith, gu 0)) e in
        quiet m.slot _ _ refl refl (ground arith) gu (λ k. ground arith)
          (rw e (finds_empty (contents-empty g last.1)))
    | inr e ↦
        let more : (m.next h == null) ≡ false = ground arith in
        quiet m.slot _ _ refl refl (ground arith) gu (λ k. ground arith) (rw more stays)
  ]
  dequeue-Outcome c (set_next h t nx) kn gu =
      quiet _ _ _ refl refl (ground arith) (λ k. ground (arith, gu k)) (λ k. ground arith) stays
  dequeue-Outcome c (check_head h t nx) kn gu = elim (Bool-cases (h == m.head)) [
    | inl e ↦ elim (Bool-cases (h == t)) [
      | inl f ↦ elim (Bool-cases (nx == null)) [
        | inl z ↦
            rw (e, f, z)
              (quiet m.slot _ _ refl refl tt (λ k. ground arith) (λ k. ground arith) (rw z settles))
        | inr z ↦
            rw (e, f, z)
              (quiet m.slot _ _ refl refl (ground arith) (λ k. ground (arith, gu k))
                (λ k. ground arith) (rw z stays))
      ]
      | inr f ↦
          let z : (nx == null) ≡ false = ground arith in
          let short : g.lo < g.hi = ground (arith, q.order, q.at_head, q.at_tail) in
          let first : g.status nx ≡ linked (suc g.lo) =
            ground (arith, q.at_head, q.chain g.lo, q.placed (suc g.lo)) in
          rw (e, f)
            (quiet m.slot _ _ refl refl (ground arith) (λ k. ground (arith, gu k))
              (λ k. ground arith) (rw z stays))
    ]
    | inr e ↦ elim (Bool-cases (nx == null)) [
      | inl z ↦
          rw e (
            quiet m.slot _ _ refl refl tt (λ k. ground arith) (λ k. ground arith)
              (rw z tries_again))
      | inr z ↦
          rw e (quiet m.slot _ _ refl refl tt (λ k. ground arith) (λ k. ground arith) (rw z stays))
    ]
  ]
  dequeue-Outcome c (help_tail h nx) kn gu =
      elim (Bool-cases ((m.tail == h) && not (is_spurious c))) [
        | inl e ↦ rw e (record {
          ghost = record g { mid = suc g.mid };
          change = swings_tail nx kn.2 (ground arith);
          knows = tt;
          guards = λ k. ground arith;
          newly = λ k. ground arith;
          nodes = λ old r st. ground (arith, old r);
          balance = λ p. refl;
          decided = λ p h e. absurd (h e);
          atomic = stays;
        })
        | inr e ↦ rw e (quiet m.slot _ _ refl refl tt (λ k. ground arith) (λ k. ground arith) stays)
      ]
  dequeue-Outcome c (read_value h nx) kn gu =
      quiet m.slot _ _ refl refl (ground arith) gu (λ k. ground arith) stays
  dequeue-Outcome c (swing_head h nx v) kn gu =
      elim (Bool-cases ((m.head == h) && not (is_spurious c))) [
        | inl e ↦
            let short : g.lo < g.hi = ground (arith, q.order, q.at_head, q.at_tail) in
            let first : g.item (suc g.lo) ≡ v =
              ground (arith, q.items (suc g.lo), q.chain g.lo, q.at_head) in
            rw e (record {
              ghost = _;
              change = swings_head nx kn.3 (ground arith) (ground arith);
              knows = tt;
              guards = λ k. ground arith;
              newly = λ k. ground arith;
              nodes = λ old r st. ground (arith, old r);
              balance = λ p. ground (arith, q.at_head, q.placed g.lo, q.order);
              decided = λ p h e. absurd (h e);
              atomic = takes v _ (
                  contents-swings_head g short
                  ∙ ap (λ w. w ∷ slice g.item (suc g.lo) (g.hi - suc g.lo)) first);
            })
        | inr e ↦ rw e (quiet m.slot _ _ refl refl tt (λ k. ground arith) (λ k. ground arith) stays)
      ]
  dequeue-Outcome c (retire_head h v) kn gu =
      elim (Bool-cases (leb (scan_threshold n) (length (bag ++ h ∷ [])))) [
        | inl e ↦ rw e (record {
          ghost = g;
          change = aside m.slot m.orphans (add64 m.retired_count 1) m.freed_count;
          knows = tt;
          guards = λ k. ground arith;
          newly = λ k. ground arith;
          nodes = λ old r st. ground (arith, old r);
          balance = λ p. ground (arith, count-append p bag (h ∷ []));
          decided = λ p h e. absurd (h e);
          atomic = stays;
        })
        | inr e ↦ rw e (record {
          ghost = g;
          change = aside m.slot m.orphans (add64 m.retired_count 1) m.freed_count;
          knows = tt;
          guards = λ k. ground arith;
          newly = λ k. ground arith;
          nodes = λ old r st. ground (arith, old r);
          balance = λ p. ground (arith, count-append p bag (h ∷ []));
          decided = λ p h e. absurd (h e);
          atomic = stays;
        })
      ]
