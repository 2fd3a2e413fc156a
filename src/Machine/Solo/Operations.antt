-- ===== src/Machine/Solo/Operations.antt =====
-- A thread alone ends ms_queue::enqueue and try_dequeue from the start of any attempt: each attempt
-- that fails has moved tail_ to the next node (include/lfq/ms_queue.hpp).
use lock_free_mpmc_queue.Base.{
  ℕ, zero, suc, ◌≡◌, ◌≢◌, refl, sym, ap, subst, ◌∙◌, inl, inr, List, [], ◌∷◌, ◌++◌, none, some, leb,
  update, length, Bool-cases, eq-cases, arith,
}
use lock_free_mpmc_queue.Machine.State.{
  Ptr, null, Mem, ProtectPc, load, publish, verify, protect_tail, load_next, check_tail, help, link,
  swing_tail, protect_head, load_tail, read_next, set_next, check_head, help_tail, read_value,
  swing_head, retire_head, enqueued, dequeued, adopt, from_retire, Pc, enq, deq, scanning, unguard,
  silent, go,
}
use lock_free_mpmc_queue.Machine.Step.{add64, scan_threshold, store_slot, act, protect, step}
use lock_free_mpmc_queue.Machine.Invariant.Lag.{Lag}
use lock_free_mpmc_queue.Machine.Solo.{Ends, one_more}
use lock_free_mpmc_queue.Machine.Solo.Scan.{unguard-Ends, scan-Ends}

-- guard::protect of a source, at the places `resume` of its caller, with `found` behind it. `P` is
-- what the rest needs of the memory; no store to a slot spoils it.
module _ {V : Type 0} (n i : ℕ) (src : Mem V → Ptr) (resume : ProtectPc → Pc V) (found : Ptr → Pc V)
    (stepping : (m : Mem V) (b : List Ptr) (pc : ProtectPc)
      → step n i go m b (resume pc) ≡ protect i 0 (src m) resume found m b pc)
    (src_stays : (m : Mem V) (q : Ptr) → src (store_slot i 0 q m) ≡ src m) (P : Mem V → Type 0)
    (stays : (m : Mem V) (q : Ptr) → P m → P (store_slot i 0 q m))
    (ends : (m : Mem V) (b : List Ptr) → P m → Ends n i m b (found (src m))) where
  verify-Ends_same :
      (m : Mem V) (b : List Ptr) (q : Ptr) → src m ≡ q → P m → Ends n i m b (resume (verify q))
  unfolding protect
  verify-Ends_same m b q e p =
      one_more n i m b (resume (verify q)) (act m (found q) b silent)
        (stepping m b (verify q) ∙ ground (arith, e))
        (subst (λ x. Ends n i m b (found x)) e (ends m b p))

  publish-Ends_same :
      (m : Mem V) (b : List Ptr) (q : Ptr) → src m ≡ q → P m → Ends n i m b (resume (publish q))
  unfolding protect
  publish-Ends_same m b q e p =
      one_more n i m b (resume (publish q)) (act (store_slot i 0 q m) (resume (verify q)) b silent)
        (stepping m b (publish q))
        (verify-Ends_same (store_slot i 0 q m) b q (src_stays m q ∙ e) (stays m q p))

  verify-Ends : (m : Mem V) (b : List Ptr) (q : Ptr) → P m → Ends n i m b (resume (verify q))
  unfolding protect
  verify-Ends m b q p = elim (eq-cases (src m) q) [
    | inl e ↦ verify-Ends_same m b q e p
    | inr ne ↦
        one_more n i m b (resume (verify q)) (act m (resume (publish (src m))) b silent)
          (stepping m b (verify q) ∙ ground (arith, ne)) (publish-Ends_same m b (src m) refl p)
  ]

  protect-Ends : (m : Mem V) (b : List Ptr) (pc : ProtectPc) → P m → Ends n i m b (resume pc)
  unfolding protect
  protect-Ends m b load p =
      one_more n i m b (resume load) (act m (resume (publish (src m))) b silent) (stepping m b load)
        (publish-Ends_same m b (src m) refl p)
  protect-Ends m b (publish q) p =
      one_more n i m b (resume (publish q)) (act (store_slot i 0 q m) (resume (verify q)) b silent)
        (stepping m b (publish q)) (verify-Ends (store_slot i 0 q m) b q (stays m q p))
  protect-Ends m b (verify q) p = verify-Ends m b q p

module _ {V : Type 0} (n i : ℕ) where
  abbrev pub LagsBy : ℕ → Mem V → Type 0
  LagsBy k m = Lag m.next m.tail k

  module _ (v : V) (p : Ptr) where
    tail-Ends :
        (k : ℕ)
        → ((m : Mem V) (b : List Ptr) → LagsBy k m → Ends n i m b (enq v p (load_next m.tail)))
        → (m : Mem V) (b : List Ptr) (pc : ProtectPc) → LagsBy k m
        → Ends n i m b (enq v p (protect_tail pc))
    unfolding step protect
    tail-Ends k ends =
        protect-Ends n i (λ m. m.tail) (λ q. enq v p (protect_tail q)) (λ t. enq v p (load_next t))
          (λ m b pc. refl) (λ m q. refl) (LagsBy k) (λ m q l. l) ends

    enqueue-Ends_found :
        (k : ℕ) (m : Mem V) (b : List Ptr) → LagsBy k m → Ends n i m b (enq v p (load_next m.tail))
    unfolding step
    enqueue-Ends_found zero m b e =
        let t : Ptr = m.tail in
        let linked : Mem V = record m { next = update m.next t p } in
        one_more n i m b (enq v p (load_next t))
          (act m (enq v p (check_tail t (m.next t))) b silent) refl
          (one_more n i m b (enq v p (check_tail t (m.next t))) (act m (enq v p (link t)) b silent)
            (ground (arith, e))
            (one_more n i m b (enq v p (link t)) (act linked (enq v p (swing_tail t)) b silent)
              (ground (arith, e))
              (one_more n i linked b (enq v p (swing_tail t)) _ refl
                (unguard-Ends n i 0 _ b enqueued))))
    enqueue-Ends_found (suc k) m b (ne, l) =
        let t : Ptr = m.tail in
        let helped : Mem V = record m { tail = m.next t } in
        one_more n i m b (enq v p (load_next t))
          (act m (enq v p (check_tail t (m.next t))) b silent) refl
          (one_more n i m b (enq v p (check_tail t (m.next t)))
            (act m (enq v p (help t (m.next t))) b silent) (ground (arith, ne))
            (one_more n i m b (enq v p (help t (m.next t)))
              (act helped (enq v p (protect_tail load)) b silent) (ground arith)
              (tail-Ends k (enqueue-Ends_found k) helped b load l)))

    pub enqueue-Ends :
        (k : ℕ) (m : Mem V) (b : List Ptr) (pc : ProtectPc)
        → LagsBy k m
        → Ends n i m b (enq v p (protect_tail pc))
    enqueue-Ends k m b pc l = tail-Ends k (enqueue-Ends_found k) m b pc l

  pub retire-Ends :
      (m : Mem V) (b : List Ptr) (h : Ptr) (v : V) → Ends n i m b (deq (retire_head h v))
  unfolding step
  retire-Ends m b h v =
      let m' : Mem V = record m { retired_count = add64 m.retired_count 1 } in
      elim (Bool-cases (leb (scan_threshold n) (length (b ++ h ∷ [])))) [
        | inl e ↦
            one_more n i m b (deq (retire_head h v))
              (act m' (scanning adopt (from_retire v)) (b ++ h ∷ []) silent) (rw e refl)
              (scan-Ends n i adopt (from_retire v) m' (b ++ h ∷ []))
        | inr e ↦
            one_more n i m b (deq (retire_head h v))
              (act m' (unguard 0 (dequeued (some v))) (b ++ h ∷ []) silent) (rw e refl)
              (unguard-Ends n i 0 m' (b ++ h ∷ []) (dequeued (some v)))
      ]

  head-Ends :
      (k : ℕ)
      → ((m : Mem V) (b : List Ptr) → LagsBy k m → Ends n i m b (deq (load_tail m.head)))
      → (m : Mem V) (b : List Ptr) (pc : ProtectPc) → LagsBy k m
      → Ends n i m b (deq (protect_head pc))
  unfolding step protect
  head-Ends k ends =
      protect-Ends n i (λ m. m.head) (λ q. deq (protect_head q)) (λ h. deq (load_tail h))
        (λ m b pc. refl) (λ m q. refl) (LagsBy k) (λ m q l. l) ends

  module _ (m : Mem V) (b : List Ptr) where
    abbrev published : Mem V
    published = store_slot i 1 (m.next m.head) m

    -- The tail and the successor of the head, which slot 1 protects then.
    first_looks :
        Ends n i published b (deq (check_head m.head m.tail (m.next m.head)))
        → Ends n i m b (deq (load_tail m.head))
    unfolding step
    first_looks ends =
        let h : Ptr = m.head in
        one_more n i m b (deq (load_tail h)) (act m (deq (read_next h m.tail)) b silent) refl (
          one_more n i m b (deq (read_next h m.tail))
            (act m (deq (set_next h m.tail (m.next h))) b silent) refl
            (one_more n i m b (deq (set_next h m.tail (m.next h)))
              (act published (deq (check_head h m.tail (m.next h))) b silent) refl ends))

    takes_value : m.head ≢ m.tail → Ends n i m b (deq (check_head m.head m.tail (m.next m.head)))
    unfolding step
    takes_value ne =
        let h : Ptr = m.head in
        let x : Ptr = m.next h in
        let moved : Mem V = record m { head = x } in
        one_more n i m b (deq (check_head h m.tail x)) (act m (deq (read_value h x)) b silent)
          (ground (arith, ne))
          (one_more n i m b (deq (read_value h x))
            (act m (deq (swing_head h x (m.value x))) b silent) refl
            (one_more n i m b (deq (swing_head h x (m.value x)))
              (act moved (deq (retire_head h (m.value x))) b silent) (ground arith)
              (retire-Ends moved b h (m.value x))))

  dequeue-Ends_found :
      (k : ℕ) (m : Mem V) (b : List Ptr) → LagsBy k m → Ends n i m b (deq (load_tail m.head))
  unfolding step
  dequeue-Ends_found zero m b l = elim (eq-cases m.head m.tail) [
    | inl e ↦
        let x : Ptr = m.next m.head in
        let m' : Mem V = published m b in
        let none_left : x ≡ null = ap m.next e ∙ l in
        first_looks m b (
          one_more n i m' b (deq (check_head m.head m.tail x))
            (act m' (unguard 0 (dequeued none)) b silent) (ground (arith, e, none_left))
            (unguard-Ends n i 0 m' b (dequeued none)))
    | inr ne ↦ first_looks m b (takes_value (published m b) b ne)
  ]
  dequeue-Ends_found (suc k) m b (more, l) = elim (eq-cases m.head m.tail) [
    | inl e ↦
        let x : Ptr = m.next m.head in
        let m' : Mem V = published m b in
        let one_left : x ≢ null = λ z. more (ap m.next (sym e) ∙ z) in
        let helped : Mem V = record m' { tail = x } in
        first_looks m b (
          one_more n i m' b (deq (check_head m.head m.tail x))
            (act m' (deq (help_tail m.tail x)) b silent) (ground (arith, e, one_left))
            (one_more n i m' b (deq (help_tail m.tail x))
              (act helped (deq (protect_head load)) b silent) (ground arith)
              (head-Ends k (dequeue-Ends_found k) helped b load
                (subst (λ p. Lag m.next (m.next p) k) (sym e) l))))
    | inr ne ↦ first_looks m b (takes_value (published m b) b ne)
  ]

  pub dequeue-Ends :
      (k : ℕ) (m : Mem V) (b : List Ptr) (pc : ProtectPc)
      → LagsBy k m
      → Ends n i m b (deq (protect_head pc))
  dequeue-Ends k m b pc l = head-Ends k (dequeue-Ends_found k) m b pc l
