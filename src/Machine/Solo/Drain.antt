-- ===== src/Machine/Solo/Drain.antt =====
-- hp_domain::drain while nothing else happens (include/lfq/hazard_pointer.hpp): it frees all that is
-- retired.
use lock_free_mpmc_queue.Base.{
  ℕ, zero, suc, ◌+◌, ◌≤◌, ◌<◌, ◌≡◌, ◌≢◌, refl, ap, ◌∙◌, inl, inr, false, List, [], ◌∷◌, ◌++◌, ltb,
  ◌==◌, update, length, length-zero, Bool-cases, arith,
}
use lock_free_mpmc_queue.Std.Search.{sort, binary_search}
use lock_free_mpmc_queue.Machine.State.{
  Ptr, null, slot_count, Mem, adopt, load_slot, sweep, from_drain, Pc, idle, scanning, Thread,
  System, go, silent, Act, Label,
}
use lock_free_mpmc_queue.Machine.Step.{next_slot, act, step}
use lock_free_mpmc_queue.Machine.System.{act_of, advance, Reach, later}
use lock_free_mpmc_queue.Machine.Solo.{alone_act, one_step}

-- No slot of the `n` records holds a node.
abbrev pub NoHazard : {V : Type 0} → ℕ → Mem V → Type 0
NoHazard n m = (j k : ℕ) → j < n → k < slot_count → m.slot j k ≡ null

abbrev pub IsDrained : {V : Type 0} → Act V → Type 0
IsDrained a = (a.pc ≡ idle) × (a.bag ≡ []) × (a.mem.orphans ≡ [])

nothing_found : (p : Ptr) → binary_search (sort []) p ≡ false
unfolding binary_search sort
nothing_found p = refl

module _ {V : Type 0} (n i : ℕ) where
  -- `k` steps of thread `i` of `n`, of all threads.
  pub solo : ℕ → System V → System V
  solo zero s = s
  solo (suc k) s = solo k (advance n i go s)

  abbrev pub alone_of : ℕ → System V → Act V
  alone_of k s = alone_act n i k s.mem (s.thread i).bag (s.thread i).pc

  pub record SoloParts (k : ℕ) (s : System V) : Type 0 where
    pub shared : (solo k s).mem ≡ (alone_of k s).mem
    pub own : (solo k s).thread i ≡ record { pc = (alone_of k s).pc; bag = (alone_of k s).bag }
    pub others : (j : ℕ) → j ≢ i → (solo k s).thread j ≡ s.thread j

  pub solo_parts : (k : ℕ) (s : System V) → SoloParts k s
  unfolding solo alone_act
  solo_parts zero s = record { shared = refl; own = refl; others = λ j ne. refl }
  solo_parts (suc k) s =
      let s' : System V = advance n i go s in
      let a = act_of n i go s in
      let mine : s'.thread i ≡ record { pc = a.pc; bag = a.bag } = ground arith in
      let rest = solo_parts k s' in
      record {
        shared = rest.shared ∙ ap (λ (t : Thread V). (alone_act n i k s'.mem t.bag t.pc).mem) mine;
        own =
            rest.own
            ∙ ap
                (λ (t : Thread V). record {
                  pc = (alone_act n i k s'.mem t.bag t.pc).pc;
                  bag = (alone_act n i k s'.mem t.bag t.pc).bag;
                })
                mine;
        others = λ j ne. rest.others j ne ∙ ground arith;
      }

  pub solo-Reach :
      {d : Ptr} {blank : V} (k : ℕ) {h : List (ℕ × Label V)} (s : System V)
      → i < n
      → Reach n d blank h s
      → (h' : List (ℕ × Label V)) × Reach n d blank h' (solo k s)
  unfolding solo
  solo-Reach zero {h} s lt r = (h, r)
  solo-Reach (suc k) s lt r = solo-Reach k (advance n i go s) lt (later r i go lt)

  abbrev pub Drains : Mem V → List Ptr → Pc V → Type 0
  Drains m b pc = (k : ℕ) × IsDrained (alone_act n i k m b pc)

  one_more :
      (m : Mem V) (b : List Ptr) (pc : Pc V) (a : Act V)
      → step n i go m b pc ≡ a
      → Drains a.mem a.bag a.pc
      → Drains m b pc
  one_more = one_step n i IsDrained

  sweep-Drains :
      (todo : List Ptr) (freed : ℕ) (m : Mem V) (b : List Ptr)
      → m.orphans ≡ []
      → Drains m b (scanning (sweep [] [] freed todo) from_drain)
  unfolding step alone_act
  sweep-Drains [] freed m b e = (1, (refl, refl, e))
  sweep-Drains (p ∷ todo) freed m b e =
      let m' : Mem V = record m { live = update m.live p false } in
      one_more m b (scanning (sweep [] [] freed (p ∷ todo)) from_drain)
        (act m' (scanning (sweep [] [] (freed + 1) todo) from_drain) b silent)
        (rw (nothing_found p) refl) (sweep-Drains todo (freed + 1) m' b e)

  load_slot-Drains :
      (r f l : ℕ) (m : Mem V) (b : List Ptr)
      → m.orphans ≡ []
      → NoHazard n m
      → r ≤ n
      → l < slot_count
      → slot_count ≤ l + f
      → Drains m b (scanning (load_slot r l []) from_drain)
  unfolding step
  load_slot-Drains zero f l m b e quiet h hl hf =
      one_more m b (scanning (load_slot zero l []) from_drain)
        (act m (scanning (sweep [] [] 0 b) from_drain) b silent) refl (sweep-Drains b 0 m b e)
  load_slot-Drains (suc r) zero l m b e quiet h hl hf = absurd (omega arith)
  load_slot-Drains (suc r) (suc f) l m b e quiet h hl hf =
      let empty = quiet r l (omega arith) hl in
      let first_slot = load_slot-Drains r slot_count 0 m b e quiet in
      one_more m b (scanning (load_slot (suc r) l []) from_drain)
        (act m (scanning (next_slot r l [] b) from_drain) b silent) (ground (arith, empty))
        (elim (Bool-cases (ltb (l + 1) slot_count)) [
          | inl more ↦
              rw more
                (load_slot-Drains (suc r) f (l + 1) m b e quiet h (ground arith) (omega arith))
          | inr last ↦ elim (Bool-cases (r == 0)) [
            | inl z ↦ rw (last, z) (sweep-Drains b 0 m b e)
            | inr s ↦ rw (last, s) (first_slot (omega arith) (omega arith) (omega arith))
          ]
        ])

  pub adopt-Drains :
      (m : Mem V) (b : List Ptr) → NoHazard n m → Drains m b (scanning adopt from_drain)
  unfolding step alone_act
  adopt-Drains m b quiet =
      let m' : Mem V = record m { orphans = [] } in
      let all : List Ptr = b ++ m.orphans in
      elim (Bool-cases (length all == 0)) [
        | inl e ↦
            one_more m b (scanning adopt from_drain) (act m' idle all silent) (rw e refl)
              (0, (refl, length-zero all (ground arith), refl))
        | inr e ↦ elim (Bool-cases (n == 0)) [
          | inl z ↦
              one_more m b (scanning adopt from_drain)
                (act m' (scanning (sweep [] [] 0 all) from_drain) all silent) (rw (e, z) refl)
                (sweep-Drains all 0 m' all refl)
          | inr s ↦
              one_more m b (scanning adopt from_drain)
                (act m' (scanning (load_slot n 0 []) from_drain) all silent) (rw (e, s) refl)
                (load_slot-Drains n slot_count 0 m' all refl quiet (omega arith) (omega arith)
                  (omega arith))
        ]
      ]
