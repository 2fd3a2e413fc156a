-- ===== src/Model/Preserve.antt =====
-- Every turn of the protocol with both fences keeps the invariant (model/hp_model.hpp).
use lock_free_mpmc_queue.Base.{
  ℕ, ◌≡◌, ◌≢◌, inl, inr, Bool-cases, subst, List, [], ◌∷◌, ◌==◌, arith, refl,
}
use lock_free_mpmc_queue.Model.Protocol.{
  hp_none, n1, ProtectorPc, load_src, publish, publish_fence, verify, read_data, clear, left,
  RetirerPc, unlink, scan_fence, load_slot, poison, stopped, Protocol, protects, retires,
  slot_arrives, src_arrives, protector_step, retirer_step, protocol_step, slot_arrival, src_arrival,
  ProtocolReach, start, later, nothing_waits,
}
use lock_free_mpmc_queue.Model.Invariant.{Unlinks, Publishes, IsNode, Spares, Keeps, InvAt, Inv}

Unlinks-IsNode : (x : ℕ) (xs : List ℕ) (w : ℕ) (r : RetirerPc) → Unlinks x xs w r → IsNode x
Unlinks-IsNode x xs w unlink h = inl h.0
Unlinks-IsNode x xs w (scan_fence old) h = ground arith
Unlinks-IsNode x xs w (load_slot old) h = inr h.0
Unlinks-IsNode x xs w (poison old) h = inr h.0
Unlinks-IsNode x xs w stopped h = inr h.0

Unlinks-Spares :
    (x : ℕ) (xs : List ℕ) (w : ℕ) (r : RetirerPc) → Unlinks x xs w r → x ≡ n1 → Spares w r
Unlinks-Spares x xs w unlink h e = tt
Unlinks-Spares x xs w (scan_fence old) h e = tt
Unlinks-Spares x xs w (load_slot old) h e = tt
Unlinks-Spares x xs w (poison old) h e = ground arith
Unlinks-Spares x xs w stopped h e = ground arith

protector-Inv :
    (s : Protocol) (pc : ProtectorPc) → InvAt s pc s.retirer → Inv (protector_step hp_none s pc)
unfolding protector_step
protector-Inv s load_src h = record {
  unlinks = h.unlinks;
  publishes = h.publishes;
  holds = Unlinks-IsNode s.src s.src_stores s.poisoned s.retirer h.unlinks;
  keeps = tt;
}
protector-Inv s (publish p) h = record {
  unlinks = h.unlinks;
  publishes = rw h.publishes (inl refl);
  holds = h.holds;
  keeps = tt;
}
protector-Inv s (publish_fence p) h = elim (Bool-cases (nothing_waits s.slot_stores)) [
  | inl e ↦ rw e (record {
    unlinks = h.unlinks;
    publishes = ground (arith, h.publishes);
    holds = h.holds;
    keeps = tt;
  })
  | inr e ↦
      rw e (record { unlinks = h.unlinks; publishes = h.publishes; holds = h.holds; keeps = tt })
]
protector-Inv s (verify p) h = elim (Bool-cases (s.src == p)) [
  | inl e ↦ rw e (record {
    unlinks = h.unlinks;
    publishes = h.publishes;
    holds = h.holds;
    keeps = λ n. Unlinks-Spares s.src s.src_stores s.poisoned s.retirer h.unlinks (ground arith);
  })
  | inr e ↦ rw e (record {
    unlinks = h.unlinks;
    publishes = h.publishes.0;
    holds = Unlinks-IsNode s.src s.src_stores s.poisoned s.retirer h.unlinks;
    keeps = tt;
  })
]
protector-Inv s (read_data p) h = record {
  unlinks = h.unlinks;
  publishes = h.publishes;
  holds = tt;
  keeps = tt;
}
protector-Inv s (clear p) h = record { unlinks = h.unlinks; publishes = tt; holds = tt; keeps = tt }
protector-Inv s left h = record { unlinks = h.unlinks; publishes = tt; holds = tt; keeps = tt }

Keeps-any :
    (pc : ProtectorPc) (w w' : ℕ) (r r' : RetirerPc)
    → Keeps pc w r
    → (Spares w r → Spares w' r')
    → Keeps pc w' r'
Keeps-any (read_data p) w w' r r' k f = λ e. f (k e)
Keeps-any load_src w w' r r' k f = tt
Keeps-any (publish p) w w' r r' k f = tt
Keeps-any (publish_fence p) w w' r r' k f = tt
Keeps-any (verify p) w w' r r' k f = tt
Keeps-any (clear p) w w' r r' k f = tt
Keeps-any left w w' r r' k f = tt

-- A slot that does not hold n1 keeps no reader of it.
Keeps-unseen :
    (pc : ProtectorPc) (x : ℕ) (xs : List ℕ) (w : ℕ) (r : RetirerPc)
    → Publishes x xs pc
    → x ≢ n1
    → Keeps pc w r
Keeps-unseen (read_data p) x xs w r k ne = λ e. ground (arith, k.1)
Keeps-unseen load_src x xs w r k ne = tt
Keeps-unseen (publish p) x xs w r k ne = tt
Keeps-unseen (publish_fence p) x xs w r k ne = tt
Keeps-unseen (verify p) x xs w r k ne = tt
Keeps-unseen (clear p) x xs w r k ne = tt
Keeps-unseen left x xs w r k ne = tt

retirer-Inv :
    (s : Protocol) (r : RetirerPc) → InvAt s s.protector r → Inv (retirer_step hp_none s r)
unfolding retirer_step
retirer-Inv s unlink h = record {
  unlinks = rw (h.unlinks.1) (inl (h.unlinks.0, refl), h.unlinks.2, h.unlinks.0);
  publishes = h.publishes;
  holds = h.holds;
  keeps = Keeps-any s.protector s.poisoned s.poisoned unlink (scan_fence _) h.keeps (λ _. tt);
}
retirer-Inv s (scan_fence old) h = elim (Bool-cases (nothing_waits s.src_stores)) [
  | inl e ↦ rw e (record {
    unlinks = ground (arith, h.unlinks);
    publishes = h.publishes;
    holds = h.holds;
    keeps =
        Keeps-any s.protector s.poisoned s.poisoned (scan_fence old) (load_slot old) h.keeps
          (λ _. tt);
  })
  | inr e ↦
      rw e
        (record { unlinks = h.unlinks; publishes = h.publishes; holds = h.holds; keeps = h.keeps })
]
retirer-Inv s (load_slot old) h = elim (Bool-cases (s.slot == old)) [
  | inl e ↦ rw e (record {
    unlinks = (h.unlinks.0, h.unlinks.1, inl h.unlinks.2);
    publishes = h.publishes;
    holds = h.holds;
    keeps =
        Keeps-any s.protector s.poisoned s.poisoned (load_slot old) stopped h.keeps
          (λ _. ground (arith, h.unlinks.2));
  })
  | inr e ↦ rw e (record {
    unlinks = h.unlinks;
    publishes = h.publishes;
    holds = h.holds;
    keeps =
        Keeps-unseen s.protector s.slot s.slot_stores s.poisoned (poison old) h.publishes
          (ground (arith, h.unlinks.3));
  })
]
retirer-Inv s (poison old) h = record {
  unlinks = (h.unlinks.0, h.unlinks.1, inr (h.unlinks.3));
  publishes = h.publishes;
  holds = h.holds;
  keeps = Keeps-any s.protector s.poisoned old (poison old) stopped h.keeps absurd;
}
retirer-Inv s stopped h = record {
  unlinks = h.unlinks;
  publishes = h.publishes;
  holds = h.holds;
  keeps = h.keeps;
}

-- The oldest store that waits reaches the memory.
Publishes-arrives :
    (x y : ℕ) (ys : List ℕ) (pc : ProtectorPc) → Publishes x (y ∷ ys) pc → Publishes y ys pc
Publishes-arrives x y ys load_src h = cc
Publishes-arrives x y ys (publish p) h = cc
Publishes-arrives x y ys (publish_fence p) h = ground arith
Publishes-arrives x y ys (verify p) h = ground arith
Publishes-arrives x y ys (read_data p) h = ground arith
Publishes-arrives x y ys (clear p) h = ground arith
Publishes-arrives x y ys left h = tt

Unlinks-arrives :
    (x y : ℕ) (ys : List ℕ) (w : ℕ) (r : RetirerPc) → Unlinks x (y ∷ ys) w r → Unlinks y ys w r
Unlinks-arrives x y ys w unlink h = ground arith
Unlinks-arrives x y ys w (scan_fence old) h = ground arith
Unlinks-arrives x y ys w (load_slot old) h = ground arith
Unlinks-arrives x y ys w (poison old) h = ground arith
Unlinks-arrives x y ys w stopped h = ground arith

slot_arrival-Inv :
    (s : Protocol) (stores : List ℕ) → s.slot_stores ≡ stores → Inv s → Inv (slot_arrival s stores)
slot_arrival-Inv s [] e h = h
slot_arrival-Inv s (y ∷ ys) e h = record {
  unlinks = h.unlinks;
  publishes =
      Publishes-arrives s.slot y ys s.protector
        (subst (λ xs. Publishes s.slot xs s.protector) e h.publishes);
  holds = h.holds;
  keeps = h.keeps;
}

src_arrival-Inv :
    (s : Protocol) (stores : List ℕ) → s.src_stores ≡ stores → Inv s → Inv (src_arrival s stores)
src_arrival-Inv s [] e h = h
src_arrival-Inv s (y ∷ ys) e h = record {
  unlinks =
      Unlinks-arrives s.src y ys s.poisoned s.retirer
        (subst (λ xs. Unlinks s.src xs s.poisoned s.retirer) e h.unlinks);
  publishes = h.publishes;
  holds = h.holds;
  keeps = h.keeps;
}

pub ProtocolReach-Inv : {s : Protocol} → ProtocolReach hp_none s → Inv s
unfolding protocol_step
ProtocolReach-Inv start = record {
  unlinks = (refl, refl, refl);
  publishes = refl;
  holds = tt;
  keeps = tt;
}
ProtocolReach-Inv (later {s} r protects) = protector-Inv s s.protector (ProtocolReach-Inv r)
ProtocolReach-Inv (later {s} r retires) = retirer-Inv s s.retirer (ProtocolReach-Inv r)
ProtocolReach-Inv (later {s} r slot_arrives) =
    slot_arrival-Inv s s.slot_stores refl (ProtocolReach-Inv r)
ProtocolReach-Inv (later {s} r src_arrives) =
    src_arrival-Inv s s.src_stores refl (ProtocolReach-Inv r)
