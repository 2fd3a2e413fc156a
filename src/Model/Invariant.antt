-- ===== src/Model/Invariant.antt =====
-- The invariant of the hazard-pointer protocol with both fences (model/hp_model.hpp).
use lock_free_mpmc_queue.Base.{ℕ, ◌≡◌, ◌≢◌, ◌⊎◌, List, [], ◌∷◌}
use lock_free_mpmc_queue.Model.Protocol.{
  n1, n2, ProtectorPc, load_src, publish, publish_fence, verify, read_data, clear, left, RetirerPc,
  unlink, scan_fence, load_slot, poison, stopped, Protocol,
}

-- Where the retirer stands, `src` is this.
abbrev pub Unlinks : ℕ → List ℕ → ℕ → RetirerPc → Type 0
Unlinks src stores poisoned unlink = (src ≡ n1) × (stores ≡ []) × (poisoned ≡ 0)
Unlinks src stores poisoned (scan_fence old) =
    (((src ≡ n1) × (stores ≡ n2 ∷ [])) ⊎ ((src ≡ n2) × (stores ≡ []))) × (poisoned ≡ 0) × (old ≡ n1)
Unlinks src stores poisoned (load_slot old) =
    (src ≡ n2) × (stores ≡ []) × (poisoned ≡ 0) × (old ≡ n1)
Unlinks src stores poisoned (poison old) = (src ≡ n2) × (stores ≡ []) × (poisoned ≡ 0) × (old ≡ n1)
Unlinks src stores poisoned stopped =
    (src ≡ n2) × (stores ≡ []) × ((poisoned ≡ 0) ⊎ (poisoned ≡ n1))

-- Where the protector stands, its slot is this.
abbrev pub Publishes : ℕ → List ℕ → ProtectorPc → Type 0
Publishes slot stores load_src = stores ≡ []
Publishes slot stores (publish p) = stores ≡ []
Publishes slot stores (publish_fence p) = (stores ≡ p ∷ []) ⊎ ((stores ≡ []) × (slot ≡ p))
Publishes slot stores (verify p) = (stores ≡ []) × (slot ≡ p)
Publishes slot stores (read_data p) = (stores ≡ []) × (slot ≡ p)
Publishes slot stores (clear p) = (stores ≡ []) × (slot ≡ p)
Publishes slot stores left = Unit

abbrev pub IsNode : ℕ → Type 0
IsNode p = (p ≡ n1) ⊎ (p ≡ n2)

abbrev pub Holds : ProtectorPc → Type 0
Holds (publish p) = IsNode p
Holds (publish_fence p) = IsNode p
Holds (verify p) = IsNode p
Holds (read_data p) = IsNode p
Holds _ = Unit

-- The retirer has not overwritten n1, and is not about to.
abbrev pub Spares : ℕ → RetirerPc → Type 0
Spares poisoned (poison old) = ⊥
Spares poisoned stopped = poisoned ≢ n1
Spares poisoned _ = Unit

abbrev pub Keeps : ProtectorPc → ℕ → RetirerPc → Type 0
Keeps (read_data p) poisoned r = p ≡ n1 → Spares poisoned r
Keeps _ poisoned r = Unit

pub record InvAt (s : Protocol) (pc : ProtectorPc) (r : RetirerPc) : Type 0 where
  pub unlinks : Unlinks s.src s.src_stores s.poisoned r
  pub publishes : Publishes s.slot s.slot_stores pc
  pub holds : Holds pc
  pub keeps : Keeps pc s.poisoned r

abbrev pub Inv : Protocol → Type 0
Inv s = InvAt s s.protector s.retirer
