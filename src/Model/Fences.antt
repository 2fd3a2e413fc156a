-- ===== src/Model/Fences.antt =====
-- The two fences of the hazard-pointer protocol (model/hp_model.hpp).
use lock_free_mpmc_queue.Base.{ℕ, ◌≡◌, ◌≢◌, ◌↔◌, subst, List, [], ◌∷◌, arith, refl}
use lock_free_mpmc_queue.Model.Protocol.{
  HpBug, hp_none, hp_missing_publish_fence, hp_missing_scan_fence, n1, read_data, RetirerPc, unlink,
  scan_fence, load_slot, poison, stopped, Protocol, Turn, protects, retires, slot_arrives,
  src_arrives, protector_step, retirer_step, protocol_step, before, ProtocolReach, start, later,
}
use lock_free_mpmc_queue.Model.Preserve.{ProtocolReach-Inv}
use lock_free_mpmc_queue.Model.Invariant.{Unlinks, Spares, IsNode, InvAt, Inv}

-- A protector that is about to read a node reads one of the two, and the retirer has not overwritten
-- it and is not about to.
abbrev pub IsSafe : Protocol → Type 0
IsSafe s =
    (p : ℕ) → s.protector ≡ read_data p → IsNode p × (s.poisoned ≢ p) × (s.retirer ≢ poison p)

Unlinks-IsSafe :
    (x : ℕ) (xs : List ℕ) (w p : ℕ) (r : RetirerPc)
    → Unlinks x xs w r
    → IsNode p
    → (p ≡ n1 → Spares w r)
    → (w ≢ p) × (r ≢ poison p)
Unlinks-IsSafe x xs w p unlink h node k = ground arith
Unlinks-IsSafe x xs w p (scan_fence old) h node k = ground arith
Unlinks-IsSafe x xs w p (load_slot old) h node k = ground arith
Unlinks-IsSafe x xs w p (poison old) h node k = ground arith
Unlinks-IsSafe x xs w p stopped h node k = ground arith

Inv-IsSafe : (s : Protocol) → Inv s → IsSafe s
Inv-IsSafe s h p e =
    let at : InvAt s (read_data p) s.retirer = subst (λ pc. InvAt s pc s.retirer) e h in
    let rest =
      Unlinks-IsSafe s.src s.src_stores s.poisoned p s.retirer at.unlinks at.holds at.keeps in
    (at.holds, rest.0, rest.1)

-- The state after the given turns.
abbrev after : HpBug → List Turn → Protocol → Protocol
after bug [] s = s
after bug (t ∷ ts) s = after bug ts (protocol_step bug t s)

after-ProtocolReach :
    (bug : HpBug) (ts : List Turn) (s : Protocol)
    → ProtocolReach bug s
    → ProtocolReach bug (after bug ts s)
after-ProtocolReach bug [] s r = r
after-ProtocolReach bug (t ∷ ts) s r =
    after-ProtocolReach bug ts (protocol_step bug t s) (later r t)

-- The publish waits in the buffer while the protector verifies, and the scan misses it.
abbrev late_publish : List Turn
late_publish =
    protects ∷ protects ∷ protects ∷ protects ∷ retires ∷ src_arrives ∷ retires ∷ retires ∷ retires
    ∷ []

-- The unlink waits in the buffer while the retirer scans, and the verify misses it.
abbrev late_unlink : List Turn
late_unlink =
    retires ∷ retires ∷ retires ∷ protects ∷ protects ∷ slot_arrives ∷ protects ∷ protects ∷ retires
    ∷ []

-- In the protocol of a protector and a retirer whose stores may be delayed past their later loads,
-- every node that the protector is about to read is one that the retirer has not overwritten, and
-- is not about to, just if both fences are there.
pub fences_needed :
    (bug : HpBug) → ((s : Protocol) → ProtocolReach bug s → IsSafe s) ↔ (bug ≡ hp_none)
unfolding protocol_step protector_step retirer_step
fences_needed hp_none = (λ _. refl, λ _ s r. Inv-IsSafe s (ProtocolReach-Inv r))
fences_needed hp_missing_publish_fence = (
  λ safe. absurd (
      (safe (after hp_missing_publish_fence late_publish before)
          (after-ProtocolReach hp_missing_publish_fence late_publish before start) n1 refl).1
        refl),
  λ e. ground arith,
)
fences_needed hp_missing_scan_fence = (
  λ safe. absurd (
      (safe (after hp_missing_scan_fence late_unlink before)
          (after-ProtocolReach hp_missing_scan_fence late_unlink before start) n1 refl).1
        refl),
  λ e. ground arith,
)
