-- ===== src/Base/Segment.antt =====
-- A list by its `next` links.
use lock_free_mpmc_queue.Base.{ℕ, ◌≡◌, ◌≢◌, true, false, List, [], ◌∷◌, has, update, arith}

-- From `a` the links lead through `xs` to null.
abbrev pub Seg : (ℕ → ℕ) → ℕ → List ℕ → Type 0
Seg next a [] = a ≡ 0
Seg next a (x ∷ xs) = (a ≡ x) × (x ≢ 0) × Seg next (next x) xs

-- A write to one that is not among them changes nothing.
pub Seg-update :
    (next : ℕ → ℕ) (r h a : ℕ) (xs : List ℕ)
    → has r xs ≡ false
    → Seg next a xs
    → Seg (update next r h) a xs
Seg-update next r h a [] out s = s
Seg-update next r h a (x ∷ xs) out s =
    let same : update next r h x ≡ next x = ground arith in
    (s.0, s.1, rw same (Seg-update next r h (next x) xs (ground arith) s.2))

pub has-head : (next : ℕ → ℕ) (a : ℕ) (xs : List ℕ) → Seg next a xs → a ≢ 0 → has a xs ≡ true
has-head next a [] s ne = absurd (ne s)
has-head next a (x ∷ xs) s ne = ground arith

-- The list holds what follows one of its members.
pub has-next :
    (next : ℕ → ℕ) (a r : ℕ) (xs : List ℕ)
    → Seg next a xs
    → has r xs ≡ true
    → next r ≢ 0
    → has (next r) xs ≡ true
has-next next a r [] s h ne = cc
has-next next a r (x ∷ xs) s h ne =
    ground (arith, has-head next (next x) xs s.2, has-next next (next x) r xs s.2)
