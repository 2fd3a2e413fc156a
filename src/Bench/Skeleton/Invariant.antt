-- ===== src/Bench/Skeleton/Invariant.antt =====
-- What holds while run_threads runs (bench/bench_main.cpp).
use lock_free_mpmc_queue.Base.{
  ℕ, ◌+◌, ◌≤◌, ◌<◌, ◌≡◌, true, inl, inr, List, [], ◌∷◌, ◌++◌, eq-cases, update, subst, arith,
}
use lock_free_mpmc_queue.Bench.Barrier.{DriverPc, waiting, releasing}
use lock_free_mpmc_queue.Bench.Skeleton.{
  Body, inside, ended, Boss, spawning, holding, clocking, freeing, joining, stopping, finished,
  started, has_ended,
}

abbrev pub stamps_of : Body → List ℕ
stamps_of (inside l) = l
stamps_of (ended l) = l

abbrev pub AllFrom : ℕ → List ℕ → Type 0
AllFrom b [] = Unit
AllFrom b (x ∷ l) = (b ≤ x) × AllFrom b l

abbrev pub AllUpto : ℕ → List ℕ → Type 0
AllUpto e [] = Unit
AllUpto e (x ∷ l) = (x ≤ e) × AllUpto e l

pub AllFrom-append : (b x : ℕ) (l : List ℕ) → AllFrom b l → b ≤ x → AllFrom b (l ++ x ∷ [])
AllFrom-append b x [] h le = (le, tt)
AllFrom-append b x (y ∷ l) h le = (h.0, AllFrom-append b x l h.1 le)

pub AllUpto-append : (e e' : ℕ) (l : List ℕ) → AllUpto e l → e ≤ e' → AllUpto e' (l ++ e' ∷ [])
AllUpto-append e e' [] h le = (omega arith, tt)
AllUpto-append e e' (y ∷ l) h le = (omega arith, AllUpto-append e e' l h.1 le)

pub AllUpto-mono : (e e' : ℕ) (l : List ℕ) → AllUpto e l → e ≤ e' → AllUpto e' l
AllUpto-mono e e' [] h le = tt
AllUpto-mono e e' (y ∷ l) h le = (omega arith, AllUpto-mono e e' l h.1 le)

-- What is so where run_threads of `n` workers stands.
abbrev pub Place : ℕ → Boss → DriverPc → (ℕ → Body) → ℕ → Type 0
Place n (spawning k) d body now = (k ≤ n) × (d ≡ waiting)
Place n holding d body now = d ≡ waiting
Place n clocking d body now = d ≡ releasing
Place n (freeing b) d body now = (d ≡ releasing) × (b ≤ now)
Place n (joining b k) d body now =
    (b ≤ now)
    × ((i : ℕ) → AllFrom b (stamps_of (body i)))
    × ((i : ℕ) → i < k → has_ended (body i) ≡ true)
Place n (stopping b) d body now =
    (b ≤ now)
    × ((i : ℕ) → AllFrom b (stamps_of (body i)))
    × ((i : ℕ) → i < n → has_ended (body i) ≡ true)
Place n (finished b e) d body now =
    (b ≤ now)
    × ((i : ℕ) → AllFrom b (stamps_of (body i)))
    × ((i : ℕ) → i < n → has_ended (body i) ≡ true)
    × ((i : ℕ) → i < n → AllUpto e (stamps_of (body i)))

-- A worker that is in its body writes to it.
module _ (body : ℕ → Body) (i : ℕ) (l : List ℕ) (e : body i ≡ inside l) (new : Body) where
  writes-AllFrom :
      (b : ℕ)
      → ((j : ℕ) → AllFrom b (stamps_of (body j)))
      → (AllFrom b l → AllFrom b (stamps_of new))
      → (j : ℕ) → AllFrom b (stamps_of (update body i new j))
  writes-AllFrom b h own j = elim (eq-cases j i) [
    | inl here ↦
        let is : update body i new j ≡ new = ground arith in
        rw is (own (subst (λ x. AllFrom b (stamps_of x)) e (h i)))
    | inr away ↦ let is : update body i new j ≡ body j = ground arith in rw is (h j)
  ]

  pub writes-AllUpto :
      (now now' : ℕ)
      → now ≤ now'
      → ((j : ℕ) → AllUpto now (stamps_of (body j)))
      → (AllUpto now l → AllUpto now' (stamps_of new))
      → (j : ℕ) → AllUpto now' (stamps_of (update body i new j))
  writes-AllUpto now now' le h own j = elim (eq-cases j i) [
    | inl here ↦
        let is : update body i new j ≡ new = ground arith in
        rw is (own (subst (λ x. AllUpto now (stamps_of x)) e (h i)))
    | inr away ↦
        let is : update body i new j ≡ body j = ground arith in
        rw is (AllUpto-mono now now' (stamps_of (body j)) (h j) le)
  ]

  writes-ended :
      (k : ℕ)
      → ((j : ℕ) → j < k → has_ended (body j) ≡ true)
      → (j : ℕ) → j < k
      → has_ended (update body i new j) ≡ true
  writes-ended k h j lt = elim (eq-cases j i) [
    | inl here ↦ absurd (ground (arith, h j lt))
    | inr away ↦ let is : update body i new j ≡ body j = ground arith in rw is (h j lt)
  ]

-- A body reads the clock.
pub read-Place :
    (n : ℕ) (boss : Boss) (d : DriverPc) (body : ℕ → Body) (now ns i : ℕ) (l : List ℕ)
    → i < started n boss
    → body i ≡ inside l
    → Place n boss d body now
    → Place n boss d (update body i (inside (l ++ (now + ns) ∷ []))) (now + ns)
read-Place n (spawning k) d body now ns i l lt e h = h
read-Place n holding d body now ns i l lt e h = h
read-Place n clocking d body now ns i l lt e h = h
read-Place n (freeing b) d body now ns i l lt e h = (h.0, omega (arith, h.1))
read-Place n (joining b k) d body now ns i l lt e h =
    let new : Body = inside (l ++ (now + ns) ∷ []) in
    (
      omega (arith, h.0),
      writes-AllFrom body i l e new b h.1
          (λ f. AllFrom-append b (now + ns) l f (omega (arith, h.0))),
      writes-ended body i l e new k h.2,
    )
read-Place n (stopping b) d body now ns i l lt e h = let over = h.2 i lt in absurd (ground arith)
read-Place n (finished b stop) d body now ns i l lt e h =
    let over = h.2 i lt in absurd (ground arith)

-- A body ends.
pub leave-Place :
    (n : ℕ) (boss : Boss) (d : DriverPc) (body : ℕ → Body) (now i : ℕ) (l : List ℕ)
    → i < started n boss
    → body i ≡ inside l
    → Place n boss d body now
    → Place n boss d (update body i (ended l)) now
leave-Place n (spawning k) d body now i l lt e h = h
leave-Place n holding d body now i l lt e h = h
leave-Place n clocking d body now i l lt e h = h
leave-Place n (freeing b) d body now i l lt e h = h
leave-Place n (joining b k) d body now i l lt e h = (
  h.0,
  writes-AllFrom body i l e (ended l) b h.1 (λ f. f),
  writes-ended body i l e (ended l) k h.2,
)
leave-Place n (stopping b) d body now i l lt e h = let over = h.2 i lt in absurd (ground arith)
leave-Place n (finished b stop) d body now i l lt e h = let over = h.2 i lt in absurd (ground arith)
