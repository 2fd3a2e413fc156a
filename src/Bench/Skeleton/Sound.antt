-- ===== src/Bench/Skeleton/Sound.antt =====
-- That the steps of the workers keep the invariant of run_threads (bench/bench_main.cpp).
use lock_free_mpmc_queue.Base.{
  ℕ, ◌+◌, ◌<◌, ◌≡◌, ◌≢◌, Bool, true, false, inl, inr, [], ◌∷◌, ◌++◌, ltb, if◌then◌else◌, Bool-cases,
  eq-cases, update, refl, subst, sym, arith,
}
use lock_free_mpmc_queue.Bench.Barrier.{
  WorkerPc, arriving, spinning, running, DriverPc, waiting, releasing, timing, BarrierSystem,
  BarrierReach, worker_step, driver_step,
}
use lock_free_mpmc_queue.Bench.Barrier
use lock_free_mpmc_queue.Bench.Skeleton.{
  Body, inside, ended, Boss, spawning, holding, clocking, freeing, joining, stopping, finished,
  Skeleton, Beat, after, leave, started, thread_step, lines_up, works_on,
}
use lock_free_mpmc_queue.Bench.Skeleton.Invariant.{
  stamps_of, AllUpto, AllUpto-append, Place, read-Place, leave-Place, writes-AllUpto,
}

-- What the workers know, apart from where run_threads stands.
pub record Sound (pins : ℕ → Bool) (n : ℕ) (s : Skeleton) : Type 0 where
  pub line : BarrierReach n s.line
  pub place : Place n s.boss s.line.driver s.body s.clock
  pub upto : (i : ℕ) → AllUpto s.clock (stamps_of (s.body i))
  pub unborn : (i : ℕ) → s.line.worker i ≢ running → s.body i ≡ inside []
  pub lined : (i : ℕ) → s.line.worker i ≢ arriving → s.tried i ≡ true
  pub pinned : s.all_pinned ≡ true → (i : ℕ) → s.tried i ≡ true → pins i ≡ true
  pub unpinned : s.all_pinned ≡ false → (i : ℕ) × (i < n) × (pins i ≡ false)

started-le :
    (n : ℕ) (boss : Boss) (d : DriverPc) (body : ℕ → Body) (now i : ℕ)
    → Place n boss d body now
    → i < started n boss
    → i < n
started-le n (spawning k) d body now i h lt = omega (arith, h.0)
started-le n holding d body now i h lt = lt
started-le n clocking d body now i h lt = lt
started-le n (freeing b) d body now i h lt = lt
started-le n (joining b k) d body now i h lt = lt
started-le n (stopping b) d body now i h lt = lt
started-le n (finished b e) d body now i h lt = lt

pins-Sound :
    (pins : ℕ → Bool) (n i : ℕ) (s : Skeleton)
    → i < n
    → s.tried i ≡ false
    → Sound pins n s
    → Sound pins n (record s {
      tried = update s.tried i true;
      all_pinned = if pins i then s.all_pinned else false;
    })
pins-Sound pins n i s lt new h = record {
  line = h.line;
  place = h.place;
  upto = h.upto;
  unborn = h.unborn;
  lined = λ j a. ground (arith, h.lined j a);
  pinned = λ e j a. elim (eq-cases j i) [
    | inl here ↦ rw here (ground arith)
    | inr away ↦ h.pinned (ground arith) j (ground arith)
  ];
  unpinned = λ e. elim (Bool-cases (pins i)) [
    | inl good ↦ h.unpinned (ground arith)
    | inr bad ↦ (i, lt, bad)
  ];
}

-- A body that is written to is that of a worker that runs.
still-unborn :
    (worker : ℕ → WorkerPc) (body : ℕ → Body) (i : ℕ) (new : Body)
    → worker i ≡ running
    → ((j : ℕ) → worker j ≢ running → body j ≡ inside [])
    → (j : ℕ) → worker j ≢ running
    → update body i new j ≡ inside []
still-unborn worker body i new run h j ne = elim (eq-cases j i) [
  | inl here ↦ absurd (ne (subst (λ q. worker q ≡ running) (sym here) run))
  | inr away ↦ let is : update body i new j ≡ body j = ground arith in rw is (h j ne)
]

body-Sound :
    (pins : ℕ → Bool) (n i : ℕ) (b : Beat) (s : Skeleton) (own : Body)
    → i < started n s.boss
    → s.line.worker i ≡ running
    → s.body i ≡ own
    → Sound pins n s
    → Sound pins n (works_on b s i own)
body-Sound pins n i (after ns) s (inside l) lt run e h = record {
  line = h.line;
  place = read-Place n s.boss s.line.driver s.body s.clock ns i l lt e h.place;
  upto =
      writes-AllUpto s.body i l e (inside (l ++ (s.clock + ns) ∷ [])) s.clock (s.clock + ns)
        (omega arith) h.upto (λ u. AllUpto-append s.clock (s.clock + ns) l u (omega arith));
  unborn = still-unborn s.line.worker s.body i (inside (l ++ (s.clock + ns) ∷ [])) run h.unborn;
  lined = h.lined;
  pinned = h.pinned;
  unpinned = h.unpinned;
}
body-Sound pins n i leave s (inside l) lt run e h = record {
  line = h.line;
  place = leave-Place n s.boss s.line.driver s.body s.clock i l lt e h.place;
  upto = writes-AllUpto s.body i l e (ended l) s.clock s.clock (omega arith) h.upto (λ u. u);
  unborn = still-unborn s.line.worker s.body i (ended l) run h.unborn;
  lined = h.lined;
  pinned = h.pinned;
  unpinned = h.unpinned;
}
body-Sound pins n i (after ns) s (ended l) lt run e h = h
body-Sound pins n i leave s (ended l) lt run e h = h

driver-worker_step :
    (i : ℕ) (l : BarrierSystem) (pc : WorkerPc) → (worker_step i l pc).driver ≡ l.driver
unfolding worker_step
driver-worker_step i l arriving = refl
driver-worker_step i l spinning = refl
driver-worker_step i l running = refl

worker-worker_step :
    (i : ℕ) (l : BarrierSystem) (pc : WorkerPc) (j : ℕ)
    → j ≢ i
    → (worker_step i l pc).worker j ≡ l.worker j
unfolding worker_step
worker-worker_step i l arriving j ne = ground arith
worker-worker_step i l spinning j ne = ground arith
worker-worker_step i l running j ne = ground arith

line-Sound :
    (pins : ℕ → Bool) (n i : ℕ) (s : Skeleton)
    → i < n
    → s.tried i ≡ true
    → s.line.worker i ≢ running
    → Sound pins n s
    → Sound pins n (record s { line = worker_step i s.line (s.line.worker i) })
line-Sound pins n i s lt had ne h =
    let pc = s.line.worker i in
    let same = driver-worker_step i s.line pc in
    record {
      line = Barrier.works h.line i lt;
      place = rw same h.place;
      upto = h.upto;
      unborn = λ j still. elim (eq-cases j i) [
        | inl here ↦ rw here (h.unborn i ne)
        | inr away ↦
            h.unborn j (subst (λ w. w ≢ running) (worker-worker_step i s.line pc j away) still)
      ];
      lined = λ j not_there. elim (eq-cases j i) [
        | inl here ↦ rw here had
        | inr away ↦
            h.lined j (subst (λ w. w ≢ arriving) (worker-worker_step i s.line pc j away) not_there)
      ];
      pinned = h.pinned;
      unpinned = h.unpinned;
    }

lines_up-Sound :
    (pins : ℕ → Bool) (n i : ℕ) (b : Beat) (s : Skeleton) (pc : WorkerPc)
    → i < started n s.boss
    → s.tried i ≡ true
    → s.line.worker i ≡ pc
    → Sound pins n s
    → Sound pins n (lines_up b s i pc)
lines_up-Sound pins n i b s running lt had e h = body-Sound pins n i b s (s.body i) lt e refl h
lines_up-Sound pins n i b s arriving lt had e h =
    let below = started-le n s.boss s.line.driver s.body s.clock i h.place lt in
    subst (λ w. Sound pins n (record s { line = worker_step i s.line w })) e
      (line-Sound pins n i s below had (λ run. cc) h)
lines_up-Sound pins n i b s spinning lt had e h =
    let below = started-le n s.boss s.line.driver s.body s.clock i h.place lt in
    subst (λ w. Sound pins n (record s { line = worker_step i s.line w })) e
      (line-Sound pins n i s below had (λ run. cc) h)

pub thread-Sound :
    (pins : ℕ → Bool) (n i : ℕ) (b : Beat) (s : Skeleton)
    → Sound pins n s
    → Sound pins n (thread_step pins n b i s)
unfolding thread_step
thread-Sound pins n i b s h = elim (Bool-cases (ltb i (started n s.boss))) [
  | inl lt ↦ elim (Bool-cases (s.tried i)) [
    | inl had ↦
        rw (lt, had) (lines_up-Sound pins n i b s (s.line.worker i) (ground arith) had refl h)
    | inr new ↦
        let below = started-le n s.boss s.line.driver s.body s.clock i h.place (ground arith) in
        rw (lt, new) (pins-Sound pins n i s below new h)
  ]
  | inr ge ↦ rw ge h
]
