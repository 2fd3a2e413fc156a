-- ===== src/Leaky/Clients/Step.antt =====
-- What a step of a thread of queue_suite (model/queue_model.hpp) does to the values on their way.
use lock_free_mpmc_queue.Base.{
  ℕ, suc, ◌+◌, ◌*◌, ◌%◌, ◌^◌, ◌≤◌, ◌<◌, ◌≡◌, refl, inl, inr, true, ◌&&◌, List, [], ◌∷◌, ◌++◌, subst,
  ltb, ◌==◌, if◌then◌else◌, update, sum_below, sum_below-update, Bool-cases, arith,
}
use lock_free_mpmc_queue.Leaky.Clients.{
  ClientPc, send, poll, take, check, mark, count, done, failed, Client, Shared, ClientAct, pack,
  producer_of, seq_of, expected, turns_to, dequeues, checks, client_step,
}
use lock_free_mpmc_queue.Leaky.Clients.Lanes.{
  is_lane, all_below, all_below-snoc, is_lane-snoc, pack_parts,
}

-- What a producer has sent.
abbrev pub sent_at : ℕ → ClientPc → ℕ
sent_at K (send s) = s
sent_at K _ = K

-- Whether a thread has value `s` of producer `p`, and has not marked it yet.
abbrev pub holds_at : ℕ → ℕ → ClientPc → ℕ
holds_at p s (check v) = if producer_of v == p && seq_of v == s then 1 else 0
holds_at p s (mark p' s') = if p' == p && s' == s then 1 else 0
holds_at p s _ = 0

-- Whether it has a value that consumed does not count yet.
abbrev pub pending_at : ClientPc → ℕ
pending_at (check v) = 1
pending_at (mark p s) = 1
pending_at count = 1
pending_at _ = 0

-- The number behind the last one, an int of 32 bits; 0 behind -1.
abbrev pub behind : ℕ → ℕ
behind last = (last + 1) % 2 ^ 32

-- What a thread knows where it stands; `d p` values of producer `p` have been dequeued.
abbrev pub Local : (P K idx : ℕ) → (ℕ → ℕ) → (consumed : ℕ) → (ℕ → ℕ) → ClientPc → Type 0
Local P K idx d c last (send s) = (idx < P) × (s ≤ K)
Local P K idx d c last (check v) =
    (P ≤ idx)
    × (producer_of v < P)
    × (seq_of v < d (producer_of v))
    × (behind (last (producer_of v)) ≤ seq_of v)
Local P K idx d c last (mark p s) = (P ≤ idx) × (p < P) × (s < d p)
Local P K idx d c last done = P ≤ idx → P * K ≤ c
Local P K idx d c last failed = ⊥
Local P K idx d c last _ = P ≤ idx

abbrev pub is_out : (ℕ → ℕ) → ℕ → ℕ → ℕ
is_out d p s = if ltb s (d p) then 1 else 0

abbrev pub all_out : (ℕ → ℕ) → ℕ → ℕ
all_out d P = sum_below (λ n. n) d P

-- The values of a program fit an unsigned and its fields.
abbrev pub Fits : ℕ → ℕ → Type 0
Fits P K = (P < 2 ^ 24) × (K ≤ 2 ^ 8) × (P * K < 2 ^ 32)

pub record ClientOutcome (P K idx : ℕ) (d : ℕ → ℕ) (m : Shared) (pc : ClientPc) (a : ClientAct)
    : Type 0 where
  pub out : ℕ → ℕ
  pub grows : (p : ℕ) → d p ≤ out p
  pub local : Local P K idx out a.shared.consumed a.client.last a.client.pc
  pub lasts : (p : ℕ) → p < P → behind (a.client.last p) ≤ out p
  pub lanes :
      (p b : ℕ)
      → p < P
      → (p ≡ idx → b ≡ sent_at K pc)
      → is_lane p (d p) b m.queue ≡ true
      → is_lane p (out p) (if p == idx then sent_at K a.client.pc else b) a.shared.queue ≡ true
  pub known : all_below P a.shared.queue ≡ true
  pub ledger :
      (p s : ℕ)
      → holds_at p s a.client.pc + a.shared.seen p s + is_out d p s
        ≡ holds_at p s pc + m.seen p s + is_out out p s
  pub counted :
      a.shared.consumed + pending_at a.client.pc + all_out d P
      ≡ m.consumed + pending_at pc + all_out out P
  pub later : m.consumed ≤ a.shared.consumed

module _ {P K idx : ℕ} (fits : Fits P K) {d : ℕ → ℕ} (m : Shared) (w : Client)
    (lasts : (p : ℕ) → p < P → behind (w.last p) ≤ d p) (known : all_below P m.queue ≡ true) where
  -- A step that changes nothing but the place of the thread.
  goes :
      {pc : ClientPc} (pc' : ClientPc)
      → Local P K idx d m.consumed w.last pc'
      → (idx < P → sent_at K pc' ≡ sent_at K pc)
      → ((p s : ℕ) → holds_at p s pc' ≡ holds_at p s pc)
      → pending_at pc' ≡ pending_at pc
      → ClientOutcome P K idx d m pc (turns_to m pc' w)
  goes pc' l sent holds pending = record {
    out = d;
    grows = λ p. omega arith;
    local = l;
    lasts = lasts;
    lanes = λ p b lt own lane. ground (arith, sent, own);
    known = known;
    ledger = λ p s. omega (arith, holds p s);
    counted = omega (arith, pending);
    later = omega arith;
  }

  sends :
      (s : ℕ)
      → idx < P
      → s < K
      → ClientOutcome P K idx d m
          (send s)
          (turns_to (record m { queue = m.queue ++ pack idx s ∷ [] }) (send (s + 1)) w)
  sends s own lt =
      let parts = pack_parts idx s (omega (arith, fits.0)) (omega (arith, fits.1)) in
      record {
        out = d;
        grows = λ p. omega arith;
        local = omega arith;
        lasts = lasts;
        lanes = λ p b ltp mine lane.
            ground (arith, parts, mine, is_lane-snoc p (d p) b (pack idx s) m.queue);
        known = all_below-snoc P (pack idx s) m.queue known (omega (arith, parts));
        ledger = λ p n. refl;
        counted = refl;
        later = omega arith;
      }

  takes :
      (v : ℕ) (q : List ℕ)
      → m.queue ≡ v ∷ q
      → ((p : ℕ) → p < P → (b : ℕ) × (is_lane p (d p) b m.queue ≡ true))
      → P ≤ idx
      → ClientOutcome P K idx d m take (turns_to (record m { queue = q }) (check v) w)
  takes v q e lane_of consumer =
      let p : ℕ = producer_of v in
      let known' : all_below P (v ∷ q) ≡ true = subst (λ l. all_below P l ≡ true) e known in
      let here : p < P = ground arith in
      let first : seq_of v ≡ d p =
        let (b, lane) = lane_of p here in
        let lane' : is_lane p (d p) b (v ∷ q) ≡ true =
          subst (λ l. is_lane p (d p) b l ≡ true) e lane in
        ground arith in
      record {
        out = update d p (suc (d p));
        grows = λ j. ground arith;
        local = ground (arith, first, lasts p);
        lasts = λ j lt. ground (arith, lasts j);
        lanes = λ j b lt mine lane.
            let lane' : is_lane j (d j) b (v ∷ q) ≡ true =
              subst (λ l. is_lane j (d j) b l ≡ true) e lane in
            ground arith;
        known = ground arith;
        ledger = λ j s. ground (arith, first);
        counted = omega (arith, sum_below-update (λ n. n) d p (suc (d p)) P here);
        later = omega arith;
      }

  looks_front :
      (q : List ℕ)
      → m.queue ≡ q
      → ((p : ℕ) → p < P → (b : ℕ) × (is_lane p (d p) b m.queue ≡ true))
      → P ≤ idx
      → ClientOutcome P K idx d m take (dequeues m q w)
  looks_front [] e lane_of consumer = goes poll consumer (λ lt. refl) (λ p s. refl) refl
  looks_front (v ∷ q) e lane_of consumer = takes v q e lane_of consumer

  checked :
      (v : ℕ)
      → Local P K idx d m.consumed w.last (check v)
      → ((p : ℕ) → p < P → d p ≤ K)
      → m.seen (producer_of v) (seq_of v) ≡ 0
      → ClientOutcome P K idx d m (check v) (record {
        shared = m;
        client = record {
          pc = mark (producer_of v) (seq_of v);
          last = update w.last (producer_of v) (seq_of v);
        };
      })
  checked v l bound unseen = record {
    out = d;
    grows = λ p. omega arith;
    local = omega arith;
    lasts = λ p lt. ground (arith, lasts p);
    lanes = λ p b lt own lane. ground (arith, own);
    known = known;
    ledger = λ p s. refl;
    counted = refl;
    later = omega arith;
  }

  checks_pass :
      (v : ℕ)
      → Local P K idx d m.consumed w.last (check v)
      → ((p : ℕ) → p < P → d p ≤ K)
      → m.seen (producer_of v) (seq_of v) ≡ 0
      → checks P K m w.last (producer_of v) (seq_of v) ≡ true
  checks_pass v l bound unseen = ground (arith, bound (producer_of v))

  pub step-ClientOutcome :
      (pc : ClientPc)
      → Local P K idx d m.consumed w.last pc
      → ((p : ℕ) → p < P → d p ≤ K)
      → ((p : ℕ) → p < P → (b : ℕ) × (is_lane p (d p) b m.queue ≡ true))
      → ((p s : ℕ) → 0 < holds_at p s pc → m.seen p s ≡ 0)
      → (0 < pending_at pc → m.consumed + 1 < 2 ^ 32)
      → ClientOutcome P K idx d m pc (client_step P K idx m w pc)
  unfolding client_step
  step-ClientOutcome (send s) l bound lane_of unseen small = elim (Bool-cases (ltb s K)) [
    | inl e ↦ rw e (sends s l.0 (ground arith))
    | inr e ↦ rw e (goes done (λ h. absurd (omega arith)) (λ lt. ground arith) (λ p s. refl) refl)
  ]
  step-ClientOutcome poll l bound lane_of unseen small =
      elim (Bool-cases (ltb m.consumed (expected P K))) [
        | inl e ↦ rw e (goes take l (λ lt. refl) (λ p s. refl) refl)
        | inr e ↦ rw e (goes done (λ h. ground arith) (λ lt. refl) (λ p s. refl) refl)
      ]
  step-ClientOutcome take l bound lane_of unseen small = looks_front m.queue refl lane_of l
  step-ClientOutcome (check v) l bound lane_of unseen small =
      let none_yet = unseen (producer_of v) (seq_of v) (ground arith) in
      rw (checks_pass v l bound none_yet) (checked v l bound none_yet)
  step-ClientOutcome (mark p s) l bound lane_of unseen small =
      let none_yet = unseen p s (ground arith) in
      record {
        out = d;
        grows = λ j. omega arith;
        local = l.0;
        lasts = lasts;
        lanes = λ j b lt own lane. ground (arith, own);
        known = known;
        ledger = λ j n. ground arith;
        counted = refl;
        later = omega arith;
      }
  step-ClientOutcome count l bound lane_of unseen small =
      let room = small (omega arith) in
      record {
        out = d;
        grows = λ j. omega arith;
        local = l;
        lasts = lasts;
        lanes = λ j b lt own lane. ground (arith, own);
        known = known;
        ledger = λ j n. refl;
        counted = omega arith;
        later = omega arith;
      }
  step-ClientOutcome done l bound lane_of unseen small = goes done l (λ lt. refl) (λ p s. refl) refl
  step-ClientOutcome failed l bound lane_of unseen small = elim l [ ]
