-- ===== src/Memory/EventStore/Writes.antt =====
-- What `appendAll` and `release` of memory/event-store.ts keep: the positions readers have passed.
use bounda.Prelude.{
  ℕ, zero, suc, ◌+◌, ◌≤◌, ◌<◌, ◌≡◌, refl, ◌∙◌, String, true, false, ◌⊎◌, inl, inr, List, [], ◌∷◌,
  arith,
}
use bounda.Contracts.Errors.{ok, err, ◌>>◌}
use bounda.Contracts.Events.{stream_id}
use bounda.Prelude.Tests.{Bool-cases, nat_eq, nat_beq_iff}
use bounda.Prelude.Lists.{contains, All, contains-without}
use bounda.Prelude.Dict.{get, get-set, has-set}
use bounda.Memory.EventStore.{
  Store, Kept, PendingKept, Batch, Codec, rest, can_advance, advance_round, advance, take_position,
  place, log_event, log_events, write_batch, write_batches, write_all, append_checked, append_all,
  check_versions, prepare,
}
use bounda.Memory.EventStore.Watermark.{WellFormed, advance_induction}

-- Every position that readers of `s` may have passed reads the same in `t`.
pub record Extends (s t : Store) : Type 0 where
  pub watermark_le : s.watermark ≤ t.watermark
  pub log_seen : (p : ℕ) → p ≤ s.watermark → get t.log p ≡ get s.log p

pub Extends-refl : (s : Store) → Extends s s
Extends-refl s = record { watermark_le = omega arith; log_seen = λ p h. refl }

pub Extends-trans : {s t u : Store} → Extends s t → Extends t u → Extends s u
Extends-trans {s} {t} {u} a b = record {
  watermark_le = omega arith;
  log_seen = λ p h. b.log_seen p (omega arith) ∙ a.log_seen p h;
}

-- `t` is `s` with events written at positions above the watermark.
record Wrote (s t : Store) : Type 0 where
  watermark_same : t.watermark ≡ s.watermark
  gaps_same : t.gaps ≡ s.gaps
  reserved_le : s.reserved ≤ t.reserved
  log_seen : (p : ℕ) → p ≤ s.watermark → get t.log p ≡ get s.log p

advance_round-WellFormed :
    (s : Store) → can_advance s ≡ true → WellFormed s → WellFormed (advance_round s)
unfolding can_advance advance_round
advance_round-WellFormed s h v = record {
  log_within = v.log_within;
  gaps_within = λ p g. ground (
    arith,
    contains-without (s.watermark + 1) p s.gaps,
    nat_beq_iff (s.watermark + 1) p,
    v.gaps_within p,
    v.apart p,
  );
  apart = λ p g. ground (arith, contains-without (s.watermark + 1) p s.gaps, v.apart p);
  seen = ground (arith, v.log_within (s.watermark + 1), v.gaps_within (s.watermark + 1));
}

pub advance-WellFormed : (s : Store) → WellFormed s → WellFormed (advance s)
advance-WellFormed s v =
    advance_induction WellFormed advance_round-WellFormed
      (λ t ns w. record {
        log_within = w.log_within;
        gaps_within = w.gaps_within;
        apart = w.apart;
        seen = w.seen;
      })
      s v

pub advance-Extends : (s : Store) → Extends s (advance s)
advance-Extends s =
    advance_induction (Extends s) (λ t h e. Extends-trans e (step t))
      (λ t ns e. record { watermark_le = e.watermark_le; log_seen = e.log_seen }) s (Extends-refl s)
  where
    step : (t : Store) → Extends t (advance_round t)
    step t = unfold advance_round in record { watermark_le = omega arith; log_seen = λ p h. refl }

-- A position that a transaction handed over: none (0), or one reserved and still to write.
abbrev pub IsHeld : Store → ℕ → Type 0
IsHeld s p = (p ≡ 0) ⊎ ((s.watermark < p) × (p ≤ s.reserved) × (contains p s.gaps ≡ false))

-- A position that may be written when `r` are reserved.
abbrev IsFree : Store → ℕ → ℕ → Type 0
IsFree s r p = (s.watermark < p) × (p ≤ r) × (contains p s.gaps ≡ false)

above_reserved : (s : Store) → WellFormed s → (p : ℕ) → s.reserved < p → contains p s.gaps ≡ false
above_reserved s v p h = elim (Bool-cases (contains p s.gaps)) [
  | inl yes_gap ↦ absurd (omega (arith, v.gaps_within p yes_gap))
  | inr clear ↦ clear
]

take_position-IsFree :
    (s : Store)
    → WellFormed s
    → (r : ℕ) → s.reserved ≤ r
    → (ps : List ℕ) → All (IsHeld s) ps
    → IsFree s (take_position r ps).1 (take_position r ps).0
      × (r ≤ (take_position r ps).1)
      × All (IsHeld s) (rest ps)
unfolding take_position
take_position-IsFree s v r h [] held =
    ground (arith, above_reserved s v (r + 1) (omega arith), v.seen)
take_position-IsFree s v r h (zero ∷ ps) held =
    ground (arith, above_reserved s v (r + 1) (omega arith), v.seen)
take_position-IsFree s v r h (suc p ∷ ps) held = ground arith

AllFree-mono :
    (s : Store) (q r : ℕ)
    → q ≤ r
    → (es : List Kept) → All (λ e. IsFree s q e.position) es
    → All (λ e. IsFree s r e.position) es
AllFree-mono s q r h [] f = tt
AllFree-mono s q r h (e ∷ es) f = ((f.0.0, omega arith, f.0.2), AllFree-mono s q r h es f.1)

place-IsFree :
    (s : Store)
    → WellFormed s
    → (r : ℕ) → s.reserved ≤ r
    → (es : List PendingKept) (ps : List ℕ) → All (IsHeld s) ps
    → All (λ e. IsFree s (place r es ps).1 e.position) (place r es ps).0 × (r ≤ (place r es ps).1)
unfolding place
place-IsFree s v r h [] ps held = (tt, omega arith)
place-IsFree s v r h (e ∷ es) ps held =
    let (free, up, left) = take_position-IsFree s v r h ps held in
    let (others, more) = place-IsFree s v (take_position r ps).1 (omega arith) es (rest ps) left in
    (((free.0, omega arith, free.2), others), omega arith)

log_events-Wrote :
    (s t : Store) (es : List Kept)
    → Wrote s t
    → WellFormed t
    → All (λ e. IsFree s t.reserved e.position) es
    → Wrote s (log_events t es) × WellFormed (log_events t es)
unfolding log_events
log_events-Wrote s t [] w v f = (w, v)
log_events-Wrote s t (e ∷ es) w v f =
    log_events-Wrote s (log_event t e) es
      (record {
        watermark_same = w.watermark_same;
        gaps_same = w.gaps_same;
        reserved_le = w.reserved_le;
        log_seen = λ p h. rw get-set (ground (arith, w.log_seen p, nat_beq_iff e.position p));
      })
      (record {
        log_within = λ p h.
            ground (arith, has-set t.log e.position e p, v.log_within p, nat_beq_iff e.position p);
        gaps_within = v.gaps_within;
        apart = λ p g. ground (
          arith,
          has-set t.log e.position e p,
          v.apart p g,
          nat_beq_iff e.position p,
          w.gaps_same,
        );
        seen = v.seen;
      })
      f.1

write_batch-Wrote :
    (s : Store) (key : String) (es : List PendingKept) (ps : List ℕ)
    → WellFormed s
    → All (IsHeld s) ps
    → Wrote s (write_batch s key es ps) × WellFormed (write_batch s key es ps)
unfolding write_batch
write_batch-Wrote s key es ps v held =
    let (free, up) = place-IsFree s v s.reserved (omega arith) es ps held in
    log_events-Wrote s _ (place s.reserved es ps).0
      (record { watermark_same = refl; gaps_same = refl; reserved_le = up; log_seen = λ p h. refl })
      (record {
        log_within = λ p h. omega (arith, v.log_within p h);
        gaps_within = λ p g. omega (arith, v.gaps_within p g);
        apart = v.apart;
        seen = omega (arith, v.seen);
      })
      free

AllHeld-Wrote : {s t : Store} → Wrote s t → (ps : List ℕ) → All (IsHeld s) ps → All (IsHeld t) ps
AllHeld-Wrote w [] h = tt
AllHeld-Wrote {s} {t} w (p ∷ ps) h = (now h.0, AllHeld-Wrote w ps h.1)
  where
    now : IsHeld s p → IsHeld t p
    now (inl none_given) = inl none_given
    now (inr held) = inr (ground (arith, w.watermark_same, w.reserved_le, w.gaps_same))

-- Each position handed over with a batch is held.
abbrev pub BatchesHeld : {P M : Type 0} → Store → List (Batch P M) → Type 0
BatchesHeld s bs = All (λ b. All (IsHeld s) b.positions) bs

module _ {P M : Type 0} where
  BatchesHeld-Wrote :
      {s t : Store} → Wrote s t → (bs : List (Batch P M)) → BatchesHeld s bs → BatchesHeld t bs
  BatchesHeld-Wrote w [] h = tt
  BatchesHeld-Wrote w (b ∷ bs) h = (AllHeld-Wrote w b.positions h.0, BatchesHeld-Wrote w bs h.1)

Wrote-Extends : {s t : Store} → Wrote s t → Extends s t
Wrote-Extends w = record { watermark_le = omega (arith, w.watermark_same); log_seen = w.log_seen }

module _ {P M : Type 0} (c : Codec P M) where
  write_batches-WellFormed :
      (s : Store) (bs : List (Batch P M)) (kss : List (List PendingKept))
      → WellFormed s
      → BatchesHeld s bs
      → Extends s (write_batches c s bs kss).0 × WellFormed (write_batches c s bs kss).0
  unfolding write_batches
  write_batches-WellFormed s [] kss v h = (Extends-refl s, v)
  write_batches-WellFormed s (b ∷ bs) [] v h = (Extends-refl s, v)
  write_batches-WellFormed s (b ∷ bs) (ks ∷ kss) v h =
      let (w, v') = write_batch-Wrote s (stream_id b.stream) ks b.positions v h.0 in
      let (more, v'') =
        write_batches-WellFormed (write_batch s (stream_id b.stream) ks b.positions) bs kss v'
          (BatchesHeld-Wrote w bs h.1) in
      (Extends-trans (Wrote-Extends w) more, v'')

  -- In a well-formed store, an `appendAll` whose batches hand over only positions still held, or
  -- none, leaves it well formed, and changes nothing at or below the watermark, whether it throws or
  -- writes.
  pub append_all-Extends :
      (s : Store) (bs : List (Batch P M))
      → WellFormed s
      → BatchesHeld s bs
      → WellFormed (append_all c s bs).0 × Extends s (append_all c s bs).0
  unfolding append_all write_all
  append_all-Extends s bs v h =
      elim (check_versions c [] s bs >> prepare c bs)
        as (λ r. WellFormed (append_checked c s bs r).0 × Extends s (append_checked c s bs r).0) [
          | err e ↦ (v, Extends-refl s)
          | ok kss ↦
              let (more, v') = write_batches-WellFormed s bs kss v h in
              (advance-WellFormed _ v', Extends-trans more (advance-Extends _))
        ]
