-- ===== src/Memory/EventStore/Release.antt =====
-- `release` of memory/event-store.ts: positions given back never block the readers.
use mathlib.Core.Bool.{false≢true}
use bounda.Prelude.{
  ℕ, ◌+◌, ◌≤◌, ◌<◌, ◌≡◌, refl, sym, ◌∙◌, Bool, true, false, ◌||◌, inl, inr, List, [], ◌∷◌, arith,
}
use bounda.Prelude.Tests.{◌==◌, Bool-cases, nat_eq, nat_beq_iff, ltb, leb}
use bounda.Prelude.Lists.{
  contains, All, contains-without, contains-add, sort_by, insert_by, Distinct, contains-sort_by,
  All-sort_by,
}
use bounda.Prelude.Dict.{has}
use bounda.Memory.EventStore.{
  Store, release_position, release_positions, release, advance, advance_round,
}
use bounda.Memory.EventStore.Watermark.{WellFormed, IsSettled, advance-IsSettled, advance_induction}
use bounda.Memory.EventStore.Writes.{Extends, advance-WellFormed, advance-Extends, Extends-trans}

-- A position reserved, not written and not given back.
abbrev pub IsOutstanding : Store → ℕ → Type 0
IsOutstanding s p =
    (s.watermark < p) × (p ≤ s.reserved) × (contains p s.gaps ≡ false) × (has s.log p ≡ false)

-- Strictly falling, below `n`.
abbrev Falls : ℕ → List ℕ → Type 0
Falls n [] = Unit
Falls n (p ∷ ps) = (p < n) × Falls p ps

abbrev pub not_after : ℕ → ℕ → Bool
not_after a b = leb b a

Falls-insert_by :
    (n a : ℕ) (ps : List ℕ)
    → a < n
    → contains a ps ≡ false
    → Falls n ps
    → Falls n (insert_by not_after a ps)
Falls-insert_by n a [] h d f = (h, tt)
Falls-insert_by n a (p ∷ ps) h d f = ground (arith, nat_beq_iff p a, Falls-insert_by p a ps)

Falls-sort_by :
    (n : ℕ) (ps : List ℕ) → All (λ p. p < n) ps → Distinct ps → Falls n (sort_by not_after ps)
Falls-sort_by n [] h d = tt
Falls-sort_by n (p ∷ ps) h d =
    Falls-insert_by n p (sort_by not_after ps) h.0 (contains-sort_by not_after p ps ∙ d.0)
      (Falls-sort_by n ps h.1 d.1)

-- What is still to give back after `p`, seen from the store that gave `p` back.
later_IsOutstanding :
    (s : Store) (p n : ℕ)
    → IsOutstanding s p
    → n ≤ p
    → (ps : List ℕ) → Falls n ps
    → All (IsOutstanding s) ps
    → All (IsOutstanding (release_position s p)) ps
unfolding release_position
later_IsOutstanding s p n o le [] f h = tt
later_IsOutstanding s p n o le (q ∷ ps) f h = (
  ground (arith, nat_beq_iff p s.reserved, contains-add p q s.gaps, nat_beq_iff p q),
  later_IsOutstanding s p q o (omega arith) ps f.1 h.1,
)

release_position-WellFormed :
    (s : Store) (p : ℕ) → WellFormed s → IsOutstanding s p → WellFormed (release_position s p)
unfolding release_position
release_position-WellFormed s p v o = elim (Bool-cases (p == s.reserved)) [
  | inl tail ↦ rw tail (record {
    log_within = λ q h. ground (arith, v.log_within q, nat_beq_iff p s.reserved, same q);
    gaps_within = λ q g. ground (arith, v.gaps_within q, nat_beq_iff p s.reserved, gap q);
    apart = v.apart;
    seen = ground (arith, nat_beq_iff p s.reserved);
  })
  | inr inner ↦ rw inner (record {
    log_within = v.log_within;
    gaps_within = λ q g. ground (arith, v.gaps_within q, contains-add p q s.gaps, nat_beq_iff p q);
    apart = λ q g. ground (arith, v.apart q, contains-add p q s.gaps, nat_beq_iff p q);
    seen = v.seen;
  })
]
  where
    same : (q : ℕ) → has s.log q ≡ true → ¬ (q ≡ p)
    same q h e = cc (o.3, h, e)

    gap : (q : ℕ) → contains q s.gaps ≡ true → ¬ (q ≡ p)
    gap q h e = cc (o.2, h, e)

release_positions-WellFormed :
    (s : Store) (n : ℕ) (ps : List ℕ)
    → WellFormed s
    → Falls n ps
    → All (IsOutstanding s) ps
    → WellFormed (release_positions s ps)
unfolding release_positions
release_positions-WellFormed s n [] v f h = v
release_positions-WellFormed s n (p ∷ ps) v f h =
    release_positions-WellFormed (release_position s p) p ps (release_position-WellFormed s p v h.0)
      f.1 (later_IsOutstanding s p p h.0 (omega arith) ps f.1 h.1)

-- Giving positions back writes nothing and moves no reader.
pub release_positions-same :
    (s : Store) (ps : List ℕ)
    → ((release_positions s ps).log ≡ s.log) × ((release_positions s ps).watermark ≡ s.watermark)
unfolding release_positions release_position
release_positions-same s [] = (refl, refl)
release_positions-same s (p ∷ ps) = ground (arith, release_positions-same (release_position s p) ps)

abbrev pub sorted : List ℕ → List ℕ
sorted = sort_by not_after

below_next : (s : Store) (ps : List ℕ) → All (IsOutstanding s) ps → All (λ p. p < s.reserved + 1) ps
below_next s [] h = tt
below_next s (p ∷ ps) h = (omega arith, below_next s ps h.1)

-- Giving back distinct outstanding positions of a well-formed store leaves it well formed, and
-- changes nothing at or below the watermark.
pub release-WellFormed :
    (s : Store) (ps : List ℕ)
    → WellFormed s
    → Distinct ps
    → All (IsOutstanding s) ps
    → WellFormed (release s ps) × Extends s (release s ps)
unfolding release
release-WellFormed s ps v d h =
    let t : Store = release_positions s (sorted ps) in
    let (log, watermark) = release_positions-same s (sorted ps) in
    let v' : WellFormed t =
      release_positions-WellFormed s (s.reserved + 1) (sorted ps) v
        (Falls-sort_by (s.reserved + 1) ps (below_next s ps h) d)
        (All-sort_by (IsOutstanding s) not_after ps h) in
    (advance-WellFormed t v', Extends-trans (stays t log watermark) (advance-Extends t))
  where
    stays : (t : Store) → t.log ≡ s.log → t.watermark ≡ s.watermark → Extends s t
    stays t l w = record { watermark_le = omega arith; log_seen = λ p _. cc }

-- Every position reserved and not yet seen is written or a gap.
abbrev pub NothingOutstanding : Store → Type 0
NothingOutstanding s =
    (p : ℕ) → s.watermark < p → p ≤ s.reserved → (has s.log p || contains p s.gaps) ≡ true

-- In a settled well-formed store where nothing is outstanding, readers see all that is reserved.
pub watermark-eq-reserved :
    (s : Store) → WellFormed s → IsSettled s → NothingOutstanding s → s.watermark ≡ s.reserved
watermark-eq-reserved s v settled all = elim (Bool-cases (ltb s.watermark s.reserved)) [
  | inl behind ↦
      absurd (false≢true (sym blocked ∙ all (s.watermark + 1) (omega arith) (ground arith)))
  | inr caught ↦ ground (arith, v.seen)
]
  where
    blocked : (has s.log (s.watermark + 1) || contains (s.watermark + 1) s.gaps) ≡ false
    blocked = ground arith

-- What is neither written nor a gap is among the positions still to give back.
abbrev OnlyThese : Store → List ℕ → Type 0
OnlyThese s ps =
    (p : ℕ)
    → s.watermark < p
    → p ≤ s.reserved
    → (has s.log p || contains p s.gaps || contains p ps) ≡ true

release_positions-OnlyThese :
    (s : Store) (n : ℕ) (ps : List ℕ) → OnlyThese s ps → NothingOutstanding (release_positions s ps)
unfolding release_positions release_position
release_positions-OnlyThese s n [] all = λ p a b. ground (arith, all p a b)
release_positions-OnlyThese s n (p ∷ ps) all =
    release_positions-OnlyThese (release_position s p) p ps (λ q a b.
      ground (arith, all q, nat_beq_iff p s.reserved, contains-add p q s.gaps, nat_beq_iff p q))

advance-NothingOutstanding : (s : Store) → NothingOutstanding s → NothingOutstanding (advance s)
advance-NothingOutstanding s all =
    advance_induction NothingOutstanding (λ t _ h. round t h) (λ t ns h. h) s all
  where
    round : (t : Store) → NothingOutstanding t → NothingOutstanding (advance_round t)
    round t h =
        unfold advance_round in
        λ p a b.
          ground (
            arith,
            h p,
            contains-without (t.watermark + 1) p t.gaps,
            nat_beq_iff (t.watermark + 1) p,
          )

-- Where all that a well-formed store still waits for is given back at once, readers reach the last
-- reserved position.
pub release-catches_up :
    (s : Store) (ps : List ℕ)
    → WellFormed s
    → Distinct ps
    → All (IsOutstanding s) ps
    → OnlyThese s ps
    → (release s ps).watermark ≡ (release s ps).reserved
unfolding release
release-catches_up s ps v d h all =
    watermark-eq-reserved (release s ps) (release-WellFormed s ps v d h).0
      (advance-IsSettled (release_positions s (sorted ps)))
      (advance-NothingOutstanding (release_positions s (sorted ps)) (
        release_positions-OnlyThese s (s.reserved + 1) (sorted ps)
          (λ p a b. ground (arith, all p a b, contains-sort_by not_after p ps))))
