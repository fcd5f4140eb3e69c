-- ===== src/Memory/EventStore/Watermark.antt =====
-- The loop of `advance` in memory/event-store.ts: it ends, and what it keeps.
use bounda.Prelude.{ℕ, zero, suc, ◌+◌, ◌≤◌, ◌<◌, ◌≡◌, true, false, List, [], ◌∷◌, arith, inl, inr}
use bounda.Prelude.Tests.{ltb, if◌then◌else◌, Bool-cases, nat_eq}
use bounda.Prelude.Lists.{length, contains, length-without-lt}
use bounda.Prelude.Dict.{Dict, get, has}
use bounda.Memory.EventStore.{Store, Kept, can_advance, advance_round, advance_loop, advance}

-- The entries that readers do not see yet.
abbrev count_above : ℕ → Dict ℕ Kept → ℕ
count_above w [] = 0
count_above w ((p, k) ∷ m) = (if ltb w p then 1 else 0) + count_above w m

count_above-le-length : (w : ℕ) (m : Dict ℕ Kept) → count_above w m ≤ length m
count_above-le-length w [] = omega arith
count_above-le-length w ((p, k) ∷ m) = ground (arith, count_above-le-length w m)

count_above-suc-le : (w : ℕ) (m : Dict ℕ Kept) → count_above (w + 1) m ≤ count_above w m
count_above-suc-le w [] = omega arith
count_above-suc-le w ((p, k) ∷ m) = ground (arith, count_above-suc-le w m)

count_above-suc-lt :
    (w : ℕ) (m : Dict ℕ Kept) → has m (w + 1) ≡ true → count_above (w + 1) m < count_above w m
unfolding get
count_above-suc-lt w [] h = cc
count_above-suc-lt w ((p, k) ∷ m) h = ground (arith, count_above-suc-lt w m, count_above-suc-le w m)

abbrev measure : Store → ℕ
measure s = count_above s.watermark s.log + length s.gaps

measure-advance_round : (s : Store) → can_advance s ≡ true → measure (advance_round s) < measure s
unfolding can_advance advance_round
measure-advance_round s h = ground (
  arith,
  count_above-suc-lt s.watermark s.log,
  count_above-suc-le s.watermark s.log,
  length-without-lt (s.watermark + 1) s.gaps,
)

advance_loop-ends :
    (fuel : ℕ) (s : Store) → measure s ≤ fuel → can_advance (advance_loop fuel s) ≡ false
unfolding advance_loop
advance_loop-ends zero s h = elim (Bool-cases (can_advance s)) [
  | inl more ↦ absurd (omega (arith, measure-advance_round s more))
  | inr done ↦ done
]
advance_loop-ends (suc fuel) s h = elim (Bool-cases (can_advance s)) [
  | inl more ↦
      rw (more, advance_loop)
        (advance_loop-ends fuel (advance_round s) (omega (arith, measure-advance_round s more)))
  | inr done ↦ rw (done, advance_loop) done
]

-- What one round keeps, the loop keeps.
pub advance_loop_induction {ℓ} :
    (P : Store → Type ℓ)
    → ((s : Store) → can_advance s ≡ true → P s → P (advance_round s))
    → (fuel : ℕ) (s : Store) → P s
    → P (advance_loop fuel s)
unfolding advance_loop
advance_loop_induction P keep zero s h = h
advance_loop_induction P keep (suc fuel) s h = elim (Bool-cases (can_advance s)) [
  | inl more ↦
      rw (more, advance_loop) (advance_loop_induction P keep fuel (advance_round s) (keep s more h))
  | inr done ↦ rw (done, advance_loop) h
]

-- The next position is neither written nor a gap.
abbrev pub IsSettled : Store → Type 0
IsSettled s = (has s.log (s.watermark + 1) ≡ false) × (contains (s.watermark + 1) s.gaps ≡ false)

settled : (s : Store) → can_advance s ≡ false → IsSettled s
unfolding can_advance
settled s h = ground arith

-- From any state, `advance` runs its loop until the position after the watermark is neither written
-- nor a gap: the fuel of the model is never what stops it.
pub advance-IsSettled : (s : Store) → IsSettled (advance s)
unfolding advance
advance-IsSettled s =
    let done = settled (advance_loop (length s.log + length s.gaps) s) (
      advance_loop-ends (length s.log + length s.gaps) s
        (omega (arith, count_above-le-length s.watermark s.log))) in
    ground (arith, done)

-- `onAppend` aside, `advance` is its loop.
pub advance_induction {ℓ} :
    (P : Store → Type ℓ)
    → ((s : Store) → can_advance s ≡ true → P s → P (advance_round s))
    → ((s : Store) (ns : List ℕ) → P s → P (record s { notified = ns }))
    → (s : Store) → P s
    → P (advance s)
unfolding advance
advance_induction P keep silent s h =
    let after : Store = advance_loop (length s.log + length s.gaps) s in
    let held : P after = advance_loop_induction P keep (length s.log + length s.gaps) s h in
    elim (Bool-cases (ltb s.watermark after.watermark)) [
      | inl moved ↦ rw moved (silent after _ held)
      | inr stayed ↦ rw stayed held
    ]

-- What holds of the store between two calls: positions that were given back are above the
-- watermark and not in the log, and no position passes the last reserved one.
pub record WellFormed (s : Store) : Type 0 where
  pub log_within : (p : ℕ) → has s.log p ≡ true → p ≤ s.reserved
  pub gaps_within : (p : ℕ) → contains p s.gaps ≡ true → (s.watermark < p) × (p ≤ s.reserved)
  pub apart : (p : ℕ) → contains p s.gaps ≡ true → has s.log p ≡ false
  pub seen : s.watermark ≤ s.reserved
