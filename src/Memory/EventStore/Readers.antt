-- ===== src/Memory/EventStore/Readers.antt =====
-- `readAll` of memory/event-store.ts: what a reader gets, and that nothing overtakes it.
use bounda.Prelude.{
  ℕ, zero, suc, ◌+◌, ◌-◌, ◌≤◌, ◌≡◌, refl, ap, Option, none, some, List, [], ◌∷◌, ◌++◌, arith, inl,
  inr,
}
use bounda.Prelude.Tests.{Option-cases, nat_eq, ltb, Bool-cases}
use bounda.Prelude.Lists.{take}
use bounda.Prelude.Dict.{get}
use bounda.Contracts.Events.{StoredEvent}
use bounda.Memory.EventStore.{Store, Kept, Codec, restore, read_from, read_all}
use bounda.Memory.EventStore.Writes.{Extends}

-- `zs` is `xs` and more.
abbrev pub Continues {ℓ} : {A : Type ℓ} → List A → List A → Type ℓ
Continues {A} xs zs = (ys : List A) × (zs ≡ xs ++ ys)

module _ {P M : Type 0} (c : Codec P M) where
  -- The events at the `n` positions from `at` on, in order.
  abbrev found : Option Kept → List (StoredEvent P M) → List (StoredEvent P M)
  found none es = es
  found (some k) es = restore c k ∷ es

  pub window : Store → ℕ → ℕ → List (StoredEvent P M)
  window s at zero = []
  window s at (suc n) = found (get s.log at) (window s (at + 1) n)

  read_from-eq-window :
      (left : ℕ) (s : Store) (at room : ℕ)
      → read_from c left s at room ≡ take room (window s at left)
  unfolding read_from window
  read_from-eq-window left s at zero = refl
  read_from-eq-window zero s at (suc room) = refl
  read_from-eq-window (suc left) s at (suc room) = ground (
    arith,
    read_from-eq-window left s (at + 1) (suc room),
    read_from-eq-window left s (at + 1) room,
  )

  -- `readAll` is the first `limit` events of the log at the positions after `after` that the
  -- watermark has passed, in the order of their positions.
  pub read_all-eq-take-window :
      (s : Store) (after limit : ℕ)
      → read_all c s after limit ≡ take limit (window s (after + 1) (s.watermark - after))
  unfolding read_all
  read_all-eq-take-window s after limit =
      read_from-eq-window (s.watermark - after) s (after + 1) limit

  read_from-Continues :
      (s t : Store)
      → Extends s t
      → (left more at room : ℕ) → left ≤ more
      → at + left ≤ s.watermark + 1
      → Continues (read_from c left s at room) (read_from c more t at room)
  unfolding read_from
  read_from-Continues s t e left more at zero h k = ([], refl)
  read_from-Continues s t e zero more at (suc room) h k = (read_from c more t at (suc room), refl)
  read_from-Continues s t e (suc left) zero at (suc room) h k = absurd (omega arith)
  read_from-Continues s t e (suc left) (suc more) at (suc room) h k =
      rw (e.log_seen at (omega arith), read_from)
        (elim (Option-cases (get s.log at)) [
          | inl gap ↦
              rw (gap, read_from)
                (read_from-Continues s t e left more (at + 1) (suc room) (omega arith)
                  (omega arith))
          | inr (k', there) ↦
              let (es, eq) =
                read_from-Continues s t e left more (at + 1) room (omega arith) (omega arith) in
              rw (there, read_from) (es, ap (◌∷◌ (restore c k')) eq)
        ])

  -- Whatever a reader got from a store, it gets again, first and in the same order, from every store
  -- that extends it: no event appears before one that was already read.
  pub read_all-Continues :
      (s t : Store) (after limit : ℕ)
      → Extends s t
      → Continues (read_all c s after limit) (read_all c t after limit)
  unfolding read_all
  read_all-Continues s t after limit e = elim (Bool-cases (ltb s.watermark after)) [
    | inl past ↦ past_end (s.watermark - after) (ground arith) limit
    | inr within ↦
        read_from-Continues s t e (s.watermark - after) (t.watermark - after) (after + 1) limit
          (omega (arith, e.watermark_le)) (ground arith)
  ]
    where
      past_end :
          (left : ℕ)
          → left ≡ 0
          → (room : ℕ) → Continues (read_from c left s (after + 1) room) (read_all c t after room)
      past_end zero e room = (read_all c t after room, rw (nothing room))
        where
          nothing : (room : ℕ) → read_from c 0 s (after + 1) room ≡ []
          nothing zero = refl
          nothing (suc room) = refl
      past_end (suc left) e room = absurd (omega arith)
