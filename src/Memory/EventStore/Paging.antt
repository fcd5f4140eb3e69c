-- ===== src/Memory/EventStore/Paging.antt =====
-- Reading `readAll` of memory/event-store.ts page by page, as the dispatcher does: from the last
-- position of a page on.
use native.Mathlib.Nat.{zero-add, suc-add}
use bounda.Prelude.{
  ℕ, zero, suc, ◌+◌, ◌-◌, ◌≡◌, refl, ap, none, some, List, [], ◌∷◌, ◌++◌, arith, inl, inr,
}
use bounda.Prelude.Tests.{Option-cases, nat_eq}
use bounda.Prelude.Dict.{get}
use bounda.Contracts.Events.{StoredEvent}
use bounda.Memory.EventStore.{Store, Kept, Codec, restore, read_from, read_all}

-- The log holds each event under its own position.
pub record IsIndexed (s : Store) : Type 0 where
  pub at : (p : ℕ) (k : Kept) → get s.log p ≡ some k → k.position ≡ p

-- Where the next page starts: after the last event of this one.
pub cursor : {P M : Type 0} → ℕ → List (StoredEvent P M) → ℕ
cursor after [] = after
cursor after (e ∷ es) = cursor e.position es

module _ {P M : Type 0} (c : Codec P M) (s : Store) (indexed : IsIndexed s) where
  -- A position that holds nothing may be skipped.
  read_all_skip :
      (left a room : ℕ)
      → s.watermark - a ≡ suc left
      → get s.log (a + 1) ≡ none
      → read_all c s a room ≡ read_all c s (a + 1) room
  unfolding read_all read_from
  read_all_skip left a zero e gap = refl
  read_all_skip left a (suc room) e gap =
      let shorter : s.watermark - (a + 1) ≡ left = omega arith in
      rw (e, shorter) (rw (gap, read_from))

  cursor_skip :
      (left a room : ℕ)
      → s.watermark - a ≡ suc left
      → get s.log (a + 1) ≡ none
      → (es : List (StoredEvent P M))
      → read_all c s (cursor a es) room ≡ read_all c s (cursor (a + 1) es) room
  unfolding cursor
  cursor_skip left a room e gap [] = read_all_skip left a room e gap
  cursor_skip left a room e gap (x ∷ xs) = refl

  read_from-zero : (at room : ℕ) → read_from c 0 s at room ≡ []
  unfolding read_from
  read_from-zero at zero = refl
  read_from-zero at (suc room) = refl

  cursor-restore :
      (a : ℕ) (k : Kept)
      → get s.log (a + 1) ≡ some k
      → (es : List (StoredEvent P M)) → cursor a (restore c k ∷ es) ≡ cursor (a + 1) es
  unfolding cursor restore
  cursor-restore a k there es = ap (λ p. cursor p es) (indexed.at (a + 1) k there)

  read_from-pages :
      (left a m n : ℕ)
      → s.watermark - a ≡ left
      → read_from c left s (a + 1) (m + n)
        ≡ read_from c left s (a + 1) m ++ read_all c s (cursor a (read_from c left s (a + 1) m)) n
  unfolding read_from
  read_from-pages left a zero n e = rw zero-add (unfold read_all cursor in rw e)
  read_from-pages zero a (suc m) n e =
      rw (read_from-zero (a + 1) (suc m + n))
        (unfold read_all cursor in rw (e, read_from-zero (a + 1) n))
  read_from-pages (suc left) a (suc m) n e = elim (Option-cases (get s.log (a + 1))) [
    | inl gap ↦
        rw (suc-add, gap, read_from)
          (cc (
            read_from-pages left (a + 1) (suc m) n (omega arith),
            suc-add m n,
            cursor_skip left a n e gap (read_from c left s (a + 1 + 1) (suc m)),
          ))
    | inr (k, there) ↦
        rw (suc-add, there, read_from)
          (cc (
            read_from-pages left (a + 1) m n (omega arith),
            cursor-restore a k there (read_from c left s (a + 1 + 1) m),
          ))
  ]

  -- In a store whose log holds each event under its own position, a page of `m` events and the page
  -- of `n` events after its last position are together the page of `m + n` events: no event is
  -- skipped or read twice, whatever gaps lie between.
  pub read_all-pages :
      (after m n : ℕ)
      → read_all c s after (m + n)
        ≡ read_all c s after m ++ read_all c s (cursor after (read_all c s after m)) n
  unfolding read_all
  read_all-pages after m n = read_from-pages (s.watermark - after) after m n refl
