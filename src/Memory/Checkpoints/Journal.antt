-- ===== src/Memory/Checkpoints/Journal.antt =====
-- The checkpoint journal of memory/transaction.ts: what `undo` puts back.
use text.Mathlib.TextEquality.{eq_iff}
use bounda.Prelude.{ℕ, ◌≡◌, ap, ◌∙◌, String, false, ◌&&◌, [], arith, inl, inr}
use bounda.Prelude.Tests.{if◌then◌else◌, ◌==◌, nat_eq, string_eq, Bool-cases}
use bounda.Prelude.Dict.{set, get-set, get-delete}
use bounda.Memory.Checkpoints.{
  Store, get_position, set_position, compare_and_set, remove, Journaled, changed, journal_set,
  journal_compare_and_set, journal_remove, undo,
}

get_position-compare_and_set :
    (s : Store) (subscriber : String) (expected position : ℕ) (k : String)
    → get_position (compare_and_set s subscriber expected position).0 k ≡ (
        if subscriber == k && get_position s subscriber == expected
        then position
        else get_position s k)
unfolding compare_and_set get_position
get_position-compare_and_set s subscriber expected position k =
    ground (arith, get-set s subscriber position k)

-- A journal that wrote to `s`: its base store now, and the changes it remembers.
pub data Journals (s : Store) : Journaled → Type 0 where
  start : Journals s (record { base = s; changes = [] })
  sets :
      {j : Journaled}
      → Journals s j
      → (subscriber : String) (position : ℕ) → Journals s (journal_set j subscriber position)
  swaps :
      {j : Journaled}
      → Journals s j
      → (subscriber : String) (expected position : ℕ)
      → Journals s (journal_compare_and_set j subscriber expected position).0
  removes :
      {j : Journaled}
      → Journals s j
      → (subscriber : String) → Journals s (journal_remove j subscriber)

-- Undoing the newest change gives the position before it.
undone :
    (base t s' : Store) (subscriber k : String)
    → ((subscriber == k) ≡ false → get_position t k ≡ get_position base k)
    → get_position s' k ≡ get_position t k
    → get_position
        (compare_and_set s' subscriber (get_position t subscriber) (get_position base subscriber)).0
        k
      ≡ get_position base k
undone base t s' subscriber k others h =
    get_position-compare_and_set s' subscriber (get_position t subscriber)
      (get_position base subscriber) k
    ∙ elim (Bool-cases (subscriber == k)) [
      | inl own ↦
          let same : subscriber ≡ k = (eq_iff subscriber k).0 own in
          ground (
            arith,
            ap (get_position s') same,
            ap (get_position t) same,
            ap (get_position base) same,
          )
      | inr other ↦ rw other (h ∙ others other)
    ]

set_others :
    (s : Store) (subscriber : String) (position : ℕ) (k : String)
    → (subscriber == k) ≡ false
    → get_position (set_position s subscriber position) k ≡ get_position s k
unfolding set_position get_position
set_others s subscriber position k other = ground (arith, get-set s subscriber position k)

remove_others :
    (s : Store) (subscriber k : String)
    → (subscriber == k) ≡ false
    → get_position (remove s subscriber) k ≡ get_position s k
unfolding remove get_position
remove_others s subscriber k other = ground (arith, get-delete s subscriber k)

swap_undone :
    (j : Journaled) (subscriber : String) (expected position : ℕ) (s' : Store) (k : String) (p : ℕ)
    → ((u : Store)
        → get_position u k ≡ get_position j.base k
        → get_position (undo u j.changes) k ≡ p)
    → get_position s' k
      ≡ get_position (journal_compare_and_set j subscriber expected position).0.base k
    → get_position (undo s' (journal_compare_and_set j subscriber expected position).0.changes) k
      ≡ p
unfolding journal_compare_and_set compare_and_set changed undo
swap_undone j subscriber expected position s' k p ih h =
    elim (Bool-cases (get_position j.base subscriber == expected)) [
      | inl swapped ↦
          let t : Store = set j.base subscriber position in
          let before : get_position j.base subscriber ≡ expected = ground arith in
          rw (swapped, ← before)
            (ih _ (
              undone j.base t s' subscriber k
                (unfold set_position in set_others j.base subscriber position k) (ground arith)))
      | inr moved ↦ rw moved (ih s' (ground arith))
    ]

-- Whatever a transaction wrote through the journal, and whatever others wrote to other subscribers
-- meanwhile: undoing gives each subscriber whose position nobody moved since the position it had.
pub undo-positions :
    (s : Store) {j : Journaled}
    → Journals s j
    → (s' : Store) (k : String) → get_position s' k ≡ get_position j.base k
    → get_position (undo s' j.changes) k ≡ get_position s k
unfolding undo journal_set journal_remove changed
undo-positions s start s' k h = h
undo-positions s (sets {j = j} r subscriber position) s' k h = undo-positions s r _ k (
    undone j.base (set_position j.base subscriber position) s' subscriber k
      (set_others j.base subscriber position k) h)
undo-positions s (swaps {j = j} r subscriber expected position) s' k h =
    swap_undone j subscriber expected position s' k (get_position s k) (λ u. undo-positions s r u k)
      h
undo-positions s (removes {j = j} r subscriber) s' k h =
    undo-positions s r _ k (
      undone j.base (remove j.base subscriber) s' subscriber k (remove_others j.base subscriber k)
        h)
