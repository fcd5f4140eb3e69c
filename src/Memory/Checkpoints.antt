-- ===== src/Memory/Checkpoints.antt =====
-- memory/checkpoint-store.ts, and the journal of memory/transaction.ts that undoes what a
-- transaction wrote to checkpoints.
pub mod Journal
mod Tests
use bounda.Prelude.{ℕ, String, Bool, true, false, Option, none, some, List, [], ◌∷◌}
use bounda.Prelude.Tests.{if◌then◌else◌, ◌==◌, nat_eq, string_eq}
use bounda.Prelude.Dict.{Dict, get, set, delete}

abbrev pub Store : Type 0
Store = Dict String ℕ

abbrev pub or_zero : Option ℕ → ℕ
or_zero none = 0
or_zero (some position) = position

unfoldable pub get_position : Store → String → ℕ
get_position s subscriber = or_zero (get s subscriber)

unfoldable pub set_position : Store → String → ℕ → Store
set_position s subscriber position = set s subscriber position

unfoldable pub compare_and_set : Store → String → ℕ → ℕ → Store × Bool
unfolding get_position
compare_and_set s subscriber expected position =
    if get_position s subscriber == expected then (set s subscriber position, true) else (s, false)

unfoldable pub remove : Store → String → Store
remove s subscriber = delete s subscriber

pub record Checkpoint : Type 0 where
  pub subscriber : String
  pub position : ℕ

unfoldable pub list : Store → List Checkpoint
list [] = []
list ((subscriber, position) ∷ s) = record { subscriber = subscriber; position = position } ∷ list s

-- A change of a checkpoint.
pub record CheckpointChange : Type 0 where
  pub subscriber : String
  pub before : ℕ
  pub after : ℕ

-- The journal's store writes through: the base store and the changes, newest first.
pub record Journaled : Type 0 where
  pub base : Store
  pub changes : List CheckpointChange

changed : Journaled → Store → String → ℕ → Journaled
changed j base subscriber before = record {
  base = base;
  changes =
      record { subscriber = subscriber; before = before; after = get_position base subscriber }
      ∷ j.changes;
}

pub journal_set : Journaled → String → ℕ → Journaled
unfolding changed set_position
journal_set j subscriber position =
    changed j (set_position j.base subscriber position) subscriber (get_position j.base subscriber)

pub journal_compare_and_set : Journaled → String → ℕ → ℕ → Journaled × Bool
unfolding changed compare_and_set
journal_compare_and_set j subscriber expected position =
    let (base, swapped) = compare_and_set j.base subscriber expected position in
    (if swapped then changed j base subscriber expected else j, swapped)

pub journal_remove : Journaled → String → Journaled
unfolding changed remove
journal_remove j subscriber =
    changed j (remove j.base subscriber) subscriber (get_position j.base subscriber)

-- `undo`: newest first.
pub undo : Store → List CheckpointChange → Store
undo s [] = s
undo s (c ∷ cs) = undo (compare_and_set s c.subscriber c.after c.before).0 cs
