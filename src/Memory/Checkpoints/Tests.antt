-- ===== src/Memory/Checkpoints/Tests.antt =====
-- A transaction that moves one checkpoint twice and removes another.
use bounda.Prelude.{◌≡◌, refl, [], ◌∷◌}
use bounda.Prelude.Tests.{string_eq, nat_eq}
use bounda.Prelude.Dict.{get, set, delete}
use bounda.Memory.Checkpoints.{
  Store, Journaled, get_position, undo, journal_set, journal_compare_and_set, journal_remove,
}
use bounda.Memory.Checkpoints.Journal.{start, sets, swaps, removes, undo-positions}

abbrev before : Store
before = ("mails", 4) ∷ ("bills", 2) ∷ []

abbrev journaled : Journaled
journaled =
    journal_remove
      (journal_compare_and_set (journal_set (record { base = before; changes = [] }) "mails" 6)
        "mails" 6 9).0
      "bills"

-- Someone else moved `bills` since.
abbrev moved : Store
moved = ("mails", 9) ∷ ("bills", 5) ∷ []

undo-positions_example :
    get_position (undo moved journaled.changes) "mails" ≡ get_position before "mails"
unfolding journal_remove journal_compare_and_set journal_set get_position get set delete
undo-positions_example =
    undo-positions before (removes (swaps (sets start "mails" 6) "mails" 6 9) "bills") moved "mails"
      refl
