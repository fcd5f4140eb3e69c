-- ===== src/Memory/Entries/Tests.antt =====
-- A transaction that writes two entries, one of which someone else writes again before it fails.
-- Objects stand as numbers, one for each identity.
use text.Mathlib.TextEquality.{eq_iff}
use bounda.Prelude.{ℕ, String, ◌≡◌, refl, true, false, List, [], ◌∷◌, arith}
use bounda.Prelude.Tests.{nat_eq, string_eq}
use bounda.Prelude.Dict.{Dict, get}
use bounda.Memory.Entries.{Change, tracked, undo_all, read}
use bounda.Memory.Entries.Undo.{Remembers, start, write, undo_all-restores, undo_all-leaves}

abbrev before : Dict String ℕ
before = ("a", 1) ∷ []

abbrev once : Dict String ℕ
once = ("a", 2) ∷ []

abbrev twice : Dict String ℕ
twice = ("a", 2) ∷ ("b", 3) ∷ []

-- Someone else wrote `b` since.
abbrev overwritten : Dict String ℕ
overwritten = ("a", 2) ∷ ("b", 4) ∷ []

abbrev changes : List (Change ℕ)
changes = tracked once twice "b" ∷ tracked before once "a" ∷ []

remembered : Remembers before changes twice
unfolding get
remembered =
    write twice "b" (write once "a" start (λ j other. ground arith)) (λ j other. ground arith)

undo_all-restores_example : get (undo_all overwritten changes) "a" ≡ get before "a"
unfolding get
undo_all-restores_example = undo_all-restores remembered overwritten "a" refl

undo_all-leaves_sample : get (undo_all overwritten changes) "b" ≡ get overwritten "b"
unfolding get tracked read
undo_all-leaves_sample =
    undo_all-leaves overwritten "b" changes (λ same e. ground arith, (λ same e. differ same, tt))
  where
    differ : ◌≡◌ {A = String} "a" "b" → ⊥
    differ same = let x : false ≡ true = (eq_iff "a" "b").1 same in cc
