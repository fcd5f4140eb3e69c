-- ===== src/Memory/Entries.antt =====
-- memory/entries.ts, and the undo log of memory/transaction.ts: what a transaction remembers of each
-- entry it writes, and how a failed one puts the entries back. `V`'s `==` is the `===` of the code:
-- the identity of a stored object, which is new on every write.
pub mod Undo
mod Tests
use bounda.Prelude.{◌≡◌, refl, Bool, true, false, String, Option, none, some, List, [], ◌∷◌, arith}
use bounda.Prelude.Tests.{if◌then◌else◌, Strict, ◌==◌, string_eq}
use bounda.Prelude.Dict.{Dict, get, set, delete}

-- `===` on what a map answers, `undefined` included.
abbrev pub same_entry {ℓ} : {V : Type ℓ} ⦃e : Strict V⦄ → Option V → Option V → Bool
same_entry none none = true
same_entry none (some w) = false
same_entry (some v) none = false
same_entry (some v) (some w) = v == w

pub record Change (V : Type 0) : Type 0 where
  pub key : String
  pub before : Option V
  pub after : Option V

module _ {V : Type 0} ⦃e : Strict V⦄ where
  pub read : Dict String V → String → Option V
  read m key = get m key

  put_entry : Dict String V → String → Option V → Dict String V
  put_entry m key none = delete m key
  put_entry m key (some v) = set m key v

  pub put_back : Dict String V → String → Option V → Option V → Dict String V
  unfolding put_entry
  put_back m key before after = if same_entry (get m key) after then put_entry m key before else m

  -- `trackedBy`: `m` is the map before the write and `m'` the map after it.
  pub tracked : Dict String V → Dict String V → String → Change V
  unfolding read
  tracked m m' key = record { key = key; before = read m key; after = read m' key }

  -- `undoAll` on the changes, newest first.
  pub undo_all : Dict String V → List (Change V) → Dict String V
  unfolding put_back
  undo_all m [] = m
  undo_all m (c ∷ cs) = undo_all (put_back m c.key c.before c.after) cs
