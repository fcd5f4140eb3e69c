-- ===== src/Memory/PersonalKeys.antt =====
-- memory/personal-key-store.ts: the key of each person.
pub mod Agreement
mod Tests
use bounda.Prelude.{ℕ, String, Bool, true, false, ◌&&◌, not, Option, none, some, List, [], ◌∷◌}
use bounda.Prelude.Tests.{if◌then◌else◌, ◌==◌, string_eq}
use bounda.Prelude.Lists.{take, any, keep_if, sort_by}
use bounda.Prelude.Dict.{Dict, get, set, delete, has}
use bounda.Contracts.Events.{KeyedPerson}
use bounda.Adapter.Order.{unit_order, is_not_after}

pub record StoredPersonalKey : Type 0 where
  pub key : String
  pub fingerprint : String
  pub kid : Option String

pub record RewrappedKey : Type 0 where
  pub key : String
  pub kid : Option String

abbrev pub Store : Type 0
Store = Dict String StoredPersonalKey

-- `===` on `string | null`.
abbrev pub same_kid : Option String → Option String → Bool
same_kid none none = true
same_kid none (some b) = false
same_kid (some a) none = false
same_kid (some a) (some b) = a == b

unfoldable pub has_fingerprint : Option StoredPersonalKey → String → Bool
has_fingerprint none fingerprint = false
has_fingerprint (some stored) fingerprint = stored.fingerprint == fingerprint

unfoldable pub holds : Store → KeyedPerson → Bool
unfolding has_fingerprint
holds s held = elim held.fingerprint [
  | none ↦ true
  | some fingerprint ↦ has_fingerprint (get s held.person) fingerprint
]

unfoldable pub get_key : Store → String → Option StoredPersonalKey
get_key s person = get s person

-- The store and the key in force.
unfoldable pub add : Store → String → StoredPersonalKey → Store × StoredPersonalKey
add s person key = elim (get s person) [
  | some existing ↦ (s, existing)
  | none ↦ (set s person key, key)
]

unfoldable pub remove : Store → String → Store × Bool
remove s person = (delete s person, has s person)

pub list_wrapped_under : Store → List (Option String) → ℕ → List (String × StoredPersonalKey)
list_wrapped_under s kids limit = take limit (
    sort_by (λ a b. is_not_after (unit_order a.0 b.0))
      (keep_if (λ row. any (λ kid. same_kid kid row.1.kid) kids) s))

unfoldable pub rewrap : Store → String → StoredPersonalKey → RewrappedKey → Store × Bool
rewrap s person from to = elim (get s person) [
  | none ↦ (s, false)
  | some held ↦
      if held.key == from.key && held.fingerprint == from.fingerprint
      then (set s person (record held { key = to.key; kid = to.kid }), true)
      else (s, false)
]
