-- ===== src/Memory/PersonalKeys/Agreement.antt =====
-- memory/personal-key-store.ts: writers agree on a person's key, and a key is named by one
-- fingerprint however it is wrapped.
use text.Mathlib.TextEquality.{eq_iff}
use bounda.Prelude.{◌≡◌, ◌⊎◌, ap, String, true, none, some, arith, inl, inr}
use bounda.Prelude.Tests.{◌==◌, string_eq, Bool-cases, Option-cases}
use bounda.Prelude.Dict.{get, get-set, get-delete}
use bounda.Memory.PersonalKeys.{
  Store, StoredPersonalKey, RewrappedKey, add, remove, rewrap, holds, get_key,
}

-- A call that writes to the store, and the store after it.
pub data Step (s : Store) : Store → Type 0 where
  adds : (person : String) (key : StoredPersonalKey) → Step s (add s person key).0
  removes : (person : String) → Step s (remove s person).0
  rewraps :
      (person : String) (from : StoredPersonalKey) (to : RewrappedKey)
      → Step s (rewrap s person from to).0

-- Two writers that add a key for one person, one after the other, get the same key, the one that
-- `get` then answers, and the second changes nothing.
pub add-agrees :
    (s : Store) (person : String) (first second : StoredPersonalKey)
    → let t = (add s person first).0 in
      (add t person second ≡ (t, (add s person first).1))
      × (get_key t person ≡ some (add s person first).1)
unfolding add get_key
add-agrees s person first second =
    ground (arith, get-set s person first person, eq_iff person person)

-- Each call leaves a person who holds the key of a fingerprint with that key, however it is wrapped
-- by then, or with none: no call puts another key in its place.
pub Step-holds :
    {s t : Store}
    → Step s t
    → (person fingerprint : String)
    → holds s (record { person = person; fingerprint = some fingerprint }) ≡ true
    → (holds t (record { person = person; fingerprint = some fingerprint }) ≡ true)
      ⊎ (get_key t person ≡ none)
unfolding holds get_key add remove rewrap
Step-holds {s} (adds p key) person fingerprint h =
    inl (ground (arith, get-set s p key person, eq_iff p person, ap (get s)))
Step-holds {s} (removes p) person fingerprint h = elim (Bool-cases (p == person)) [
  | inl own ↦ inr (ground (arith, get-delete s p person))
  | inr other ↦ inl (ground (arith, get-delete s p person))
]
Step-holds {s} (rewraps p from to) person fingerprint h = elim (Option-cases (get s p)) [
  | inl gone ↦ inl (ground arith)
  | inr (held, there) ↦ inl (
      ground (
        arith,
        get-set s p (record held { key = to.key; kid = to.kid }) person,
        eq_iff p person,
        ap (get s),
      ))
]
