-- ===== src/Memory/PersonalKeys/Tests.antt =====
-- Two writers make a key for one person, and one of them has it wrapped again.
use bounda.Prelude.{String, ◌≡◌, ◌⊎◌, refl, true, none, some, [], ◌∷◌}
use bounda.Prelude.Tests.{string_eq}
use bounda.Prelude.Dict.{get}
use bounda.Memory.PersonalKeys.{Store, StoredPersonalKey, RewrappedKey, add, rewrap, holds, get_key}
use bounda.Memory.PersonalKeys.Agreement.{add-agrees, Step-holds, rewraps}

abbrev made : String → StoredPersonalKey
made f = record { key = "wrapped"; fingerprint = f; kid = none }

abbrev rewrapped : RewrappedKey
rewrapped = record { key = "again"; kid = some "kek" }

abbrev held : Store
held = ("ada", made "f1") ∷ []

add-agrees_sample :
    (add (add [] "ada" (made "f1")).0 "ada" (made "f2")
      ≡ ((add [] "ada" (made "f1")).0, (add [] "ada" (made "f1")).1))
    × (get_key (add [] "ada" (made "f1")).0 "ada" ≡ some (add [] "ada" (made "f1")).1)
add-agrees_sample = add-agrees [] "ada" (made "f1") (made "f2")

Step-holds_example :
    (holds
        (rewrap held "ada" (made "f1") rewrapped).0
        (record { person = "ada"; fingerprint = some "f1" })
      ≡ true)
    ⊎ (get_key (rewrap held "ada" (made "f1") rewrapped).0 "ada" ≡ none)
unfolding holds get
Step-holds_example = Step-holds {s = held} (rewraps "ada" (made "f1") rewrapped) "ada" "f1" refl
