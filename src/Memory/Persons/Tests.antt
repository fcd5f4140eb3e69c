-- ===== src/Memory/Persons/Tests.antt =====
-- A person whose activity is recorded, late and again, and whose processing is then restricted.
use bounda.Prelude.{ℕ, String, ◌≡◌, ◌≢◌, refl, false, none, some, [], ◌∷◌, arith}
use bounda.Prelude.Tests.{◌==◌, string_eq}
use bounda.Prelude.Lists.{All}
use bounda.Memory.Persons.{
  Store, KeptPerson, PersonActivity, record_activity, get_person, existing, restrict, list_idle,
}
use bounda.Memory.Persons.Activity.{record_activity_late, restricted-unlisted}

abbrev seen : ℕ → ℕ → PersonActivity
seen position at = record {
  person = "ada";
  position = position;
  last_active_at = some at;
  forgotten_at = none;
}

abbrev ada : KeptPerson
ada = record {
  stored = record {
    person = "ada";
    restricted_since = none;
    last_active_at = some 40;
    forgotten_at = none;
  };
  position = 3;
}

abbrev known : Store
known = ("ada", ada) ∷ []

record_activity_late_sample :
    (record_activity (record_activity known (seen 9 90)) (seen 8 80)
      ≡ record_activity known (seen 9 90))
    × ((person : String)
        → ("ada" == person) ≡ false
        → get_person (record_activity known (seen 9 90)) person ≡ get_person known person)
    × ((person : String)
        → (existing (record_activity known (seen 9 90)) person).restricted_since
          ≡ (existing known person).restricted_since)
record_activity_late_sample = record_activity_late known (seen 9 90) (seen 8 80) refl (omega arith)

restricted-unlisted_sample :
    All (λ p. p.person ≢ "ada") (list_idle (restrict known "ada" 100).0 none 10)
    × (restrict (restrict known "ada" 100).0 "ada" 200 ≡ ((restrict known "ada" 100).0, false))
restricted-unlisted_sample = restricted-unlisted known "ada" 100 200 none 10 (refl, refl, tt)
