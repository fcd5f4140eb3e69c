-- ===== src/Memory/Persons.antt =====
-- memory/person-store.ts: who is restricted, and when each person was last active and forgotten.
-- Times are milliseconds.
pub mod Activity
mod Tests
use Prim.Native.Nat.{compare}
use bounda.Prelude.{ℕ, String, Bool, true, false, ◌&&◌, Option, none, some, List, [], ◌∷◌, map}
use bounda.Prelude.Tests.{leb, if◌then◌else◌, string_eq}
use bounda.Prelude.Lists.{take, keep_if, sort_by}
use bounda.Prelude.Dict.{Dict, get, set, values}
use bounda.Adapter.Order.{unit_order, then_by, is_not_after}

pub record StoredPerson : Type 0 where
  pub person : String
  pub restricted_since : Option ℕ
  pub last_active_at : Option ℕ
  pub forgotten_at : Option ℕ

pub record KeptPerson : Type 0 where
  pub stored : StoredPerson
  pub open stored use *
  pub position : ℕ

pub record PersonActivity : Type 0 where
  pub person : String
  pub position : ℕ
  pub last_active_at : Option ℕ
  pub forgotten_at : Option ℕ

abbrev pub Store : Type 0
Store = Dict String KeptPerson

abbrev pub is_none {ℓ} : {A : Type ℓ} → Option A → Bool
is_none none = true
is_none (some a) = false

-- `a ?? b`.
abbrev pub or_else {ℓ} : {A : Type ℓ} → Option A → Option A → Option A
or_else none b = b
or_else (some a) b = some a

kept_or_new : String → Option KeptPerson → KeptPerson
kept_or_new person (some kept) = kept
kept_or_new person none = record {
  stored = record {
    person = person;
    restricted_since = none;
    last_active_at = none;
    forgotten_at = none;
  };
  position = 0;
}

unfoldable pub existing : Store → String → KeptPerson
unfolding kept_or_new
existing s person = kept_or_new person (get s person)

stored_of : Option KeptPerson → Option StoredPerson
stored_of none = none
stored_of (some kept) = some kept.stored

unfoldable pub get_person : Store → String → Option StoredPerson
unfolding stored_of
get_person s person = stored_of (get s person)

unfoldable pub restrict : Store → String → ℕ → Store × Bool
unfolding existing
restrict s person since =
    let kept = existing s person in
    if is_none kept.restricted_since
    then (
      set s person (record kept { stored = record kept.stored { restricted_since = some since } }),
      true,
    )
    else (s, false)

lift_restriction : Store → String → Option KeptPerson → Store × Bool
lift_restriction s person none = (s, false)
lift_restriction s person (some kept) = if is_none kept.restricted_since then (s, false) else (
  set s person (record kept { stored = record kept.stored { restricted_since = none } }),
  true,
)

unfoldable pub unrestrict : Store → String → Store × Bool
unfolding lift_restriction
unrestrict s person = lift_restriction s person (get s person)

-- `record`.
unfoldable pub record_activity : Store → PersonActivity → Store
unfolding existing
record_activity s activity =
    let kept = existing s activity.person in
    if leb activity.position kept.position
    then s
    else set s activity.person (record {
      stored = record kept.stored {
        last_active_at = or_else activity.last_active_at kept.last_active_at;
        forgotten_at = activity.forgotten_at;
      };
      position = activity.position;
    })

active_by : Option ℕ → Option ℕ → Bool
active_by none active_before = false
active_by (some at) none = true
active_by (some at) (some before) = leb at before

unfoldable pub is_idle : Option ℕ → KeptPerson → Bool
unfolding active_by
is_idle active_before kept =
    is_none kept.forgotten_at
    && is_none kept.restricted_since
    && active_by kept.last_active_at active_before

-- `isIdle` keeps only persons with a time.
active_at : KeptPerson → ℕ
active_at kept = elim kept.last_active_at [ none ↦ 0 | some at ↦ at ]

unfoldable pub list_idle : Store → Option ℕ → ℕ → List StoredPerson
unfolding active_at
list_idle s active_before limit =
    map (λ kept. kept.stored)
      (take limit (
        sort_by
          (λ a b.
            is_not_after
              (then_by (compare (active_at a) (active_at b)) (unit_order a.person b.person)))
          (keep_if (is_idle active_before) (values s))))
