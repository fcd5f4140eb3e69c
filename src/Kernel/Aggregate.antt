-- ===== src/Kernel/Aggregate.antt =====
-- kernel/aggregate/runtime.ts, kernel/aggregate/fold-state.ts and `personsOf` of
-- kernel/personal-data/persons.ts: an aggregate's state folded from the events of its stream, and the
-- people whose data they carry. The functions of an event module may throw.
pub mod Folding
pub mod Upcasting
pub mod Codec
pub mod Fixture
pub mod Loading
pub mod Snapshotting
mod Tests
use Prim.Native.String.{◌++◌ as text_append}
use bounda.Prelude.{
  ℕ, String, Bool, true, false, ◌&&◌, ◌||◌, not, Option, none, some, List, [], ◌∷◌,
}
use bounda.Prelude.Tests.{if◌then◌else◌}
use bounda.Prelude.Lists.{any}
use bounda.Prelude.Tests.{string_eq}
use bounda.Prelude.Dict.{Dict, get, set, values}
use bounda.Contracts.Errors.{configuration, runtime_error, Result, ok, err, ◌>>=◌}
use bounda.Contracts.Events.{EventMetadata, StoredEvent, KeyedPerson, keyed_person_eq}
use bounda.Kernel.Values.{
  Value, Fields, undefined, null, text, number, object, end, is_undefined, is_missing, as_record,
  get_field, merge_fields,
}

abbrev pub Event : Type 0
Event = StoredEvent Value EventMetadata

-- `person` is none where the aggregate itself is the person.
pub record PersonalMarks : Type 0 where
  pub person : Option String
  pub fields : List String

pub record EventRuntime : Type 0 where
  pub begin : Option (Event → Result Value)
  pub evolve : Option (Fields → Event → Result Value)
  pub upcasts : List (Value → Result Value)
  pub schema_version : ℕ
  pub personal : Option PersonalMarks

-- `verify` is a share, of a type of numbers `R`.
pub record SnapshotSettings (R : Type 0) : Type 0 where
  pub every : ℕ
  pub verify : R
  pub fingerprint : String

pub record AggregateRuntime (R : Type 0) : Type 0 where
  pub name : String
  pub initial_state : Fields
  pub opens_with_begin : Bool
  pub snapshot : Option (SnapshotSettings R)
  pub events_by_type : Dict String EventRuntime

pub record FoldedState : Type 0 where
  pub state : Fields
  pub created : Bool
  pub opened_without : Option String

module _ {R : Type 0} (a : AggregateRuntime R) where
  pub runtime_of : Event → Result EventRuntime
  runtime_of event = elim (get a.events_by_type event.type) [
    | some runtime ↦ ok runtime
    | none ↦ err (
        runtime_error (
          configuration (
            text_append "Aggregate \"" (
              text_append a.name (
                text_append "\" has no event module for stored event \""
                  (text_append event.type "\""))))))
  ]

  pub merged : Event → Fields → Value → Result Fields
  merged event state returned =
      if is_undefined returned then ok state else (elim (as_record returned) [
        | some fields ↦ ok (merge_fields state fields)
        | none ↦ err (
            runtime_error (
              configuration (
                text_append "Aggregate \"" (
                  text_append a.name (
                    text_append "\" folded \""
                      (text_append event.type "\" into a state that is not an object"))))))
      ])

  -- `runtime.begin?.({ event })`
  pub begun : EventRuntime → Event → Result Value
  begun runtime event = elim runtime.begin [ none ↦ ok undefined | some begin ↦ begin event ]

  abbrev pub lacks {ℓ} : {A : Type ℓ} → Option A → Bool
  lacks none = true
  lacks (some x) = false

  -- What the event's function for its place returns.
  pub fold_value : EventRuntime → FoldedState → Event → Result Value
  unfolding begun
  fold_value runtime f event = elim runtime.evolve [
    | none ↦ begun runtime event
    | some evolve ↦
        if not f.created && not (lacks runtime.begin)
        then begun runtime event
        else evolve f.state event
  ]

  unfoldable pub fold_event : FoldedState → Event → Result FoldedState
  unfolding runtime_of merged fold_value
  fold_event f event = if event.metadata.system then ok f else (do
    runtime ← runtime_of event
    fold ← fold_value runtime f event
    state ← merged event f.state fold
    ok (record {
      state = state;
      created = true;
      opened_without =
          if not f.created && (lacks runtime.begin && a.opens_with_begin)
          then some event.type
          else f.opened_without;
    }))

  abbrev pub initial : FoldedState
  initial = record { state = a.initial_state; created = false; opened_without = none }

  unfoldable pub fold_state : List Event → FoldedState → Result FoldedState
  unfolding fold_event
  fold_state [] from = ok from
  fold_state (event ∷ events) from = do f ← fold_event from event; fold_state events f

  -- Whether one of the marked fields still holds a value.
  pub still_holds : PersonalMarks → Fields → Bool
  still_holds marks payload =
      any (λ field. elim (get_field field payload) [ none ↦ false | some v ↦ not (is_missing v) ])
        marks.fields

  pub person_named : Value → Option String
  person_named (text s) = some s
  person_named (number s) = some s
  person_named _ = none

  pub named_by : PersonalMarks → String → Fields → Option String
  unfolding person_named
  named_by marks aggregate_id payload = elim marks.person [
    | none ↦ some aggregate_id
    | some field ↦ elim (get_field field payload) [ none ↦ none | some v ↦ person_named v ]
  ]

  pub add_person :
      Dict String String
      → Dict KeyedPerson KeyedPerson
      → Option String
      → Dict KeyedPerson KeyedPerson
  add_person fingerprints persons none = persons
  add_person fingerprints persons (some person) =
      let held : KeyedPerson = record { person = person; fingerprint = get fingerprints person } in
      set persons held held

  pub add_persons_of :
      Dict String String
      → PersonalMarks
      → Event
      → Dict KeyedPerson KeyedPerson
      → Dict KeyedPerson KeyedPerson
  unfolding still_holds named_by add_person
  add_persons_of fingerprints marks event persons = elim (as_record event.payload) [
    | none ↦ persons
    | some payload ↦
        if still_holds marks payload
        then add_person fingerprints persons (named_by marks event.aggregate_id payload)
        else persons
  ]

  pub marks_of : Event → Option PersonalMarks
  marks_of event = elim (get a.events_by_type event.type) [
    | none ↦ none
    | some runtime ↦ runtime.personal
  ]

  pub add_all :
      Dict String String → List Event → Dict KeyedPerson KeyedPerson → Dict KeyedPerson KeyedPerson
  unfolding marks_of add_persons_of
  add_all fingerprints [] persons = persons
  add_all fingerprints (event ∷ events) persons =
      add_all fingerprints events (elim (marks_of event) [
        | none ↦ persons
        | some marks ↦ add_persons_of fingerprints marks event persons
      ])

  -- The persons known already, kept first. An entry stands for its own key, `keyedPersonId`.
  pub known : List KeyedPerson → Dict KeyedPerson KeyedPerson → Dict KeyedPerson KeyedPerson
  known [] persons = persons
  known (held ∷ from) persons = known from (set persons held held)

  unfoldable pub persons_of : List Event → Dict String String → List KeyedPerson → List KeyedPerson
  unfolding add_all known
  persons_of events fingerprints from = values (add_all fingerprints events (known from []))
