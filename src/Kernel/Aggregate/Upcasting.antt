-- ===== src/Kernel/Aggregate/Upcasting.antt =====
-- kernel/aggregate/upcasting.ts: events of an older schema read as current ones. `show` is the text of
-- a number.
pub mod Current
use Prim.Native.String.{◌++◌ as text_append}
use bounda.Prelude.{ℕ, zero, suc, String, Bool, true, false, Option, none, some, List, [], ◌∷◌}
use bounda.Prelude.Tests.{ltb, if◌then◌else◌, ◌==◌, nat_eq, string_eq}
use bounda.Prelude.Lists.{drop}
use bounda.Prelude.Dict.{Dict, get}
use bounda.Contracts.Errors.{configuration, runtime_error, Failure, Result, ok, err, ◌>>=◌}
use bounda.Contracts.Events.{EventMetadata, StoredEvent}
use bounda.Kernel.Values.{Value}
use bounda.Kernel.Aggregate.{Event, EventRuntime, AggregateRuntime}

last_only {ℓ} : {A : Type ℓ} → List A → List A
last_only [] = []
last_only (x ∷ []) = x ∷ []
last_only (x ∷ y ∷ xs) = last_only (y ∷ xs)

-- `upcasts.slice(from - 1)`: a negative index counts from the end.
pub upcasts_from {ℓ} : {A : Type ℓ} → ℕ → List A → List A
unfolding last_only
upcasts_from zero upcasts = last_only upcasts
upcasts_from (suc n) upcasts = drop n upcasts

pub run_upcasts : List (Value → Result Value) → Value → Result Value
run_upcasts [] payload = ok payload
run_upcasts (upcast ∷ upcasts) payload = do next ← upcast payload; run_upcasts upcasts next

module _ {R : Type 0} (show : ℕ → String) (aggregates : Dict String (AggregateRuntime R)) where
  pub event_runtime : Event → Option EventRuntime
  event_runtime event = elim (get aggregates event.aggregate_type) [
    | none ↦ none
    | some a ↦ get a.events_by_type event.type
  ]

  pub unknown_version : Event → ℕ → Failure
  unknown_version event known = runtime_error (
      configuration (
        text_append "Event " (
          text_append event.id (
            text_append " (" (
              text_append event.type (
                text_append " of " (
                  text_append event.aggregate_type (
                    text_append ":" (
                      text_append event.aggregate_id (
                        text_append ") was written with schema version " (
                          text_append (show event.metadata.schema_version) (
                            text_append ", but this code knows " (
                              text_append (show known)
                                ". Deploy the code that wrote it")))))))))))))

  pub with_payload : Event → ℕ → Value → Event
  with_payload event schema_version payload = record {
    event = record event.event {
      payload = payload;
      metadata = record event.metadata { schema_version = schema_version };
    };
    position = event.position;
  }

  pub upcast_to : EventRuntime → Event → Result Event
  unfolding upcasts_from run_upcasts with_payload unknown_version
  upcast_to runtime event =
      let from = event.metadata.schema_version in
      if ltb runtime.schema_version from
      then err (unknown_version event runtime.schema_version)
      else (if from == runtime.schema_version then ok event else (do
        payload ← run_upcasts (upcasts_from from runtime.upcasts) event.payload
        ok (with_payload event runtime.schema_version payload)))

  pub current_under : Option EventRuntime → Event → Result Event
  unfolding upcast_to
  current_under none event = ok event
  current_under (some runtime) event =
      if event.metadata.system then ok event else upcast_to runtime event

  unfoldable pub upcast_event : Event → Result Event
  unfolding event_runtime current_under
  upcast_event event = current_under (event_runtime event) event

  -- `events.map(current)`, which throws at the first event that cannot be read.
  unfoldable pub upcast_all : List Event → Result (List Event)
  unfolding upcast_event
  upcast_all [] = ok []
  upcast_all (event ∷ events) = do
    current ← upcast_event event
    others ← upcast_all events
    ok (current ∷ others)
