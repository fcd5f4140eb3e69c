-- ===== src/Adapter/StagedEvents.antt =====
-- adapter/staged-event-store.ts: appends held back until a commit, and the view of a stream with them.
-- The base store is a `Base`: its state is whatever others make of it between two calls. What `load`
-- says of fingerprints is left out, which the memory store never says.
pub mod View
pub mod Batches
mod Tests
use bounda.Prelude.{
  ℕ, ◌+◌, ◌<◌, ◌≡◌, String, Bool, true, false, ◌&&◌, Option, none, some, List, [], ◌∷◌, ◌++◌, map,
}
use bounda.Prelude.Tests.{leb, if◌then◌else◌, ◌==◌, nat_eq, string_eq, Strict}
use bounda.Prelude.Lists.{length, keep_if}
use bounda.Prelude.Dict.{Dict, get, set, values}
use bounda.Contracts.Errors.{runtime_error, concurrency, Result, ok, err}
use bounda.Contracts.Events.{
  StreamIdentity, PendingEvent, StoredEvent, AppendArgs, AppendResult, LoadResult, KeyedPerson,
  keyed_person_eq, stream_id,
}

-- What the view uses of the store under it, in a state of its own.
pub record Base (S P M : Type 0) : Type 0 where
  pub load : S → StreamIdentity → ℕ → LoadResult P M
  pub next_position : S → ℕ × S

-- What the view relies on: a load answers one version wherever it starts, and positions start at 1.
pub record IsLawful {S P M : Type 0} (b : Base S P M) : Type 0 where
  pub version_from :
      (s : S) (stream : StreamIdentity) (from from' : ℕ)
      → (b.load s stream from).version ≡ (b.load s stream from').version
  pub next_position_pos : (s : S) → 0 < (b.next_position s).0

-- A batch to append at commit, with the position of each of its events.
pub record StagedBatch (P M : Type 0) : Type 0 where
  pub args : AppendArgs P M
  pub open args use *
  pub positions : List ℕ

pub record StagedStream (P M : Type 0) : Type 0 where
  pub stream : StreamIdentity
  pub base : ℕ
  pub events : List (StoredEvent P M)
  pub persons : Dict KeyedPerson KeyedPerson

abbrev pub Streams : Type 0 → Type 0 → Type 0
Streams P M = Dict String (StagedStream P M)

abbrev pub max_safe_integer : ℕ
max_safe_integer = 9007199254740991

-- `keyedPersonId` tells two entries apart exactly when they differ, so an entry stands for its key.
unfoldable pub keep_persons :
    Dict KeyedPerson KeyedPerson → List KeyedPerson → Dict KeyedPerson KeyedPerson
keep_persons kept [] = kept
keep_persons kept (held ∷ persons) = keep_persons (set kept held held) persons

module _ {P M : Type 0} where
  unfoldable pub created : StreamIdentity → ℕ → StagedStream P M
  created stream version = record { stream = stream; base = version; events = []; persons = [] }

  -- The staged stream, or a new one, which the map then keeps.
  unfoldable pub met : Streams P M → StreamIdentity → ℕ → StagedStream P M
  unfolding created
  met v stream version = elim (get v (stream_id stream)) [
    | some staged ↦ staged
    | none ↦ created stream version
  ]

  unfoldable pub meet : Streams P M → StreamIdentity → ℕ → Streams P M
  unfolding created
  meet v stream version = elim (get v (stream_id stream)) [
    | some staged ↦ v
    | none ↦ set v (stream_id stream) (created stream version)
  ]

  unfoldable pub is_staged : StagedStream P M → Bool
  is_staged staged = elim staged.events [ [] ↦ false | e ∷ es ↦ true ]

  unfoldable pub batch_of : StagedStream P M → StagedBatch P M
  batch_of staged = record {
    args = record {
      stream = staged.stream;
      expected_version = staged.base;
      events = map (λ e. e.event) staged.events;
      persons = values staged.persons;
    };
    positions = map (λ e. e.position) staged.events;
  }

  unfoldable pub batches : Streams P M → List (StagedBatch P M)
  unfolding is_staged batch_of
  batches v = map batch_of (keep_if is_staged (values v))

module _ {S P M : Type 0} (b : Base S P M) where
  -- `events.map(event => ({ ...event, position: nextPosition() }))`.
  unfoldable pub with_positions : S → List (PendingEvent P M) → List (StoredEvent P M) × S
  with_positions s [] = ([], s)
  with_positions s (e ∷ es) =
      let (p, s') = b.next_position s in
      let (stored, s'') = with_positions s' es in (record { event = e; position = p } ∷ stored, s'')

  -- The map and what `load` answers.
  unfoldable pub load : S → Streams P M → StreamIdentity → ℕ → Streams P M × LoadResult P M
  unfolding met meet
  load s v stream from_version =
      let stored = b.load s stream from_version in
      let staged = met v stream stored.version in
      (
        meet v stream stored.version,
        record {
          events =
              keep_if (λ e. leb e.version staged.base) stored.events
              ++ keep_if (λ e. leb from_version e.version) staged.events;
          version = staged.base + length staged.events;
        },
      )

  -- What `append` leaves of the base store's state and of the map, and what it answers.
  unfoldable pub append :
      S → Streams P M → AppendArgs P M → S × Streams P M × Result (AppendResult P M)
  unfolding met meet with_positions keep_persons
  append s v args =
      let version = (b.load s args.stream max_safe_integer).version in
      let staged = met v args.stream version in
      let v' = meet v args.stream version in
      let actual = staged.base + length staged.events in
      if actual == args.expected_version
      then (
        (with_positions s args.events).1,
        set v' (stream_id args.stream) (record staged {
          events = staged.events ++ (with_positions s args.events).0;
          persons = keep_persons staged.persons args.persons;
        }),
        ok (record {
          version = actual + length (with_positions s args.events).0;
          events = (with_positions s args.events).0;
        }),
      )
      else (
        s,
        v',
        err (runtime_error (concurrency (stream_id args.stream) args.expected_version actual)),
      )
