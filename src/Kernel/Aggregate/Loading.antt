-- ===== src/Kernel/Aggregate/Loading.antt =====
-- kernel/aggregate/load-aggregate.ts: an aggregate's state, from its snapshot or from its first event.
-- Telemetry and logs are left out. `loads i` answers the i-th load that a call makes of its event
-- store, which others may append to between two, and `meanwhile` is what others do to the snapshots
-- before a call drops one. The shares that `verify` adds up are of a type of numbers `R`.
pub mod Streams
pub mod Replay
pub mod Drops
mod Tests
use Prim.Native.String.{◌++◌ as text_append}
use bounda.Prelude.{ℕ, ◌+◌, String, Bool, true, false, Option, none, some, List, [], ◌∷◌, min}
use bounda.Prelude.Tests.{ltb, leb, if◌then◌else◌, ◌==◌, string_eq}
use bounda.Prelude.Lists.{length, keep_if}
use bounda.Prelude.Dict.{Dict, get, set}
use bounda.Contracts.Errors.{snapshot_failed, runtime_error, Failure, Result, ok, err, ◌>>=◌}
use bounda.Contracts.Events.{StreamIdentity, KeyedPerson}
use bounda.Memory.Snapshots
use bounda.Memory.Snapshots.{Snapshot}
use bounda.Kernel.Aggregate.{
  Event, SnapshotSettings, AggregateRuntime, FoldedState, fold_state, initial, persons_of,
}
use bounda.Kernel.Aggregate.Codec.{Devalue, deserialize_fold, folds_equal}

-- What a load of an event store answers.
pub record LoadedEvents : Type 0 where
  pub events : List Event
  pub version : ℕ
  pub fingerprints : Dict String String

pub data SnapshotOutcome : Type 0 where
  missing stale unreadable ahead used verified mismatch : SnapshotOutcome

pub record LoadedSnapshot : Type 0 where
  pub outcome : SnapshotOutcome
  pub version : Option ℕ

pub record LoadedAggregate : Type 0 where
  pub folded : FoldedState
  pub version : ℕ
  pub persons : List KeyedPerson
  pub snapshot : Option LoadedSnapshot
  pub folded_events : ℕ

-- What the sampling does with the shares.
pub record Shares (R : Type 0) : Type 0 where
  pub none_yet : R
  pub plus : R → R → R
  pub is_whole : R → Bool
  pub less_one : R → R

pub record Loader (R : Type 0) : Type 0 where
  pub snapshots : Snapshots.Store
  pub credits : Dict String R

abbrev pub judged : SnapshotOutcome → Option ℕ → LoadedAggregate → LoadedAggregate
judged outcome version loaded = record loaded {
  snapshot = some (record { outcome = outcome; version = version });
}

abbrev pub within : Option ℕ → List Event → List Event
within none events = events
within (some through) events = keep_if (λ e. leb e.version through) events

abbrev pub capped : Option ℕ → ℕ → ℕ
capped none version = version
capped (some through) version = min version through

module _ {R : Type 0} (shares : Shares R) (d : Devalue) (strict : Bool) (show : ℕ → String)
    (loads : ℕ → StreamIdentity → ℕ → Result LoadedEvents)
    (meanwhile : Snapshots.Store → Snapshots.Store) (a : AggregateRuntime R) where
  unfoldable pub credit_of : Loader R → R
  credit_of s = elim (get s.credits a.name) [ none ↦ shares.none_yet | some credit ↦ credit ]

  unfoldable pub due : Loader R → R → Loader R × Bool
  unfolding credit_of
  due s verify =
      let credit = shares.plus (credit_of s) verify in
      if strict then (s, true) else (
        record s {
          credits =
              set s.credits a.name
                (if shares.is_whole credit then shares.less_one credit else credit);
        },
        shares.is_whole credit,
      )

  unfoldable pub whole_of : Option ℕ → LoadedEvents → FoldedState → LoadedAggregate
  whole_of through loaded folded = record {
    folded = folded;
    version = capped through loaded.version;
    persons = persons_of a (within through loaded.events) loaded.fingerprints [];
    snapshot = none;
    folded_events = length (within through loaded.events);
  }

  unfoldable pub from_start : ℕ → StreamIdentity → Option ℕ → Result LoadedAggregate
  unfolding whole_of
  from_start i stream through = do
    loaded ← loads i stream 1
    folded ← fold_state a (within through loaded.events) (initial a)
    ok (whole_of through loaded folded)

  unfoldable pub judge :
      SnapshotOutcome → Option ℕ → Result LoadedAggregate → Result LoadedAggregate
  judge outcome version loaded = do l ← loaded; ok (judged outcome version l)

  unfoldable pub drop_snapshot : Loader R → StreamIdentity → Loader R
  drop_snapshot s stream = record s { snapshots = Snapshots.remove (meanwhile s.snapshots) stream }

  unfoldable pub dropped :
      Loader R → StreamIdentity → SnapshotOutcome → ℕ → Loader R × Result LoadedAggregate
  unfolding drop_snapshot from_start judge
  dropped s stream outcome i =
      (drop_snapshot s stream, judge outcome none (from_start i stream none))

  unfoldable pub mismatched : StreamIdentity → ℕ → ℕ → Failure
  mismatched stream version head = runtime_error (
      snapshot_failed (
        text_append "Snapshot of " (
          text_append stream.aggregate_type (
            text_append ":" (
              text_append stream.aggregate_id (
                text_append " at version " (
                  text_append (show version) (
                    text_append " folds to a state at version " (
                      text_append (show head)
                        " that differs from the stream's; the fold is not a function of the events alone")))))))))

  -- The snapshot's state against the whole stream's.
  unfoldable pub compared :
      Loader R
      → StreamIdentity
      → ℕ
      → LoadedAggregate
      → Result LoadedAggregate
      → Loader R × Result LoadedAggregate
  unfolding mismatched drop_snapshot
  compared s stream version loaded (err e) = (s, err e)
  compared s stream version loaded (ok whole) =
      if folds_equal loaded.folded whole.folded
      then (s, ok (judged verified (some version) loaded))
      else (if strict
          then (s, err (mismatched stream version loaded.version))
          else (drop_snapshot s stream, ok (judged mismatch none whole)))

  unfoldable pub sampled :
      Loader R × Bool → StreamIdentity → ℕ → LoadedAggregate → Loader R × Result LoadedAggregate
  unfolding compared from_start
  sampled (s, false) stream version loaded = (s, ok (judged used (some version) loaded))
  sampled (s, true) stream version loaded =
      compared s stream version loaded (from_start 1 stream (some loaded.version))

  unfoldable pub folded_on :
      Loader R
      → StreamIdentity
      → SnapshotSettings R
      → Snapshot
      → LoadedEvents
      → Result FoldedState
      → Loader R × Result LoadedAggregate
  unfolding sampled due
  folded_on s stream settings snapshot loaded (err e) = (s, err e)
  folded_on s stream settings snapshot loaded (ok folded) =
      sampled (due s settings.verify) stream snapshot.version (record {
        folded = folded;
        version = loaded.version;
        persons = persons_of a loaded.events loaded.fingerprints snapshot.persons;
        snapshot = none;
        folded_events = length loaded.events;
      })

  unfoldable pub load_after :
      Loader R
      → StreamIdentity
      → SnapshotSettings R
      → Snapshot
      → FoldedState
      → Result LoadedEvents
      → Loader R × Result LoadedAggregate
  unfolding dropped folded_on
  load_after s stream settings snapshot from (err e) = (s, err e)
  load_after s stream settings snapshot from (ok loaded) =
      if ltb loaded.version snapshot.version
      then dropped s stream ahead 1
      else folded_on s stream settings snapshot loaded (fold_state a loaded.events from)

  unfoldable pub load_read :
      Loader R
      → StreamIdentity
      → SnapshotSettings R
      → Snapshot
      → Result FoldedState
      → Loader R × Result LoadedAggregate
  unfolding dropped load_after
  load_read s stream settings snapshot (err e) = dropped s stream unreadable 0
  load_read s stream settings snapshot (ok from) =
      load_after s stream settings snapshot from (loads 0 stream (snapshot.version + 1))

  unfoldable pub load_from :
      Loader R
      → StreamIdentity
      → SnapshotSettings R
      → Option Snapshot
      → Loader R × Result LoadedAggregate
  unfolding load_read judge from_start
  load_from s stream settings none = (s, judge missing none (from_start 0 stream none))
  load_from s stream settings (some snapshot) =
      if snapshot.fingerprint == settings.fingerprint
      then load_read s stream settings snapshot (deserialize_fold d snapshot.state)
      else (s, judge stale none (from_start 0 stream none))

  unfoldable pub load_under :
      Loader R → StreamIdentity → Option (SnapshotSettings R) → Loader R × Result LoadedAggregate
  unfolding load_from from_start
  load_under s stream none = (s, from_start 0 stream none)
  load_under s stream (some settings) =
      load_from s stream settings (Snapshots.get_snapshot s.snapshots stream)

  unfoldable pub load : Loader R → String → Loader R × Result LoadedAggregate
  unfolding load_under
  load s aggregate_id =
      load_under s (record { aggregate_type = a.name; aggregate_id = aggregate_id }) a.snapshot
