-- ===== src/Kernel/Aggregate/Snapshotting.antt =====
-- kernel/snapshot/subscriber.ts: snapshots taken of the streams that a batch of events moved on.
-- Telemetry and logs are left out; a strict app's `onError` is the error's answer. `loads n` are the
-- loads made for the n-th stream of the batch, and `holds` who holds the keys of a snapshot.
pub mod Trust
mod Tests
use Prim.Native.String.{◌++◌ as text_append}
use bounda.Prelude.{ℕ, zero, suc, ◌+◌, String, Bool, true, false, Option, none, some, List, [], ◌∷◌}
use bounda.Prelude.Tests.{ltb, leb, if◌then◌else◌, ◌==◌, string_eq}
use bounda.Prelude.Lists.{length}
use bounda.Prelude.Dict.{Dict, set}
use bounda.Contracts.Errors.{snapshot_failed, runtime_error, Failure, Result, ok, err, ◌>>=◌}
use bounda.Contracts.Events.{StreamIdentity, KeyedPerson}
use bounda.Memory.Snapshots
use bounda.Memory.Snapshots.{Snapshot}
use bounda.Kernel.Aggregate.{Event, SnapshotSettings, AggregateRuntime}
use bounda.Kernel.Aggregate.Codec.{Devalue, serialize_fold}
use bounda.Kernel.Aggregate.Loading.{LoadedEvents, LoadedAggregate, Shares, Loader, load}

-- The last version that a batch names of each of the aggregate's streams.
unfoldable pub heads_of : String → List Event → Dict String ℕ → Dict String ℕ
heads_of name [] heads = heads
heads_of name (event ∷ events) heads =
    heads_of name events
      (if event.aggregate_type == name then set heads event.aggregate_id event.version else heads)

module _ {R : Type 0} (shares : Shares R) (d : Devalue) (strict : Bool) (show : ℕ → String)
    (message : Failure → String) (loads : ℕ → ℕ → StreamIdentity → ℕ → Result LoadedEvents)
    (meanwhile : Snapshots.Store → Snapshots.Store) (holds : KeyedPerson → Bool)
    (a : AggregateRuntime R) (settings : SnapshotSettings R) where
  abbrev stream : String → StreamIdentity
  stream id = record { aggregate_type = a.name; aggregate_id = id }

  unfoldable pub not_serialized : String → Failure → Failure
  not_serialized id e = runtime_error (
      snapshot_failed (
        text_append "State of " (
          text_append a.name (
            text_append ":"
              (text_append id (text_append " cannot be snapshotted: " (message e)))))))

  unfoldable pub write :
      Loader R → String → LoadedAggregate → Result String → Loader R × Result (Unit {0})
  unfolding not_serialized
  write s id loaded (err e) = (s, if strict then err (not_serialized id e) else ok tt)
  write s id loaded (ok state) = (
    record s {
      snapshots =
          Snapshots.put s.snapshots
            (record {
              stream = stream id;
              version = loaded.version;
              fingerprint = settings.fingerprint;
              state = state;
              persons = loaded.persons;
            })
            holds;
    },
    ok tt,
  )

  unfoldable pub write_loaded :
      String → Loader R × Result LoadedAggregate → Loader R × Result (Unit {0})
  unfolding write
  write_loaded id (s, err e) = (s, err e)
  write_loaded id (s, ok loaded) = write s id loaded (serialize_fold d loaded.folded)

  unfoldable pub snapshot : ℕ → Loader R → String → Loader R × Result (Unit {0})
  unfolding write_loaded
  snapshot n s id = write_loaded id (load shares d strict show (loads n) meanwhile a s id)

  -- The version of the last snapshot that the aggregate's code can use.
  unfoldable pub since : Option Snapshot → ℕ
  since none = 0
  since (some current) = if current.fingerprint == settings.fingerprint then current.version else 0

  unfoldable pub is_due : Loader R → String → ℕ → Bool
  unfolding since
  is_due s id head =
      if ltb head settings.every
      then false
      else leb (since (Snapshots.get_snapshot s.snapshots (stream id)) + settings.every) head

  -- The batch goes on only while nothing is thrown.
  unfoldable pub process_from : ℕ → Loader R → Dict String ℕ → Loader R × Result (Unit {0})
  unfolding is_due snapshot
  process_from n s [] = (s, ok tt)
  process_from n s ((id, head) ∷ heads) =
      let (s', r) = (if is_due s id head then snapshot n s id else (s, ok tt)) in
      elim r [ err e ↦ (s', err e) | ok done ↦ process_from (n + 1) s' heads ]

  -- A batch that nothing stops is done with as a whole.
  unfoldable pub process : Loader R → List Event → Loader R × Result ℕ
  unfolding heads_of process_from
  process s events =
      let (s', r) = process_from 0 s (heads_of a.name events []) in
      (s', r >>= λ _. ok (length events))
