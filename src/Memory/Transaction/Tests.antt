-- ===== src/Memory/Transaction/Tests.antt =====
-- A transaction that loads an order of one event and stages another for it.
use bounda.Prelude.{ℕ, ◌+◌, String, ◌≡◌, refl, some, [], ◌∷◌, arith}
use bounda.Prelude.Tests.{string_eq, nat_eq}
use bounda.Prelude.Lists.{length}
use bounda.Prelude.Dict.{get, set}
use bounda.Contracts.Errors.{runtime_error, concurrency, ok, err}
use bounda.Contracts.Events.{StreamIdentity, PendingEvent, AppendArgs, stream_id, keyed_person_eq}
use bounda.Adapter.StagedEvents
use bounda.Adapter.StagedEvents.{Streams, StagedStream}
use bounda.Adapter.StagedEvents.Batches.{opened, loads, appends}
use bounda.Memory.EventStore
use bounda.Memory.EventStore.{Codec, Store, empty, stream_of, load}
use bounda.Memory.EventStore.Streams.{IsLossless}
use bounda.Memory.Transaction.{memory_base, commit}
use bounda.Memory.Transaction.Commit.{commit-load, load-commit_failed, IsNumbered}

-- Payloads and metadata that are JSON texts already.
abbrev texts : Codec String String
texts = record {
  payload_json = λ p. some p;
  payload_parse = λ t. t;
  metadata_json = λ m. some m;
  metadata_parse = λ t. t;
}

texts-IsLossless : IsLossless texts
texts-IsLossless = record { payload_back = λ p t h. cc; metadata_back = λ m t h. cc }

abbrev order : StreamIdentity
order = record { aggregate_type = "order"; aggregate_id = "1" }

abbrev order_event : ℕ → PendingEvent String String
order_event version = record {
  id = "e";
  aggregate_type = "order";
  aggregate_id = "1";
  version = version;
  type = "OrderChanged";
  payload = "{}";
  timestamp = "2026-01-01T00:00:00.000Z";
  metadata = "{}";
  person = some "ann";
}

abbrev appending : ℕ → AppendArgs String String
appending version = record {
  stream = order;
  expected_version = version;
  events = order_event (version + 1) ∷ [];
  persons = [];
}

abbrev stored : Store
stored = (EventStore.append texts empty (appending 0)).0

abbrev seen : Streams String String
seen = (StagedEvents.load (memory_base texts) stored [] order 1).0

abbrev staged : Streams String String
staged = (StagedEvents.append (memory_base texts) stored seen (appending 1)).1

abbrev reserving : Store
reserving = (StagedEvents.append (memory_base texts) stored seen (appending 1)).0

abbrev staged_order : StagedStream String String
staged_order = record {
  stream = order;
  base = 1;
  events = record { event = order_event 2; position = 2 } ∷ [];
  persons = [];
}

abbrev committed : Store
committed = (commit texts reserving staged (2 ∷ [])).0

committed_ok : commit texts reserving staged (2 ∷ []) ≡ (committed, ok tt)
unfolding commit EventStore.append EventStore.append_all EventStore.release EventStore.load
    EventStore.reserve StagedEvents.append StagedEvents.load StagedEvents.batches get set stream_id
committed_ok = refl

staged_there : get staged (stream_id order) ≡ some staged_order
unfolding EventStore.append EventStore.append_all EventStore.load EventStore.reserve
    StagedEvents.append StagedEvents.load get set stream_id
staged_there = refl

stored_IsNumbered : IsNumbered (stream_of reserving (stream_id order))
unfolding EventStore.append EventStore.append_all EventStore.load EventStore.reserve
    StagedEvents.append StagedEvents.load get set stream_id
stored_IsNumbered = omega arith

commit-load_example :
    (length (stream_of reserving (stream_id order)) ≡ 1)
    × (load texts committed order 1
        ≡ (StagedEvents.load (memory_base texts) reserving staged order 1).1)
unfolding StagedEvents.is_staged
commit-load_example =
    commit-load texts texts-IsLossless reserving committed staged (2 ∷ [])
      (appends (loads opened stored order 1) stored (appending 1)) committed_ok order staged_order 1
      staged_there refl stored_IsNumbered

-- Someone else appended to the order meanwhile.
abbrev overtaken : Store
overtaken = (EventStore.append texts reserving (appending 1)).0

abbrev failed : Store
failed = (commit texts overtaken staged (2 ∷ [])).0

commit-failed :
    commit texts overtaken staged (2 ∷ [])
    ≡ (failed, err (runtime_error (concurrency "order:1" 1 2)))
unfolding commit EventStore.append EventStore.append_all EventStore.release EventStore.load
    EventStore.reserve StagedEvents.append StagedEvents.load StagedEvents.batches get set stream_id
commit-failed = refl

load-commit_failed_example : load texts failed order 1 ≡ load texts overtaken order 1
load-commit_failed_example =
    load-commit_failed texts texts-IsLossless overtaken failed staged (2 ∷ [])
      (appends (loads opened stored order 1) stored (appending 1))
      (runtime_error (concurrency "order:1" 1 2)) commit-failed order 1
