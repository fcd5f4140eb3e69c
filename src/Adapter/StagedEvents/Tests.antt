-- ===== src/Adapter/StagedEvents/Tests.antt =====
-- A view over a base store that holds nothing and counts the positions it gave.
use bounda.Prelude.{ℕ, ◌+◌, String, ◌≡◌, refl, none, [], ◌∷◌, ◌++◌, map, arith}
use bounda.Prelude.Tests.{if◌then◌else◌, ◌==◌, string_eq}
use bounda.Prelude.Lists.{length}
use bounda.Prelude.Dict.{get}
use bounda.Contracts.Errors.{runtime_error, concurrency, ok, err}
use bounda.Contracts.Events.{StreamIdentity, PendingEvent, AppendArgs, AppendResult, stream_id}
use bounda.Adapter.StagedEvents.{Base, IsLawful, load, append}
use bounda.Adapter.StagedEvents.View.{at_least, append-load, append-conflicting}
use bounda.Adapter.StagedEvents.Batches.{opened, loads, appends, IsView, Views-IsView}

abbrev counting : Base ℕ String String
counting = record {
  load = λ s stream from. record { events = []; version = 0 };
  next_position = λ s. (s + 1, s + 1);
}

counting-IsLawful : IsLawful counting
counting-IsLawful = record {
  version_from = λ s stream from from'. refl;
  next_position_pos = λ s. omega arith;
}

abbrev order : StreamIdentity
order = record { aggregate_type = "order"; aggregate_id = "1" }

abbrev order_placed : PendingEvent String String
order_placed = record {
  id = "e1";
  aggregate_type = "order";
  aggregate_id = "1";
  version = 1;
  type = "OrderPlaced";
  payload = "{}";
  timestamp = "2026-01-01T00:00:00.000Z";
  metadata = "{}";
  person = none;
}

abbrev placing : AppendArgs String String
placing = record { stream = order; expected_version = 0; events = order_placed ∷ []; persons = [] }

append-load_example :
    (r : AppendResult String String) × ((append counting 7 [] placing).2 ≡ ok r)
    × (r.version ≡ 0 + length placing.events)
    × (map (λ e. e.event) r.events ≡ placing.events)
    × ((u : ℕ) (stream : StreamIdentity) (from : ℕ)
        → (load counting u (append counting 7 [] placing).1 stream from).1 ≡ (
            if stream_id order == stream_id stream
            then record {
              events =
                  (load counting u (load counting 7 [] order 1).0 stream from).1.events
                  ++ at_least from r.events;
              version = r.version;
            }
            else (load counting u (load counting 7 [] order 1).0 stream from).1))
unfolding load get
append-load_example = append-load counting counting-IsLawful 7 [] placing 1 refl

append-conflicting_sample : append counting 7 [] (record placing { expected_version = 3 }) ≡ (
  7,
  (load counting 7 [] order 1).0,
  err (runtime_error (concurrency (stream_id order) 3 (load counting 7 [] order 1).1.version)),
)
unfolding load get
append-conflicting_sample =
    append-conflicting counting counting-IsLawful 7 [] (record placing { expected_version = 3 }) 1
      (omega arith)

Views-IsView_sample : IsView (append counting 8 (load counting 7 [] order 1).0 placing).1
Views-IsView_sample =
    Views-IsView counting counting-IsLawful (appends (loads opened 7 order 1) 8 placing)
