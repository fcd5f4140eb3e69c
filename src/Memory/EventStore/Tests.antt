-- ===== src/Memory/EventStore/Tests.antt =====
-- Runs of memory/event-store.ts on small inputs.
use bounda.Prelude.{ℕ, ◌+◌, ◌-◌, ◌≡◌, refl, String, some, [], ◌∷◌, ◌++◌, arith, inr}
use bounda.Prelude.Tests.{nat_eq, string_eq, ◌==◌, if◌then◌else◌}
use bounda.Prelude.Lists.{take}
use bounda.Prelude.Dict.{get, set}
use bounda.Contracts.Errors.{ok}
use bounda.Contracts.Events.{StreamIdentity, PendingEvent, AppendArgs, AppendResult, stream_id}
use bounda.Memory.EventStore.{
  Store, Codec, empty, append, append_all, load, read_all, release, reserve, advance, keep_all,
  last_position,
}
use bounda.Memory.EventStore.Watermark.{IsSettled, WellFormed, advance-IsSettled}
use bounda.Memory.EventStore.Writes.{Extends, append_all-Extends}
use bounda.Memory.EventStore.Release.{release-catches_up, release-WellFormed}
use bounda.Memory.EventStore.Readers.{Continues, window, read_all-eq-take-window}
use bounda.Memory.EventStore.Streams.{IsLossless, at_least, load-append}
use bounda.Memory.EventStore.Paging.{cursor, read_all-pages}
use bounda.Memory.EventStore.Runs.{
  IsSound, Reach, reserves, appends, here, next, empty-IsSound, Reach-IsSound,
  readers_never_overtaken,
}

-- Payloads and metadata that are JSON texts already.
abbrev texts : Codec String String
texts = record {
  payload_json = λ p. some p;
  payload_parse = λ t. t;
  metadata_json = λ m. some m;
  metadata_parse = λ t. t;
}

texts-IsLossless : IsLossless texts
texts-IsLossless = record { payload_back = λ p t h. cc; metadata_back = λ m t h. cc }

abbrev order : StreamIdentity
order = record { aggregate_type = "order"; aggregate_id = "1" }

abbrev placed_event : PendingEvent String String
placed_event = record {
  id = "e1";
  aggregate_type = "order";
  aggregate_id = "1";
  version = 1;
  type = "OrderPlaced";
  payload = "{}";
  timestamp = "2026-01-01T00:00:00.000Z";
  metadata = "{}";
  person = some "ann";
}

abbrev first_append : AppendArgs String String
first_append = record {
  stream = order;
  expected_version = 0;
  events = placed_event ∷ [];
  persons = [];
}

abbrev one_event : Store
one_event = (append_all texts empty (record { args = first_append; positions = [] } ∷ [])).0

one_event_watermark : last_position one_event ≡ 1
unfolding append_all last_position get set stream_id
one_event_watermark = refl

one_event-Reach : Reach texts empty one_event
one_event-Reach = next here (appends (record { args = first_append; positions = [] } ∷ []) (tt, tt))

readers_never_overtaken_example :
    Continues (read_all texts one_event 0 10) (read_all texts (reserve one_event).1 0 10)
readers_never_overtaken_example =
    readers_never_overtaken texts one_event (reserve one_event).1 0 10 one_event-Reach
      (next here reserves)

Reach-IsSound_example : IsSound one_event × Extends empty one_event
Reach-IsSound_example = Reach-IsSound texts (empty-IsSound texts) one_event-Reach

load-append_example :
    (r : AppendResult String String) × ((append texts empty first_append).1 ≡ ok r)
    × (r.version ≡ 0 + 1)
    × ((stream : StreamIdentity) (from : ℕ)
        → load texts (append texts empty first_append).0 stream from ≡ (
            if stream_id order == stream_id stream
            then record {
              events = (load texts empty order from).events ++ at_least texts from r.events;
              version = r.version;
            }
            else load texts empty stream from))
unfolding keep_all get
load-append_example =
    load-append texts texts-IsLossless empty first_append (placed_event ∷ []) refl refl

read_all-pages_example :
    read_all texts one_event 0 (1 + 1)
    ≡ read_all texts one_event 0 1
      ++ read_all texts one_event (cursor 0 (read_all texts one_event 0 1)) 1
read_all-pages_example =
    read_all-pages texts one_event
      (Reach-IsSound texts (empty-IsSound texts) one_event-Reach).0.indexed 0 1 1

-- Two positions reserved: the first is given back, then the second.
abbrev two_reserved : Store
two_reserved = record empty { reserved = 2 }

two_reserved-WellFormed : WellFormed two_reserved
unfolding get
two_reserved-WellFormed = record {
  log_within = λ p h. cc;
  gaps_within = λ p g. cc;
  apart = λ p g. cc;
  seen = omega arith;
}

release-catches_up_example :
    (release two_reserved (1 ∷ 2 ∷ [])).watermark ≡ (release two_reserved (1 ∷ 2 ∷ [])).reserved
unfolding get
release-catches_up_example =
    release-catches_up two_reserved (1 ∷ 2 ∷ []) two_reserved-WellFormed (refl, (refl, tt))
      ((omega arith, omega arith, refl, refl), ((omega arith, omega arith, refl, refl), tt))
      (λ p a b. ground arith)

release-WellFormed_sample :
    WellFormed (release two_reserved (1 ∷ []))
    × Extends two_reserved (release two_reserved (1 ∷ []))
unfolding get
release-WellFormed_sample =
    release-WellFormed two_reserved (1 ∷ []) two_reserved-WellFormed (refl, tt)
      ((omega arith, omega arith, refl, refl), tt)

advance-IsSettled_example : IsSettled (advance one_event)
advance-IsSettled_example = advance-IsSettled one_event

append_all-Extends_sample :
    WellFormed
      (append_all texts two_reserved (record { args = first_append; positions = 2 ∷ [] } ∷ [])).0
    × Extends two_reserved
        (append_all texts two_reserved (record { args = first_append; positions = 2 ∷ [] } ∷ [])).0
append_all-Extends_sample =
    append_all-Extends texts two_reserved (record { args = first_append; positions = 2 ∷ [] } ∷ [])
      two_reserved-WellFormed ((inr (omega arith, omega arith, refl), tt), tt)

read_all-eq-take-window_example :
    read_all texts one_event 0 5 ≡ take 5 (window texts one_event (0 + 1) (one_event.watermark - 0))
read_all-eq-take-window_example = read_all-eq-take-window texts one_event 0 5
