-- ===== src/Kernel/Aggregate/Fixture.antt =====
-- An aggregate that keeps the last number it was told, over a stream that grows by an event, and a
-- `devalue` that knows one value.
use bounda.Prelude.{
  ℕ, zero, suc, ◌≡◌, refl, ap, sym, String, true, false, none, some, List, [], ◌∷◌,
}
use bounda.Prelude.Lists.{length}
use bounda.Contracts.Errors.{error, Result, ok, err, ok-injective}
use bounda.Contracts.Events.{EventMetadata, StreamIdentity}
use bounda.Kernel.Values.{Value, number, object, field, end}
use bounda.Kernel.Values.Decided.{Value-discrete}
use bounda.Kernel.Aggregate.{Event, EventRuntime, AggregateRuntime, SnapshotSettings, FoldedState}
use bounda.Kernel.Aggregate.Codec.{Devalue, IsFaithful}
use bounda.Kernel.Aggregate.Loading.{LoadedEvents, Shares}
use bounda.Kernel.Aggregate.Loading.Streams.{at_least, Follows, Numbered}

unfoldable pub only : Value → Devalue
only v = record {
  parse = λ t. ok v;
  stringify = λ w. elim (Value-discrete w v) [
    | yes same ↦ ok "only"
    | no other ↦ err (error "DevalueError")
  ];
}

pub only-IsFaithful : (v : Value) → IsFaithful (only v)
unfolding only
only-IsFaithful v = record { parse-stringify = λ w t h. parsed w t (Value-discrete w v) h }
  where
    parsed :
        (w : Value) (t : String) (decided : Dec (w ≡ v))
        → ◌≡◌ {A = Result String}
            (elim decided [ yes same ↦ ok "only" | no other ↦ err (error "DevalueError") ])
            (ok t)
        → ok v ≡ ok w
    parsed w t (yes same) h = cc
    parsed w t (no other) h = cc

pub only-stringify : (v : Value) → (only v).stringify v ≡ ok "only"
unfolding only
only-stringify v = known (Value-discrete v v)
  where
    known :
        (decided : Dec (v ≡ v))
        → ◌≡◌ {A = Result String}
            (elim decided [ yes same ↦ ok "only" | no other ↦ err (error "DevalueError") ])
            (ok "only")
    known (yes same) = refl
    known (no other) = absurd (other refl)

abbrev pub metadata : EventMetadata
metadata = record {
  correlation_id = "c";
  causation_id = "c";
  command_id = none;
  actor = none;
  depth = 0;
  schema_version = 1;
  system = false;
}

abbrev pub told : ℕ → String → Event
told n s = record {
  event = record {
    id = s;
    aggregate_type = "meter";
    aggregate_id = "1";
    version = n;
    type = "Told";
    payload = number s;
    timestamp = "t";
    metadata = metadata;
    person = none;
  };
  position = n;
}

abbrev pub settings : SnapshotSettings ℕ
settings = record { every = 1; verify = 1; fingerprint = "v1" }

abbrev pub meter_events : EventRuntime
meter_events = record {
  begin = none;
  evolve = some (λ state event. ok (object (field "n" event.payload end)));
  upcasts = [];
  schema_version = 1;
  personal = none;
}

abbrev pub meter : AggregateRuntime ℕ
meter = record {
  name = "meter";
  initial_state = field "n" (number "0") end;
  opens_with_begin = false;
  snapshot = some settings;
  events_by_type = ("Told", meter_events) ∷ [];
}

abbrev pub at_one : FoldedState
at_one = record { state = field "n" (number "7") end; created = true; opened_without = none }

-- The second load sees an event that the first did not.
abbrev pub history : ℕ → List Event
history zero = told 1 "7" ∷ told 2 "8" ∷ []
history (suc i) = told 1 "7" ∷ told 2 "8" ∷ told 3 "9" ∷ []

abbrev pub loads : ℕ → StreamIdentity → ℕ → Result LoadedEvents
loads i stream from =
    ok (record {
      events = at_least from (history i);
      version = length (history i);
      fingerprints = [];
    })

abbrev pub meter_stream : StreamIdentity
meter_stream = record { aggregate_type = "meter"; aggregate_id = "1" }

abbrev pub shares : Shares ℕ
shares = record { none_yet = 0; plus = λ m n. n; is_whole = λ n. true; less_one = λ n. 0 }

pub loads-Follows : Follows loads meter_stream history
loads-Follows = record {
  answers = λ i from l h.
      (ap (λ l. l.events) (sym (ok-injective h)), ap (λ l. l.version) (sym (ok-injective h)));
  is_numbered = numbered;
  new = told 3 "9" ∷ [];
  grows = refl;
}
  where
    numbered : (i : ℕ) → Numbered 0 (history i)
    numbered zero = (refl, (refl, tt))
    numbered (suc i) = (refl, (refl, (refl, tt)))
