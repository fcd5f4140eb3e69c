-- ===== src/Kernel/Aggregate/Tests.antt =====
-- A meter's events read by code that renamed a field.
use bounda.Prelude.{ℕ, ◌≡◌, refl, [], ◌∷◌}
use bounda.Prelude.Dict.{get}
use bounda.Contracts.Errors.{ok}
use bounda.Kernel.Values.{number, object, field, end}
use bounda.Kernel.Aggregate.{Event, AggregateRuntime}
use bounda.Kernel.Aggregate.Upcasting.{upcast_all}
use bounda.Kernel.Aggregate.Upcasting.Current.{upcast_all-idempotent}
use bounda.Kernel.Aggregate.Fixture.{meter, meter_events, told}

-- The payload was a number, and is an object that holds it.
abbrev wrapped : AggregateRuntime ℕ
wrapped = record meter {
  events_by_type =
      (
        "Told",
        record meter_events {
          upcasts = (λ p. ok (object (field "n" p end))) ∷ [];
          schema_version = 2;
        },
      )
      ∷ [];
}

abbrev current : Event
current = record {
  event = record (told 1 "7").event {
    payload = object (field "n" (number "7") end);
    metadata = record (told 1 "7").metadata { schema_version = 2 };
  };
  position = 1;
}

upcast : upcast_all (λ n. "n") (("meter", wrapped) ∷ []) (told 1 "7" ∷ []) ≡ ok (current ∷ [])
unfolding upcast_all get
upcast = refl

upcast_all-idempotent_example :
    upcast_all (λ n. "n") (("meter", wrapped) ∷ []) (current ∷ []) ≡ ok (current ∷ [])
upcast_all-idempotent_example =
    upcast_all-idempotent (λ n. "n") (("meter", wrapped) ∷ []) (told 1 "7" ∷ []) (current ∷ [])
      upcast
