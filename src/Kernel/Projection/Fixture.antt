-- ===== src/Kernel/Projection/Fixture.antt =====
-- Test data of kernel/projection/runner.ts: a read model that counts orders over a log of three, and fails
-- at the second.
use bounda.Prelude.{ℕ, ◌+◌, String, Option, none, some, List, [], ◌∷◌}
use bounda.Prelude.Tests.{if◌then◌else◌, ◌==◌, string_eq}
use bounda.Prelude.Lists.{take}
use bounda.Contracts.Errors.{Failure, error}
use bounda.Contracts.Events.{StoredEvent}
use bounda.Kernel.Projection.{ReadModel}
use bounda.Kernel.Projection.Once.{after}

abbrev pub placed : ℕ → String → StoredEvent String String
placed position id = record {
  event = record {
    id = id;
    aggregate_type = "order";
    aggregate_id = "1";
    version = position;
    type = "Placed";
    payload = "{}";
    timestamp = "t";
    metadata = "{}";
    person = none;
  };
  position = position;
}

abbrev pub log : List (StoredEvent String String)
log = placed 2 "a" ∷ placed 5 "b" ∷ placed 6 "c" ∷ []

abbrev pub count_orders : String → ℕ → StoredEvent String String → ℕ × Option Failure
count_orders key rows event =
    if event.id == "b" then (rows + 100, some (error "Error")) else (rows + 1, none)

abbrev pub counter : ReadModel ℕ
counter = record { position = 0; rows = 0 }

abbrev pub read : ℕ → List (StoredEvent String String)
read p = take 10 (after p log)
