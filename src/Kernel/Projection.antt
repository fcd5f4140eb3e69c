-- ===== src/Kernel/Projection.antt =====
-- kernel/projection/runner.ts: a read model kept up to date by its projections. The rows are a state
-- `T`; a projection may write some of them and throw. `out_of_time done events` is whether the time is up,
-- as the clock says after the first `done` events, before `events`, which are fewer in a salvaged batch.
pub mod Once
pub mod Delivered
pub mod Subscriber
pub mod Fixture
mod Tests
use bounda.Prelude.{
  ℕ, zero, suc, ◌+◌, String, Bool, true, false, ◌&&◌, Option, none, some, List, [], ◌∷◌,
}
use bounda.Prelude.Tests.{ltb, if◌then◌else◌, ◌==◌, nat_eq, string_eq}
use bounda.Prelude.Dict.{Dict, get}
use bounda.Contracts.Errors.{Failure}
use bounda.Contracts.Events.{StoredEvent}
use bounda.Kernel.InOrder.{or_nobody, qualified_event_type}
use bounda.Kernel.Delivery.{Claiming, Processed, through, partial, Delivery, deliver}

-- The read model's database: the checkpoint of its projections, and its rows.
pub record ReadModel (T : Type 0) : Type 0 where
  pub position : ℕ
  pub rows : T

module _ {T R P M : Type 0} (project : R → T → StoredEvent P M → T × Option Failure)
    (by_event : Dict String (List R)) (out_of_time : ℕ → List (StoredEvent P M) → Bool) where
  unfoldable pub projections_of : StoredEvent P M → List R
  projections_of event =
      or_nobody (get by_event (qualified_event_type event.aggregate_type event.type))

  unfoldable pub project_event : List R → T × Option Failure → StoredEvent P M → T × Option Failure
  project_event projections (t, some e) event = (t, some e)
  project_event [] (t, none) event = (t, none)
  project_event (r ∷ projections) (t, none) event =
      project_event projections (project r t event) event

  -- A projection that throws rejects the batch.
  unfoldable pub unless_thrown : ℕ → T × Option Failure → (T → T × Processed) → T × Processed
  unless_thrown done (t, some e) rest = (t, partial done e)
  unless_thrown done (t, none) rest = rest t

  unfoldable pub project_from : ℕ → T → List (StoredEvent P M) → T × Processed
  unfolding unless_thrown project_event projections_of
  project_from done t [] = (t, through done)
  project_from done t (event ∷ events) =
      if ltb zero done && out_of_time done (event ∷ events)
      then (t, through done)
      else unless_thrown done (project_event (projections_of event) (t, none) event)
          (λ t'. project_from (done + 1) t' events)

  unfoldable pub project_batch : T → List (StoredEvent P M) → T × Processed
  unfolding project_from
  project_batch t events = project_from 0 t events

  -- The transaction's table is the read model's rows.
  unfoldable pub process : ReadModel T → List (StoredEvent P M) → ReadModel T × Processed
  unfolding project_batch
  process s events = let (t, r) = project_batch s.rows events in (record s { rows = t }, r)

  -- A transaction of the read model's database: it rolls back the rows with the checkpoint.
  unfoldable pub transaction :
      (ReadModel T → Bool → Bool) → (ReadModel T → Option Failure) → Claiming (ReadModel T)
  transaction acquires commit_fails = record {
    acquires = acquires;
    get = λ s. s.position;
    compare_and_set = λ s expected position.
        if s.position == expected then (record s { position = position }, true) else (s, false);
    undo = λ before after. before;
    commit_fails = commit_fails;
  }

  module _ (acquires : ReadModel T → Bool → Bool) (commit_fails : ReadModel T → Option Failure)
      (message : Failure → String) (meanwhile : ReadModel T → ReadModel T) where
    unfoldable pub deliver_projected :
        (ℕ → List (StoredEvent P M)) → Bool → ReadModel T → ReadModel T × Delivery
    unfolding process transaction
    deliver_projected read wait s =
        deliver (transaction acquires commit_fails) process message meanwhile read wait s
