-- ===== src/Kernel/Dispatcher/Tests.antt =====
-- A dispatcher over one read model that counts orders.
use bounda.Prelude.{ℕ, ◌+◌, ◌≤◌, ◌≡◌, refl, String, true, false, Option, none, some, [], ◌∷◌, arith}
use bounda.Prelude.Dict.{get}
use bounda.Contracts.Errors.{Failure}
use bounda.Contracts.Events.{StoredEvent}
use bounda.Kernel.Delivery.{deliver}
use bounda.Kernel.InOrder.{qualified_event_type}
use bounda.Kernel.Projection.{ReadModel, deliver_projected, transaction}
use bounda.Kernel.Projection.Fixture.{log, counter}
use bounda.Kernel.Projection.Once.{Ascending}
use bounda.Kernel.Dispatcher.Progress.{Laws}
use bounda.Kernel.Projection.Subscriber.{
  World, subscriber, Hosting, setup, subscriber-Laws, subscriber_below, subscriber_idle, Fair,
}
use bounda.Kernel.Dispatcher.{
  DispatcherCatchUp, DispatcherBackoff, DispatcherSetup, CheckpointedSubscriber, Dispatcher,
  Catching, reached, reach, catch_up_through, reach_each, run_until_idle,
}
use bounda.Kernel.Dispatcher.Reaching.{
  Answered, reach-Answered, CaughtUp, catch_up_through-CaughtUp,
}
use bounda.Kernel.Dispatcher.Idle.{Ended, run_until_idle-Ended}

abbrev backoff : DispatcherBackoff
backoff = record { base_delay_ms = 100; max_delay_ms = 1000 }

abbrev catch_up : DispatcherCatchUp
catch_up = record { timeout_ms = 50; poll_interval_ms = 10 }

abbrev count_any : String → ℕ → StoredEvent String String → ℕ × Option Failure
count_any key rows event = (rows + 1, none)

abbrev host : Hosting ℕ String String String
host = record {
  project = count_any;
  by_event = ("order.Placed", "count" ∷ []) ∷ [];
  out_of_time = λ done events. false;
  acquires = λ s wait. true;
  commit_fails = λ s. none;
  message = λ e. "e";
  meanwhile = λ s. s;
  name = "projection:orders";
}

abbrev counting : CheckpointedSubscriber (World ℕ) String String
counting = subscriber host

abbrev ascending : Ascending 0 log
ascending = (omega arith, (omega arith, (omega arith, tt)))

nobody_else : (s : ReadModel ℕ) → s.position ≤ (host.meanwhile s).position
nobody_else s = omega arith

-- Batches of one event.
abbrev single : DispatcherSetup (World ℕ) String String
single = setup host nobody_else log ascending 0 backoff catch_up

abbrev IsCounting : CheckpointedSubscriber (World ℕ) String String → Type 0
IsCounting = Fair host nobody_else log ascending 0

laws : Laws single IsCounting
laws = subscriber-Laws host nobody_else log ascending 0 backoff catch_up (omega arith)

abbrev begun : Dispatcher (World ℕ)
begun = record { world = record { read_model = counter; time = 0 }; failing = [] }

abbrev caught_up : Dispatcher (World ℕ) × Option Catching
caught_up = catch_up_through single 60 (counting ∷ []) 5 "order" ("Placed" ∷ []) begun

-- Two batches of one event each are delivered.
caught_up_at_five : (caught_up.0.world.read_model.position ≡ 5) × (caught_up.1 ≡ some reached)
unfolding catch_up_through reach_each subscriber deliver_projected deliver transaction get
    qualified_event_type
caught_up_at_five = (refl, refl)

catch_up_through-CaughtUp_example :
    CaughtUp single IsCounting laws (counting ∷ []) 5 begun.world caught_up
unfolding catch_up_through subscriber qualified_event_type get
catch_up_through-CaughtUp_example =
    catch_up_through-CaughtUp single IsCounting laws 60 (counting ∷ []) 5 "order" ("Placed" ∷ [])
      begun (refl, tt) (omega arith)

run_until_idle-Ended_example :
    Ended single IsCounting laws 6
      (subscriber_below host nobody_else log ascending 0 backoff catch_up)
      (subscriber_idle host nobody_else log ascending 0 backoff catch_up)
      (counting ∷ [])
      (refl, tt)
      begun
      (run_until_idle single 6 (counting ∷ []) begun)
unfolding subscriber
run_until_idle-Ended_example =
    run_until_idle-Ended single IsCounting laws 6
      (subscriber_below host nobody_else log ascending 0 backoff catch_up)
      (subscriber_idle host nobody_else log ascending 0 backoff catch_up) (counting ∷ []) (refl, tt)
      6 begun (omega arith)

reach-Answered_example :
    Answered single IsCounting laws counting 5 50 begun.world (reach single 60 counting 5 50 begun)
unfolding subscriber
reach-Answered_example =
    reach-Answered single IsCounting laws counting refl 5 50 60 begun (omega arith)
