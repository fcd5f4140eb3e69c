-- ===== src/Kernel/Dispatcher/Progress.antt =====
-- kernel/dispatch/dispatcher.ts: what the dispatcher relies on of its subscribers and of the clock.
use bounda.Prelude.{◌≤◌, ◌<◌, ◌≡◌, Bool, true}
use bounda.Contracts.Errors.{ok}
use bounda.Kernel.Delivery.{Delivery}
use bounda.Kernel.Dispatcher.{DispatcherSetup, CheckpointedSubscriber, is_moving, delivered}

-- The subscribers are those that are `Fair`. No checkpoint moves back, whoever else acts meanwhile; a
-- delivery that moved left its subscriber's checkpoint further on; and a sleep takes time.
pub record Laws {S P M : Type 0} (k : DispatcherSetup S P M)
    (Fair : CheckpointedSubscriber S P M → Type 0) : Type 0 where
  pub delivered_keeps :
      (b c : CheckpointedSubscriber S P M) (wait : Bool) (w : S)
      → Fair b
      → Fair c
      → c.position w ≤ c.position (delivered k b wait w).0
  pub delivered_moves :
      (b : CheckpointedSubscriber S P M) (wait : Bool) (w : S) (d : Delivery)
      → Fair b
      → (delivered k b wait w).1 ≡ ok d
      → is_moving d ≡ true
      → b.position w < b.position (delivered k b wait w).0
  pub delivered_later :
      (b : CheckpointedSubscriber S P M) (wait : Bool) (w : S)
      → Fair b
      → k.clock w ≤ k.clock (delivered k b wait w).0
  pub sleep_keeps :
      (c : CheckpointedSubscriber S P M) (w : S)
      → Fair c
      → c.position w ≤ c.position (k.sleep k.catch_up.poll_interval_ms w)
  pub sleep_later : (w : S) → k.clock w < k.clock (k.sleep k.catch_up.poll_interval_ms w)
