-- ===== src/Kernel/Dispatcher.antt =====
-- kernel/dispatch/dispatcher.ts: passes over the subscribers, how often a failing one is tried, and the
-- wait for the read models that a command changed. `S` is what the subscribers and others change while
-- a call is awaited, the clock with it. Loops run on fuel. Subscribers that `Promise.all` waits for are
-- taken one after another: what the other waits do is among what others do in a `deliver` or a `sleep`.
pub mod Progress
pub mod Reaching
pub mod Idle
mod Tests
use bounda.Prelude.{
  ℕ, zero, suc, ◌+◌, ◌-◌, ◌*◌, ◌^◌, String, Bool, true, false, ◌||◌, not, ◌&&◌, Option, none, some,
  List, [], ◌∷◌, map, min, max,
}
use bounda.Prelude.Tests.{ltb, leb, if◌then◌else◌, string_eq}
use bounda.Prelude.Lists.{any, keep_if}
use bounda.Prelude.Dict.{Dict, get, set, delete, has, values}
use bounda.Contracts.Errors.{Failure, Result, ok, err}
use bounda.Contracts.Events.{StoredEvent}
use bounda.Kernel.Delivery.{DeliveryFailure, Delivery, idle, busy, advanced, held, moved, failed}
use bounda.Kernel.InOrder.{qualified_event_type}

pub data SubscriberKind : Type 0 where
  projection policy process snapshot retention forget_ledger : SubscriberKind

abbrev pub same_kind : SubscriberKind → SubscriberKind → Bool
same_kind projection projection = true
same_kind policy policy = true
same_kind process process = true
same_kind snapshot snapshot = true
same_kind retention retention = true
same_kind forget_ledger forget_ledger = true
same_kind _ _ = false

pub record FailingState : Type 0 where
  pub failure : DeliveryFailure
  pub attempts : ℕ
  pub since : ℕ
  pub retry_at : ℕ

pub record DispatcherBackoff : Type 0 where
  pub base_delay_ms : ℕ
  pub max_delay_ms : ℕ

pub record DispatcherCatchUp : Type 0 where
  pub timeout_ms : ℕ
  pub poll_interval_ms : ℕ

-- `position()` answers `position`, except where the storage fails.
pub record CheckpointedSubscriber (S P M : Type 0) : Type 0 where
  pub name : String
  pub kind : SubscriberKind
  pub reacts_to : Option (String → Bool)
  pub position : S → ℕ
  pub position_fails : S → Option Failure
  pub deliver : (ℕ → List (StoredEvent P M)) → Bool → S → S × Result Delivery

pub record Dispatcher (S : Type 0) : Type 0 where
  pub world : S
  pub failing : Dict String FailingState

pub record SubscriberLag : Type 0 where
  pub subscriber : String
  pub position : ℕ
  pub lag : ℕ
  pub failing : Option FailingState

pub record DispatcherLag : Type 0 where
  pub last_position : ℕ
  pub subscribers : List SubscriberLag
  pub max_lag : ℕ

-- Whether a read model is known to have caught up.
pub data Catching : Type 0 where
  reached behind : Catching

-- What `createDispatcher` is given, the clock and the event store read in the world they are in.
pub record DispatcherSetup (S P M : Type 0) : Type 0 where
  pub read_all : S → ℕ → ℕ → List (StoredEvent P M)
  pub batch_size : ℕ
  pub backoff : DispatcherBackoff
  pub catch_up : DispatcherCatchUp
  pub clock : S → ℕ
  pub sleep : ℕ → S → S

-- `moving`
abbrev pub is_moving : Delivery → Bool
is_moving advanced = true
is_moving moved = true
is_moving _ = false

-- Every failing subscriber is tried again at once.
abbrev pub retry_by : ℕ → Dict String FailingState → Dict String FailingState
retry_by now [] = []
retry_by now ((name, state) ∷ rest) =
    (name, record state { retry_at = min state.retry_at now }) ∷ retry_by now rest

module _ (backoff : DispatcherBackoff) where
  unfoldable pub delay_for : ℕ → ℕ
  delay_for attempts = min backoff.max_delay_ms (backoff.base_delay_ms * 2 ^ (attempts - 1))

  unfoldable pub failed_again : Option FailingState → DeliveryFailure → ℕ → FailingState
  unfolding delay_for
  failed_again none failure now = record {
    failure = failure;
    attempts = 1;
    since = now;
    retry_at = now + delay_for 1;
  }
  failed_again (some current) failure now = record {
    failure = failure;
    attempts = current.attempts + 1;
    since = current.since;
    retry_at = now + delay_for (current.attempts + 1);
  }

  unfoldable pub record_failing :
      Dict String FailingState → String → ℕ → Delivery → Dict String FailingState
  unfolding failed_again
  record_failing failing name now (failed failure) =
      set failing name (failed_again (get failing name) failure now)
  record_failing failing name now busy = failing
  record_failing failing name now held = failing
  record_failing failing name now advanced =
      if has failing name then retry_by now (delete failing name) else failing
  record_failing failing name now outcome =
      if has failing name then delete failing name else failing

module _ {S P M : Type 0} (k : DispatcherSetup S P M) where
  unfoldable pub record_delivery : Dispatcher S → String → Delivery → Dispatcher S
  unfolding record_failing
  record_delivery s name delivery = record s {
    failing = record_failing k.backoff s.failing name (k.clock s.world) delivery;
  }

  unfoldable pub backing_off : Dispatcher S → String → Bool
  backing_off s name = elim (get s.failing name) [
    | none ↦ false
    | some current ↦ ltb (k.clock s.world) current.retry_at
  ]

  unfoldable pub delivered : CheckpointedSubscriber S P M → Bool → S → S × Result Delivery
  delivered b wait w = b.deliver (λ after. k.read_all w after k.batch_size) wait w

  -- Whether a pass leaves a subscriber out.
  unfoldable pub skipped :
      Bool → Option SubscriberKind → Dispatcher S → CheckpointedSubscriber S P M → Bool
  unfolding backing_off
  skipped patient none s b = patient && backing_off s b.name
  skipped patient (some only) s b = not (same_kind b.kind only) || (patient && backing_off s b.name)

  unfoldable pub recorded : String → Dispatcher S → S × Result Delivery → Dispatcher S × Result Bool
  unfolding record_delivery
  recorded name s (w, err e) = (record s { world = w }, err e)
  recorded name s (w, ok delivery) =
      (record_delivery (record s { world = w }) name delivery, ok (is_moving delivery))

  unfoldable pub visit :
      Bool
      → Bool
      → Option SubscriberKind
      → Dispatcher S
      → CheckpointedSubscriber S P M
      → Dispatcher S × Result Bool
  unfolding skipped recorded delivered
  visit wait patient only s b =
      if skipped patient only s b
      then (s, ok false)
      else recorded b.name s (delivered b wait s.world)

  unfoldable pub then_pass :
      Dispatcher S × Result Bool
      → (Dispatcher S → Bool → Dispatcher S × Result Bool)
      → Dispatcher S × Result Bool
  then_pass (s, err e) rest = (s, err e)
  then_pass (s, ok moving) rest = rest s moving

  unfoldable pub pass_over :
      Bool
      → Bool
      → Option SubscriberKind
      → List (CheckpointedSubscriber S P M)
      → Bool
      → Dispatcher S
      → Dispatcher S × Result Bool
  unfolding then_pass visit
  pass_over wait patient only [] any_moved s = (s, ok any_moved)
  pass_over wait patient only (b ∷ rest) any_moved s =
      then_pass (visit wait patient only s b)
        (λ s' moving. pass_over wait patient only rest (moving || any_moved) s')

  unfoldable pub pass :
      List (CheckpointedSubscriber S P M)
      → Bool
      → Bool
      → Option SubscriberKind
      → Dispatcher S
      → Dispatcher S × Result Bool
  unfolding pass_over
  pass delivering wait patient only s = pass_over wait patient only delivering false s

  -- Out of fuel, `none`.
  unfoldable pub until_nothing_moves :
      ℕ
      → (Dispatcher S → Dispatcher S × Result Bool)
      → Dispatcher S × Result Bool
      → Dispatcher S × Option (Result (Unit {0}))
  until_nothing_moves fuel one_pass (s, err e) = (s, some (err e))
  until_nothing_moves fuel one_pass (s, ok false) = (s, some (ok tt))
  until_nothing_moves zero one_pass (s, ok true) = (s, none)
  until_nothing_moves (suc fuel) one_pass (s, ok true) =
      until_nothing_moves fuel one_pass (one_pass s)

  unfoldable pub process_once :
      List (CheckpointedSubscriber S P M) → Dispatcher S → Dispatcher S × Result Bool
  unfolding pass
  process_once delivering s = pass delivering true false none s

  unfoldable pub run_until_idle :
      ℕ
      → List (CheckpointedSubscriber S P M)
      → Dispatcher S
      → Dispatcher S × Option (Result (Unit {0}))
  unfolding process_once until_nothing_moves
  run_until_idle fuel delivering s =
      until_nothing_moves fuel (process_once delivering) (process_once delivering s)

  unfoldable pub catch_up_kind :
      ℕ
      → List (CheckpointedSubscriber S P M)
      → SubscriberKind
      → Dispatcher S
      → Dispatcher S × Option (Result (Unit {0}))
  unfolding pass until_nothing_moves
  catch_up_kind fuel delivering kind s =
      until_nothing_moves fuel (pass delivering true true (some kind))
        (pass delivering true true (some kind) s)

  -- What a wait does after a delivery: stops, or goes on after a k.sleep or without one.
  unfoldable pub reach_after :
      CheckpointedSubscriber S P M
      → Dispatcher S
      → S × Result Delivery
      → (Dispatcher S → Dispatcher S × Option Catching)
      → Dispatcher S × Option Catching
  unfolding record_delivery
  reach_after b s (w, err e) again = (record s { world = w }, some behind)
  reach_after b s (w, ok (failed failure)) again =
      (record_delivery (record s { world = w }) b.name (failed failure), some behind)
  reach_after b s (w, ok delivery) again =
      let t = record_delivery (record s { world = w }) b.name delivery in
      again (
        if is_moving delivery
        then t
        else record t { world = k.sleep k.catch_up.poll_interval_ms t.world })

  unfoldable pub reach_from :
      CheckpointedSubscriber S P M
      → ℕ
      → ℕ
      → Dispatcher S
      → Option Failure
      → (Dispatcher S → Dispatcher S × Option Catching)
      → Dispatcher S × Option Catching
  unfolding reach_after backing_off delivered
  reach_from b position deadline s (some e) again = (s, some behind)
  reach_from b position deadline s none again =
      if leb position (b.position s.world)
      then (s, some reached)
      else (if leb deadline (k.clock s.world) || backing_off s b.name
          then (s, some behind)
          else reach_after b s (delivered b false s.world) again)

  unfoldable pub reach :
      ℕ → CheckpointedSubscriber S P M → ℕ → ℕ → Dispatcher S → Dispatcher S × Option Catching
  unfolding reach_from
  reach zero b position deadline s = (s, none)
  reach (suc fuel) b position deadline s =
      reach_from b position deadline s (b.position_fails s.world) (reach fuel b position deadline)

  abbrev pub reacts : String → List String → CheckpointedSubscriber S P M → Bool
  reacts aggregate_type event_types b = elim b.reacts_to [
    | none ↦ false
    | some test ↦ any (λ type. test (qualified_event_type aggregate_type type)) event_types
  ]

  abbrev pub both_reached : Catching → Option Catching → Option Catching
  both_reached reached other = other
  both_reached behind none = none
  both_reached behind (some other) = some behind

  unfoldable pub then_reach :
      Dispatcher S × Option Catching
      → (Dispatcher S → Dispatcher S × Option Catching)
      → Dispatcher S × Option Catching
  then_reach (s, none) rest = (s, none)
  then_reach (s, some answer) rest = let (t, others) = rest s in (t, both_reached answer others)

  unfoldable pub reach_each :
      ℕ
      → List (CheckpointedSubscriber S P M)
      → ℕ
      → ℕ
      → Dispatcher S
      → Dispatcher S × Option Catching
  unfolding reach then_reach
  reach_each fuel [] position deadline s = (s, some reached)
  reach_each fuel (b ∷ rest) position deadline s =
      then_reach (reach fuel b position deadline s) (reach_each fuel rest position deadline)

  unfoldable pub catch_up_through :
      ℕ
      → List (CheckpointedSubscriber S P M)
      → ℕ
      → String
      → List String
      → Dispatcher S
      → Dispatcher S × Option Catching
  unfolding reach_each
  catch_up_through fuel delivering position aggregate_type event_types s =
      reach_each fuel (keep_if (reacts aggregate_type event_types) delivering) position
        (k.clock s.world + k.catch_up.timeout_ms) s

  -- How long the background waits for its next pass.
  abbrev pub soonest : ℕ → ℕ → List FailingState → ℕ
  soonest interval now [] = interval
  soonest interval now (state ∷ rest) = min (state.retry_at - now) (soonest interval now rest)

  unfoldable pub schedule_ms : ℕ → Dispatcher S → ℕ
  schedule_ms interval s = soonest interval (k.clock s.world) (values s.failing)

  abbrev pub lag_of : ℕ → Dispatcher S → CheckpointedSubscriber S P M → SubscriberLag
  lag_of last_position s b = record {
    subscriber = b.name;
    position = b.position s.world;
    lag = last_position - b.position s.world;
    failing = get s.failing b.name;
  }

  -- Where the storage answers, and no checkpoint is past the last position.
  abbrev pub greatest : List SubscriberLag → ℕ
  greatest [] = 0
  greatest (l ∷ rest) = max l.lag (greatest rest)

  unfoldable pub get_lag : ℕ → List (CheckpointedSubscriber S P M) → Dispatcher S → DispatcherLag
  get_lag last_position delivering s = record {
    last_position = last_position;
    subscribers = map (lag_of last_position s) delivering;
    max_lag = greatest (map (lag_of last_position s) delivering);
  }
