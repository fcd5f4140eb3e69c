-- ===== src/Kernel/Delivery.antt =====
-- kernel/dispatch/delivery.ts: a batch of events given to one subscriber, and its checkpoint. The
-- subscriber, its checkpoint and whatever it writes to are a state `S`. Telemetry and logs are left
-- out; `meanwhile` is what others do to the state before a claim, and `message` the text of a failure.
-- Reading the position, under a claim too, and the events does not fail.
pub mod Advance
use bounda.Prelude.{
  ℕ, zero, suc, ◌-◌, String, Bool, true, false, Option, none, some, List, [], ◌∷◌, min,
}
use bounda.Prelude.Tests.{if◌then◌else◌, ◌==◌, nat_eq}
use bounda.Prelude.Lists.{length, get_elem?, take}
use bounda.Contracts.Errors.{Failure}
use bounda.Contracts.Events.{StoredEvent}

-- What `process` comes to: how many leading events are done, a `PartialBatchError` with how many went
-- through, or another failure.
pub data Processed : Type 0 where
  through : ℕ → Processed
  partial : ℕ → Failure → Processed
  threw : Failure → Processed

-- The checkpoint under a claim, whether a claim is had, and what a claim leaves of the state it began
-- with and the state at a throw: a transaction leaves the first. A claim may fail to commit.
pub record Claiming (S : Type 0) : Type 0 where
  pub acquires : S → Bool → Bool
  pub get : S → ℕ
  pub compare_and_set : S → ℕ → ℕ → S × Bool
  pub undo : S → S → S
  pub commit_fails : S → Option Failure

pub record DeliveryFailure : Type 0 where
  pub position : ℕ
  pub event_id : String
  pub event_type : String
  pub message : String

pub data Delivery : Type 0 where
  idle busy advanced held moved : Delivery
  failed : DeliveryFailure → Delivery

-- How a commit ends: it resolves, acquired or not, stops, or throws after so many events.
pub data Ending : Type 0 where
  committed not_acquired : Ending
  stopped : Delivery → Ending
  failing : ℕ → Failure → Ending

module _ {S P M : Type 0} (c : Claiming S) (process : S → List (StoredEvent P M) → S × Processed)
    (message : Failure → String) (meanwhile : S → S) where
  -- `events[Math.min(done, events.length) - 1]`
  unfoldable pub last_done : ℕ → List (StoredEvent P M) → Option (StoredEvent P M)
  last_done zero events = none
  last_done (suc done) events = get_elem? events (min (suc done) (length events) - 1)

  unfoldable pub moved_on : S × Bool → S × Ending
  moved_on (s, true) = (s, committed)
  moved_on (s, false) = (s, stopped moved)

  unfoldable pub advance_to : S → ℕ → Option (StoredEvent P M) → S × Ending
  unfolding moved_on
  advance_to s after none = (s, stopped held)
  advance_to s after (some last) = moved_on (c.compare_and_set s after last.position)

  unfoldable pub settle : ℕ → List (StoredEvent P M) → S × Processed → S × Ending
  unfolding advance_to last_done
  settle after events (s, through done) = advance_to s after (last_done done events)
  settle after events (s, partial done e) = (s, failing done e)
  settle after events (s, threw e) = (s, failing zero e)

  unfoldable pub work : ℕ → List (StoredEvent P M) → S → S × Ending
  unfolding settle
  work after events s =
      if c.get s == after then settle after events (process s events) else (s, stopped moved)

  -- A claim keeps what the work wrote when it resolves.
  unfoldable pub claimed : S → S × Ending → S × Ending
  claimed s (t, committed) = elim (c.commit_fails t) [
    | none ↦ (t, committed)
    | some e ↦ (c.undo s t, failing zero e)
  ]
  claimed s (t, ending) = (c.undo s t, ending)

  unfoldable pub commit : ℕ → List (StoredEvent P M) → Bool → S → S × Ending
  unfolding work claimed
  commit after events wait s =
      if c.acquires s wait then claimed s (work after events s) else (s, not_acquired)

  -- The events before the one that failed, committed alone; how that ends is only logged.
  unfoldable pub salvage : ℕ → List (StoredEvent P M) → Bool → S → S
  unfolding commit
  salvage after events wait s = (commit after events wait (meanwhile s)).0

  unfoldable pub salvaged : ℕ → List (StoredEvent P M) → ℕ → Bool → S → S
  unfolding salvage
  salvaged after events zero wait s = s
  salvaged after events (suc done) wait s = salvage after (take (suc done) events) wait s

  unfoldable pub failure_at : Option (StoredEvent P M) → StoredEvent P M → Failure → DeliveryFailure
  failure_at (some event) first e = record {
    position = event.position;
    event_id = event.id;
    event_type = event.type;
    message = message e;
  }
  failure_at none first e = record {
    position = first.position;
    event_id = first.id;
    event_type = first.type;
    message = message e;
  }

  unfoldable pub answered :
      ℕ → List (StoredEvent P M) → StoredEvent P M → Bool → S × Ending → S × Delivery
  unfolding salvaged failure_at
  answered after events first wait (s, committed) = (s, advanced)
  answered after events first wait (s, not_acquired) = (s, busy)
  answered after events first wait (s, stopped outcome) = (s, outcome)
  answered after events first wait (s, failing done e) =
      (salvaged after events done wait s, failed (failure_at (get_elem? events done) first e))

  unfoldable pub attempt : ℕ → List (StoredEvent P M) → StoredEvent P M → Bool → S → S × Delivery
  unfolding answered commit
  attempt after events first wait s = answered after events first wait (commit after events wait s)

  unfoldable pub deliver_batch : ℕ → List (StoredEvent P M) → Bool → S → S × Delivery
  unfolding attempt
  deliver_batch after [] wait s = (s, idle)
  deliver_batch after (first ∷ events) wait s =
      attempt after (first ∷ events) first wait (meanwhile s)

  -- `read` answers the events after a position.
  unfoldable pub deliver : (ℕ → List (StoredEvent P M)) → Bool → S → S × Delivery
  unfolding deliver_batch
  deliver read wait s = deliver_batch (c.get s) (read (c.get s)) wait s
