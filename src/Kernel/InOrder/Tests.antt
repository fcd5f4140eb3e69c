-- ===== src/Kernel/InOrder/Tests.antt =====
-- Two reactions to one kind of event, the first of which holds the second of three events.
use bounda.Prelude.{ℕ, String, ◌+◌, ◌≤◌, ◌≡◌, ◌||◌, refl, true, none, List, [], ◌∷◌}
use bounda.Prelude.Tests.{if◌then◌else◌, ◌==◌, nat_eq, string_eq}
use bounda.Prelude.Lists.{length, any, add}
use bounda.Prelude.Dict.{Dict, get}
use bounda.Contracts.Events.{StoredEvent}
use bounda.Kernel.InOrder.{ReactionOutcome, done, hold, deliver_in_order}
use bounda.Kernel.InOrder.Overtaking.{
  NoOvertaking, CoveredFrom, hold_at, deliver_in_order-IsOrdered,
}

abbrev placed : ℕ → StoredEvent String String
placed position = record {
  event = record {
    id = "e";
    aggregate_type = "order";
    aggregate_id = "1";
    version = position;
    type = "OrderPlaced";
    payload = "{}";
    timestamp = "2026-01-01T00:00:00.000Z";
    metadata = "{}";
    person = none;
  };
  position = position;
}

abbrev events : List (StoredEvent String String)
events = placed 1 ∷ placed 2 ∷ placed 3 ∷ []

abbrev same_name : String → String
same_name r = r

-- `mail` holds the event at position 2.
abbrev deliver : ℕ → String → StoredEvent String String → ℕ × ReactionOutcome
deliver s r e = (s + 1, if r == "mail" then (if e.position == 2 then hold else done) else done)

abbrev by_event : Dict String (List String)
by_event = ("order.OrderPlaced", "mail" ∷ "bill" ∷ []) ∷ []

leading_events : (deliver_in_order same_name deliver by_event 0 events).1.leading ≡ 1
unfolding deliver_in_order get add
leading_events = refl

calls_made : (deliver_in_order same_name deliver by_event 0 events).0 ≡ 5
unfolding deliver_in_order get add
calls_made = refl

deliver_in_order-IsOrdered_example :
    NoOvertaking (deliver_in_order same_name deliver by_event 0 events).1.calls
    × CoveredFrom same_name deliver
        (length events)
        by_event
        0
        (deliver_in_order same_name deliver by_event 0 events).1
        events
    × ((deliver_in_order same_name deliver by_event 0 events).1.leading ≤ length events)
    × (((deliver_in_order same_name deliver by_event 0 events).1.leading == length events
          || any
              (hold_at (deliver_in_order same_name deliver by_event 0 events).1.leading)
              (deliver_in_order same_name deliver by_event 0 events).1.calls)
        ≡ true)
deliver_in_order-IsOrdered_example = deliver_in_order-IsOrdered same_name deliver by_event 0 events
