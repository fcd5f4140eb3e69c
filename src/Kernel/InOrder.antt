-- ===== src/Kernel/InOrder.antt =====
-- kernel/shared/in-order.ts and qualified-event.ts: a batch of events handed to the reactions to
-- each, in order. `deliver` is any function on a state of its own. `calls` keeps what was delivered,
-- newest first, with what it answered.
pub mod Overtaking
mod Tests
use Prim.Native.String.{◌++◌ as text_append}
use bounda.Prelude.{ℕ, suc, String, Bool, true, false, Option, none, some, List, [], ◌∷◌, min}
use bounda.Prelude.Tests.{if◌then◌else◌, string_eq}
use bounda.Prelude.Lists.{length, contains, add}
use bounda.Prelude.Dict.{Dict, get}
use bounda.Contracts.Events.{StoredEvent}

pub data ReactionOutcome : Type 0 where
  done : ReactionOutcome
  hold : ReactionOutcome

pub record Call : Type 0 where
  pub index : ℕ
  pub reaction : String
  pub outcome : ReactionOutcome

pub record Progress : Type 0 where
  pub held : List String
  pub leading : ℕ
  pub calls : List Call

unfoldable pub qualified_event_type : String → String → String
qualified_event_type aggregate_type event_type =
    text_append aggregate_type (text_append "." event_type)

-- `?? []`.
abbrev pub or_nobody : {R : Type 0} → Option (List R) → List R
or_nobody none = []
or_nobody (some reactions) = reactions

module _ {S R P M : Type 0} (name : R → String)
    (deliver : S → R → StoredEvent P M → S × ReactionOutcome) where
  -- What a call leaves.
  unfoldable pub called : ℕ → R → Progress → ReactionOutcome → Progress
  called index r p done = record p {
    calls = record { index = index; reaction = name r; outcome = done } ∷ p.calls;
  }
  called index r p hold = record {
    held = add (name r) p.held;
    leading = min p.leading index;
    calls = record { index = index; reaction = name r; outcome = hold } ∷ p.calls;
  }

  unfoldable pub deliver_to : ℕ → StoredEvent P M → S × Progress → R → S × Progress
  unfolding called
  deliver_to index event (s, p) r =
      if contains (name r) p.held
      then (s, p)
      else (let (s', outcome) = deliver s r event in (s', called index r p outcome))

  unfoldable pub deliver_event : ℕ → StoredEvent P M → S × Progress → List R → S × Progress
  unfolding deliver_to
  deliver_event index event sp [] = sp
  deliver_event index event sp (r ∷ rs) = deliver_event index event (deliver_to index event sp r) rs

  module _ (by_event : Dict String (List R)) where
    unfoldable pub reactions_to : StoredEvent P M → List R
    unfolding qualified_event_type
    reactions_to event =
        or_nobody (get by_event (qualified_event_type event.aggregate_type event.type))

    unfoldable pub deliver_events : ℕ → S × Progress → List (StoredEvent P M) → S × Progress
    unfolding deliver_event reactions_to
    deliver_events index sp [] = sp
    deliver_events index sp (e ∷ es) =
        deliver_events (suc index) (deliver_event index e sp (reactions_to e)) es

    unfoldable pub deliver_in_order : S → List (StoredEvent P M) → S × Progress
    unfolding deliver_events
    deliver_in_order s events =
        deliver_events 0 (s, record { held = []; leading = length events; calls = [] }) events
