-- ===== src/Adapter/DeferredWrites/Tests.antt =====
-- A unit schedules a command for a person who is then forgotten before the flush.
use bounda.Prelude.{ℕ, String, Bool, true, ◌≡◌, refl, none, some, [], ◌∷◌}
use bounda.Prelude.Tests.{if◌then◌else◌, string_eq}
use bounda.Prelude.Dict.{get, set, delete}
use bounda.Contracts.Errors.{ok}
use bounda.Contracts.Events.{KeyedPerson, names_person}
use bounda.Memory.Scheduler
use bounda.Memory.Scheduler.{ScheduleArgs, Json}
use bounda.Adapter.DeferredWrites.{
  Deferred, Target, nothing_deferred, hold_back, schedule_command, withdraw_scheduled, flush,
}
use bounda.Adapter.DeferredWrites.Withdrawn.{withdrawn_never_scheduled, withdrawn_key}

abbrev as_it_is : Json ℕ ℕ
as_it_is = record {
  payload_copy = λ p. p;
  context_copy = λ c. c;
  persons_copy = λ h. h;
  command_text = λ c. c.type;
  context_text = λ c. "context";
  persons_text = λ h. "persons";
}

abbrev reminding : ScheduleArgs ℕ ℕ
reminding = record {
  dedupe_key = "remind";
  command = record { type = "Remind"; aggregate_id = "1"; payload = 7 };
  execute_at = 100;
  context = 0;
  keep_timing_of_same_command = true;
  persons = record { person = "ada"; fingerprint = some "f1" } ∷ [];
}

abbrev reminded : Deferred ℕ ℕ ℕ ℕ
reminded = hold_back nothing_deferred (schedule_command reminding)

abbrev empty_stores : Target ℕ ℕ ℕ ℕ
empty_stores = record { inbox_ledger = []; dead_letters = []; scheduler = []; idempotency = [] }

abbrev anyone : KeyedPerson → Bool
anyone held = true

abbrev same : ℕ → ℕ
same n = n

flush_nothing :
    flush as_it_is same same anyone empty_stores (withdraw_scheduled reminded "ada").0.recorded
    ≡ ok empty_stores
unfolding flush withdraw_scheduled hold_back names_person Scheduler.schedule Scheduler.cancel get
    set delete
flush_nothing = refl

withdrawn_never_scheduled_example :
    (u : Target ℕ ℕ ℕ ℕ) × (flush as_it_is same same anyone empty_stores reminded.recorded ≡ ok u)
    × (empty_stores ≡ record u { scheduler = [] })
    × ((key : String)
        → get [] key ≡ (
            if withdrawn_key key (withdraw_scheduled reminded "ada").1
            then none
            else get u.scheduler key))
withdrawn_never_scheduled_example =
    withdrawn_never_scheduled as_it_is same same anyone empty_stores empty_stores reminded "ada"
      flush_nothing
