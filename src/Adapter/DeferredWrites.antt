-- ===== src/Adapter/DeferredWrites.antt =====
-- adapter/deferred-writes.ts: writes to the stores besides the event store, held back until a flush.
-- A recorded closure is the call it makes, a `Write`. The calls that act at once, on the live stores,
-- have no definition here.
pub mod Withdrawn
mod Tests
use bounda.Prelude.{ℕ, String, Bool, true, false, not, Option, none, some, List, [], ◌∷◌, ◌++◌, map}
use bounda.Prelude.Tests.{◌==◌, string_eq, if◌then◌else◌}
use bounda.Prelude.Lists.{any, keep_if}
use bounda.Prelude.Dict.{Dict, get, set, delete, delete_where, values}
use bounda.Contracts.Errors.{Result, ok, err, ◌>>=◌}
use bounda.Contracts.Events.{KeyedPerson, names_person}
use bounda.Memory.InboxLedger
use bounda.Memory.InboxLedger.{ClaimKey}
use bounda.Memory.DeadLetters
use bounda.Memory.DeadLetters.{NewDeadLetter, StoredDeadLetter, DeadLetterStatus, failed}
use bounda.Memory.Scheduler
use bounda.Memory.Scheduler.{ScheduleArgs, ScheduledCommand, ScheduledClaim, Json}
use bounda.Memory.Idempotency
use bounda.Memory.Idempotency.{IdempotencyRecord}

module _ (J C P O : Type 0) where
  pub data Write : Type 0 where
    complete_claim : ClaimKey → Option String → Write
    fail_claim : ClaimKey → Option String → String → Write
    add_letter : NewDeadLetter P → Write
    update_letter : String → DeadLetterStatus → Write
    remove_letter : String → Write
    schedule_command : ScheduleArgs J C → Write
    cancel_command : String → Write
    complete_command : ScheduledClaim → Write
    fail_command : ScheduledClaim → String → Option ℕ → Write
    defer_command : ScheduledClaim → ℕ → Write
    put_record : IdempotencyRecord O → ℕ → Write
    forget_records : String → Write

  pub record Deferred : Type 0 where
    pub recorded : List Write
    pub records : Dict String (IdempotencyRecord O)
    pub scheduled : Dict String (ScheduleArgs J C)
    pub letters : Dict String (NewDeadLetter P)

  -- The stores that a flush writes to.
  pub record Target : Type 0 where
    pub inbox_ledger : InboxLedger.Store
    pub dead_letters : DeadLetters.Store P
    pub scheduler : Scheduler.Store J C
    pub idempotency : Idempotency.Store O

-- What `add` answers.
unfoldable pub filed : {P : Type 0} → NewDeadLetter P → StoredDeadLetter P
filed letter = record { letter = letter; status = failed }

-- As the scheduler would hold it.
unfoldable pub as_scheduled : {J C : Type 0} → ScheduleArgs J C → ScheduledCommand J C
as_scheduled args = record {
  dedupe_key = args.dedupe_key;
  command = args.command;
  execute_at = args.execute_at;
  context = args.context;
  attempts = 0;
  persons = some args.persons;
}

module _ {J C P O : Type 0} where
  abbrev pub nothing_deferred : Deferred J C P O
  nothing_deferred = record { recorded = []; records = []; scheduled = []; letters = [] }

  unfoldable pub later : Deferred J C P O → Write J C P O → Deferred J C P O
  later d write = record d { recorded = d.recorded ++ write ∷ [] }

  -- Each method that holds its write back.
  unfoldable pub hold_back : Deferred J C P O → Write J C P O → Deferred J C P O
  unfolding later
  hold_back d (add_letter letter) =
      later (record d { letters = set d.letters letter.id letter }) (add_letter letter)
  hold_back d (remove_letter id) =
      later (record d { letters = delete d.letters id }) (remove_letter id)
  hold_back d (schedule_command args) =
      later (record d { scheduled = set d.scheduled args.dedupe_key args }) (schedule_command args)
  hold_back d (cancel_command key) =
      later (record d { scheduled = delete d.scheduled key }) (cancel_command key)
  hold_back d (put_record r now) =
      later (record d { records = set d.records r.key r }) (put_record r now)
  hold_back d (forget_records person) =
      later
        (record d {
          records = delete_where (λ r. any (λ held. held.person == person) r.persons) d.records;
        })
        (forget_records person)
  hold_back d (complete_claim key claim_id) = later d (complete_claim key claim_id)
  hold_back d (fail_claim key claim_id error) = later d (fail_claim key claim_id error)
  hold_back d (update_letter id status) = later d (update_letter id status)
  hold_back d (complete_command claim) = later d (complete_command claim)
  hold_back d (fail_command claim error retry_at) = later d (fail_command claim error retry_at)
  hold_back d (defer_command claim execute_at) = later d (defer_command claim execute_at)

  -- `get` of a record, with what the live store answers.
  unfoldable pub get_record :
      Deferred J C P O → Option (IdempotencyRecord O) → String → Option (IdempotencyRecord O)
  get_record d live key = elim (get d.records key) [ none ↦ live | some r ↦ some r ]

  unfoldable pub pending : Deferred J C P O → Bool
  pending d = elim d.recorded [ [] ↦ false | write ∷ writes ↦ true ]

  unfoldable pub cancel_each : Deferred J C P O → List (ScheduleArgs J C) → Deferred J C P O
  unfolding later
  cancel_each d [] = d
  cancel_each d (args ∷ named) =
      cancel_each
        (later (record d { scheduled = delete d.scheduled args.dedupe_key })
          (cancel_command args.dedupe_key))
        named

  unfoldable pub named_commands : Deferred J C P O → String → List (ScheduleArgs J C)
  named_commands d person =
      keep_if (λ args. names_person (some args.persons) person) (values d.scheduled)

  unfoldable pub withdraw_scheduled :
      Deferred J C P O → String → Deferred J C P O × List (ScheduledCommand J C)
  unfolding cancel_each named_commands as_scheduled
  withdraw_scheduled d person =
      (cancel_each d (named_commands d person), map as_scheduled (named_commands d person))

  unfoldable pub remove_each : Deferred J C P O → List (NewDeadLetter P) → Deferred J C P O
  unfolding later
  remove_each d [] = d
  remove_each d (letter ∷ named) =
      remove_each
        (later (record d { letters = delete d.letters letter.id }) (remove_letter letter.id)) named

  unfoldable pub named_letters : Deferred J C P O → String → List (NewDeadLetter P)
  named_letters d person = keep_if (λ letter. names_person letter.persons person) (values d.letters)

  unfoldable pub withdraw_letters :
      Deferred J C P O → String → Deferred J C P O × List (StoredDeadLetter P)
  unfolding remove_each named_letters filed
  withdraw_letters d person =
      (remove_each d (named_letters d person), map filed (named_letters d person))

-- The flush against the memory stores.
module _ {J C P O : Type 0} (json : Json J C) (payload_copy : P → P) (outcome_copy : O → O)
    (holds : KeyedPerson → Bool) where
  unfoldable pub run_write : Target J C P O → Write J C P O → Result (Target J C P O)
  run_write t (complete_claim key claim_id) =
      InboxLedger.complete t.inbox_ledger key claim_id >>= λ s. ok (record t { inbox_ledger = s })
  run_write t (fail_claim key claim_id error) =
      InboxLedger.fail t.inbox_ledger key claim_id error >>= λ s. ok (record t { inbox_ledger = s })
  run_write t (add_letter letter) =
      ok (record t { dead_letters = (DeadLetters.add payload_copy t.dead_letters letter).0 })
  run_write t (update_letter id status) =
      DeadLetters.update_status t.dead_letters id status >>= λ s. ok (record t { dead_letters = s })
  run_write t (remove_letter id) =
      ok (record t { dead_letters = DeadLetters.remove t.dead_letters id })
  run_write t (schedule_command args) =
      ok (record t { scheduler = Scheduler.schedule json t.scheduler args })
  run_write t (cancel_command key) = ok (record t { scheduler = Scheduler.cancel t.scheduler key })
  run_write t (complete_command claim) =
      Scheduler.complete t.scheduler claim >>= λ s. ok (record t { scheduler = s })
  run_write t (fail_command claim error retry_at) =
      Scheduler.fail t.scheduler claim error retry_at >>= λ s. ok (record t { scheduler = s })
  run_write t (defer_command claim execute_at) =
      Scheduler.defer t.scheduler claim execute_at >>= λ s. ok (record t { scheduler = s })
  run_write t (put_record r now) = Idempotency.put outcome_copy t.idempotency r now holds >>= λ s.
      ok (record t { idempotency = s })
  run_write t (forget_records person) =
      ok (record t { idempotency = Idempotency.forget t.idempotency person })

  -- A write that throws ends the flush.
  unfoldable pub flush : Target J C P O → List (Write J C P O) → Result (Target J C P O)
  unfolding run_write
  flush t [] = ok t
  flush t (write ∷ writes) = run_write t write >>= λ s. flush s writes
