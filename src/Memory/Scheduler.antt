-- ===== src/Memory/Scheduler.antt =====
-- memory/scheduler.ts: scheduled commands, their claims and leases. Times are milliseconds: an ISO
-- text of `toISOString` stands for one, and such texts of the years 0 to 9999 compare as they do.
-- `J` and `C` are the JSON values of payloads and contexts; `Json` is what the platform does to them.
pub mod Keyed
pub mod Claims
pub mod Waking
pub mod Settling
mod Tests
use Prim.Native.Nat.{compare, Ordering}
use bounda.Prelude.{
  ℕ, zero, suc, ◌+◌, ◌-◌, String, Bool, true, false, ◌&&◌, ◌||◌, Option, none, some, List, [], ◌∷◌,
  map, min,
}
use bounda.Prelude.Tests.{ltb, leb, if◌then◌else◌, ◌==◌, nat_eq, string_eq}
use bounda.Prelude.Lists.{slice, take, drop, keep_if, any, sort_by}
use bounda.Prelude.Dict.{Dict, get, set, delete, values}
use bounda.Contracts.Errors.{runtime_error, scheduled_claim_lost, Result, ok, err, ◌>>=◌}
use bounda.Contracts.Events.{KeyedPerson, names_person}
use bounda.Adapter.Order.{text_order}

pub record Command (J : Type 0) : Type 0 where
  pub type : String
  pub aggregate_id : String
  pub payload : J

pub record ScheduledCommand (J C : Type 0) : Type 0 where
  pub dedupe_key : String
  pub command : Command J
  pub execute_at : ℕ
  pub context : C
  pub attempts : ℕ
  pub persons : Option (List KeyedPerson)

pub record Entry (J C : Type 0) : Type 0 where
  pub scheduled : ScheduledCommand J C
  pub open scheduled use *
  pub revision : ℕ
  pub claimed_at : Option ℕ
  pub claim_id : Option String
  pub last_error : Option String

pub record ScheduledClaim : Type 0 where
  pub dedupe_key : String
  pub revision : ℕ
  pub claim_id : String

pub record ClaimedCommand (J C : Type 0) : Type 0 where
  pub scheduled : ScheduledCommand J C
  pub claim : ScheduledClaim

pub record ScheduleArgs (J C : Type 0) : Type 0 where
  pub dedupe_key : String
  pub command : Command J
  pub execute_at : ℕ
  pub context : C
  pub keep_timing_of_same_command : Bool
  pub persons : List KeyedPerson

-- `jsonCopy` and `JSON.stringify` on what an entry holds.
pub record Json (J C : Type 0) : Type 0 where
  pub payload_copy : J → J
  pub context_copy : C → C
  pub persons_copy : List KeyedPerson → List KeyedPerson
  pub command_text : Command J → String
  pub context_text : C → String
  pub persons_text : List KeyedPerson → String

by_text : Ordering → Ordering → Bool
by_text Ordering.lt _ = true
by_text Ordering.eq Ordering.gt = false
by_text Ordering.eq _ = true
by_text Ordering.gt _ = false

abbrev pub Store : Type 0 → Type 0 → Type 0
Store J C = Dict String (Entry J C)

-- `Math.min(...times)`, `null` for no times.
pub least : List ℕ → Option ℕ
least [] = none
least (t ∷ ts) = elim (least ts) [ none ↦ some t | some u ↦ some (min t u) ]

module _ {J C : Type 0} where
  -- `byExecuteAt` as "not after".
  pub by_execute_at : Entry J C → Entry J C → Bool
  unfolding by_text
  by_execute_at a b =
      by_text (compare a.execute_at b.execute_at) (text_order a.dedupe_key b.dedupe_key)

  pub held_by : Store J C → ScheduledClaim → Result (Entry J C)
  held_by s claim = elim (get s claim.dedupe_key) [
    | none ↦ err (runtime_error (scheduled_claim_lost claim.dedupe_key))
    | some entry ↦ elim entry.claim_id [
      | none ↦ err (runtime_error (scheduled_claim_lost claim.dedupe_key))
      | some id ↦
          if id == claim.claim_id
          then ok entry
          else err (runtime_error (scheduled_claim_lost claim.dedupe_key))
    ]
  ]

  abbrev pub released : Entry J C → Entry J C
  released entry = record entry { claimed_at = none; claim_id = none }

  pub release : Store J C → Entry J C → Store J C
  release s entry = set s entry.dedupe_key (released entry)

  unfoldable pub cancel : Store J C → String → Store J C
  cancel s dedupe_key = delete s dedupe_key

  -- The two tests of `claimDue`: due, and held by nobody or past its lease.
  pub is_due : ℕ → Entry J C → Bool
  is_due now entry = leb entry.execute_at now

  pub is_claimable : ℕ → ℕ → Entry J C → Bool
  is_claimable now lease_ms entry = elim entry.claimed_at [
    | none ↦ true
    | some at ↦ ltb (at + lease_ms) now
  ]

  pub claimed_entry : ℕ → String → Entry J C → Entry J C
  claimed_entry now claim_id entry = record entry {
    scheduled = record entry.scheduled {
      attempts = elim entry.claimed_at [ none ↦ entry.attempts | some _ ↦ entry.attempts + 1 ];
    };
    claimed_at = some now;
    claim_id = some claim_id;
  }

  unfoldable pub complete : Store J C → ScheduledClaim → Result (Store J C)
  unfolding held_by release
  complete s claim = do
    entry ← held_by s claim
    ok (if entry.revision == claim.revision then delete s claim.dedupe_key else release s entry)

  -- A failed command waits for its retry, or is dropped.
  retried : Store J C → String → Entry J C → String → Option ℕ → Store J C
  retried s dedupe_key entry error none = delete s dedupe_key
  retried s dedupe_key entry error (some retry_at) = set s dedupe_key (record entry {
    scheduled = record entry.scheduled { execute_at = retry_at; attempts = entry.attempts + 1 };
    claimed_at = none;
    claim_id = none;
    last_error = some error;
  })

  unfoldable pub fail : Store J C → ScheduledClaim → String → Option ℕ → Result (Store J C)
  unfolding held_by release retried
  fail s claim error retry_at = do
    entry ← held_by s claim
    ok (
        if entry.revision == claim.revision
        then retried s claim.dedupe_key entry error retry_at
        else release s entry)

  deferred : ScheduledClaim → ℕ → Entry J C → Entry J C
  deferred claim execute_at entry =
      if entry.revision == claim.revision
      then record entry { scheduled = record entry.scheduled { execute_at = execute_at } }
      else entry

  unfoldable pub defer : Store J C → ScheduledClaim → ℕ → Result (Store J C)
  unfolding held_by release deferred
  defer s claim execute_at = do
    entry ← held_by s claim
    ok (release s (deferred claim execute_at entry))

  pub renew : Store J C → ScheduledClaim → ℕ → Result (Store J C)
  unfolding held_by
  renew s claim now = do
    entry ← held_by s claim
    ok (set s claim.dedupe_key (record entry { claimed_at = some now }))

  pub wake_time : ℕ → Entry J C → ℕ
  wake_time lease_ms entry = elim entry.claimed_at [
    | none ↦ entry.execute_at
    | some at ↦ at + lease_ms + 1
  ]

  pub next_due_at : Store J C → ℕ → Option ℕ
  unfolding wake_time least
  next_due_at s lease_ms = least (map (wake_time lease_ms) (values s))

  pub naming : Store J C → String → List (Entry J C)
  unfolding by_execute_at
  naming s person = sort_by by_execute_at (keep_if (λ e. names_person e.persons person) (values s))

  pub delete_all : Store J C → List (Entry J C) → Store J C
  delete_all s [] = s
  delete_all s (e ∷ es) = delete_all (delete s e.dedupe_key) es

module _ {J C : Type 0} (json : Json J C) where
  pub to_scheduled : Entry J C → ScheduledCommand J C
  to_scheduled entry = record entry.scheduled {
    command = record entry.command { payload = json.payload_copy entry.command.payload };
    context = json.context_copy entry.context;
    persons = elim entry.persons [ none ↦ none | some held ↦ some (json.persons_copy held) ];
  }

  abbrev pub persons_of : Option (List KeyedPerson) → List KeyedPerson
  persons_of none = []
  persons_of (some held) = held

  pub same_command : ScheduledCommand J C → ScheduledCommand J C → Bool
  same_command a b =
      json.command_text a.command == json.command_text b.command
      && json.context_text a.context == json.context_text b.context
      && json.persons_text (persons_of a.persons) == json.persons_text (persons_of b.persons)

  pub scheduled_of : ScheduleArgs J C → ScheduledCommand J C
  scheduled_of args = record {
    dedupe_key = args.dedupe_key;
    command = record args.command { payload = json.payload_copy args.command.payload };
    execute_at = args.execute_at;
    context = json.context_copy args.context;
    attempts = 0;
    persons = elim args.persons [ [] ↦ none | k ∷ ks ↦ some (json.persons_copy (k ∷ ks)) ];
  }

  unfoldable pub schedule : Store J C → ScheduleArgs J C → Store J C
  unfolding same_command scheduled_of
  schedule s args =
      let scheduled = scheduled_of args in
      elim (get s args.dedupe_key) [
        | none ↦ set s args.dedupe_key (record {
          scheduled = scheduled;
          revision = 0;
          claimed_at = none;
          claim_id = none;
          last_error = none;
        })
        | some existing ↦
            if same_command existing.scheduled scheduled
              && (args.keep_timing_of_same_command || existing.execute_at == scheduled.execute_at)
            then s
            else set s args.dedupe_key (record {
              scheduled = scheduled;
              revision = existing.revision + 1;
              claimed_at = existing.claimed_at;
              claim_id = existing.claim_id;
              last_error = none;
            })
      ]

  -- `uuid i` is the id that the i-th `randomUUID()` of the call draws.
  pub claim_each :
      ℕ → (ℕ → String) → ℕ → Store J C → List (Entry J C) → Store J C × List (ClaimedCommand J C)
  unfolding claimed_entry to_scheduled
  claim_each now uuid i s [] = (s, [])
  claim_each now uuid i s (entry ∷ due) =
      let claimed = claimed_entry now (uuid i) entry in
      let (s', rest) = claim_each now uuid (suc i) (set s entry.dedupe_key claimed) due in
      (
        s',
        record {
          scheduled = to_scheduled claimed;
          claim = record {
            dedupe_key = entry.dedupe_key;
            revision = claimed.revision;
            claim_id = uuid i;
          };
        }
            ∷ rest,
      )

  pub due_entries : Store J C → ℕ → ℕ → ℕ → List (Entry J C)
  unfolding is_due is_claimable by_execute_at
  due_entries s now limit lease_ms = take limit (
      sort_by by_execute_at (keep_if (is_claimable now lease_ms) (keep_if (is_due now) (values s))))

  pub claim_due : Store J C → ℕ → ℕ → ℕ → (ℕ → String) → Store J C × List (ClaimedCommand J C)
  unfolding due_entries claim_each
  claim_due s now limit lease_ms uuid = claim_each now uuid 0 s (due_entries s now limit lease_ms)

  pub list : Store J C → Option ℕ → ℕ → List (ScheduledCommand J C)
  unfolding by_execute_at to_scheduled
  list s limit offset = map to_scheduled (slice offset limit (sort_by by_execute_at (values s)))

  pub list_by_person : Store J C → String → List (ScheduledCommand J C)
  unfolding naming to_scheduled
  list_by_person s person = map to_scheduled (naming s person)

  pub forget : Store J C → String → Store J C × List (ScheduledCommand J C)
  unfolding naming delete_all to_scheduled
  forget s person = (delete_all s (naming s person), map to_scheduled (naming s person))
