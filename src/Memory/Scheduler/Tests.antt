-- ===== src/Memory/Scheduler/Tests.antt =====
-- Runs of memory/scheduler.ts on small inputs.
use text.Mathlib.TextEquality.{eq_iff}
use bounda.Prelude.{ℕ, suc, ◌≡◌, ◌≢◌, refl, String, false, none, some, List, [], ◌∷◌, arith}
use bounda.Prelude.Tests.{string_eq}
use bounda.Prelude.Lists.{All}
use bounda.Prelude.Dict.{get, set}
use bounda.Contracts.Events.{KeyedPerson}
use bounda.Memory.Scheduler.{
  Store, Entry, Json, ScheduleArgs, ScheduledClaim, schedule, claim_due, complete, fail, defer,
  renew, same_command, scheduled_of, next_due_at,
}
use bounda.Memory.Scheduler.Keyed.{Keyed, schedules, Step-Keyed}
use bounda.Memory.Scheduler.Claims.{claim_due-exclusive}
use bounda.Memory.Scheduler.Settling.{
  Holds, IsRefused, Leaves, replacement, superseded_claims_throw, rescheduled_while_running,
}
use bounda.Memory.Scheduler.Waking.{claim_due_before_next_due_at, claim_due_from_next_due_at}

persons_text : List KeyedPerson → String
persons_text [] = ""
persons_text (k ∷ ks) = k.person

-- Payloads and contexts that are texts, copied as they are.
abbrev plain : Json String String
plain = record {
  payload_copy = λ p. p;
  context_copy = λ c. c;
  persons_copy = λ ps. ps;
  command_text = λ c. c.payload;
  context_text = λ c. c;
  persons_text = persons_text;
}

abbrev remind : ℕ → String → ScheduleArgs String String
remind at payload = record {
  dedupe_key = "remind:1";
  command = record { type = "Remind"; aggregate_id = "1"; payload = payload };
  execute_at = at;
  context = "c";
  keep_timing_of_same_command = false;
  persons = [];
}

abbrev waiting : Store String String
waiting = schedule plain [] (remind 5 "soon")

Step-Keyed_sample : Keyed waiting
Step-Keyed_sample = Step-Keyed plain (schedules (remind 5 "soon")) tt

abbrev ids : ℕ → String
ids i = "claim"

waiting-Keyed : Keyed waiting
unfolding schedule scheduled_of get set
waiting-Keyed = (refl, refl, tt)

claim_due-exclusive_example :
    let first = claim_due plain waiting 5 10 3 ids in
    let second = claim_due plain first.0 8 10 3 ids in
    All (λ c. All (λ d. d.claim.dedupe_key ≢ c.claim.dedupe_key) second.1) first.1
claim_due-exclusive_example =
    claim_due-exclusive plain waiting 5 8 10 10 3 3 ids ids waiting-Keyed (omega arith)

abbrev entry : Entry String String
entry = record {
  scheduled = record {
    dedupe_key = "remind:1";
    command = record { type = "Remind"; aggregate_id = "1"; payload = "soon" };
    execute_at = 5;
    context = "c";
    attempts = 0;
    persons = none;
  };
  revision = 0;
  claimed_at = some 6;
  claim_id = some "claim";
  last_error = none;
}

abbrev held : Store String String
held = ("remind:1", entry) ∷ []

abbrev claim : ScheduledClaim
claim = record { dedupe_key = "remind:1"; revision = 0; claim_id = "claim" }

held-Holds : Holds held claim entry
unfolding get
held-Holds = (refl, refl)

superseded_claims_throw_example :
    let (t, handed_out) = claim_due plain waiting 5 10 3 ids in
    All
      (λ c.
        let stale : ScheduledClaim = record {
          dedupe_key = c.claim.dedupe_key;
          revision = 0;
          claim_id = "old";
        } in
        IsRefused stale (complete t stale)
        × IsRefused stale (fail t stale "boom" (some 9))
        × IsRefused stale (defer t stale 9)
        × IsRefused stale (renew t stale 7))
      handed_out
superseded_claims_throw_example =
    superseded_claims_throw plain waiting 5 10 3 ids "old" "boom" 0 9 7 (some 9)
      (λ i same. ground (arith, eq_iff "claim" "old"))

rescheduled_while_running_example :
    Leaves
      (complete (schedule plain held (remind 7 "later")) claim)
      "remind:1"
      (some (replacement plain (remind 7 "later") entry))
    × Leaves
        (fail (schedule plain held (remind 7 "later")) claim "boom" (some 9))
        "remind:1"
        (some (replacement plain (remind 7 "later") entry))
    × Leaves
        (defer (schedule plain held (remind 7 "later")) claim 9)
        "remind:1"
        (some (replacement plain (remind 7 "later") entry))
unfolding get same_command scheduled_of
rescheduled_while_running_example =
    rescheduled_while_running plain held claim (remind 7 "later") entry held-Holds refl refl refl
      "boom" (some 9) 9

claim_due_before_next_due_at_sample : claim_due plain held 8 10 3 ids ≡ (held, [])
unfolding next_due_at
claim_due_before_next_due_at_sample =
    claim_due_before_next_due_at plain held 8 10 3 ids (λ t h. ground arith)

claim_due_from_next_due_at_example : (claim_due plain held 10 (suc 0) 3 ids).1 ≢ []
unfolding next_due_at
claim_due_from_next_due_at_example =
    claim_due_from_next_due_at plain held 10 0 3 10 ids ((λ at h. ground arith), tt) refl
      (omega arith)
