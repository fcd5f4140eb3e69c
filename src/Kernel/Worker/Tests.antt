-- ===== src/Kernel/Worker/Tests.antt =====
-- A worker over a store with one command, and a deadline whose runner stays behind.
use bounda.Prelude.Tests.{string_eq}
use bounda.Prelude.Dict.{get, set}
use bounda.Prelude.Lists.{All, contains}
use bounda.Prelude.{arith, ℕ, zero, suc, Bool, List, ◌≡◌, refl, String, true, false, [], ◌∷◌}
use bounda.Contracts.Errors.{error}
use bounda.Memory.Scheduler
use bounda.Memory.Scheduler.{Store, Json, next_due_at}
use bounda.Kernel.Retry.{
  ResolvedRetryConfig, exponential, retriable, classify_failure, retry_delay_ms,
}
use bounda.Kernel.Worker.{
  claim_limit, claim_due, Round, run_round, is_started, finish_round, kept_waits, is_deadline_ready,
  after_failure, retry_at, give_up,
}
use bounda.Kernel.Worker.Claiming.{claim_due-eq-claim_due}
use bounda.Kernel.Worker.Waiting.{runs_in, runs_in_the_end}

abbrev plain : Json String String
plain = record {
  payload_copy = λ p. p;
  context_copy = λ c. c;
  persons_copy = λ ps. ps;
  command_text = λ c. c.payload;
  context_text = λ c. c;
  persons_text = λ ps. "";
}

abbrev reminding : Store String String
reminding = Scheduler.schedule plain [] (record {
  dedupe_key = "remind:1";
  command = record { type = "Remind"; aggregate_id = "1"; payload = "soon" };
  execute_at = 5;
  context = "c";
  keep_timing_of_same_command = false;
  persons = [];
})

abbrev claim_ids : ℕ → String
claim_ids i = "claim"

claim_due-eq-claim_due_example :
    claim_due plain reminding 8 3 claim_ids
    ≡ Scheduler.claim_due plain reminding 8 claim_limit 3 claim_ids
claim_due-eq-claim_due_example = claim_due-eq-claim_due plain reminding 8 3 claim_ids

-- Its runner stays at 1, and the log's head is at 7.
abbrev behind : Bool → Bool → Round
behind late readable = record {
  is_late = late;
  is_readable = readable;
  head = 7;
  positions = 1 ∷ [];
  due = "other" ∷ "deadline:1" ∷ [];
}

abbrev same_rounds : ℕ → List Round
same_rounds zero = []
same_rounds (suc n) = behind false true ∷ same_rounds n

abbrev rounds : List Round
rounds = behind true true ∷ behind false false ∷ same_rounds 11

same_rounds-due : (n : ℕ) → All (λ r. contains "deadline:1" r.due ≡ true) (same_rounds n)
same_rounds-due zero = tt
same_rounds-due (suc n) = (refl, same_rounds-due n)

runs_in_the_end_example : runs_in "deadline:1" rounds [] ≡ true
runs_in_the_end_example =
    runs_in_the_end "deadline:1" rounds [] (refl, (refl, same_rounds-due 11)) (omega arith)

-- Ten rounds that ask are not enough.
waits_for_ten : runs_in "deadline:1" (behind true true ∷ same_rounds 10) [] ≡ false
unfolding runs_in run_round is_started is_deadline_ready finish_round kept_waits get set
waits_for_ten = refl

abbrev twice : ResolvedRetryConfig
twice = record {
  strategy = exponential;
  max_attempts = 2;
  base_delay_ms = 100;
  max_delay_ms = 1000;
}

retried_once : after_failure twice 1000 0 (error "Error") ≡ retry_at 1100
unfolding after_failure retry_delay_ms classify_failure
retried_once = refl

given_up : after_failure twice 1000 1 (error "Error") ≡ give_up retriable 2
unfolding after_failure retry_delay_ms classify_failure
given_up = refl
