-- ===== src/Kernel/Attempt/Tests.antt =====
-- An attempt whose first commit meets a stream that another writer moved: it renews the claim and runs
-- again.
use bounda.Prelude.{ℕ, zero, suc, ◌+◌, ◌≡◌, refl, none, some, [], ◌∷◌}
use bounda.Prelude.Tests.{if◌then◌else◌, ◌==◌, nat_eq, string_eq}
use bounda.Prelude.Dict.{get, set}
use bounda.Contracts.Errors.{runtime_error, concurrency, Failure, Result, ok, err}
use bounda.Memory.InboxLedger.{
  succeeded, try_claim, is_claimable, pending_claim, complete, renew, held, holds, lost,
  put_if_there, key_of, get_claim,
}
use bounda.Memory.InboxLedger.Success.{Succeeded}
use bounda.Memory.DeadLetters.{DeadLetterErrorType}
use bounda.Kernel.InOrder.{done}
use bounda.Kernel.Retry.{exponential}
use bounda.Kernel.Attempt.{
  Storage, AttemptArgs, run_attempt, start_or_resume, claim_and_run, run_if_claimed, run_claimed,
  ending_of_run, commit_attempt, race_once, raced, rerun_race, renewed, after_commit, commit,
  settle_done, renew_claim,
}
use bounda.Kernel.Attempt.Spending.{run_attempt-Succeeded}

abbrev args : AttemptArgs
args = record {
  key = record { handler = "mail"; event_id = "e1" };
  retry = record {
    strategy = exponential;
    max_attempts = 3;
    base_delay_ms = 10;
    max_delay_ms = 100;
  };
  lease_ms = 50;
  concurrency_retries = 1;
  now = 5;
  renewed_at = λ i. 9 + i;
  claim_id = "c1";
}

-- The rest of the storage is a stream's version; a commit appends at the version the run read.
abbrev write : ℕ → ℕ → Result ℕ
write version expected =
    if version == expected
    then ok (suc version)
    else err (runtime_error (concurrency "order-1" expected version))

abbrev moved_once : ℕ → Storage ℕ → Storage ℕ
moved_once (suc zero) s = record s { others = suc s.others }
moved_once _ s = s

abbrev reads : ℕ → Storage ℕ → Result ℕ
reads attempts s = ok s.others

abbrev letters : Failure → ℕ → DeadLetterErrorType → Storage ℕ → Result ℕ
letters e attempts error_type s = ok s.others

abbrev empty : Storage ℕ
empty = record { inbox_ledger = []; others = 0 }

abbrev reacted : Storage ℕ
reacted = record {
  inbox_ledger =
      (
        "mail\0e1",
        record {
          key = args.key;
          status = succeeded;
          attempts = 1;
          claimed_at = 11;
          claim_id = some "c1";
          last_error = none;
        },
      )
      ∷ [];
  others = 2;
}

reacts : run_attempt write moved_once args reads letters empty ≡ (reacted, ok done)
unfolding run_attempt start_or_resume claim_and_run run_if_claimed run_claimed ending_of_run
    commit_attempt race_once raced rerun_race renewed after_commit commit settle_done renew_claim
    try_claim is_claimable pending_claim complete renew held holds lost put_if_there key_of
    get_claim get set
reacts = refl

run_attempt-Succeeded_example : Succeeded reacted.inbox_ledger args.key
run_attempt-Succeeded_example =
    run_attempt-Succeeded write moved_once args reads letters empty reacted reacts
