-- ===== src/Kernel/Attempt.antt =====
-- kernel/shared/reaction-attempt.ts over commitAttempt of kernel/unit-of-work/unit-of-work.ts: one
-- attempt of a reaction to one event, against the inbox ledger. Times are milliseconds.
-- The rest of the storage is a state `X`. What a handler run does on a unit of work, up to its commit,
-- is `run`: the events and writes it stages, of type `W`, or what it throws; `give_up` stages the dead
-- letter. `write` is what committing staged writes does to the rest of the storage, a
-- `ConcurrencyError` where a stream moved; a commit writes everything or nothing, as
-- `Storage.transact` promises. Others may do anything to the storage, `meanwhile i`, before the i-th step
-- of the attempt that waits for it.
mod Commits
pub mod Spending
mod Tests
use bounda.Prelude.{ℕ, zero, suc, ◌+◌, String, Bool, true, false, ◌||◌, Option, none, some}
use bounda.Prelude.Tests.{ltb, leb, if◌then◌else◌}
use bounda.Contracts.Errors.{
  BoundaError, concurrency, claim_lost, Failure, runtime_error, error, value, Result, ok, err,
  ◌>>=◌,
}
use bounda.Memory.InboxLedger
use bounda.Memory.InboxLedger.{ClaimKey, ClaimRecord, succeeded, failed, pending}
use bounda.Memory.DeadLetters.{DeadLetterErrorType, retriable_exhausted}
use bounda.Memory.DeadLetters
use bounda.Kernel.InOrder.{ReactionOutcome, done, hold}
use bounda.Kernel.Retry.{
  ResolvedRetryConfig, RetryStrategy, never, classify_failure, FailureKind, retry_delay_ms,
  error_identity, error_label,
}
use bounda.Kernel.Retry

pub record Storage (X : Type 0) : Type 0 where
  pub inbox_ledger : InboxLedger.Store
  pub others : X

-- How `commitAttempt` ends: it resolves, throws what the work threw or the last conflict, or throws
-- `CommitFailed` with a cause.
pub data Ending : Type 0 where
  committed : Ending
  threw : Failure → Ending
  commit_failed : Failure → Ending

abbrev pub is_conflict : Failure → Bool
is_conflict (runtime_error (concurrency stream expected actual)) = true
is_conflict _ = false

abbrev pub is_claim_lost : Failure → Bool
is_claim_lost (runtime_error (claim_lost handler event)) = true
is_claim_lost _ = false

module _ {X W : Type 0} (write : X → W → Result X) where
  -- A unit's staged writes, then what it does to the claim: all of it or nothing.
  unfoldable pub commit :
      Storage X → W → (InboxLedger.Store → Result InboxLedger.Store) → Result (Storage X)
  commit s staged settle = do
    others ← write s.others staged
    inbox_ledger ← settle s.inbox_ledger
    ok (record { inbox_ledger = inbox_ledger; others = others })

  module _ (meanwhile : ℕ → Storage X → Storage X) (work : Storage X → Result W)
      (settle : InboxLedger.Store → Result InboxLedger.Store)
      (before_rerun : ℕ → InboxLedger.Store → Result InboxLedger.Store) where
    -- What a commit's answer comes to, with `rerun` for the race that is left, if any.
    unfoldable pub after_commit :
        Storage X → Result (Storage X) → Option (Storage X × Ending) → Storage X × Ending
    after_commit s (ok s') rerun = (s', committed)
    after_commit s (err e) rerun =
        if is_conflict e
        then (elim rerun [ none ↦ (s, threw e) | some ending ↦ ending ])
        else (s, commit_failed e)

    -- The commit of what the work staged, or its failure.
    unfoldable pub raced :
        ℕ → Storage X → (Storage X → Option (Storage X × Ending)) → Result W → Storage X × Ending
    unfolding after_commit
    raced i s rerun (err e) = (s, threw e)
    raced i s rerun (ok staged) =
        let now = meanwhile i s in after_commit now (commit now staged settle) (rerun now)

    -- A race: the work on a fresh unit, and its commit.
    unfoldable pub race_once :
        ℕ → Storage X → (Storage X → Option (Storage X × Ending)) → Storage X × Ending
    unfolding raced
    race_once i s rerun = raced i s rerun (work s)

    -- What runs before a rerun throws, or leaves the ledger that the race starts from.
    unfoldable pub renewed :
        Storage X → (Storage X → Storage X × Ending) → Result InboxLedger.Store → Storage X × Ending
    renewed s race (err e) = (s, commit_failed e)
    renewed s race (ok inbox_ledger) = race (record s { inbox_ledger = inbox_ledger })

    -- `left` reruns remain. `i` counts the steps that others may come between.
    unfoldable pub rerun_race : ℕ → ℕ → Storage X → Option (Storage X × Ending)
    unfolding race_once renewed
    rerun_race zero i s = none
    rerun_race (suc left) i s = some (
        let now = meanwhile i s in
        renewed now (λ t. race_once (i + 1) t (rerun_race left (i + 2)))
          (before_rerun i now.inbox_ledger))

    unfoldable pub commit_attempt : ℕ → ℕ → Storage X → Storage X × Ending
    unfolding race_once rerun_race
    commit_attempt concurrency_retries i s = race_once i s (rerun_race concurrency_retries (i + 1))

-- The claim's arguments, and the ids and moments that the platform gives the attempt: `renewed_at i` is
-- the clock when the i-th step renews the claim.
pub record AttemptArgs : Type 0 where
  pub key : ClaimKey
  pub retry : ResolvedRetryConfig
  pub lease_ms : ℕ
  pub concurrency_retries : ℕ
  pub now : ℕ
  pub renewed_at : ℕ → ℕ
  pub claim_id : String

abbrev pub label_of : Failure → String
label_of e = error_label (error_identity e)

abbrev pub is_never : RetryStrategy → Bool
is_never never = true
is_never _ = false

unfoldable pub spent : ResolvedRetryConfig → ℕ → Bool
spent retry attempts = leb retry.max_attempts attempts || is_never retry.strategy

unfoldable pub gave_up_on : ResolvedRetryConfig → Failure → ℕ → Option DeadLetterErrorType
unfolding spent
gave_up_on retry e attempts = elim (classify_failure e) [
  | Retry.terminal ↦ some DeadLetters.terminal
  | Retry.retriable ↦ if spent retry attempts then some retriable_exhausted else none
]

unfoldable pub settle_done : AttemptArgs → InboxLedger.Store → Result InboxLedger.Store
settle_done args s = InboxLedger.complete s args.key (some args.claim_id)

unfoldable pub settle_given_up : AttemptArgs → String → InboxLedger.Store → Result InboxLedger.Store
settle_given_up args label s = do
  t ← InboxLedger.fail s args.key (some args.claim_id) label
  InboxLedger.complete t args.key (some args.claim_id)

unfoldable pub renew_claim : AttemptArgs → ℕ → InboxLedger.Store → Result InboxLedger.Store
renew_claim args i s = InboxLedger.renew s args.key args.claim_id (args.renewed_at i)

module _ {X W : Type 0} (write : X → W → Result X) (meanwhile : ℕ → Storage X → Storage X)
    (args : AttemptArgs) (run : ℕ → Storage X → Result W)
    (give_up : Failure → ℕ → DeadLetterErrorType → Storage X → Result W) where
  -- How many steps of others a run may wait for, so that the steps after it have numbers of their own.
  abbrev after_run : ℕ
  after_run = args.concurrency_retries + args.concurrency_retries + 3

  -- What recording a failure ends with: a lost claim holds the event, any other failure is thrown.
  unfoldable pub unless_lost : Storage X → Failure → Storage X × Result ReactionOutcome
  unless_lost s e = if is_claim_lost e then (s, ok hold) else (s, err e)

  unfoldable pub recorded :
      Storage X → Result InboxLedger.Store → Storage X × Result ReactionOutcome
  unfolding unless_lost
  recorded s (ok inbox_ledger) = (record s { inbox_ledger = inbox_ledger }, ok hold)
  recorded s (err e) = unless_lost s e

  unfoldable pub record_failure : Storage X → Failure → Storage X × Result ReactionOutcome
  unfolding recorded
  record_failure s e =
      let t = meanwhile after_run s in
      recorded t (InboxLedger.fail t.inbox_ledger args.key (some args.claim_id) (label_of e))

  unfoldable pub ending_of_give_up : Storage X → Ending → Storage X × Result ReactionOutcome
  unfolding unless_lost
  ending_of_give_up s committed = (s, ok done)
  ending_of_give_up s (threw e) = unless_lost s e
  ending_of_give_up s (commit_failed e) = unless_lost s e

  unfoldable pub record_give_up :
      Storage X → Failure → ℕ → DeadLetterErrorType → Storage X × Result ReactionOutcome
  unfolding ending_of_give_up commit_attempt
  record_give_up s e attempts error_type =
      let (t, ending) =
        commit_attempt write meanwhile (give_up e attempts error_type)
          (settle_given_up args (label_of e)) (renew_claim args) args.concurrency_retries
          (after_run + 1) s in
      ending_of_give_up t ending

  -- A failure is recorded, or the event given up on.
  unfoldable pub settle_failure :
      ℕ → Storage X → Failure → Option DeadLetterErrorType → Storage X × Result ReactionOutcome
  unfolding record_failure record_give_up
  settle_failure attempts s e none = record_failure s e
  settle_failure attempts s e (some error_type) = record_give_up s e attempts error_type

  unfoldable pub ending_of_run : ℕ → Storage X → Ending → Storage X × Result ReactionOutcome
  unfolding unless_lost settle_failure gave_up_on
  ending_of_run attempts s committed = (s, ok done)
  ending_of_run attempts s (commit_failed e) = unless_lost s e
  ending_of_run attempts s (threw e) =
      if is_claim_lost e
      then (s, ok hold)
      else settle_failure attempts s e (gave_up_on args.retry e attempts)

  unfoldable pub run_claimed : ℕ → Storage X → Storage X × Result ReactionOutcome
  unfolding ending_of_run commit_attempt
  run_claimed attempts s =
      let (t, ending) =
        commit_attempt write meanwhile (run attempts) (settle_done args) (renew_claim args)
          args.concurrency_retries 1 s in
      ending_of_run attempts t ending

  unfoldable pub run_if_claimed :
      ℕ → Storage X → InboxLedger.Store → Option String → Storage X × Result ReactionOutcome
  unfolding run_claimed
  run_if_claimed attempts s inbox_ledger none = (s, ok hold)
  run_if_claimed attempts s inbox_ledger (some claim_id) =
      run_claimed attempts (record s { inbox_ledger = inbox_ledger })

  unfoldable pub claim_and_run : Storage X → Option ClaimRecord → Storage X × Result ReactionOutcome
  unfolding run_if_claimed
  claim_and_run s existing =
      let t = meanwhile 0 s in
      let (inbox_ledger, claimed) =
        InboxLedger.try_claim t.inbox_ledger args.key args.now args.lease_ms args.claim_id in
      run_if_claimed (InboxLedger.attempts_in existing + 1) t inbox_ledger claimed

  unfoldable pub resume :
      Storage X → ClaimRecord → InboxLedger.ClaimStatus → Storage X × Result ReactionOutcome
  unfolding claim_and_run
  resume s existing succeeded = (s, ok done)
  resume s existing failed =
      if ltb args.now (existing.claimed_at + retry_delay_ms args.retry existing.attempts)
      then (s, ok hold)
      else claim_and_run s (some existing)
  resume s existing pending = claim_and_run s (some existing)

  unfoldable pub start_or_resume :
      Storage X → Option ClaimRecord → Storage X × Result ReactionOutcome
  unfolding claim_and_run resume
  start_or_resume s none = claim_and_run s none
  start_or_resume s (some existing) = resume s existing existing.status

  unfoldable pub run_attempt : Storage X → Storage X × Result ReactionOutcome
  unfolding start_or_resume
  run_attempt s = start_or_resume s (InboxLedger.get_claim s.inbox_ledger args.key)
