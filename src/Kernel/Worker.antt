-- ===== src/Kernel/Worker.antt =====
-- kernel/scheduler/worker.ts over the memory scheduler: what a round claims, how long a due deadline
-- waits for the runners, and what a failed run comes to. The runs themselves are left out: a round
-- says of an entry whether it is executed.
pub mod Claiming
pub mod Waiting
mod Tests
use bounda.Prelude.{ℕ, ◌+◌, String, Bool, true, false, ◌||◌, Option, none, some, List, [], ◌∷◌, min}
use bounda.Prelude.Tests.{ltb, leb, if◌then◌else◌, string_eq}
use bounda.Prelude.Lists.{contains}
use bounda.Prelude.Dict.{Dict, get, set, delete}
use bounda.Contracts.Errors.{Failure}
use bounda.Memory.Scheduler
use bounda.Memory.Scheduler.{Store, Json, ClaimedCommand, next_due_at}
use bounda.Kernel.Retry.{
  FailureKind, terminal, retriable, RetryStrategy, never, ResolvedRetryConfig, classify_failure,
  retry_delay_ms,
}

abbrev pub claim_limit : ℕ
claim_limit = 50

abbrev pub deadline_wait_rounds : ℕ
deadline_wait_rounds = 10

pub record DeadlineWait : Type 0 where
  pub head : ℕ
  pub rounds : ℕ

module _ {J C : Type 0} (json : Json J C) where
  unfoldable pub claim_from :
      Store J C → ℕ → ℕ → (ℕ → String) → Option ℕ → Store J C × List (ClaimedCommand J C)
  claim_from s now lease_ms uuid none = (s, [])
  claim_from s now lease_ms uuid (some next) =
      if ltb now next then (s, []) else Scheduler.claim_due json s now claim_limit lease_ms uuid

  -- Claims only when the next moment that something falls due has come.
  unfoldable pub claim_due :
      Store J C → ℕ → ℕ → (ℕ → String) → Store J C × List (ClaimedCommand J C)
  unfolding claim_from
  claim_due s now lease_ms uuid = claim_from s now lease_ms uuid (next_due_at s lease_ms)

abbrev pub wait_of : Dict String DeadlineWait → String → ℕ → DeadlineWait
wait_of waits key head = elim (get waits key) [
  | none ↦ record { head = head; rounds = 0 }
  | some wait ↦ wait
]

abbrev pub least_of : ℕ → List ℕ → ℕ
least_of p [] = p
least_of p (q ∷ ps) = min p (least_of q ps)

-- Whether the deadline of a key runs in a round, by the positions of the runners it waits for.
unfoldable pub is_deadline_ready :
    ℕ → Dict String DeadlineWait → String → List ℕ → Dict String DeadlineWait × Bool
is_deadline_ready head waits key [] = (waits, true)
is_deadline_ready head waits key (p ∷ ps) =
    let wait = wait_of waits key head in
    if leb wait.head (least_of p ps) || leb deadline_wait_rounds wait.rounds
    then (delete waits key, true)
    else (set waits key (record { head = wait.head; rounds = wait.rounds + 1 }), false)

-- A round as one entry sees it: whether its turn comes too late after the claim, whether the runners'
-- positions could be read, the log's head, the positions of the runners it waits for, and what is due.
-- The other entries' waits stand under keys of their own; what the round notes of them is left out.
pub record Round : Type 0 where
  pub is_late : Bool
  pub is_readable : Bool
  pub head : ℕ
  pub positions : List ℕ
  pub due : List String

-- Whether the entry is executed, or else deferred: a late one is not asked about, and where the
-- positions could not be read only an entry that waits for no runner is ready.
unfoldable pub is_started :
    Bool → Bool → ℕ → List ℕ → Dict String DeadlineWait → String → Dict String DeadlineWait × Bool
unfolding is_deadline_ready
is_started true readable head positions waits key = (waits, false)
is_started false true head positions waits key = is_deadline_ready head waits key positions
is_started false false head [] waits key = (waits, true)
is_started false false head (p ∷ ps) waits key = (waits, false)

-- The waits of the entries that are due no more are forgotten.
unfoldable pub kept_waits : List String → Dict String DeadlineWait → Dict String DeadlineWait
kept_waits due [] = []
kept_waits due ((key, wait) ∷ waits) =
    if contains key due then (key, wait) ∷ kept_waits due waits else kept_waits due waits

unfoldable pub finish_round :
    List String → Dict String DeadlineWait × Bool → Dict String DeadlineWait × Bool
unfolding kept_waits
finish_round due (waits, started) = (kept_waits due waits, started)

unfoldable pub run_round :
    Round → Dict String DeadlineWait → String → Dict String DeadlineWait × Bool
unfolding is_started finish_round
run_round r waits key =
    finish_round r.due (is_started r.is_late r.is_readable r.head r.positions waits key)

pub data Settling : Type 0 where
  retry_at : ℕ → Settling
  give_up : FailureKind → ℕ → Settling

abbrev pub is_none : RetryStrategy → Bool
is_none never = true
is_none _ = false

unfoldable pub retried : ResolvedRetryConfig → ℕ → ℕ → FailureKind → Settling
retried retry now attempts terminal = give_up terminal attempts
retried retry now attempts retriable =
    if is_none retry.strategy
    then give_up retriable attempts
    else (if ltb attempts retry.max_attempts
        then retry_at (now + retry_delay_ms retry attempts)
        else give_up retriable attempts)

-- What a run that threw comes to, of an entry with so many attempts before.
unfoldable pub after_failure : ResolvedRetryConfig → ℕ → ℕ → Failure → Settling
unfolding retried
after_failure retry now attempts e = retried retry now (attempts + 1) (classify_failure e)
