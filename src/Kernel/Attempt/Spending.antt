-- ===== src/Kernel/Attempt/Spending.antt =====
-- kernel/shared/reaction-attempt.ts: an attempt that is done has left its claim succeeded.
use bounda.Prelude.{ℕ, ◌≡◌, refl, ap, subst, String, Option, none, some}
use bounda.Prelude.Tests.{if_both, string_eq}
use bounda.Contracts.Errors.{Failure, Result, ok, err, bind-eq-ok}
use bounda.Memory.InboxLedger
use bounda.Memory.InboxLedger.Success.{Succeeded, complete-Succeeded}
use bounda.Memory.InboxLedger.{ClaimKey, ClaimRecord, succeeded, failed, pending}
use bounda.Memory.DeadLetters.{DeadLetterErrorType}
use bounda.Kernel.InOrder.{ReactionOutcome, done, hold}
use bounda.Kernel.Attempt.Commits.{commit_attempt-Kept}
use bounda.Kernel.Attempt.{
  Storage, Ending, committed, threw, commit_failed, AttemptArgs, unless_lost, recorded,
  record_failure, ending_of_give_up, record_give_up, settle_failure, ending_of_run, run_claimed,
  run_if_claimed, claim_and_run, resume, start_or_resume, run_attempt, label_of, renew_claim,
  gave_up_on, is_claim_lost, settle_done, settle_given_up,
}

settle_given_up-Succeeded :
    (args : AttemptArgs) (label : String) (s s' : InboxLedger.Store)
    → settle_given_up args label s ≡ ok s'
    → Succeeded s' args.key
unfolding settle_given_up
settle_given_up-Succeeded args label s s' h =
    let (t, first, second) =
      bind-eq-ok (InboxLedger.fail s args.key (some args.claim_id) label)
        (λ t. InboxLedger.complete t args.key (some args.claim_id)) h in
    complete-Succeeded t s' args.key args.claim_id second

settle_done-Succeeded :
    (args : AttemptArgs) (s s' : InboxLedger.Store)
    → settle_done args s ≡ ok s'
    → Succeeded s' args.key
unfolding settle_done
settle_done-Succeeded args s s' h = complete-Succeeded s s' args.key args.claim_id h

module _ {X W : Type 0} (write : X → W → Result X) (meanwhile : ℕ → Storage X → Storage X)
    (args : AttemptArgs) (run : ℕ → Storage X → Result W)
    (give_up : Failure → ℕ → DeadLetterErrorType → Storage X → Result W) where
  -- What ends as done has succeeded.
  abbrev Spent : Storage X × Result ReactionOutcome → Type 0
  Spent (s, r) = r ≡ ok done → Succeeded s.inbox_ledger args.key

  held-Spent : (s : Storage X) → Spent (s, ok hold)
  held-Spent s h = cc

  thrown-Spent : (s : Storage X) (e : Failure) → Spent (s, err e)
  thrown-Spent s e h = cc

  unless_lost-Spent :
      (s : Storage X) (e : Failure) → Spent (unless_lost write meanwhile args run give_up s e)
  unfolding unless_lost
  unless_lost-Spent s e = if_both Spent (is_claim_lost e) (held-Spent s) (thrown-Spent s e)

  recorded-Spent :
      (s : Storage X) (r : Result InboxLedger.Store)
      → Spent (recorded write meanwhile args run give_up s r)
  unfolding recorded
  recorded-Spent s (ok l) = held-Spent (record s { inbox_ledger = l })
  recorded-Spent s (err e) = unless_lost-Spent s e

  ending_of_give_up-Spent :
      (s : Storage X) (e : Ending)
      → (e ≡ committed → Succeeded s.inbox_ledger args.key)
      → Spent (ending_of_give_up write meanwhile args run give_up s e)
  unfolding ending_of_give_up
  ending_of_give_up-Spent s committed kept h = kept refl
  ending_of_give_up-Spent s (threw e) kept h = unless_lost-Spent s e h
  ending_of_give_up-Spent s (commit_failed e) kept h = unless_lost-Spent s e h

  settle_failure-Spent :
      (attempts : ℕ) (s : Storage X) (e : Failure) (o : Option DeadLetterErrorType)
      → Spent (settle_failure write meanwhile args run give_up attempts s e o)
  unfolding settle_failure record_failure record_give_up
  settle_failure-Spent attempts s e none = recorded-Spent _ _
  settle_failure-Spent attempts s e (some error_type) = ending_of_give_up-Spent _ _ (
      commit_attempt-Kept write (settle_given_up args (label_of e)) (λ t. Succeeded t args.key)
        (settle_given_up-Succeeded args (label_of e)) meanwhile (give_up e attempts error_type)
        (renew_claim args) args.concurrency_retries _ s)

  ending_of_run-Spent :
      (attempts : ℕ) (s : Storage X) (e : Ending)
      → (e ≡ committed → Succeeded s.inbox_ledger args.key)
      → Spent (ending_of_run write meanwhile args run give_up attempts s e)
  unfolding ending_of_run
  ending_of_run-Spent attempts s committed kept h = kept refl
  ending_of_run-Spent attempts s (threw e) kept h =
      if_both Spent (is_claim_lost e) (held-Spent s)
        (settle_failure-Spent attempts s e (gave_up_on args.retry e attempts)) h
  ending_of_run-Spent attempts s (commit_failed e) kept h = unless_lost-Spent s e h

  run_if_claimed-Spent :
      (attempts : ℕ) (s : Storage X) (l : InboxLedger.Store) (o : Option String)
      → Spent (run_if_claimed write meanwhile args run give_up attempts s l o)
  unfolding run_if_claimed run_claimed
  run_if_claimed-Spent attempts s l none = held-Spent s
  run_if_claimed-Spent attempts s l (some id) = ending_of_run-Spent attempts _ _ (
      commit_attempt-Kept write (settle_done args) (λ t. Succeeded t args.key)
        (settle_done-Succeeded args) meanwhile (run attempts) (renew_claim args)
        args.concurrency_retries 1 (record s { inbox_ledger = l }))

  claim_and_run-Spent :
      (s : Storage X) (o : Option ClaimRecord)
      → Spent (claim_and_run write meanwhile args run give_up s o)
  unfolding claim_and_run
  claim_and_run-Spent s o = run_if_claimed-Spent _ _ _ _

  resume-Spent :
      (s : Storage X) (existing : ClaimRecord) (status : InboxLedger.ClaimStatus)
      → InboxLedger.get_claim s.inbox_ledger args.key ≡ some existing
      → existing.status ≡ status
      → Spent (resume write meanwhile args run give_up s existing status)
  unfolding resume Succeeded
  resume-Spent s existing succeeded there e h = (existing, there, e)
  resume-Spent s existing failed there e h =
      if_both Spent _ (held-Spent s) (claim_and_run-Spent s (some existing)) h
  resume-Spent s existing pending there e h = claim_and_run-Spent s (some existing) h

  start_or_resume-Spent :
      (s : Storage X) (o : Option ClaimRecord)
      → InboxLedger.get_claim s.inbox_ledger args.key ≡ o
      → Spent (start_or_resume write meanwhile args run give_up s o)
  unfolding start_or_resume
  start_or_resume-Spent s none there = claim_and_run-Spent s none
  start_or_resume-Spent s (some existing) there = resume-Spent s existing existing.status there refl

  -- Whatever the handler, the other writers and the conflicts do, an attempt that ends as done has left
  -- the claim of its key succeeded in the ledger.
  pub run_attempt-Succeeded :
      (s s' : Storage X)
      → run_attempt write meanwhile args run give_up s ≡ (s', ok done)
      → Succeeded s'.inbox_ledger args.key
  unfolding run_attempt
  run_attempt-Succeeded s s' h =
      subst (λ t. Succeeded t.inbox_ledger args.key) (ap (λ x. x.0) h)
        (start_or_resume-Spent s (InboxLedger.get_claim s.inbox_ledger args.key) refl
          (ap (λ x. x.1) h))
