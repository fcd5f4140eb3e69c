-- ===== src/Kernel/Attempt/Commits.antt =====
-- commitAttempt of kernel/unit-of-work/unit-of-work.ts: what ends committed has settled the claim.
use bounda.Prelude.{◌+◌, ℕ, zero, suc, ◌≡◌, refl, subst, Bool, true, false, Option, none, some}
use bounda.Prelude.Tests.{if◌then◌else◌, string_eq}
use bounda.Contracts.Errors.{Failure, Result, ok, err, bind-eq-ok, ok-injective}
use bounda.Memory.InboxLedger
use bounda.Memory.InboxLedger.{ClaimKey, ClaimRecord, succeeded, failed, pending}
use bounda.Kernel.Attempt.{
  Storage, Ending, committed, threw, commit_failed, commit, after_commit, raced, renewed, race_once,
  rerun_race, commit_attempt, is_conflict,
}

module _ {X W : Type 0} (write : X → W → Result X)
    (settle : InboxLedger.Store → Result InboxLedger.Store) (P : InboxLedger.Store → Type 0)
    (settled : (s s' : InboxLedger.Store) → settle s ≡ ok s' → P s') where
  commit-settled :
      (s s' : Storage X) (staged : W) → commit write s staged settle ≡ ok s' → P s'.inbox_ledger
  unfolding commit
  commit-settled s s' staged h =
      let (t, first, second) = bind-eq-ok (write s.others staged) _ h in
      let (l, third, fourth) = bind-eq-ok (settle s.inbox_ledger) _ second in
      subst (λ u. P u.inbox_ledger) (ok-injective fourth) (settled s.inbox_ledger l third)

  -- What ends committed has settled the claim.
  abbrev pub Kept : Storage X × Ending → Type 0
  Kept (s, e) = e ≡ committed → P s.inbox_ledger

  abbrev KeptRerun : Option (Storage X × Ending) → Type 0
  KeptRerun none = Unit
  KeptRerun (some x) = Kept x

  module _ (meanwhile : ℕ → Storage X → Storage X) (work : Storage X → Result W)
      (before_rerun : ℕ → InboxLedger.Store → Result InboxLedger.Store) where
    conflict-Kept :
        (s : Storage X) (e : Failure) (b : Bool) (rerun : Option (Storage X × Ending))
        → KeptRerun rerun
        → Kept (
            if b
            then (elim rerun [ none ↦ (s, threw e) | some ending ↦ ending ])
            else (s, commit_failed e))
    conflict-Kept s e true none kept h = cc
    conflict-Kept s e true (some x) kept h = kept h
    conflict-Kept s e false rerun kept h = cc

    after_commit-Kept :
        (s : Storage X) (r : Result (Storage X)) (rerun : Option (Storage X × Ending))
        → ((s' : Storage X) → r ≡ ok s' → P s'.inbox_ledger)
        → KeptRerun rerun
        → Kept (after_commit write meanwhile work settle before_rerun s r rerun)
    unfolding after_commit
    after_commit-Kept s (ok s') rerun settles kept h = settles s' refl
    after_commit-Kept s (err e) rerun settles kept h =
        conflict-Kept s e (is_conflict e) rerun kept h

    raced-Kept :
        (i : ℕ) (s : Storage X) (rerun : Storage X → Option (Storage X × Ending)) (w : Result W)
        → ((t : Storage X) → KeptRerun (rerun t))
        → Kept (raced write meanwhile work settle before_rerun i s rerun w)
    unfolding raced
    raced-Kept i s rerun (err e) kept h = cc
    raced-Kept i s rerun (ok staged) kept h =
        let now = meanwhile i s in
        after_commit-Kept now (commit write now staged settle) (rerun now)
          (λ s' e. commit-settled now s' staged e) (kept now) h

    renewed-Kept :
        (s : Storage X) (race : Storage X → Storage X × Ending) (r : Result InboxLedger.Store)
        → ((t : Storage X) → Kept (race t))
        → Kept (renewed write meanwhile work settle before_rerun s race r)
    unfolding renewed
    renewed-Kept s race (err e) kept h = cc
    renewed-Kept s race (ok inbox_ledger) kept h = kept _ h

    rerun_race-Kept :
        (left i : ℕ) (s : Storage X)
        → KeptRerun (rerun_race write meanwhile work settle before_rerun left i s)
    unfolding rerun_race race_once
    rerun_race-Kept zero i s = tt
    rerun_race-Kept (suc left) i s =
        renewed-Kept (meanwhile i s)
          (λ t.
            race_once write meanwhile work settle before_rerun (i + 1) t
              (rerun_race write meanwhile work settle before_rerun left (i + 2)))
          (before_rerun i (meanwhile i s).inbox_ledger)
          (λ t. raced-Kept (i + 1) t _ (work t) (λ u. rerun_race-Kept left (i + 2) u))

    pub commit_attempt-Kept :
        (left i : ℕ) (s : Storage X)
        → Kept (commit_attempt write meanwhile work settle before_rerun left i s)
    unfolding commit_attempt race_once
    commit_attempt-Kept left i s = raced-Kept i s _ (work s) (λ t. rerun_race-Kept left (i + 1) t)
