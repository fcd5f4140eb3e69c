-- ===== src/Kernel/PendingRetries.antt =====
-- kernel/shared/pending-retries.ts: the retries that wait for their back-off in tests under a fixed
-- clock. Times are milliseconds; `now` is what the clock shows.
mod Skipping
mod Tests
use bounda.Prelude.{ℕ, Bool, true, false, ◌&&◌, Option, none, some, List, [], ◌∷◌, ◌++◌, min}
use bounda.Prelude.Tests.{ltb, leb, if◌then◌else◌, nat_eq}
use bounda.Prelude.Lists.{add}

pub record PendingRetries : Type 0 where
  pub due : List ℕ
  pub due_now : Bool

abbrev pub start_round : PendingRetries
start_round = record { due = []; due_now = false }

unfoldable pub waiting : ℕ → PendingRetries → ℕ → PendingRetries
waiting now p at =
    if leb at now then record p { due_now = true } else record p { due = add at p.due }

unfoldable pub after_now : ℕ → Option ℕ → List ℕ
after_now now none = []
after_now now (some command) = if ltb now command then command ∷ [] else []

unfoldable pub least : ℕ → List ℕ → ℕ
least at [] = at
least at (other ∷ others) = min at (least other others)

-- The moment the clock is set to before the retry, or at it.
unfoldable pub skip_target : ℕ → ℕ → Option ℕ → ℕ
skip_target now retry none = retry
skip_target now retry (some before) = if ltb now before && ltb before retry then before else retry

unfoldable pub skip_first : ℕ → List ℕ → Option ℕ → ℕ × Bool
unfolding skip_target least
skip_first now [] scheduled = (now, false)
skip_first now (at ∷ others) scheduled = (skip_target now (least at others) scheduled, true)

-- What the clock shows afterwards, and the answer.
unfoldable pub skip_to_next : PendingRetries → ℕ → Option ℕ → Option ℕ → ℕ × Bool
unfolding skip_first after_now
skip_to_next p now scheduled retried =
    if p.due_now then (now, true) else skip_first now (p.due ++ after_now now retried) scheduled
