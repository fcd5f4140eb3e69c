-- ===== src/Kernel/PendingRetries/Tests.antt =====
-- Two reactions wait, a command's retry is still to come and a command is scheduled before them.
use bounda.Prelude.{◌≤◌, ◌≡◌, refl, some, [], ◌∷◌, inl}
use bounda.Prelude.Tests.{nat_eq}
use bounda.Prelude.{true, false}
use bounda.Prelude.Lists.{add}
use bounda.Kernel.PendingRetries.{
  PendingRetries, start_round, waiting, skip_to_next, after_now, least, skip_target, skip_first,
}
use bounda.Kernel.PendingRetries.Skipping.{FallsDue, reaction, skip_to_next-FallsDue}

abbrev round : PendingRetries
round = record { due = 300 ∷ 400 ∷ []; due_now = false }

round-waiting : waiting 100 (waiting 100 start_round 300) 400 ≡ round
unfolding waiting add
round-waiting = refl

skipped : skip_to_next round 100 (some 200) (some 350) ≡ (200, true)
unfolding skip_to_next skip_first after_now least skip_target
skipped = refl

skip_to_next-FallsDue_example : FallsDue round 100 (some 200) (some 350) 200 × (200 ≤ 300)
skip_to_next-FallsDue_example =
    skip_to_next-FallsDue round 100 (some 200) (some 350) 200 300 refl skipped (reaction (inl refl))
