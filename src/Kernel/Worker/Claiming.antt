-- ===== src/Kernel/Worker/Claiming.antt =====
-- kernel/scheduler/worker.ts: asking for the next due moment first loses no claim.
use mathlib.Core.Option.{some-injective, none-ne-some}
use bounda.Prelude.{ℕ, ◌<◌, ◌≡◌, refl, sym, ◌∙◌, subst, String, Option, none, some}
use bounda.Prelude.Tests.{ltb, ltb→lt, if_either}
use bounda.Memory.Scheduler
use bounda.Memory.Scheduler.{Store, Json, next_due_at}
use bounda.Memory.Scheduler.Waking.{claim_due_before_next_due_at}
use bounda.Kernel.Worker.{claim_limit, claim_from, claim_due}

module _ {J C : Type 0} (json : Json J C) (s : Store J C) (now lease_ms : ℕ)
    (uuid : ℕ → String) where
  claim_from-eq :
      (o : Option ℕ)
      → next_due_at s lease_ms ≡ o
      → claim_from json s now lease_ms uuid o
        ≡ Scheduler.claim_due json s now claim_limit lease_ms uuid
  unfolding claim_from
  claim_from-eq none e = sym (
      claim_due_before_next_due_at json s now claim_limit lease_ms uuid
        (λ t h. absurd (none-ne-some t (sym e ∙ h))))
  claim_from-eq (some next) e =
      if_either (λ x. x ≡ Scheduler.claim_due json s now claim_limit lease_ms uuid) (ltb now next)
        (λ early. sym (
          claim_due_before_next_due_at json s now claim_limit lease_ms uuid (λ t h.
            subst (λ u. now < u) (some-injective next t (sym e ∙ h)) (ltb→lt now next early))))
        (λ due. refl)

  -- A worker that asks for the next due moment first, and claims only when it has come, hands out what
  -- claiming at once would, and leaves the same store.
  pub claim_due-eq-claim_due :
      claim_due json s now lease_ms uuid ≡ Scheduler.claim_due json s now claim_limit lease_ms uuid
  unfolding claim_due
  claim_due-eq-claim_due = claim_from-eq (next_due_at s lease_ms) refl
