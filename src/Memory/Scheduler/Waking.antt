-- ===== src/Memory/Scheduler/Waking.antt =====
-- `nextDueAt` of memory/scheduler.ts against `claimDue`: when a host may sleep.
use native.Mathlib.Decide.{dec_le}
use bounda.Prelude.{
  ◌&&◌, ℕ, suc, ◌+◌, ◌≤◌, ◌<◌, String, ◌≡◌, ◌≢◌, refl, some, List, [], ◌∷◌, arith, inl, inr, Bool,
  true, false, map, min,
}
use bounda.Prelude.Tests.{if◌then◌else◌, Option-cases}
use bounda.Prelude.Lists.{All, keep_if, sort_by, insert_by, take, take-nil}
use bounda.Prelude.Dict.{values}
use bounda.Memory.Scheduler.{
  Store, Entry, Json, claim_each, claim_due, due_entries, is_due, is_claimable, by_execute_at,
  wake_time, least, next_due_at,
}

module _ {J C : Type 0} where
  abbrev open_entries : ℕ → ℕ → List (Entry J C) → List (Entry J C)
  open_entries now lease_ms es = keep_if (is_claimable now lease_ms) (keep_if (is_due now) es)

  open_entries-cons :
      (now lease_ms : ℕ) (e : Entry J C) (es : List (Entry J C))
      → open_entries now lease_ms (e ∷ es) ≡ (
          if is_due now e && is_claimable now lease_ms e
          then e ∷ open_entries now lease_ms es
          else open_entries now lease_ms es)
  open_entries-cons now lease_ms e es = ground arith

  asleep :
      (now lease_ms : ℕ) (e : Entry J C)
      → now < wake_time lease_ms e
      → (is_due now e && is_claimable now lease_ms e) ≡ false
  unfolding wake_time is_due is_claimable
  asleep now lease_ms e h = ground arith

  -- Nobody holds a command that was scheduled past the end of the claim's lease.
  abbrev pub NotPostponed : ℕ → Entry J C → Type 0
  NotPostponed lease_ms e = (at : ℕ) → e.claimed_at ≡ some at → e.execute_at ≤ at + lease_ms + 1

  awake :
      (now lease_ms : ℕ) (e : Entry J C)
      → NotPostponed lease_ms e
      → wake_time lease_ms e ≤ now
      → (is_due now e && is_claimable now lease_ms e) ≡ true
  unfolding wake_time is_due is_claimable
  awake now lease_ms e n h = elim (Option-cases e.claimed_at) [
    | inl free ↦ ground arith
    | inr (at, held) ↦ ground (arith, n at)
  ]

  -- Before the earliest wake time nothing is open.
  open_entries-early :
      (now lease_ms : ℕ) (es : List (Entry J C))
      → ((t : ℕ) → least (map (wake_time lease_ms) es) ≡ some t → now < t)
      → open_entries now lease_ms es ≡ []
  unfolding least
  open_entries-early now lease_ms [] early = refl
  open_entries-early now lease_ms (e ∷ es) early =
      elim (Option-cases (least (map (wake_time lease_ms) es))) [
        | inl last ↦
            rw
              (
                open_entries-cons,
                asleep now lease_ms e (early (wake_time lease_ms e) (ground arith)),
              )
              (open_entries-early now lease_ms es (λ t h. absurd (ground arith)))
        | inr (u, more) ↦
            let first : now < min (wake_time lease_ms e) u =
              early (min (wake_time lease_ms e) u) (ground arith) in
            rw (open_entries-cons, asleep now lease_ms e (omega arith))
              (open_entries-early now lease_ms es (λ t h. ground arith))
      ]

  open_entries-late :
      (now lease_ms t : ℕ) (es : List (Entry J C))
      → All (NotPostponed lease_ms) es
      → least (map (wake_time lease_ms) es) ≡ some t
      → t ≤ now
      → open_entries now lease_ms es ≢ []
  unfolding least
  open_entries-late now lease_ms t [] n h late = cc
  open_entries-late now lease_ms t (e ∷ es) n h late = elim (dec_le (wake_time lease_ms e) now) [
    | yes here ↦ rw (open_entries-cons, awake now lease_ms e n.0 here) (λ x. cc)
    | no later ↦ elim (Option-cases (least (map (wake_time lease_ms) es))) [
      | inl last ↦ absurd (ground arith)
      | inr (u, more) ↦
          rw (open_entries-cons, asleep now lease_ms e (omega arith))
            (open_entries-late now lease_ms u es n.1 more (ground arith))
    ]
  ]

  insert_by-ne-nil :
      (before : Entry J C → Entry J C → Bool) (e : Entry J C) (es : List (Entry J C))
      → insert_by before e es ≢ []
  insert_by-ne-nil before e [] = λ x. cc
  insert_by-ne-nil before e (f ∷ es) = ground arith

  sort_by-ne-nil :
      (before : Entry J C → Entry J C → Bool) (es : List (Entry J C))
      → es ≢ []
      → sort_by before es ≢ []
  sort_by-ne-nil before [] h = h
  sort_by-ne-nil before (e ∷ es) h = insert_by-ne-nil before e (sort_by before es)

  handed_out :
      (json : Json J C) (s : Store J C) (now limit : ℕ) (uuid : ℕ → String) (es : List (Entry J C))
      → es ≢ []
      → (claim_each json now uuid 0 s (take (suc limit) es)).1 ≢ []
  unfolding claim_each
  handed_out json s now limit uuid [] h = absurd (h refl)
  handed_out json s now limit uuid (e ∷ es) h = λ x. cc

  -- Before `nextDueAt`, or where it answers `null`, `claimDue` hands out nothing and changes nothing.
  pub claim_due_before_next_due_at :
      (json : Json J C) (s : Store J C) (now limit lease_ms : ℕ) (uuid : ℕ → String)
      → ((t : ℕ) → next_due_at s lease_ms ≡ some t → now < t)
      → claim_due json s now limit lease_ms uuid ≡ (s, [])
  unfolding claim_due due_entries next_due_at claim_each
  claim_due_before_next_due_at json s now limit lease_ms uuid early =
      rw (open_entries-early now lease_ms (values s) early, take-nil limit)

  -- From `nextDueAt` on, `claimDue` with a limit of at least one hands out a command, unless one is
  -- held that was scheduled meanwhile past the end of its claim's lease.
  pub claim_due_from_next_due_at :
      (json : Json J C) (s : Store J C) (now limit lease_ms t : ℕ) (uuid : ℕ → String)
      → All (NotPostponed lease_ms) (values s)
      → next_due_at s lease_ms ≡ some t
      → t ≤ now
      → (claim_due json s now (suc limit) lease_ms uuid).1 ≢ []
  unfolding claim_due due_entries next_due_at
  claim_due_from_next_due_at json s now limit lease_ms t uuid n h late =
      handed_out json s now limit uuid _ (
        sort_by-ne-nil by_execute_at (open_entries now lease_ms (values s))
          (open_entries-late now lease_ms t (values s) n h late))
