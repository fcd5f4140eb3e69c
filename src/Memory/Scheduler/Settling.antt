-- ===== src/Memory/Scheduler/Settling.antt =====
-- `complete`, `fail`, `defer` and `renew` of memory/scheduler.ts: who may settle a claim, and what a
-- command that was scheduled again meanwhile becomes.
use mathlib.Core.Option.{some-injective}
use text.Mathlib.TextEquality.{eq_iff}
use bounda.Prelude.{
  ℕ, ◌+◌, String, ◌≡◌, ◌≢◌, refl, sym, ap, ◌∙◌, subst, none, some, Option, arith, inl, inr, false,
  ◌&&◌, ◌||◌,
}
use bounda.Prelude.Tests.{◌==◌, string_eq, nat_eq, Option-cases}
use bounda.Prelude.Lists.{All, All-map}
use bounda.Prelude.Dict.{get, set, get-set}
use bounda.Contracts.Errors.{Result, ok, err, runtime_error, scheduled_claim_lost}
use bounda.Memory.Scheduler.Claims.{IsClaimedAt, claim_due-IsClaimedAt}
use bounda.Memory.Scheduler.{
  claim_due, Store, Entry, Json, ScheduleArgs, ScheduledClaim, held_by, release, deferred, complete,
  fail, defer, renew, schedule, scheduled_of, same_command,
}

module _ {J C : Type 0} where
  -- The claim is the key's: nobody was handed the command since, and it is still there.
  abbrev pub Holds : Store J C → ScheduledClaim → Entry J C → Type 0
  Holds s claim e = (get s claim.dedupe_key ≡ some e) × (e.claim_id ≡ some claim.claim_id)

  held_by-Holds :
      (s : Store J C) (claim : ScheduledClaim) (e : Entry J C)
      → Holds s claim e
      → held_by s claim ≡ ok e
  unfolding held_by
  held_by-Holds s claim e (there, held) =
      rw (there, held_by)
        (rw (held, held_by) (ground (arith, eq_iff claim.claim_id claim.claim_id)))

  held_by-lost :
      (s : Store J C) (claim : ScheduledClaim)
      → ((e : Entry J C) → get s claim.dedupe_key ≡ some e → e.claim_id ≢ some claim.claim_id)
      → held_by s claim ≡ err (runtime_error (scheduled_claim_lost claim.dedupe_key))
  unfolding held_by
  held_by-lost s claim lost = elim (Option-cases (get s claim.dedupe_key)) [
    | inl gone ↦ rw (gone, held_by)
    | inr (e, there) ↦ elim (Option-cases e.claim_id) [
      | inl free ↦ rw (there, held_by) (rw (free, held_by))
      | inr (id, other) ↦
          rw (there, held_by)
            (rw (other, held_by) (ground (arith, eq_iff id claim.claim_id, lost e there)))
    ]
  ]

  abbrev pub IsRefused : ScheduledClaim → Result (Store J C) → Type 0
  IsRefused claim r = r ≡ err (runtime_error (scheduled_claim_lost claim.dedupe_key))

  -- Where the key holds no command or another claim, none of the four settles the claim: each throws
  -- `ScheduledClaimLostError`.
  pub unheld_claims_throw :
      (s : Store J C) (claim : ScheduledClaim) (error : String) (retry_at : Option ℕ) (at now : ℕ)
      → ((e : Entry J C) → get s claim.dedupe_key ≡ some e → e.claim_id ≢ some claim.claim_id)
      → IsRefused claim (complete s claim)
        × IsRefused claim (fail s claim error retry_at)
        × IsRefused claim (defer s claim at)
        × IsRefused claim (renew s claim now)
  unfolding complete fail defer renew
  unheld_claims_throw s claim error retry_at at now lost =
      let refused = held_by-lost s claim lost in (rw refused, rw refused, rw refused, rw refused)

  -- Once `claimDue` has handed out commands, a run that holds another claim of one of them, of
  -- whatever version, settles nothing: each of the four throws `ScheduledClaimLostError`.
  pub superseded_claims_throw :
      (json : Json J C) (s : Store J C) (now limit lease_ms : ℕ) (uuid : ℕ → String)
      (id error : String) (revision at later : ℕ) (retry_at : Option ℕ)
      → ((i : ℕ) → uuid i ≢ id)
      → let (t, handed_out) = claim_due json s now limit lease_ms uuid in
        All
          (λ c.
            let stale : ScheduledClaim = record {
              dedupe_key = c.claim.dedupe_key;
              revision = revision;
              claim_id = id;
            } in
            IsRefused stale (complete t stale)
            × IsRefused stale (fail t stale error retry_at)
            × IsRefused stale (defer t stale at)
            × IsRefused stale (renew t stale later))
          handed_out
  superseded_claims_throw json s now limit lease_ms uuid id error revision at later retry_at other =
      All-map
        (λ c. IsClaimedAt (claim_due json s now limit lease_ms uuid).0 now uuid c.claim.dedupe_key)
        _
        (λ c (e, there, claimed, (i, held)).
          unheld_claims_throw (claim_due json s now limit lease_ms uuid).0
            (record { dedupe_key = c.claim.dedupe_key; revision = revision; claim_id = id }) error
            retry_at at later
            (λ f found same. other i (
              some-injective (uuid i) id (
                sym held
                ∙ ap (λ (x : Entry J C). x.claim_id) (some-injective e f (sym there ∙ found))
                ∙ same))))
        (claim_due json s now limit lease_ms uuid).1
        (claim_due-IsClaimedAt json s now limit lease_ms uuid)

  -- The version that `schedule` puts in the place of a command that is being run.
  abbrev pub replacement : Json J C → ScheduleArgs J C → Entry J C → Entry J C
  replacement json args e = record {
    scheduled = scheduled_of json args;
    revision = e.revision + 1;
    claimed_at = none;
    claim_id = none;
    last_error = none;
  }

  -- `schedule` tells another command, or another time without `keepTimingOfSameCommand`.
  abbrev pub IsNewVersion : Json J C → ScheduleArgs J C → Entry J C → Type 0
  IsNewVersion json args e =
      (same_command json e.scheduled (scheduled_of json args)
        && (args.keep_timing_of_same_command
            || e.execute_at == (scheduled_of json args).execute_at))
      ≡ false

  -- The call succeeds, and the key then answers `o`.
  abbrev pub Leaves : Result (Store J C) → String → Option (Entry J C) → Type 0
  Leaves r k o = (t : Store J C) × (r ≡ ok t) × (get t k ≡ o)

  get-set_self : (s : Store J C) (k : String) (e : Entry J C) → get (set s k e) k ≡ some e
  get-set_self s k e = ground (arith, get-set s k e k, eq_iff k k)

  -- What `schedule` leaves of a command that is being run.
  schedule-Holds :
      (json : Json J C) (s : Store J C) (claim : ScheduledClaim) (args : ScheduleArgs J C)
      (e : Entry J C)
      → Holds s claim e
      → args.dedupe_key ≡ claim.dedupe_key
      → IsNewVersion json args e
      → Holds
          (schedule json s args)
          claim
          (record (replacement json args e) { claimed_at = e.claimed_at; claim_id = e.claim_id })
  unfolding schedule
  schedule-Holds json s claim args e (there, held) same new =
      (rw same (rw (there, schedule) (rw new (get-set_self s claim.dedupe_key _))), held)

  module _ (json : Json J C) (s : Store J C) (claim : ScheduledClaim) (args : ScheduleArgs J C)
      (e : Entry J C) (held : Holds s claim e) (current : e.revision ≡ claim.revision)
      (same_key : args.dedupe_key ≡ claim.dedupe_key) (new : IsNewVersion json args e) where
    running : Entry J C
    running = record (replacement json args e) { claimed_at = e.claimed_at; claim_id = e.claim_id }

    holds : held_by (schedule json s args) claim ≡ ok running
    unfolding running
    holds =
        held_by-Holds (schedule json s args) claim running
          (schedule-Holds json s claim args e held same_key new)

    released_running :
        Leaves
          (ok (release (schedule json s args) running))
          claim.dedupe_key
          (some (replacement json args e))
    unfolding running release scheduled_of
    released_running = (
      release (schedule json s args) running,
      refl,
      subst
          (λ k.
            get (set (schedule json s args) args.dedupe_key (replacement json args e)) k
            ≡ some (replacement json args e))
          same_key (get-set_self (schedule json s args) args.dedupe_key (replacement json args e)),
    )

    -- A command that is scheduled anew while a worker runs it is not lost when the worker settles its
    -- claim: whether the worker completes, fails or defers it, the key then holds the new version, with
    -- no attempt counted and claimed by nobody.
    pub rescheduled_while_running :
        (error : String) (retry_at : Option ℕ) (at : ℕ)
        → Leaves
            (complete (schedule json s args) claim)
            claim.dedupe_key
            (some (replacement json args e))
          × Leaves
              (fail (schedule json s args) claim error retry_at)
              claim.dedupe_key
              (some (replacement json args e))
          × Leaves
              (defer (schedule json s args) claim at)
              claim.dedupe_key
              (some (replacement json args e))
    unfolding complete fail defer deferred
    rescheduled_while_running error retry_at at =
        let stale : (e.revision + 1 == claim.revision) ≡ false = ground arith in
        (
          rw holds (unfold running in rw stale released_running),
          rw holds (unfold running in rw stale released_running),
          rw holds (unfold running in rw stale released_running),
        )
