-- ===== src/Memory/Scheduler/Keyed.antt =====
-- memory/scheduler.ts: every entry stays under its own dedupe key, once, whatever is called.
use bounda.Prelude.{
  ℕ, suc, String, ◌≡◌, refl, ◌∙◌, subst, none, some, Option, List, [], ◌∷◌, arith, inl, inr,
}
use bounda.Prelude.Tests.{if◌then◌else◌, ◌==◌, string_eq, nat_eq, Option-cases, if_both}
use text.Mathlib.TextEquality.{eq_iff}
use bounda.Prelude.Dict.{get, set, delete, IsKeyed, set-IsKeyed, delete-IsKeyed, get-IsKeyed}
use bounda.Contracts.Errors.{ok, ◌>>=◌, bind-eq-ok, ok-injective}
use bounda.Memory.Scheduler.{
  Store, retried, deferred, scheduled_of, Entry, released, Json, ScheduleArgs, ScheduledClaim,
  held_by, release, claim_each, claimed_entry, cancel, complete, fail, defer, renew, schedule,
  claim_due, due_entries, forget, delete_all, naming,
}

module _ {J C : Type 0} where
  -- A key for each entry, once.
  abbrev pub Keyed : Store J C → Type 0
  Keyed s = IsKeyed (λ e. e.dedupe_key) s

  -- What `held_by` answers is the entry of the claim's key.
  pub held_by-get :
      (s : Store J C) (claim : ScheduledClaim) (e : Entry J C)
      → held_by s claim ≡ ok e
      → (get s claim.dedupe_key ≡ some e) × (e.claim_id ≡ some claim.claim_id)
  unfolding held_by
  held_by-get s claim e h = elim (Option-cases (get s claim.dedupe_key)) [
    | inl gone ↦ ground arith
    | inr (f, there) ↦ elim (Option-cases f.claim_id) [
      | inl free ↦ ground arith
      | inr (id, held) ↦ ground (arith, eq_iff id claim.claim_id)
    ]
  ]

  -- A settling that replaces the store by `f entry` keeps what `f` keeps.
  settled :
      (P : Store J C → Type 0) (s : Store J C) (claim : ScheduledClaim) (f : Entry J C → Store J C)
      (t : Store J C)
      → ((e : Entry J C) → get s claim.dedupe_key ≡ some e → P (f e))
      → (held_by s claim >>= λ e. ok (f e)) ≡ ok t
      → P t
  settled P s claim f t keep h =
      let (e, held, eq) = bind-eq-ok (held_by s claim) (λ e. ok (f e)) h in
      subst P (ok-injective eq) (keep e (held_by-get s claim e held).0)

  module _ (s : Store J C) (v : Keyed s) where
    own_key : (k : String) (e : Entry J C) → get s k ≡ some e → e.dedupe_key ≡ k
    own_key k e h = get-IsKeyed (λ e. e.dedupe_key) s k e v h

    put_back :
        (k : String) (e e' : Entry J C)
        → get s k ≡ some e
        → e'.dedupe_key ≡ e.dedupe_key
        → Keyed (set s k e')
    put_back k e e' h same = set-IsKeyed (λ e. e.dedupe_key) s k e' (same ∙ own_key k e h) v

    put_own : (e : Entry J C) → Keyed (set s e.dedupe_key e)
    put_own e = set-IsKeyed (λ e. e.dedupe_key) s e.dedupe_key e refl v

    remove : (k : String) → Keyed (delete s k)
    remove k = delete-IsKeyed (λ e. e.dedupe_key) s k v

    release-Keyed : (e : Entry J C) → Keyed (release s e)
    unfolding release
    release-Keyed e = put_own (released e)

    complete-Keyed : (claim : ScheduledClaim) (t : Store J C) → complete s claim ≡ ok t → Keyed t
    unfolding complete
    complete-Keyed claim t =
        settled Keyed s claim
          (λ e. if e.revision == claim.revision then delete s claim.dedupe_key else release s e) t
          (λ e there.
            if_both Keyed (e.revision == claim.revision) (remove claim.dedupe_key)
              (release-Keyed e))

    retried-Keyed :
        (k : String) (e : Entry J C) (error : String) (retry_at : Option ℕ)
        → get s k ≡ some e
        → Keyed (retried s k e error retry_at)
    unfolding retried
    retried-Keyed k e error none there = remove k
    retried-Keyed k e error (some at) there = put_back k e _ there refl

    fail-Keyed :
        (claim : ScheduledClaim) (error : String) (retry_at : Option ℕ) (t : Store J C)
        → fail s claim error retry_at ≡ ok t
        → Keyed t
    unfolding fail
    fail-Keyed claim error retry_at t =
        settled Keyed s claim
          (λ e.
            if e.revision == claim.revision
            then retried s claim.dedupe_key e error retry_at
            else release s e)
          t
          (λ e there.
            if_both Keyed (e.revision == claim.revision)
              (retried-Keyed claim.dedupe_key e error retry_at there) (release-Keyed e))

    defer-Keyed :
        (claim : ScheduledClaim) (at : ℕ) (t : Store J C) → defer s claim at ≡ ok t → Keyed t
    unfolding defer
    defer-Keyed claim at t =
        settled Keyed s claim (λ e. release s (deferred claim at e)) t
          (λ e there. release-Keyed (deferred claim at e))

    renew-Keyed :
        (claim : ScheduledClaim) (now : ℕ) (t : Store J C) → renew s claim now ≡ ok t → Keyed t
    unfolding renew
    renew-Keyed claim now t =
        settled Keyed s claim (λ e. set s claim.dedupe_key (record e { claimed_at = some now })) t
          (λ e there. put_back claim.dedupe_key e _ there refl)

  claim_each-Keyed :
      (json : Json J C) (now : ℕ) (uuid : ℕ → String) (i : ℕ) (s : Store J C)
      (due : List (Entry J C))
      → Keyed s
      → Keyed (claim_each json now uuid i s due).0
  unfolding claim_each claimed_entry
  claim_each-Keyed json now uuid i s [] v = v
  claim_each-Keyed json now uuid i s (e ∷ due) v =
      claim_each-Keyed json now uuid (suc i) (set s e.dedupe_key (claimed_entry now (uuid i) e)) due
        (put_own s v (claimed_entry now (uuid i) e))

  delete_all-Keyed : (s : Store J C) (es : List (Entry J C)) → Keyed s → Keyed (delete_all s es)
  unfolding delete_all
  delete_all-Keyed s [] v = v
  delete_all-Keyed s (e ∷ es) v =
      delete_all-Keyed (delete s e.dedupe_key) es (remove s v e.dedupe_key)

  schedule-Keyed :
      (json : Json J C) (s : Store J C) (args : ScheduleArgs J C)
      → Keyed s
      → Keyed (schedule json s args)
  unfolding schedule scheduled_of
  schedule-Keyed json s args v = elim (Option-cases (get s args.dedupe_key)) [
    | inl new ↦ rw (new, schedule) (set-IsKeyed (λ e. e.dedupe_key) s args.dedupe_key _ refl v)
    | inr (e, there) ↦
        rw (there, schedule)
          (if_both Keyed _ v (set-IsKeyed (λ e. e.dedupe_key) s args.dedupe_key _ refl v))
  ]

  -- A call on the scheduler and the store that it leaves.
  pub data Step (json : Json J C) (s : Store J C) : Store J C → Type 0 where
    schedules : (args : ScheduleArgs J C) → Step json s (schedule json s args)
    cancels : (k : String) → Step json s (cancel s k)
    claims :
        (now limit lease_ms : ℕ) (uuid : ℕ → String)
        → Step json s (claim_due json s now limit lease_ms uuid).0
    completes : (claim : ScheduledClaim) (t : Store J C) → complete s claim ≡ ok t → Step json s t
    fails :
        (claim : ScheduledClaim) (error : String) (retry_at : Option ℕ) (t : Store J C)
        → fail s claim error retry_at ≡ ok t
        → Step json s t
    defers :
        (claim : ScheduledClaim) (at : ℕ) (t : Store J C) → defer s claim at ≡ ok t → Step json s t
    renews :
        (claim : ScheduledClaim) (now : ℕ) (t : Store J C)
        → renew s claim now ≡ ok t
        → Step json s t
    forgets : (person : String) → Step json s (forget json s person).0

  -- Whatever is called, and whatever it answers, each entry stays under its own dedupe key and no key
  -- is there twice.
  pub Step-Keyed : (json : Json J C) {s t : Store J C} → Step json s t → Keyed s → Keyed t
  Step-Keyed json {s} (schedules args) v = schedule-Keyed json s args v
  Step-Keyed json {s} (cancels k) v = unfold cancel in remove s v k
  Step-Keyed json {s} (claims now limit lease_ms uuid) v =
      unfold claim_due in
      claim_each-Keyed json now uuid 0 s (due_entries json s now limit lease_ms) v
  Step-Keyed json {s} (completes claim t h) v = complete-Keyed s v claim t h
  Step-Keyed json {s} (fails claim error retry_at t h) v = fail-Keyed s v claim error retry_at t h
  Step-Keyed json {s} (defers claim at t h) v = defer-Keyed s v claim at t h
  Step-Keyed json {s} (renews claim now t h) v = renew-Keyed s v claim now t h
  Step-Keyed json {s} (forgets person) v = unfold forget in delete_all-Keyed s (naming s person) v
