-- ===== src/Memory/Scheduler/Claims.antt =====
-- `claimDue` and `nextDueAt` of memory/scheduler.ts: who may hold a command, and when.
use bounda.Prelude.{
  ℕ, suc, ◌+◌, ◌≤◌, String, ◌≡◌, ◌≢◌, refl, some, List, [], ◌∷◌, arith, inl, inr, true, ap,
}
use bounda.Prelude.Tests.{◌==◌, string_eq, nat_eq, Bool-cases}
use bounda.Prelude.Lists.{All, All-map, All-keep_if, All-sort_by, All-take, keep_if}
use bounda.Prelude.Dict.{get, set, values, get-set, All-values}
use text.Mathlib.TextEquality.{eq_iff}
use bounda.Memory.Scheduler.{
  Store, Entry, Json, ClaimedCommand, claim_each, claimed_entry, claim_due, due_entries, is_due,
  is_claimable, by_execute_at,
}
use bounda.Memory.Scheduler.Keyed.{Keyed, Step-Keyed, claims}

module _ {J C : Type 0} where
  -- An entry of the store that `claimDue` may hand out at `now`.
  abbrev IsOpen : Store J C → ℕ → ℕ → Entry J C → Type 0
  IsOpen s now lease_ms e =
      (get s e.dedupe_key ≡ some e) × (is_due now e ≡ true) × (is_claimable now lease_ms e ≡ true)

  due_entries-IsOpen :
      (json : Json J C) (s : Store J C) (now limit lease_ms : ℕ)
      → Keyed s
      → All (IsOpen s now lease_ms) (due_entries json s now limit lease_ms)
  unfolding due_entries
  due_entries-IsOpen json s now limit lease_ms v = All-take (IsOpen s now lease_ms) limit _ (
      All-sort_by (IsOpen s now lease_ms) by_execute_at
        (keep_if (is_claimable now lease_ms) (keep_if (is_due now) (values s)))
        (All-map _ (IsOpen s now lease_ms) (λ e h. (h.0.0, h.0.1, h.1)) _
          (All-keep_if _ (is_claimable now lease_ms) _ (
            All-keep_if (λ e. get s e.dedupe_key ≡ some e) (is_due now) (values s)
              (All-values (λ e. e.dedupe_key) (λ e. get s e.dedupe_key ≡ some e) s v
                (λ e there. there))))))

  -- The key is claimed, at `now`, by one of the ids.
  abbrev pub IsClaimedAt : Store J C → ℕ → (ℕ → String) → String → Type 0
  IsClaimedAt s now uuid k =
      (e : Entry J C) × (get s k ≡ some e)
      × (e.claimed_at ≡ some now)
      × ((i : ℕ) × (e.claim_id ≡ some (uuid i)))

  module _ (json : Json J C) (now : ℕ) (uuid : ℕ → String) where
    IsClaimedAt-set :
        (s : Store J C) (e : Entry J C) (i : ℕ) (k : String)
        → IsClaimedAt s now uuid k
        → IsClaimedAt (set s e.dedupe_key (claimed_entry now (uuid i) e)) now uuid k
    unfolding claimed_entry
    IsClaimedAt-set s e i k (f, there, at, held) = elim (Bool-cases (e.dedupe_key == k)) [
      | inl hit ↦ (claimed_entry now (uuid i) e, rw (get-set, hit), refl, (i, refl))
      | inr miss ↦ (f, rw (get-set, miss) there, at, held)
    ]

    claim_each-keeps :
        (i : ℕ) (s : Store J C) (due : List (Entry J C)) (k : String)
        → IsClaimedAt s now uuid k
        → IsClaimedAt (claim_each json now uuid i s due).0 now uuid k
    unfolding claim_each
    claim_each-keeps i s [] k h = h
    claim_each-keeps i s (e ∷ due) k h =
        claim_each-keeps (suc i) (set s e.dedupe_key (claimed_entry now (uuid i) e)) due k
          (IsClaimedAt-set s e i k h)

    claim_each-IsClaimedAt :
        (i : ℕ) (s : Store J C) (due : List (Entry J C))
        → All
            (λ (c : ClaimedCommand J C).
              IsClaimedAt (claim_each json now uuid i s due).0 now uuid c.claim.dedupe_key)
            (claim_each json now uuid i s due).1
    unfolding claim_each claimed_entry
    claim_each-IsClaimedAt i s [] = tt
    claim_each-IsClaimedAt i s (e ∷ due) =
        let s' : Store J C = set s e.dedupe_key (claimed_entry now (uuid i) e) in
        (
          claim_each-keeps (suc i) s' due e.dedupe_key (
            claimed_entry now (uuid i) e,
            rw (get-set, (eq_iff e.dedupe_key e.dedupe_key).1 refl),
            refl,
            (i, refl),
          ),
          claim_each-IsClaimedAt (suc i) s' due,
        )

  -- What `claimDue` hands out was open in the store it was called on.
  abbrev WasOpen : Store J C → ℕ → ℕ → ClaimedCommand J C → Type 0
  WasOpen s now lease_ms c =
      (e : Entry J C) × (get s c.claim.dedupe_key ≡ some e) × (is_claimable now lease_ms e ≡ true)

  claim_each-WasOpen :
      (json : Json J C) (now lease_ms : ℕ) (uuid : ℕ → String) (o : Store J C) (i : ℕ)
      (s : Store J C) (due : List (Entry J C))
      → All (IsOpen o now lease_ms) due
      → All (WasOpen o now lease_ms) (claim_each json now uuid i s due).1
  unfolding claim_each
  claim_each-WasOpen json now lease_ms uuid o i s [] h = tt
  claim_each-WasOpen json now lease_ms uuid o i s (e ∷ due) h = (
    (e, h.0.0, h.0.2),
    claim_each-WasOpen json now lease_ms uuid o (suc i)
        (set s e.dedupe_key (claimed_entry now (uuid i) e)) due h.1,
  )

  -- What `claimDue` hands out, the store then holds as claimed.
  pub claim_due-IsClaimedAt :
      (json : Json J C) (s : Store J C) (now limit lease_ms : ℕ) (uuid : ℕ → String)
      → All
          (λ (c : ClaimedCommand J C).
            IsClaimedAt (claim_due json s now limit lease_ms uuid).0 now uuid c.claim.dedupe_key)
          (claim_due json s now limit lease_ms uuid).1
  unfolding claim_due
  claim_due-IsClaimedAt json s now limit lease_ms uuid =
      claim_each-IsClaimedAt json now uuid 0 s (due_entries json s now limit lease_ms)

  -- A command claimed at `now` is not handed out again before its lease has passed.
  claimed_is_not_handed_out :
      (json : Json J C) (s : Store J C) (k : String) (now now' limit lease_ms : ℕ)
      (uuid ids : ℕ → String)
      → Keyed s
      → IsClaimedAt s now ids k
      → now' ≤ now + lease_ms
      → All
          (λ (d : ClaimedCommand J C). d.claim.dedupe_key ≢ k)
          (claim_due json s now' limit lease_ms uuid).1
  unfolding claim_due is_claimable
  claimed_is_not_handed_out json s k now now' limit lease_ms uuid ids v (e, there, at, held) early =
      All-map (WasOpen s now' lease_ms) (λ d. d.claim.dedupe_key ≢ k)
        (λ d h same. ground (arith, h.1, h.2, there, at, ap (get s) same))
        (claim_each json now' uuid 0 s (due_entries json s now' limit lease_ms)).1
        (claim_each-WasOpen json now' lease_ms uuid s 0 s (due_entries json s now' limit lease_ms)
          (due_entries-IsOpen json s now' limit lease_ms v))

  -- Of two `claimDue` calls in a row on a store whose entries stand under their own keys, the second no
  -- later after the first than the lease that the second is called with, no command is handed out by
  -- both.
  pub claim_due-exclusive :
      (json : Json J C) (s : Store J C) (now now' limit limit' lease_ms lease_ms' : ℕ)
      (uuid uuid' : ℕ → String)
      → Keyed s
      → now' ≤ now + lease_ms'
      → let first = claim_due json s now limit lease_ms uuid in
        let second = claim_due json first.0 now' limit' lease_ms' uuid' in
        All (λ c. All (λ d. d.claim.dedupe_key ≢ c.claim.dedupe_key) second.1) first.1
  claim_due-exclusive json s now now' limit limit' lease_ms lease_ms' uuid uuid' v early =
      let first : Store J C × List (ClaimedCommand J C) =
        claim_due json s now limit lease_ms uuid in
      let keyed : Keyed first.0 = Step-Keyed json (claims now limit lease_ms uuid) v in
      All-map (λ c. IsClaimedAt first.0 now uuid c.claim.dedupe_key) _
        (λ c held.
          claimed_is_not_handed_out json first.0 c.claim.dedupe_key now now' limit' lease_ms' uuid'
            uuid keyed held early)
        first.1 (claim_due-IsClaimedAt json s now limit lease_ms uuid)
