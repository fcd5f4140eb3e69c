-- ===== src/Memory/InboxLedger/Claims.antt =====
-- memory/inbox-ledger.ts: one runner at a time, and what the attempts count.
use mathlib.Core.Bool.{false≢true}
use mathlib.Core.Option.{some-injective}
use text.Mathlib.TextEquality.{eq_iff}
use bounda.Prelude.{
  ◌⊎◌, sym, ◌∙◌, ap, subst, ℕ, ◌+◌, ◌≤◌, ◌≡◌, ◌≢◌, refl, String, false, Option, none, some, List,
  [], ◌∷◌, arith, inl, inr, ◌↔◌, ◌<◌,
}
use bounda.Prelude.Tests.{if◌then◌else◌, if_either, ◌==◌, string_eq, Option-cases, Bool-cases}
use bounda.Prelude.Lists.{All}
use bounda.Prelude.Dict.{get, set, get-set}
use bounda.Contracts.Errors.{runtime_error, claim_lost, Result, ok, err, ◌>>=◌}
use bounda.Memory.InboxLedger.{
  Store, ClaimKey, ClaimRecord, ClaimStatus, pending, succeeded, failed, key_of, try_claim,
  is_claimable, complete, fail, renew, held, holds, lost, put_if_there, attempts_in, pending_claim,
}

-- Who may take the claim of a key: nobody had it, its last run failed, or its lease has passed.
pub data MayClaim (s : Store) (k : ClaimKey) (now lease_ms : ℕ) : Type 0 where
  fresh : get s (key_of k) ≡ none → MayClaim s k now lease_ms
  retry :
      (r : ClaimRecord) → get s (key_of k) ≡ some r → r.status ≡ failed → MayClaim s k now lease_ms
  abandoned :
      (r : ClaimRecord)
      → get s (key_of k) ≡ some r
      → r.status ≡ pending
      → r.claimed_at + lease_ms < now
      → MayClaim s k now lease_ms

-- A claim is handed out exactly when the key may be claimed; a `succeeded` one never is.
pub try_claim_iff :
    (s : Store) (k : ClaimKey) (now lease_ms : ℕ) (uuid : String)
    → ((try_claim s k now lease_ms uuid).1 ≡ some uuid) ↔ MayClaim s k now lease_ms
unfolding try_claim
try_claim_iff s k now lease_ms uuid = (granted, allowed)
  where
    granted : (try_claim s k now lease_ms uuid).1 ≡ some uuid → MayClaim s k now lease_ms
    granted h = elim (Option-cases (get s (key_of k))) [
      | inl new ↦ fresh new
      | inr (r, there) ↦ at_status r there r.status refl
    ]
      where
        at_status :
            (r : ClaimRecord)
            → get s (key_of k) ≡ some r
            → (st : ClaimStatus) → r.status ≡ st
            → MayClaim s k now lease_ms
        at_status r there pending e = abandoned r there e (ground arith)
        at_status r there succeeded e = absurd (ground arith)
        at_status r there failed e = retry r there e

    allowed : MayClaim s k now lease_ms → (try_claim s k now lease_ms uuid).1 ≡ some uuid
    allowed (fresh new) = ground arith
    allowed (retry r there e) = ground arith
    allowed (abandoned r there e late) = ground arith

-- The calls on the ledger, and the store that each leaves: one that throws changes nothing.
pub data Call : Type 0 where
  claims : ClaimKey → ℕ → ℕ → String → Call
  completes : ClaimKey → Option String → Call
  fails : ClaimKey → Option String → String → Call
  renews : ClaimKey → String → ℕ → Call

abbrev after : Store → Result Store → Store
after s (ok t) = t
after s (err e) = s

pub step : Store → Call → Store
step s (claims k now lease_ms uuid) = (try_claim s k now lease_ms uuid).0
step s (completes k claim_id) = after s (complete s k claim_id)
step s (fails k claim_id error) = after s (fail s k claim_id error)
step s (renews k claim_id now) = after s (renew s k claim_id now)

unfoldable pub run : Store → List Call → Store
unfolding step
run s [] = s
run s (c ∷ cs) = run (step s c) cs

-- The key's claim cannot be handed out before the lease counted from `now` has passed.
abbrev IsTaken : Option ClaimRecord → ℕ → Type 0
IsTaken none now = ⊥
IsTaken (some r) now = (r.status ≡ succeeded) ⊎ ((r.status ≡ pending) × (now ≤ r.claimed_at))

-- A call that does not fail the claim of the key, nor renew it as of before `now`, nor ask for it when
-- the lease it asks for has passed since.
abbrev pub Leaves : ClaimKey → ℕ → Call → Type 0
Leaves k now (claims j at lease_ms uuid) = (key_of j ≡ key_of k) → at ≤ now + lease_ms
Leaves k now (completes j claim_id) = Unit
Leaves k now (fails j claim_id error) = key_of j ≢ key_of k
Leaves k now (renews j claim_id at) = (key_of j ≡ key_of k) → now ≤ at

taken_is_not_claimable :
    (o : Option ClaimRecord) (now at lease_ms : ℕ)
    → IsTaken o now
    → at ≤ now + lease_ms
    → is_claimable o at lease_ms ≡ false
unfolding is_claimable
taken_is_not_claimable none now at lease_ms taken early = absurd taken
taken_is_not_claimable (some r) now at lease_ms (inl done) early = rw done refl
taken_is_not_claimable (some r) now at lease_ms (inr (waiting, le)) early =
    rw waiting (ground arith)

set-IsTaken :
    (s : Store) (j k : ClaimKey) (now : ℕ) (r : ClaimRecord)
    → (key_of j ≡ key_of k → IsTaken (some r) now)
    → IsTaken (get s (key_of k)) now
    → IsTaken (get (set s (key_of j) r) (key_of k)) now
set-IsTaken s j k now r own h =
    subst (λ o. IsTaken o now) (sym (get-set s (key_of j) r (key_of k)))
      (if_either (λ o. IsTaken o now) (key_of j == key_of k)
        (λ same. own ((eq_iff (key_of j) (key_of k)).0 same)) (λ other. h))

put_if_there-IsTaken :
    (s : Store) (j k : ClaimKey) (now : ℕ) (f : ClaimRecord → ClaimRecord) (o : Option ClaimRecord)
    → get s (key_of j) ≡ o
    → (key_of j ≡ key_of k → (r : ClaimRecord) → IsTaken (some r) now → IsTaken (some (f r)) now)
    → IsTaken (get s (key_of k)) now
    → IsTaken (get (put_if_there s j o f) (key_of k)) now
unfolding put_if_there
put_if_there-IsTaken s j k now f none there own h = h
put_if_there-IsTaken s j k now f (some r) there own h =
    set-IsTaken s j k now (f r)
      (λ same. own same r (subst (λ o. IsTaken o now) (ap (get s) (sym same) ∙ there) h)) h

settle-IsTaken :
    (s : Store) (j k : ClaimKey) (now : ℕ) (claim_id : Option String)
    (f : ClaimRecord → ClaimRecord)
    → (key_of j ≡ key_of k → (r : ClaimRecord) → IsTaken (some r) now → IsTaken (some (f r)) now)
    → IsTaken (get s (key_of k)) now
    → IsTaken (get (after s (held s j claim_id >>= λ r. ok (put_if_there s j r f))) (key_of k)) now
unfolding held lost
settle-IsTaken s j k now none f own h = put_if_there-IsTaken s j k now f _ refl own h
settle-IsTaken s j k now (some id) f own h = elim (Bool-cases (holds (get s (key_of j)) id)) [
  | inl mine ↦ rw mine (put_if_there-IsTaken s j k now f _ refl own h)
  | inr other ↦ rw other h
]

step-IsTaken :
    (s : Store) (k : ClaimKey) (now : ℕ) (c : Call)
    → Leaves k now c
    → IsTaken (get s (key_of k)) now
    → IsTaken (get (step s c) (key_of k)) now
unfolding step
step-IsTaken s k now (claims j at lease_ms uuid) quiet h =
    unfold try_claim in
    if_either (λ (x : Store × Option String). IsTaken (get x.0 (key_of k)) now)
      (is_claimable (get s (key_of j)) at lease_ms)
      (λ granted.
        set-IsTaken s j k now (pending_claim j (get s (key_of j)) at uuid)
          (λ same. absurd (
            false≢true (
              sym (
                taken_is_not_claimable (get s (key_of j)) now at lease_ms
                  (subst (λ key. IsTaken (get s key) now) (sym same) h) (quiet same))
              ∙ granted)))
          h)
      (λ refused. h)
step-IsTaken s k now (completes j claim_id) quiet h =
    unfold complete in
    settle-IsTaken s j k now claim_id (λ r. record r { status = succeeded })
      (λ same r taken. inl refl) h
step-IsTaken s k now (fails j claim_id error) quiet h =
    unfold fail in
    settle-IsTaken s j k now claim_id (λ r. record r { status = failed; last_error = some error })
      (λ same r taken. absurd (quiet same)) h
step-IsTaken s k now (renews j claim_id at) quiet h =
    unfold renew lost in
    elim (Bool-cases (holds (get s (key_of j)) claim_id)) [
      | inl mine ↦ rw mine (
          put_if_there-IsTaken s j k now (λ r. record r { claimed_at = at }) _ refl
            (λ same r taken. elim taken [
              | inl done ↦ inl done
              | inr (waiting, le) ↦ inr (waiting, quiet same)
            ])
            h)
      | inr other ↦ rw other h
    ]

run-IsTaken :
    (s : Store) (k : ClaimKey) (now : ℕ) (cs : List Call)
    → All (Leaves k now) cs
    → IsTaken (get s (key_of k)) now
    → IsTaken (get (run s cs) (key_of k)) now
unfolding run
run-IsTaken s k now [] quiet h = h
run-IsTaken s k now (c ∷ cs) quiet h =
    run-IsTaken (step s c) k now cs quiet.1 (step-IsTaken s k now c quiet.0 h)

-- What a claim that is handed out leaves of its key.
try_claim_lem :
    (s : Store) (k : ClaimKey) (now lease_ms : ℕ) (uuid : String)
    → (try_claim s k now lease_ms uuid).1 ≡ some uuid
    → get (try_claim s k now lease_ms uuid).0 (key_of k)
      ≡ some (pending_claim k (get s (key_of k)) now uuid)
unfolding try_claim
try_claim_lem s k now lease_ms uuid h =
    elim (Bool-cases (is_claimable (get s (key_of k)) now lease_ms)) [
      | inl granted ↦ rw granted (rw (get-set, (eq_iff (key_of k) (key_of k)).1 refl))
      | inr refused ↦ absurd (ground arith)
    ]

-- After a claim is handed out at `now`, any calls may follow, of anybody: as long as none of them is a
-- `fail` of the key, a `renew` of the key as of before `now`, or a `tryClaim` of the key that comes later
-- after `now` than the lease it is called with, a `tryClaim` of the key no later after `now` than its own
-- lease is refused and writes nothing.
pub try_claim-exclusive :
    (s : Store) (k : ClaimKey) (now now' lease_ms lease_ms' : ℕ) (uuid uuid' : String)
    (cs : List Call)
    → (try_claim s k now lease_ms uuid).1 ≡ some uuid
    → All (Leaves k now) cs
    → now' ≤ now + lease_ms'
    → try_claim (run (try_claim s k now lease_ms uuid).0 cs) k now' lease_ms' uuid'
      ≡ (run (try_claim s k now lease_ms uuid).0 cs, none)
try_claim-exclusive s k now now' lease_ms lease_ms' uuid uuid' cs h quiet early =
    let first : Store = (try_claim s k now lease_ms uuid).0 in
    let taken : IsTaken (get first (key_of k)) now =
      subst (λ o. IsTaken o now) (sym (try_claim_lem s k now lease_ms uuid h))
        (inr (unfold pending_claim in refl, unfold pending_claim in omega arith)) in
    let refused : is_claimable (get (run first cs) (key_of k)) now' lease_ms' ≡ false =
      taken_is_not_claimable _ now now' lease_ms' (run-IsTaken first k now cs quiet taken) early in
    unfold try_claim in rw refused

-- 1 where the call hands out the claim of the key.
grant : Store → ClaimKey → Call → ℕ
grant s j (claims k now lease_ms uuid) =
    if key_of k == key_of j
    then (elim (try_claim s k now lease_ms uuid).1 [ none ↦ 0 | some id ↦ 1 ])
    else 0
grant s j _ = 0

pub grants : Store → ClaimKey → List Call → ℕ
unfolding grant
grants s j [] = 0
grants s j (c ∷ cs) = grant s j c + grants (step s c) j cs

abbrev pub attempts_of : Store → ClaimKey → ℕ
attempts_of s j = attempts_in (get s (key_of j))

put_if_there-attempts :
    (s : Store) (k j : ClaimKey) (f : ClaimRecord → ClaimRecord)
    → ((r : ClaimRecord) → (f r).attempts ≡ r.attempts)
    → attempts_of (put_if_there s k (get s (key_of k)) f) j ≡ attempts_of s j
unfolding put_if_there
put_if_there-attempts s k j f same = elim (Option-cases (get s (key_of k))) [
  | inl gone ↦ rw (gone, put_if_there)
  | inr (r, there) ↦
      rw (there, put_if_there)
        (ground
          (arith, get-set s (key_of k) (f r) (key_of j), eq_iff (key_of k) (key_of j), same r))
]

settle-attempts :
    (s : Store) (k j : ClaimKey) (claim_id : Option String) (f : ClaimRecord → ClaimRecord)
    → ((r : ClaimRecord) → (f r).attempts ≡ r.attempts)
    → attempts_of (after s (held s k claim_id >>= λ r. ok (put_if_there s k r f))) j
      ≡ attempts_of s j
unfolding held lost
settle-attempts s k j none f same = put_if_there-attempts s k j f same
settle-attempts s k j (some id) f same = elim (Bool-cases (holds (get s (key_of k)) id)) [
  | inl mine ↦ rw mine (put_if_there-attempts s k j f same)
  | inr other ↦ rw other
]

step-attempts :
    (s : Store) (j : ClaimKey) (c : Call) → attempts_of (step s c) j ≡ attempts_of s j + grant s j c
unfolding step grant
step-attempts s j (claims k now lease_ms uuid) =
    unfold try_claim in
    elim (Bool-cases (is_claimable (get s (key_of k)) now lease_ms)) [
      | inl granted ↦ rw granted (
          ground (
            arith,
            get-set s (key_of k) (pending_claim k (get s (key_of k)) now uuid) (key_of j),
            eq_iff (key_of k) (key_of j),
          ))
      | inr refused ↦ rw refused (ground arith)
    ]
step-attempts s j (completes k claim_id) =
    unfold complete in
    omega (arith, settle-attempts s k j claim_id (λ r. record r { status = succeeded }) (λ r. refl))
step-attempts s j (fails k claim_id error) =
    unfold fail in
    omega (
      arith,
      settle-attempts s k j claim_id (λ r. record r { status = failed; last_error = some error })
          (λ r. refl),
    )
step-attempts s j (renews k claim_id now) =
    unfold renew lost in
    elim (Bool-cases (holds (get s (key_of k)) claim_id)) [
      | inl mine ↦ rw mine (
          omega
            (arith, put_if_there-attempts s k j (λ r. record r { claimed_at = now }) (λ r. refl)))
      | inr other ↦ rw other (omega arith)
    ]

-- Whatever is called, the attempts that a key's record counts grow by the claims of it handed out.
pub attempts-run :
    (s : Store) (j : ClaimKey) (cs : List Call)
    → attempts_of (run s cs) j ≡ attempts_of s j + grants s j cs
unfolding run grants
attempts-run s j [] = omega arith
attempts-run s j (c ∷ cs) = omega (arith, attempts-run (step s c) j cs, step-attempts s j c)

-- Where the key does not hold the claim, whoever settles or renews by its id is refused.
pub settling_needs_the_claim :
    (s : Store) (k : ClaimKey) (id error : String) (now : ℕ)
    → ((r : ClaimRecord) → get s (key_of k) ≡ some r → r.claim_id ≢ some id)
    → let refused = runtime_error (claim_lost k.handler k.event_id) in
      (complete s k (some id) ≡ err refused)
      × (fail s k (some id) error ≡ err refused)
      × (renew s k id now ≡ err refused)
unfolding complete fail renew lost held
settling_needs_the_claim s k id error now other =
    let refused : holds (get s (key_of k)) id ≡ false = not_held in
    (rw refused, rw refused, rw refused)
  where
    not_held : holds (get s (key_of k)) id ≡ false
    not_held =
        unfold holds in
        elim (Option-cases (get s (key_of k))) [
          | inl gone ↦ rw (gone, holds)
          | inr (r, there) ↦ elim (Option-cases r.claim_id) [
            | inl free ↦ rw (there, holds) (rw (free, holds))
            | inr (held_id, e) ↦
                rw (there, holds) (rw (e, holds) (ground (arith, eq_iff held_id id, other r there)))
          ]
        ]

-- Once a claim of the key has been handed out, to whoever it is, a run that holds another claim of it
-- neither completes nor fails nor renews: each call throws that the claim is lost.
pub superseded_claims_are_lost :
    (s : Store) (k : ClaimKey) (now lease_ms at : ℕ) (uuid id error : String)
    → (try_claim s k now lease_ms uuid).1 ≡ some uuid
    → uuid ≢ id
    → let t = (try_claim s k now lease_ms uuid).0 in
      let refused = runtime_error (claim_lost k.handler k.event_id) in
      (complete t k (some id) ≡ err refused)
      × (fail t k (some id) error ≡ err refused)
      × (renew t k id at ≡ err refused)
unfolding pending_claim
superseded_claims_are_lost s k now lease_ms at uuid id error h other =
    settling_needs_the_claim (try_claim s k now lease_ms uuid).0 k id error at (λ r there same.
      other (
        some-injective uuid id (
          ap (λ (x : ClaimRecord). x.claim_id)
            (some-injective (pending_claim k (get s (key_of k)) now uuid) r
              (sym (try_claim_lem s k now lease_ms uuid h) ∙ there))
          ∙ same)))
