-- ===== src/Memory/Forgetting/ForGood.antt =====
-- What is left of a person whom kernel/personal-data/forget.ts forgets in the stores of personal
-- keys, snapshots and outcomes, whatever others do meanwhile.
use text.Mathlib.TextEquality.{eq_iff}
use bounda.Prelude.{
  subst, ◌⊎◌, ℕ, ◌≡◌, refl, ap, sym, String, Bool, true, false, ◌&&◌, some, List, [], ◌∷◌, arith,
  inl, inr,
}
use bounda.Prelude.Tests.{◌==◌, string_eq, Bool-cases, Option-cases, if_both}
use bounda.Prelude.Lists.{any, every}
use bounda.Prelude.Dict.{Dict, get, set, get-set, get-delete, delete_where, delete_where-some}
use bounda.Contracts.Errors.{ok}
use bounda.Contracts.Events.{KeyedPerson, stream_id}
use bounda.Memory.PersonalKeys
use bounda.Memory.PersonalKeys.{StoredPersonalKey, RewrappedKey, holds, same_kid}
use bounda.Memory.Snapshots
use bounda.Memory.Snapshots.{Snapshot}
use bounda.Memory.Idempotency
use bounda.Memory.Idempotency.Lifetime.{purge_each-eq-delete_each}
use bounda.Memory.Idempotency.{IdempotencyRecord}
use bounda.Memory.Forgetting.{
  Stores, remove_key, forget_snapshots, forget_records, Step, adds, removes, rewraps, puts_snapshot,
  removes_snapshot, forgets_snapshots, puts_record, purges, forgets_records, Reach, here, next,
}

-- The people of the list are named under this very key.
abbrev pub named_under : String → String → List KeyedPerson → Bool
named_under person fingerprint =
    any (λ held. held.person == person && same_kid held.fingerprint (some fingerprint))

named_under-any :
    (person fingerprint : String) (ps : List KeyedPerson)
    → any (λ held. held.person == person) ps ≡ false
    → named_under person fingerprint ps ≡ false
named_under-any person fingerprint [] h = refl
named_under-any person fingerprint (p ∷ ps) h =
    ground (arith, named_under-any person fingerprint ps)

every-holds :
    (s : PersonalKeys.Store) (person fingerprint : String) (ps : List KeyedPerson)
    → holds s (record { person = person; fingerprint = some fingerprint }) ≡ false
    → every (holds s) ps ≡ true
    → named_under person fingerprint ps ≡ false
unfolding holds PersonalKeys.has_fingerprint
every-holds s person fingerprint [] keyless h = refl
every-holds s person fingerprint (p ∷ ps) keyless h = elim (Option-cases p.fingerprint) [
  | inl unkeyed ↦ ground (arith, every-holds s person fingerprint ps keyless)
  | inr (f, keyed) ↦ ground (
    arith,
    every-holds s person fingerprint ps keyless,
    eq_iff p.person person,
    eq_iff f fingerprint,
    ap (get s),
  )
]

-- The person holds no key of the fingerprint.
abbrev pub Keyless : String → String → PersonalKeys.Store → Type 0
Keyless person fingerprint s =
    holds s (record { person = person; fingerprint = some fingerprint }) ≡ false

-- What is set does not name the person under the key, so it adds nothing of theirs.
module _ {V : Type 0} (persons_of : V → List KeyedPerson) (person fingerprint : String) where
  -- No entry names the person under the key.
  abbrev pub Clear : Dict String V → Type 0
  Clear m =
      (k : String) (v : V)
      → get m k ≡ some v
      → named_under person fingerprint (persons_of v) ≡ false

  set-Clear :
      (m : Dict String V) (key : String) (w : V)
      → named_under person fingerprint (persons_of w) ≡ false
      → Clear m
      → Clear (set m key w)
  set-Clear m key w free clear k v there = elim (Bool-cases (key == k)) [
    | inl hit ↦
        subst (λ x. named_under person fingerprint (persons_of x) ≡ false)
          (ground (arith, get-set m key w k)) free
    | inr miss ↦ clear k v (ground (arith, get-set m key w k))
  ]

  delete_where-Clear : (test : V → Bool) (m : Dict String V) → Clear m → Clear (delete_where test m)
  delete_where-Clear test m clear k v there = clear k v (delete_where-some test m k v there).0

abbrev pub Unsnapshotted : String → String → Snapshots.Store → Type 0
Unsnapshotted = Clear (λ v. v.persons)

abbrev pub Unrecorded : {O : Type 0} → String → String → Idempotency.Store O → Type 0
Unrecorded = Clear (λ v. v.persons)

module _ {O : Type 0} (outcome_copy : O → O) (person fingerprint : String) where
  Step-Keyless :
      {s t : Stores O}
      → Step outcome_copy person fingerprint s t
      → Keyless person fingerprint s.keys
      → Keyless person fingerprint t.keys
  unfolding PersonalKeys.add PersonalKeys.remove PersonalKeys.rewrap holds
      PersonalKeys.has_fingerprint
  Step-Keyless {s} (adds p key fresh) h = ground (
    arith,
    get-set s.keys p key person,
    eq_iff p person,
    eq_iff key.fingerprint fingerprint,
    ap (get s.keys),
  )
  Step-Keyless {s} (removes p) h = ground (arith, get-delete s.keys p person)
  Step-Keyless {s} (rewraps p from to) h = elim (Option-cases (get s.keys p)) [
    | inl gone ↦ ground arith
    | inr (held, there) ↦ ground (
      arith,
      get-set s.keys p (record held { key = to.key; kid = to.kid }) person,
      eq_iff p person,
      ap (get s.keys),
    )
  ]
  Step-Keyless (puts_snapshot snapshot) h = h
  Step-Keyless (removes_snapshot stream) h = h
  Step-Keyless (forgets_snapshots p) h = h
  Step-Keyless (puts_record r now records e) h = h
  Step-Keyless (purges now) h = h
  Step-Keyless (forgets_records p) h = h

  Step-Unsnapshotted :
      {s t : Stores O}
      → Step outcome_copy person fingerprint s t
      → Keyless person fingerprint s.keys
      → Unsnapshotted person fingerprint s.snapshots
      → Unsnapshotted person fingerprint t.snapshots
  unfolding Snapshots.put Snapshots.remove Snapshots.forget
  Step-Unsnapshotted {s} (puts_snapshot snapshot) h clear =
      elim (Bool-cases (every (holds s.keys) snapshot.persons)) [
        | inl held ↦
            if_both (Unsnapshotted person fingerprint) _
              (set-Clear (λ v. v.persons) person fingerprint s.snapshots (stream_id snapshot.stream)
                snapshot (every-holds s.keys person fingerprint snapshot.persons h held) clear)
              clear
        | inr unheld ↦ subst (Unsnapshotted person fingerprint) (ground arith) clear
      ]
  Step-Unsnapshotted {s} (removes_snapshot stream) h clear =
      λ k v there. clear k v (ground (arith, get-delete s.snapshots (stream_id stream) k))
  Step-Unsnapshotted {s} (forgets_snapshots p) h clear =
      delete_where-Clear (λ v. v.persons) person fingerprint (Snapshots.names p) s.snapshots clear
  Step-Unsnapshotted (adds p key fresh) h clear = clear
  Step-Unsnapshotted (removes p) h clear = clear
  Step-Unsnapshotted (rewraps p from to) h clear = clear
  Step-Unsnapshotted (puts_record r now records e) h clear = clear
  Step-Unsnapshotted (purges now) h clear = clear
  Step-Unsnapshotted (forgets_records p) h clear = clear

  -- A `put` that succeeds kept the record, or left the store as it was.
  put-cases :
      (s records : Idempotency.Store O) (r : IdempotencyRecord O) (now : ℕ)
      (test : KeyedPerson → Bool)
      → Idempotency.put outcome_copy s r now test ≡ ok records
      → (records ≡ s)
        ⊎ ((every test r.persons ≡ true)
            × (records ≡ set s r.key (Idempotency.copy outcome_copy r)))
  unfolding Idempotency.put
  put-cases s records r now test e =
      elim (Option-cases (Idempotency.live outcome_copy (get s r.key) now)) [
        | inr (other, taken) ↦ absurd (ground arith)
        | inl free ↦ elim (Bool-cases (every test r.persons)) [
          | inl held ↦ inr (ground arith)
          | inr unheld ↦ inl (ground arith)
        ]
      ]

  Step-Unrecorded :
      {s t : Stores O}
      → Step outcome_copy person fingerprint s t
      → Keyless person fingerprint s.keys
      → Unrecorded person fingerprint s.records
      → Unrecorded person fingerprint t.records
  unfolding Idempotency.purge Idempotency.forget Idempotency.copy
  Step-Unrecorded {s} (puts_record r now records e) h clear =
      elim (put-cases s.records records r now (holds s.keys) e) [
        | inl unchanged ↦ subst (Unrecorded person fingerprint) (sym unchanged) clear
        | inr (held, kept) ↦ subst (Unrecorded person fingerprint) (sym kept) (
            set-Clear (λ v. v.persons) person fingerprint s.records r.key
              (Idempotency.copy outcome_copy r)
              (every-holds s.keys person fingerprint r.persons h held) clear)
      ]
  Step-Unrecorded {s} (purges now) h clear =
      subst (Unrecorded person fingerprint)
        (sym (purge_each-eq-delete_each now s.records s.records))
        (delete_where-Clear (λ v. v.persons) person fingerprint (λ r. Idempotency.expired r now)
          s.records clear)
  Step-Unrecorded {s} (forgets_records p) h clear =
      delete_where-Clear (λ v. v.persons) person fingerprint (Idempotency.names p) s.records clear
  Step-Unrecorded (adds p key fresh) h clear = clear
  Step-Unrecorded (removes p) h clear = clear
  Step-Unrecorded (rewraps p from to) h clear = clear
  Step-Unrecorded (puts_snapshot snapshot) h clear = clear
  Step-Unrecorded (removes_snapshot stream) h clear = clear
  Step-Unrecorded (forgets_snapshots p) h clear = clear

  Reach-Keyless :
      {s t : Stores O}
      → Reach outcome_copy person fingerprint s t
      → Keyless person fingerprint s.keys
      → Keyless person fingerprint t.keys
  Reach-Keyless here h = h
  Reach-Keyless (next r st) h = Step-Keyless st (Reach-Keyless r h)

  Reach-Unsnapshotted :
      {s t : Stores O}
      → Reach outcome_copy person fingerprint s t
      → Keyless person fingerprint s.keys
      → Unsnapshotted person fingerprint s.snapshots
      → Unsnapshotted person fingerprint t.snapshots
  Reach-Unsnapshotted here h clear = clear
  Reach-Unsnapshotted (next r st) h clear =
      Step-Unsnapshotted st (Reach-Keyless r h) (Reach-Unsnapshotted r h clear)

  Reach-Unrecorded :
      {s t : Stores O}
      → Reach outcome_copy person fingerprint s t
      → Keyless person fingerprint s.keys
      → Unrecorded person fingerprint s.records
      → Unrecorded person fingerprint t.records
  Reach-Unrecorded here h clear = clear
  Reach-Unrecorded (next r st) h clear =
      Step-Unrecorded st (Reach-Keyless r h) (Reach-Unrecorded r h clear)

  remove-Keyless : (s : Stores O) → Keyless person fingerprint (remove_key s person).keys
  unfolding remove_key PersonalKeys.remove holds PersonalKeys.has_fingerprint
  remove-Keyless s = ground (arith, get-delete s.keys person person, eq_iff person person)

  forget-Unsnapshotted :
      (s : Stores O) → Unsnapshotted person fingerprint (forget_snapshots s person).snapshots
  unfolding forget_snapshots Snapshots.forget
  forget-Unsnapshotted s k v there =
      named_under-any person fingerprint v.persons
        (delete_where-some (Snapshots.names person) s.snapshots k v there).1

  forget-Unrecorded :
      (s : Stores O) → Unrecorded person fingerprint (forget_records s person).records
  unfolding forget_records Idempotency.forget
  forget-Unrecorded s k v there =
      named_under-any person fingerprint v.persons
        (delete_where-some (Idempotency.names person) s.records k v there).1

  -- A forget removes the person's key, then forgets them in the snapshots and then in the outcomes,
  -- while others make any calls on the three stores in between and after: as long as no key of the
  -- old fingerprint is added for the person again, no snapshot and no outcome that names them under
  -- it is kept after these calls.
  pub forgotten_for_good :
      (s t u v : Stores O)
      → Reach outcome_copy person fingerprint (remove_key s person) t
      → Reach outcome_copy person fingerprint (forget_snapshots t person) u
      → Reach outcome_copy person fingerprint (forget_records u person) v
      → Keyless person fingerprint v.keys
        × Unsnapshotted person fingerprint v.snapshots
        × Unrecorded person fingerprint v.records
  unfolding forget_snapshots forget_records
  forgotten_for_good s t u v first second third =
      let h : Keyless person fingerprint t.keys = Reach-Keyless first (remove-Keyless s) in
      let k : Keyless person fingerprint u.keys = Reach-Keyless second h in
      (
        Reach-Keyless third k,
        Reach-Unsnapshotted third k (Reach-Unsnapshotted second h (forget-Unsnapshotted t)),
        Reach-Unrecorded third k (forget-Unrecorded u),
      )
