-- ===== src/Memory/Persons/Activity.antt =====
-- memory/person-store.ts: what a late record changes, and who is never listed as idle.
use text.Mathlib.TextEquality.{eq_iff}
use bounda.Prelude.{
  ℕ, ◌≤◌, ◌≡◌, ◌≢◌, ap, sym, ◌∙◌, String, true, false, Option, some, arith, inl, inr,
}
use bounda.Prelude.Tests.{leb, if◌then◌else◌, ◌==◌, string_eq, Bool-cases, Option-cases}
use bounda.Prelude.Lists.{All, All-map, All-keep_if, All-sort_by, All-take, All-of_map}
use bounda.Prelude.Dict.{get, values, get-set, IsKeyed, set-IsKeyed, get-IsKeyed, All-values}
use bounda.Memory.Persons.{
  Store, KeptPerson, PersonActivity, is_none, or_else, existing, kept_or_new, get_person, stored_of,
  restrict, record_activity, is_idle, list_idle,
}

abbrev recorded : Store → PersonActivity → KeptPerson
recorded s a = record {
  stored = record (existing s a.person).stored {
    last_active_at = or_else a.last_active_at (existing s a.person).last_active_at;
    forgotten_at = a.forgotten_at;
  };
  position = a.position;
}

get-record_activity :
    (s : Store) (a : PersonActivity) (p : String)
    → get (record_activity s a) p ≡ (
        if leb a.position (existing s a.person).position
        then get s p
        else if a.person == p
        then some (recorded s a)
        else get s p)
unfolding record_activity
get-record_activity s a p = ground (arith, get-set s a.person (recorded s a) p)

position-record_activity :
    (s : Store) (a : PersonActivity)
    → leb a.position (existing (record_activity s a) a.person).position ≡ true
position-record_activity s a =
    unfold existing kept_or_new in
    ground (arith, get-record_activity s a a.person, eq_iff a.person a.person)

restricted-record_activity :
    (s : Store) (a : PersonActivity) (p : String)
    → (existing (record_activity s a) p).restricted_since ≡ (existing s p).restricted_since
unfolding existing kept_or_new
restricted-record_activity s a p =
    ground (arith, get-record_activity s a p, eq_iff a.person p, ap (get s))

again :
    (s : Store) (b : PersonActivity)
    → leb b.position (existing s b.person).position ≡ true
    → record_activity s b ≡ s
unfolding record_activity
again s b covered = rw covered

-- What events said about a person, recorded again or late, at a position that the row records already
-- or one before it, changes nothing; and no record touches another person or anybody's restriction.
pub record_activity_late :
    (s : Store) (a b : PersonActivity)
    → b.person ≡ a.person
    → b.position ≤ a.position
    → (record_activity (record_activity s a) b ≡ record_activity s a)
      × ((person : String)
          → (a.person == person) ≡ false
          → get_person (record_activity s a) person ≡ get_person s person)
      × ((person : String)
          → (existing (record_activity s a) person).restricted_since
            ≡ (existing s person).restricted_since)
record_activity_late s a b same late = (
  unchanged,
  λ person other. unfold get_person stored_of in ground (arith, get-record_activity s a person),
  restricted-record_activity s a,
)
  where
    covered : leb b.position (existing (record_activity s a) b.person).position ≡ true
    covered = rw same (ground (arith, position-record_activity s a))

    unchanged : record_activity (record_activity s a) b ≡ record_activity s a
    unchanged = again (record_activity s a) b covered

abbrev pub Keyed : Store → Type 0
Keyed = IsKeyed (λ k. k.person)

restrict-restricted :
    (s : Store) (person : String) (since : ℕ) (v : KeptPerson)
    → get (restrict s person since).0 person ≡ some v
    → is_none v.restricted_since ≡ false
unfolding restrict existing kept_or_new
restrict-restricted s person since v there = ground (
  arith,
  get-set s person
      (record (existing s person) {
        stored = record (existing s person).stored { restricted_since = some since };
      })
      person,
  eq_iff person person,
)

existing-person : (s : Store) (person : String) → Keyed s → (existing s person).person ≡ person
unfolding existing kept_or_new
existing-person s person v = elim (Option-cases (get s person)) [
  | inl new ↦ ground arith
  | inr (kept, there) ↦
      ground (arith, get-IsKeyed (λ (k : KeptPerson). k.person) s person kept v there)
]

restrict-Keyed :
    (s : Store) (person : String) (since : ℕ) → Keyed s → Keyed (restrict s person since).0
unfolding restrict
restrict-Keyed s person since v = elim (Bool-cases (is_none (existing s person).restricted_since)) [
  | inl free ↦
      rw free (set-IsKeyed (λ (k : KeptPerson). k.person) s person _ (existing-person s person v) v)
  | inr held ↦ rw held v
]

restrict_refused :
    (s : Store) (person : String) (since : ℕ)
    → is_none (existing s person).restricted_since ≡ false
    → restrict s person since ≡ (s, false)
unfolding restrict
restrict_refused s person since held = rw held

not_idle :
    (s : Store) (person : String) (since : ℕ) (active_before : Option ℕ) (k : KeptPerson)
    → get (restrict s person since).0 k.person ≡ some k
    → is_idle active_before k ≡ true
    → k.person ≢ person
unfolding is_idle
not_idle s person since active_before k there idle same =
    let held =
      restrict-restricted s person since k
        (sym (ap (get (restrict s person since).0) same) ∙ there) in
    ground (arith, held)

restrict_twice :
    (s : Store) (person : String) (since later : ℕ)
    → restrict (restrict s person since).0 person later ≡ ((restrict s person since).0, false)
restrict_twice s person since later =
    let held : is_none (existing (restrict s person since).0 person).restricted_since ≡ false =
      unfold restrict existing kept_or_new in
      ground (
        arith,
        get-set s person
            (record (existing s person) {
              stored = record (existing s person).stored { restricted_since = some since };
            })
            person,
        eq_iff person person,
      ) in
    restrict_refused (restrict s person since).0 person later held

-- A person whose processing is restricted is never listed as idle, whenever they were last active,
-- where each row stands under its own person; restricting twice answers `false` and keeps the first
-- moment.
pub restricted-unlisted :
    (s : Store) (person : String) (since later : ℕ) (active_before : Option ℕ) (limit : ℕ)
    → Keyed s
    → let t = (restrict s person since).0 in
      All (λ p. p.person ≢ person) (list_idle t active_before limit)
      × (restrict t person later ≡ (t, false))
unfolding list_idle
restricted-unlisted s person since later active_before limit v =
    let t : Store = (restrict s person since).0 in
    (
      All-of_map (λ p. p.person ≢ person) (λ k. k.stored) _
          (All-take _ limit _ (
            All-sort_by (λ k. k.person ≢ person) _ _
              (All-map _ (λ k. k.person ≢ person) (λ k h. h.0 h.1) _
                (All-keep_if (λ k. is_idle active_before k ≡ true → k.person ≢ person)
                  (is_idle active_before) (values t)
                  (All-values (λ k. k.person) _ t (restrict-Keyed s person since v)
                    (not_idle s person since active_before)))))),
      restrict_twice s person since later,
    )
