-- ===== src/Memory/DeadLetters/Settlement.antt =====
-- memory/dead-letter-store.ts: a letter is filed once and settled once, and what a forget takes.
use text.Mathlib.TextEquality.{eq_iff}
use bounda.Prelude.{
  ◌≡◌, refl, ap, sym, ◌∙◌, subst, String, true, false, none, some, List, arith, inl, inr,
}
use bounda.Prelude.Tests.{string_eq, Bool-cases, Option-cases}
use bounda.Prelude.Lists.{keep_if, sort_by}
use bounda.Prelude.Dict.{
  get, set, has, values, unless, get-set, get-delete, IsKeyed, set-IsKeyed, delete-IsKeyed,
  get-IsKeyed,
}
use bounda.Prelude.Removal.{
  delete_all, delete_all-kept, delete_all-IsKeyed, get-delete_kept, keep_if-all,
}
use bounda.Contracts.Errors.{runtime_error, dead_letter_settled, ok, err, ok-injective}
use bounda.Contracts.Events.{names_person}
use bounda.Memory.DeadLetters.{
  Store, NewDeadLetter, StoredDeadLetter, DeadLetterStatus, failed, same_status, copy, copied, add,
  get_letter, update_status, remove, naming, forget, select, matches, everything, not_after,
}

-- Each letter under its own id, once.
abbrev pub Keyed : {P : Type 0} → Store P → Type 0
Keyed = IsKeyed (λ l. l.id)

module _ {P : Type 0} (payload_copy : P → P) where
  -- Filing a letter under an id again, whatever it says, changes nothing and answers the letter first
  -- filed under the id, the one that `get` answers.
  pub add-keeps_first :
      (s : Store P) (first second : NewDeadLetter P)
      → second.id ≡ first.id
      → (add payload_copy (add payload_copy s first).0 second ≡ add payload_copy s first)
        × (get_letter payload_copy (add payload_copy s first).0 first.id
            ≡ some (add payload_copy s first).1)
  unfolding add get_letter copied
  add-keeps_first s first second same = elim (Option-cases (get s first.id)) [
    | inr (old, there) ↦ ground (arith, ap (get s) same)
    | inl new ↦
        let stored : StoredDeadLetter P =
          copy payload_copy (record { letter = first; status = failed }) in
        ground (
          arith,
          get-set s first.id stored first.id,
          ap (get (set s first.id stored)) same,
          eq_iff first.id first.id,
        )
  ]

  -- A call that writes to the store, and the store after it.
  pub data Step (s : Store P) : Store P → Type 0 where
    adds : (letter : NewDeadLetter P) → Step s (add payload_copy s letter).0
    settles :
        (id : String) (status : DeadLetterStatus) (t : Store P)
        → update_status s id status ≡ ok t
        → Step s t
    removes : (id : String) → Step s (remove s id)
    forgets : (person : String) → Step s (forget payload_copy s person).0

  -- Calls one after the other, after each of which the letter of the id is still there.
  pub data Keeping (id : String) (s : Store P) : Store P → Type 0 where
    here : Keeping id s s
    next : {t u : Store P} → Keeping id s t → Step t u → has u id ≡ true → Keeping id s u

  Step-settled :
      {s t : Store P}
      → Step s t
      → (id : String) (v : StoredDeadLetter P) → get s id ≡ some v
      → same_status v.status failed ≡ false
      → has t id ≡ true
      → get t id ≡ some v
  unfolding add update_status remove forget
  Step-settled {s} (adds letter) id v there settled kept = ground (
    arith,
    get-set s letter.id (copy payload_copy (record { letter = letter; status = failed })) id,
    eq_iff letter.id id,
    ap (get s),
  )
  Step-settled {s} (settles j status t h) id v there settled kept = elim (Option-cases (get s j)) [
    | inl gone ↦ absurd (ground arith)
    | inr (w, found) ↦ elim (Bool-cases (same_status w.status failed)) [
      | inr refused ↦ absurd (ground arith)
      | inl free ↦
          let e : set s j (record w { status = status }) ≡ t = ok-injective (ground arith) in
          rw (← e)
            (ground (arith, get-set s j (record w { status = status }) id, eq_iff j id, ap (get s)))
    ]
  ]
  Step-settled {s} (removes j) id v there settled kept = ground (arith, get-delete s j id)
  Step-settled {s} (forgets person) id v there settled kept =
      elim (delete_all-kept (λ (l : StoredDeadLetter P). l.id) s (naming s person) id v there) [
        | inl stays ↦ stays
        | inr gone ↦ absurd (ground arith)
      ]

  Keeping-settled :
      (id : String) (v : StoredDeadLetter P) {s t : Store P}
      → Keeping id s t
      → get s id ≡ some v
      → same_status v.status failed ≡ false
      → get t id ≡ some v
  Keeping-settled id v here there settled = there
  Keeping-settled id v (next r st kept) there settled =
      Step-settled st id v (Keeping-settled id v r there settled) settled kept

  update_status-ok :
      (s t : Store P) (id : String) (status : DeadLetterStatus)
      → update_status s id status ≡ ok t
      → (v : StoredDeadLetter P) × (get t id ≡ some v) × (v.status ≡ status)
  unfolding update_status
  update_status-ok s t id status h = elim (Option-cases (get s id)) [
    | inl gone ↦ absurd (ground arith)
    | inr (w, found) ↦ elim (Bool-cases (same_status w.status failed)) [
      | inr refused ↦ absurd (ground arith)
      | inl free ↦
          let e : set s id (record w { status = status }) ≡ t = ok-injective (ground arith) in
          (
            record w { status = status },
            ground (
              arith,
              ap (λ m. get m id) e,
              get-set s id (record w { status = status }) id,
              eq_iff id id,
            ),
            refl,
          )
    ]
  ]

  update_status-settled :
      (s : Store P) (id : String) (status : DeadLetterStatus) (v : StoredDeadLetter P)
      → get s id ≡ some v
      → same_status v.status failed ≡ false
      → update_status s id status ≡ err (runtime_error (dead_letter_settled id none))
  unfolding update_status
  update_status-settled s id status v there settled = ground arith

  -- Once a letter was retried or discarded, every other retry or discard of it throws
  -- `DeadLetterSettledError`, and the letter stays as it was settled, whatever is filed, settled,
  -- removed or forgotten in between, as long as the letter itself is not removed.
  pub settled_once :
      (s t u : Store P) (id : String) (status : DeadLetterStatus)
      → update_status s id status ≡ ok t
      → same_status status failed ≡ false
      → Keeping id t u
      → (get u id ≡ get t id)
        × ((again : DeadLetterStatus)
            → update_status u id again ≡ err (runtime_error (dead_letter_settled id none)))
  settled_once s t u id status h settled r =
      let (v, there, e) = update_status-ok s t id status h in
      let over : same_status v.status failed ≡ false = ground arith in
      let still : get u id ≡ some v = Keeping-settled id v r there over in
      (still ∙ sym there, λ again. update_status-settled u id again v still over)

  -- A forget takes exactly the letters whose `persons` name the person, whatever their status, and
  -- leaves each other letter as it was.
  pub get-forget :
      (s : Store P) (person id : String)
      → Keyed s
      → get (forget payload_copy s person).0 id
        ≡ unless (λ l. names_person l.persons person) (get s id)
  unfolding forget naming select
  get-forget s person id v =
      ap
        (λ (vs : List (StoredDeadLetter P)).
          get
            (delete_all (λ l. l.id) s
              (keep_if (λ l. names_person l.persons person) (sort_by not_after vs)))
            id)
        (keep_if-all (λ l. matches l everything) (values s) (λ l. unfold matches in refl))
      ∙ get-delete_kept (λ l. l.id) (λ l. names_person l.persons person) not_after s id v

  -- Every call keeps each letter under its own id, once.
  pub Step-IsKeyed : {s t : Store P} → Step s t → Keyed s → Keyed t
  unfolding add update_status remove forget copy
  Step-IsKeyed {s} (adds letter) v = elim (Option-cases (get s letter.id)) [
    | inr (old, there) ↦ subst Keyed (ground arith) v
    | inl new ↦ subst Keyed (ground arith) (
        set-IsKeyed (λ (l : StoredDeadLetter P). l.id) s letter.id
          (copy payload_copy (record { letter = letter; status = failed })) refl v)
  ]
  Step-IsKeyed {s} (settles j status t h) v = elim (Option-cases (get s j)) [
    | inl gone ↦ absurd (ground arith)
    | inr (w, found) ↦ elim (Bool-cases (same_status w.status failed)) [
      | inr refused ↦ absurd (ground arith)
      | inl free ↦ subst Keyed (ok-injective (ground arith)) (
          set-IsKeyed (λ (l : StoredDeadLetter P). l.id) s j (record w { status = status })
            (get-IsKeyed (λ (l : StoredDeadLetter P). l.id) s j w v found) v)
    ]
  ]
  Step-IsKeyed {s} (removes id) v = delete-IsKeyed (λ l. l.id) s id v
  Step-IsKeyed {s} (forgets person) v = delete_all-IsKeyed (λ l. l.id) s (naming s person) v
