-- ===== src/Memory/Entries/Undo.antt =====
-- What `undoAll` of memory/transaction.ts puts back, whoever wrote in between.
use bounda.Prelude.{
  ◌≡◌, ◌≢◌, refl, sym, ◌∙◌, ap, true, false, String, Option, none, some, List, [], ◌∷◌, arith, inl,
  inr,
}
use bounda.Prelude.Tests.{if◌then◌else◌, Strict, ◌==◌, string_eq, Bool-cases}
use bounda.Prelude.Lists.{All}
use text.Mathlib.TextEquality.{eq_iff}
use bounda.Prelude.Dict.{Dict, get, get-set, get-delete}
use bounda.Memory.Entries.{Change, same_entry, read, put_entry, put_back, tracked, undo_all}

module _ {V : Type 0} ⦃e : Strict V⦄ where
  pub same_entry_iff :
      (a b : Option V) → (same_entry a b ≡ true → a ≡ b) × (a ≡ b → same_entry a b ≡ true)
  same_entry_iff none none = (λ h. refl, λ h. refl)
  same_entry_iff none (some w) = (λ h. cc, λ h. cc)
  same_entry_iff (some v) none = (λ h. cc, λ h. cc)
  same_entry_iff (some v) (some w) =
      (λ h. ap some ((e.same_iff v w).0 h), λ h. (e.same_iff v w).1 (ground arith))

  get-put_back :
      (m : Dict String V) (key : String) (before after : Option V) (j : String)
      → get (put_back m key before after) j ≡ (
          if key == j
          then (if same_entry (get m key) after then before else get m key)
          else get m j)
  unfolding put_back put_entry
  get-put_back m key none after j = ground (arith, get-delete m key j, eq_iff key j, ap (get m))
  get-put_back m key (some v) after j = ground (arith, get-set m key v j, eq_iff key j)

  -- `cs` remembers, newest first, writes that led from `s` to `t`, each of which changed at most the
  -- entry under its own key.
  pub data Remembers (s : Dict String V) : List (Change V) → Dict String V → Type 0 where
    start : Remembers s [] s
    write :
        {cs : List (Change V)} {t : Dict String V} (u : Dict String V) (key : String)
        → Remembers s cs t
        → ((j : String) → (key == j) ≡ false → get u j ≡ get t j)
        → Remembers s (tracked t u key ∷ cs) u

  put_back_restores :
      (t u t' : Dict String V) (key j : String)
      → ((key == j) ≡ false → get u j ≡ get t j)
      → get t' j ≡ get u j
      → get (put_back t' key (get t key) (get u key)) j ≡ get t j
  put_back_restores t u t' key j others h =
      get-put_back t' key (get t key) (get u key) j ∙ elim (Bool-cases (key == j)) [
        | inl own ↦
            let same : key ≡ j = (eq_iff key j).0 own in
            rw (own, (same_entry_iff (get t' key) (get u key)).1 (cc (same, h))) (ap (get t) same)
        | inr other ↦ rw other (h ∙ others other)
      ]

  put_back_leaves :
      (t' : Dict String V) (c : Change V) (j : String)
      → (c.key ≡ j → get t' j ≢ c.after)
      → get (put_back t' c.key c.before c.after) j ≡ get t' j
  put_back_leaves t' c j differs =
      get-put_back t' c.key c.before c.after j ∙ elim (Bool-cases (c.key == j)) [
        | inl own ↦
            let same : c.key ≡ j = (eq_iff c.key j).0 own in
            elim (Bool-cases (same_entry (get t' c.key) c.after)) [
              | inl hit ↦ absurd (
                  differs same
                    (sym (ap (get t') same) ∙ (same_entry_iff (get t' c.key) c.after).0 hit))
              | inr miss ↦ rw (own, miss) (ap (get t') same)
            ]
        | inr other ↦ rw other
      ]

  -- After writes that led from `s` to `t`, each to the entry of its own key, and then any writes of
  -- others that led to `t'`: undoing puts back each entry that `t'` holds as `t` did, to what it was
  -- in `s`.
  pub undo_all-restores :
      {s t : Dict String V} {cs : List (Change V)}
      → Remembers s cs t
      → (t' : Dict String V) (j : String) → get t' j ≡ get t j
      → get (undo_all t' cs) j ≡ get s j
  unfolding undo_all tracked read
  undo_all-restores start t' j h = h
  undo_all-restores (write {t = t} u key r others) t' j h =
      undo_all-restores r (put_back t' key (get t key) (get u key)) j
        (put_back_restores t u t' key j (others j) h)

  undo_all-at :
      (t' : Dict String V) (j : String) (v : Option V) (cs : List (Change V))
      → get t' j ≡ v
      → All (λ c. c.key ≡ j → v ≢ c.after) cs
      → get (undo_all t' cs) j ≡ v
  unfolding undo_all
  undo_all-at t' j v [] h differ = h
  undo_all-at t' j v (c ∷ cs) h differ =
      undo_all-at (put_back t' c.key c.before c.after) j v cs
        (put_back_leaves t' c j (λ same e. differ.0 same (sym h ∙ e)) ∙ h) differ.1

  -- Undoing leaves as it is each entry that holds none of what the undone writes left under its key.
  pub undo_all-leaves :
      (t' : Dict String V) (j : String) (cs : List (Change V))
      → All (λ c. c.key ≡ j → get t' j ≢ c.after) cs
      → get (undo_all t' cs) j ≡ get t' j
  undo_all-leaves t' j cs differ = undo_all-at t' j (get t' j) cs refl differ
