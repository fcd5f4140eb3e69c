-- ===== src/Kernel/Values/Reflexive.antt =====
-- kernel/aggregate/snapshot-codec.ts: a value is equal to itself, where its maps are keyed by
-- primitives.
use package.text.Mathlib.TextEquality.{eq_iff}
use bounda.Prelude.{◌≡◌, refl, String, true, false, none, some, ◌⊎◌, inl, inr, arith}
use bounda.Prelude.Tests.{nat_eq, string_eq}
use bounda.Kernel.Values.{
  Value, Items, Entries, Fields, undefined, null, boolean, text, number, other, date, map_of,
  set_of, array, object, nil, item, empty, entry, end, field, identical, get_entry, get_field,
  some_item, equal, same_entries, same_members, same_items, same_fields,
}

-- Every map in the value is keyed by primitives, and no key stands twice in a map or an object.
unfoldable mutual
  unfolding identical get_entry get_field

  pub IsPlain : Value → Type 0
  IsPlain (map_of es) = IsPlainMap es
  IsPlain (set_of xs) = IsPlainItems xs
  IsPlain (array xs) = IsPlainItems xs
  IsPlain (object fs) = IsPlainFields fs
  IsPlain _ = Unit

  pub IsPlainItems : Items → Type 0
  IsPlainItems nil = Unit
  IsPlainItems (item v xs) = IsPlain v × IsPlainItems xs

  pub IsPlainMap : Entries → Type 0
  IsPlainMap empty = Unit
  IsPlainMap (entry k v es) =
      (identical k k ≡ true) × (get_entry k es ≡ none) × IsPlain v × IsPlainMap es

  pub IsPlainFields : Fields → Type 0
  IsPlainFields end = Unit
  IsPlainFields (field k v fs) = (get_field k fs ≡ none) × IsPlain v × IsPlainFields fs

-- Each entry of a map or an object is found in another.
abbrev EntriesIn : Entries → Entries → Type 0
EntriesIn empty fs = Unit
EntriesIn (entry k v es) fs = (get_entry k fs ≡ some v) × EntriesIn es fs

abbrev FieldsIn : Fields → Fields → Type 0
FieldsIn end gs = Unit
FieldsIn (field k v fs) gs = (get_field k gs ≡ some v) × FieldsIn fs gs

abbrev ItemIn : Value → Items → Type 0
ItemIn v nil = ⊥
ItemIn v (item w ys) = (v ≡ w) ⊎ ItemIn v ys

abbrev ItemsIn : Items → Items → Type 0
ItemsIn nil ys = Unit
ItemsIn (item v xs) ys = ItemIn v ys × ItemsIn xs ys

identical_sym : (v w : Value) → identical v w ≡ identical w v
unfolding identical
identical_sym undefined undefined = refl
identical_sym null null = refl
identical_sym (boolean a) (boolean b) = ground arith
identical_sym (text a) (text b) = ground (arith, eq_iff a b, eq_iff b a)
identical_sym (number a) (number b) = ground (arith, eq_iff a b, eq_iff b a)
identical_sym (other a) (other b) = ground (arith, eq_iff a b, eq_iff b a)
identical_sym (date x) undefined = refl
identical_sym (date x) w = refl
identical_sym (map_of x) undefined = refl
identical_sym (map_of x) w = refl
identical_sym (set_of x) undefined = refl
identical_sym (set_of x) w = refl
identical_sym (array x) undefined = refl
identical_sym (array x) w = refl
identical_sym (object x) undefined = refl
identical_sym (object x) w = refl
identical_sym v w = refl

EntriesIn-entry :
    (k v : Value) (es fs : Entries)
    → get_entry k es ≡ none
    → EntriesIn es fs
    → EntriesIn es (entry k v fs)
unfolding get_entry
EntriesIn-entry k v empty fs new i = tt
EntriesIn-entry k v (entry j w es) fs new (i, is) =
    (ground (arith, identical_sym j k), EntriesIn-entry k v es fs (ground arith) is)

FieldsIn-field :
    (k : String) (v : Value) (fs gs : Fields)
    → get_field k fs ≡ none
    → FieldsIn fs gs
    → FieldsIn fs (field k v gs)
unfolding get_field
FieldsIn-field k v end gs new i = tt
FieldsIn-field k v (field j w fs) gs new (i, is) =
    (ground (arith, eq_iff j k, eq_iff k j), FieldsIn-field k v fs gs (ground arith) is)

ItemsIn-item : (v : Value) (xs ys : Items) → ItemsIn xs ys → ItemsIn xs (item v ys)
ItemsIn-item v nil ys i = tt
ItemsIn-item v (item w xs) ys (i, is) = (inr i, ItemsIn-item v xs ys is)

EntriesIn-self : (es : Entries) → IsPlainMap es → EntriesIn es es
unfolding IsPlainMap get_entry
EntriesIn-self empty p = tt
EntriesIn-self (entry k v es) (same, new, pv, ps) =
    (rw same, EntriesIn-entry k v es es new (EntriesIn-self es ps))

FieldsIn-self : (fs : Fields) → IsPlainFields fs → FieldsIn fs fs
unfolding IsPlainFields get_field
FieldsIn-self end p = tt
FieldsIn-self (field k v fs) (new, pv, ps) =
    (ground (arith, eq_iff k k), FieldsIn-field k v fs fs new (FieldsIn-self fs ps))

ItemsIn-self : (xs : Items) → ItemsIn xs xs
ItemsIn-self nil = tt
ItemsIn-self (item v xs) = (inl refl, ItemsIn-item v xs xs (ItemsIn-self xs))

some_item-equal :
    (v : Value) (ys : Items) → ItemIn v ys → equal v v ≡ true → some_item (equal v) ys ≡ true
unfolding some_item
some_item-equal v nil i h = elim i [ ]
some_item-equal v (item w ys) (inl e) h = rw (← e, h)
some_item-equal v (item w ys) (inr i) h = rw (some_item-equal v ys i h) (ground arith)

mutual
  unfolding equal IsPlain identical

  equal_self : (v : Value) → IsPlain v → equal v v ≡ true
  equal_self undefined p = refl
  equal_self null p = refl
  equal_self (boolean true) p = refl
  equal_self (boolean false) p = refl
  equal_self (text t) p = ground (arith, eq_iff t t)
  equal_self (number t) p = ground (arith, eq_iff t t)
  equal_self (other t) p = ground (arith, eq_iff t t)
  equal_self (date none) p = refl
  equal_self (date (some t)) p = ground arith
  equal_self (map_of es) p = ground (arith, same_entries_self es es p (EntriesIn-self es p))
  equal_self (set_of xs) p = ground (arith, same_members_self xs xs p (ItemsIn-self xs))
  equal_self (array xs) p = ground (arith, same_items_self xs p)
  equal_self (object fs) p = ground (arith, same_fields_self fs fs p (FieldsIn-self fs p))

  same_entries_self :
      (es fs : Entries) → IsPlainMap es → EntriesIn es fs → same_entries es fs ≡ true
  same_entries_self empty fs p i = refl
  same_entries_self (entry k v es) fs (same, new, pv, ps) (i, is) =
      rw (i, equal_self v pv) (same_entries_self es fs ps is)

  same_members_self : (xs ys : Items) → IsPlainItems xs → ItemsIn xs ys → same_members xs ys ≡ true
  same_members_self nil ys p i = refl
  same_members_self (item v xs) ys (pv, ps) (i, is) =
      ground (arith, some_item-equal v ys i (equal_self v pv), same_members_self xs ys ps is)

  same_items_self : (xs : Items) → IsPlainItems xs → same_items xs xs ≡ true
  same_items_self nil p = refl
  same_items_self (item v xs) (pv, ps) = rw (equal_self v pv) (same_items_self xs ps)

  same_fields_self : (fs gs : Fields) → IsPlainFields fs → FieldsIn fs gs → same_fields fs gs ≡ true
  same_fields_self end gs p i = refl
  same_fields_self (field k v fs) gs (new, pv, ps) (i, is) =
      rw (i, equal_self v pv) (same_fields_self fs gs ps is)

-- A plain value is equal to itself.
pub equal_refl : (v : Value) → IsPlain v → equal v v ≡ true
equal_refl v p = equal_self v p
