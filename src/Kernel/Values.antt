-- ===== src/Kernel/Values.antt =====
-- kernel/shared/merge-fields.ts and `foldsEqual` of kernel/aggregate/snapshot-codec.ts: the values an
-- aggregate's state holds, and when two of them are equal. A value is a tree: two objects are never
-- the same reference, so `Object.is`, and what a `Map` or a `Set` has, tells apart all but equal
-- primitives. A primitive is its text, with its kind.
pub mod Reflexive
pub mod Decided
mod Tests
use bounda.Prelude.{ℕ, ◌+◌, String, Bool, true, false, ◌&&◌, ◌||◌, not, Option, none, some}
use bounda.Prelude.Tests.{if◌then◌else◌, ◌==◌, nat_eq, string_eq}

mutual
  pub data Value : Type 0 where
    undefined : Value
    null : Value
    boolean : Bool → Value
    text : String → Value
    number : String → Value
    other : String → Value
    date : Option ℕ → Value
    map_of : Entries → Value
    set_of : Items → Value
    array : Items → Value
    object : Fields → Value

  pub data Items : Type 0 where
    nil : Items
    item : Value → Items → Items

  pub data Entries : Type 0 where
    empty : Entries
    entry : Value → Value → Entries → Entries

  pub data Fields : Type 0 where
    end : Fields
    field : String → Value → Fields → Fields

abbrev pub is_undefined : Value → Bool
is_undefined undefined = true
is_undefined _ = false

abbrev pub is_missing : Value → Bool
is_missing undefined = true
is_missing null = true
is_missing _ = false

-- `Object.is`.
unfoldable pub identical : Value → Value → Bool
identical undefined undefined = true
identical null null = true
identical (boolean a) (boolean b) = if a then b else not b
identical (text a) (text b) = a == b
identical (number a) (number b) = a == b
identical (other a) (other b) = a == b
identical _ _ = false

unfoldable pub size : Items → ℕ
size nil = 0
size (item v xs) = size xs + 1

unfoldable pub map_size : Entries → ℕ
map_size empty = 0
map_size (entry k v es) = map_size es + 1

unfoldable pub field_count : Fields → ℕ
field_count end = 0
field_count (field k v fs) = field_count fs + 1

unfoldable pub get_entry : Value → Entries → Option Value
unfolding identical
get_entry k empty = none
get_entry k (entry j v es) = if identical j k then some v else get_entry k es

unfoldable pub get_field : String → Fields → Option Value
get_field k end = none
get_field k (field j v fs) = if j == k then some v else get_field k fs

-- `value[key]`
abbrev pub field_value : String → Fields → Value
unfolding get_field
field_value k fs = elim (get_field k fs) [ none ↦ undefined | some v ↦ v ]

unfoldable pub some_item : (Value → Bool) → Items → Bool
some_item test nil = false
some_item test (item v xs) = test v || some_item test xs

abbrev pub same_time : Option ℕ → Option ℕ → Bool
same_time none none = true
same_time (some a) (some b) = a == b
same_time _ _ = false

abbrev pub holds_equal : (Value → Bool) → Option Value → Bool
holds_equal test none = false
holds_equal test (some v) = test v

unfoldable mutual
  unfolding identical size map_size field_count get_entry get_field some_item

  pub equal : Value → Value → Bool
  equal (date t) (date u) = same_time t u
  equal (map_of es) (map_of fs) = map_size es == map_size fs && same_entries es fs
  equal (set_of xs) (set_of ys) = size xs == size ys && same_members xs ys
  equal (array xs) (array ys) = size xs == size ys && same_items xs ys
  equal (object fs) (object gs) = field_count fs == field_count gs && same_fields fs gs
  equal v w = identical v w

  pub same_entries : Entries → Entries → Bool
  same_entries empty fs = true
  same_entries (entry k v es) fs = holds_equal (equal v) (get_entry k fs) && same_entries es fs

  pub same_members : Items → Items → Bool
  same_members nil ys = true
  same_members (item v xs) ys =
      (some_item (identical v) ys || some_item (equal v) ys) && same_members xs ys

  -- `sameFields` on two arrays, whose keys are their indices.
  pub same_items : Items → Items → Bool
  same_items (item v xs) (item w ys) = equal v w && same_items xs ys
  same_items nil ys = true
  same_items (item v xs) nil = false

  pub same_fields : Fields → Fields → Bool
  same_fields end gs = true
  same_fields (field k v fs) gs = holds_equal (equal v) (get_field k gs) && same_fields fs gs

-- `isRecord`, with the value's own fields: a date, a map and a set have none.
abbrev pub as_record : Value → Option Fields
as_record (date t) = some end
as_record (map_of es) = some end
as_record (set_of xs) = some end
as_record (object fs) = some fs
as_record _ = none

-- `{ ...state, [key]: value }`
unfoldable pub set_field : Fields → String → Value → Fields
set_field end k v = field k v end
set_field (field j w fs) k v = if j == k then field k v fs else field j w (set_field fs k v)

unfoldable pub merge_fields : Fields → Fields → Fields
unfolding set_field
merge_fields state end = state
merge_fields state (field k v fs) =
    merge_fields (if is_undefined v then state else set_field state k v) fs
