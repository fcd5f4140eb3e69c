-- ===== src/Kernel/Values/Tests.antt =====
-- Equality of values at states that hold maps, sets and dates.
use bounda.Prelude.{◌≡◌, refl, true, false, some}
use bounda.Kernel.Values.{
  Value, text, number, map_of, set_of, object, date, undefined, nil, item, empty, entry, end, field,
  equal, merge_fields,
}
use bounda.Kernel.Values.Reflexive.{IsPlain, equal_refl}

abbrev cart : Value
cart = object (
    field "at" (date (some 5)) (
      field "lines" (map_of (entry (text "a") (number "1") empty))
        (field "tags" (set_of (item (object end) nil)) end)))

abbrev keyed_by_object : Value
keyed_by_object = map_of (entry (object end) (number "1") empty)

-- The order of fields does not count.
reordered :
    equal
      (object (field "a" (number "1") (field "b" undefined end)))
      (object (field "b" undefined (field "a" (number "1") end)))
    ≡ true
unfolding equal
reordered = refl

-- A map keyed by an object is not equal to a copy of itself, though a set of objects is.
object_key : equal keyed_by_object keyed_by_object ≡ false
unfolding equal
object_key = refl

merged :
    merge_fields
      (field "a" (number "1") (field "b" (number "2") end))
      (field "b" (number "3") (field "a" undefined end))
    ≡ field "a" (number "1") (field "b" (number "3") end)
unfolding merge_fields
merged = refl

equal_refl_sample : equal cart cart ≡ true
equal_refl_sample =
    equal_refl cart
      (unfold IsPlain in (refl, tt, (refl, (refl, refl, tt, tt), (refl, (tt, tt), tt))))
