-- ===== src/Kernel/Aggregate/Codec.antt =====
-- kernel/aggregate/snapshot-codec.ts: a folded state as a snapshot's text. `parse` and `stringify` are
-- devalue's.
pub mod RoundTrip
use bounda.Prelude.{
  ◌≡◌, refl, sym, ap, ◌∙◌, subst, String, Bool, true, false, ◌&&◌, Option, none, some,
}
use bounda.Prelude.Tests.{if◌then◌else◌, ◌==◌, string_eq}
use bounda.Contracts.Errors.{error, Result, ok, err, ◌>>=◌}
use bounda.Kernel.Values.{
  Value, Fields, null, boolean, text, object, field, end, as_record, field_value, get_field, equal,
}
use bounda.Kernel.Values.Reflexive.{IsPlain, equal_refl}
use bounda.Kernel.Aggregate.{FoldedState}

-- What the platform's `devalue` is used for: a text that `stringify` answers parses to the value.
pub record Devalue : Type 0 where
  pub parse : String → Result Value
  pub stringify : Value → Result String

pub record IsFaithful (d : Devalue) : Type 0 where
  pub parse-stringify : (v : Value) (t : String) → d.stringify v ≡ ok t → d.parse t ≡ ok v

unfoldable pub opened_value : Option String → Value
opened_value none = null
opened_value (some event_type) = text event_type

unfoldable pub fold_fields : FoldedState → Fields
unfolding opened_value
fold_fields f = field "state" (object f.state) (
    field "created" (boolean f.created) (field "openedWithout" (opened_value f.opened_without) end))

unfoldable pub fold_value : FoldedState → Value
unfolding fold_fields
fold_value f = object (fold_fields f)

unfoldable pub fold_of : Option Fields → Value → Value → Result FoldedState
fold_of (some state) (boolean created) null =
    ok (record { state = state; created = created; opened_without = none })
fold_of (some state) (boolean created) (text event_type) =
    ok (record { state = state; created = created; opened_without = some event_type })
fold_of state created opened_without = err (error "TypeError")

unfoldable pub read_fold : Option Fields → Result FoldedState
unfolding fold_of
read_fold none = err (error "TypeError")
read_fold (some fields) =
    fold_of (as_record (field_value "state" fields)) (field_value "created" fields)
      (field_value "openedWithout" fields)

module _ (d : Devalue) where
  unfoldable pub serialize_fold : FoldedState → Result String
  unfolding fold_value
  serialize_fold folded = d.stringify (fold_value folded)

  unfoldable pub deserialize_fold : String → Result FoldedState
  unfolding read_fold
  deserialize_fold t = do v ← d.parse t; read_fold (as_record v)

abbrev pub same_opening : Option String → Option String → Bool
same_opening none none = true
same_opening (some a) (some b) = a == b
same_opening _ _ = false

unfoldable pub folds_equal : FoldedState → FoldedState → Bool
folds_equal left right =
    (if left.created then right.created else (if right.created then false else true))
    && same_opening left.opened_without right.opened_without
    && equal (object left.state) (object right.state)
