-- ===== src/Kernel/Aggregate/Codec/RoundTrip.antt =====
-- kernel/aggregate/snapshot-codec.ts: a serialized fold reads back where devalue's `parse` gives back what
-- `stringify` wrote, and a fold is equal to itself.
use package.text.Mathlib.TextEquality.{eq_iff}
use bounda.Prelude.{◌≡◌, refl, String, true, Option, none, some, arith}
use bounda.Prelude.Tests.{string_eq}
use bounda.Contracts.Errors.{ok}
use bounda.Kernel.Values.{object, boolean, get_field}
use bounda.Kernel.Values.Reflexive.{IsPlain, equal_refl}
use bounda.Kernel.Aggregate.{FoldedState}
use bounda.Kernel.Aggregate.Codec.{
  Devalue, IsFaithful, fold_fields, fold_value, opened_value, fold_of, read_fold, serialize_fold,
  deserialize_fold, folds_equal, same_opening,
}

fold_of-opened_value :
    (f : FoldedState) (opened : Option String)
    → f.opened_without ≡ opened
    → fold_of (some f.state) (boolean f.created) (opened_value opened) ≡ ok f
unfolding fold_of opened_value
fold_of-opened_value f none e = cc
fold_of-opened_value f (some t) e = cc

read_fold-fold_fields : (f : FoldedState) → read_fold (some (fold_fields f)) ≡ ok f
unfolding read_fold fold_fields get_field
read_fold-fold_fields f = fold_of-opened_value f f.opened_without refl

module _ (d : Devalue) (faithful : IsFaithful d) where
  open faithful use {parse-stringify}

  -- What a fold was serialized to reads back as the fold, of a devalue that is faithful.
  pub deserialize_fold-serialize_fold :
      (f : FoldedState) (t : String) → serialize_fold d f ≡ ok t → deserialize_fold d t ≡ ok f
  unfolding serialize_fold deserialize_fold fold_value
  deserialize_fold-serialize_fold f t h =
      rw (parse-stringify (object (fold_fields f)) t h) (read_fold-fold_fields f)

same_opening_refl : (o : Option String) → same_opening o o ≡ true
same_opening_refl none = refl
same_opening_refl (some t) = ground (arith, eq_iff t t)

-- A fold whose state is plain is equal to itself.
pub folds_equal_refl : (f : FoldedState) → IsPlain (object f.state) → folds_equal f f ≡ true
unfolding folds_equal
folds_equal_refl f plain =
    ground (arith, same_opening_refl f.opened_without, equal_refl (object f.state) plain)
