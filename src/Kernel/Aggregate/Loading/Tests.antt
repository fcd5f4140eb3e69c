-- ===== src/Kernel/Aggregate/Loading/Tests.antt =====
-- A meter is loaded from its snapshot at version 1, and verified against a stream that has grown.
use bounda.Prelude.{ℕ, ◌≤◌, ◌≡◌, refl, ◌∙◌, subst, true, false, none, some, [], ◌∷◌}
use bounda.Prelude.Dict.{get, set}
use bounda.Contracts.Errors.{ok}
use bounda.Contracts.Events.{stream_id}
use bounda.Memory.Snapshots
use bounda.Memory.Snapshots.{Snapshot}
use bounda.Kernel.Values.{number, field, end, set_field, merge_fields, equal, get_field}
use bounda.Kernel.Aggregate.{fold_state, initial, persons_of}
use bounda.Kernel.Aggregate.Codec.{
  fold_value, fold_fields, opened_value, deserialize_fold, folds_equal,
}
use bounda.Kernel.Aggregate.Loading.{LoadedAggregate, Loader, within, load, verified}
use bounda.Kernel.Aggregate.Loading.Replay.{Faithful, KeptFaithful, load-Replays}
use bounda.Kernel.Aggregate.Fixture.{
  only, at_one, settings, meter, history, loads, meter_stream, shares, loads-Follows,
}

abbrev kept : Snapshot
kept = record {
  stream = meter_stream;
  version = 1;
  fingerprint = "v1";
  state = "only";
  persons = [];
}

abbrev loader : Loader ℕ
loader = record { snapshots = ("meter:1", kept) ∷ []; credits = [] }

abbrev at_two : LoadedAggregate
at_two = record {
  folded = record { state = field "n" (number "8") end; created = true; opened_without = none };
  version = 2;
  persons = [];
  snapshot = some (record { outcome = verified; version = some 1 });
  folded_events = 1;
}

abbrev unchanged : Snapshots.Store → Snapshots.Store
unchanged s = s

loaded :
    (load shares (only (fold_value at_one)) false (λ n. "n") loads unchanged meter loader "1").1
    ≡ ok at_two
unfolding load fold_value fold_fields opened_value only Snapshots.get_snapshot get set stream_id
    deserialize_fold get_field fold_state persons_of merge_fields set_field folds_equal equal
loaded = refl

folded_one : fold_state meter (within (some 1) (history 0)) (initial meter) ≡ ok at_one
unfolding fold_state get merge_fields set_field
folded_one = refl

read_kept : Faithful (only (fold_value at_one)) meter (history 0) kept
unfolding Faithful deserialize_fold only fold_value fold_fields opened_value get_field
read_kept le f read = folded_one ∙ read

kept-Faithful :
    KeptFaithful shares
      (only (fold_value at_one))
      false
      (λ n. "n")
      loads
      unchanged
      meter
      "1"
      history
      loader.snapshots
unfolding KeptFaithful Snapshots.get_snapshot get stream_id
kept-Faithful settings snapshot takes there same =
    let e : kept ≡ snapshot = cc in
    subst (Faithful (only (fold_value at_one)) meter (history 0)) e read_kept

load-Replays_example :
    (2 ≤ 3) × (fold_state meter (within (some 2) (history 1)) (initial meter) ≡ ok at_two.folded)
load-Replays_example =
    load-Replays shares (only (fold_value at_one)) false (λ n. "n") loads unchanged meter "1"
      history loader loads-Follows at_two kept-Faithful loaded
