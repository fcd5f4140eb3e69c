-- ===== src/Memory/Snapshots/Tests.antt =====
-- Two snapshots of an account, of versions 3 and 5.
use bounda.Prelude.{ℕ, Bool, true, ◌≡◌, refl, some, [], arith}
use bounda.Contracts.Events.{KeyedPerson}
use bounda.Prelude.Dict.{get}
use bounda.Memory.Snapshots.{Snapshot, get_snapshot, put}
use bounda.Memory.Snapshots.Freshness.{put-keeps_newest}

abbrev folded : ℕ → Snapshot
folded version = record {
  stream = record { aggregate_type = "account"; aggregate_id = "1" };
  version = version;
  fingerprint = "v1";
  state = "{}";
  persons = [];
}

abbrev anyone : KeyedPerson → Bool
anyone held = true

put-keeps_newest_sample :
    (get_snapshot (put (put [] (folded 3) anyone) (folded 5) anyone) (folded 3).stream
      ≡ some (folded 5))
    × (get_snapshot (put (put [] (folded 5) anyone) (folded 3) anyone) (folded 3).stream
        ≡ some (folded 5))
unfolding get_snapshot get
put-keeps_newest_sample =
    put-keeps_newest [] (folded 3) (folded 5) anyone refl refl (omega arith) refl refl refl
