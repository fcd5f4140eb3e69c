-- ===== src/Memory/Snapshots.antt =====
-- memory/snapshot-store.ts: the folded state of each stream. `holds` is whether a person holds the
-- key a snapshot names.
pub mod Freshness
mod Tests
use bounda.Prelude.{ℕ, String, Bool, false, ◌&&◌, not, Option, none, some, List}
use bounda.Prelude.Tests.{ltb, if◌then◌else◌, ◌==◌, string_eq}
use bounda.Prelude.Lists.{any, every}
use bounda.Prelude.Dict.{Dict, get, set, delete, delete_where}
use bounda.Contracts.Events.{KeyedPerson, StreamIdentity, stream_id}

pub record Snapshot : Type 0 where
  pub stream : StreamIdentity
  pub version : ℕ
  pub fingerprint : String
  pub state : String
  pub persons : List KeyedPerson

abbrev pub Store : Type 0
Store = Dict String Snapshot

unfoldable pub get_snapshot : Store → StreamIdentity → Option Snapshot
get_snapshot s stream = get s (stream_id stream)

unfoldable pub older : Option Snapshot → Snapshot → Bool
older none snapshot = false
older (some current) snapshot =
    current.fingerprint == snapshot.fingerprint && ltb snapshot.version current.version

unfoldable pub put : Store → Snapshot → (KeyedPerson → Bool) → Store
unfolding older
put s snapshot holds =
    if not (older (get s (stream_id snapshot.stream)) snapshot) && every holds snapshot.persons
    then set s (stream_id snapshot.stream) snapshot
    else s

unfoldable pub remove : Store → StreamIdentity → Store
remove s stream = delete s (stream_id stream)

unfoldable pub names : String → Snapshot → Bool
names person snapshot = any (λ held. held.person == person) snapshot.persons

unfoldable pub forget : Store → String → Store
unfolding names
forget s person = delete_where (names person) s
