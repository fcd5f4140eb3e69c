-- ===== src/Memory/Snapshots/Freshness.antt =====
-- memory/snapshot-store.ts: which of two snapshots of a stream is kept.
use text.Mathlib.TextEquality.{eq_iff}
use bounda.Prelude.{◌<◌, ◌≡◌, ap, Bool, true, none, some, arith}
use bounda.Prelude.Tests.{string_eq}
use bounda.Prelude.Lists.{every}
use bounda.Prelude.Dict.{get, set, get-set}
use bounda.Contracts.Events.{KeyedPerson, stream_id}
use bounda.Memory.Snapshots.{Store, Snapshot, get_snapshot, older, put}

-- Two snapshots of one stream folded by the same code, for people who hold their keys, put in either
-- order into a store without one for the stream: the one of the higher version is kept.
pub put-keeps_newest :
    (s : Store) (a b : Snapshot) (holds : KeyedPerson → Bool)
    → a.stream ≡ b.stream
    → a.fingerprint ≡ b.fingerprint
    → a.version < b.version
    → every holds a.persons ≡ true
    → every holds b.persons ≡ true
    → get_snapshot s a.stream ≡ none
    → (get_snapshot (put (put s a holds) b holds) a.stream ≡ some b)
      × (get_snapshot (put (put s b holds) a holds) a.stream ≡ some b)
unfolding get_snapshot put older
put-keeps_newest s a b holds same code newer held_a held_b none_yet = ground (
  arith,
  ap stream_id same,
  get-set s (stream_id a.stream) a (stream_id a.stream),
  get-set s (stream_id b.stream) b (stream_id b.stream),
  get-set (set s (stream_id a.stream) a) (stream_id b.stream) b (stream_id a.stream),
  eq_iff (stream_id a.stream) (stream_id a.stream),
  eq_iff (stream_id b.stream) (stream_id b.stream),
  eq_iff (stream_id b.stream) (stream_id a.stream),
  eq_iff a.fingerprint b.fingerprint,
  eq_iff b.fingerprint a.fingerprint,
  ap (get s) (ap stream_id same),
)
