-- ===== src/Kernel/Aggregate/Snapshotting/Trust.antt =====
-- kernel/snapshot/subscriber.ts: the snapshots that the subscriber leaves can be loaded from.
use package.text.Mathlib.TextEquality.{eq_iff}
use bounda.Prelude.{
  ℕ, ◌≤◌, ◌≡◌, refl, ap, sym, ◌∙◌, subst, String, Bool, ◌&&◌, not, none, some, ◌⊎◌, List, inl, inr,
  arith,
}
use bounda.Prelude.Tests.{string_eq, if_both}
use bounda.Prelude.Lists.{length, every}
use bounda.Prelude.Dict.{get, get-set}
use bounda.Contracts.Errors.{Failure, Result, ok, err}
use bounda.Contracts.Events.{StreamIdentity, KeyedPerson, stream_id}
use bounda.Memory.Snapshots
use bounda.Memory.Snapshots.{Snapshot}
use bounda.Kernel.Aggregate.{Event, SnapshotSettings, AggregateRuntime, fold_state, initial}
use bounda.Kernel.Aggregate.Codec.{Devalue, IsFaithful, serialize_fold}
use bounda.Kernel.Aggregate.Codec.RoundTrip.{deserialize_fold-serialize_fold}
use bounda.Kernel.Aggregate.Loading.{LoadedEvents, LoadedAggregate, Shares, Loader, within, load}
use bounda.Kernel.Aggregate.Loading.Streams.{Follows, length-history_le, within_grown}
use bounda.Kernel.Aggregate.Loading.Replay.{Faithful, KeptFaithful, load-Replays}
use bounda.Kernel.Aggregate.Loading.Drops.{Leaves, load_under-Leaves}
use bounda.Kernel.Aggregate.Snapshotting.{write, write_loaded, snapshot}

-- The snapshot is of a version that the stream has, and reads back as what the events up to it fold to.
unfoldable pub Trusted :
    {R : Type 0} → Devalue → AggregateRuntime R → List Event → Snapshot → Type 0
unfolding Faithful
Trusted d a events snapshot = (snapshot.version ≤ length events) × Faithful d a events snapshot

get_snapshot-put :
    (s : Snapshots.Store) (new x : Snapshot) (holds : KeyedPerson → Bool)
    → Snapshots.get_snapshot (Snapshots.put s new holds) new.stream ≡ some x
    → (new ≡ x) ⊎ (Snapshots.get_snapshot s new.stream ≡ some x)
unfolding Snapshots.get_snapshot Snapshots.put Snapshots.older
get_snapshot-put s new x holds h =
    if_both
      (λ (t : Snapshots.Store).
        get t (stream_id new.stream) ≡ some x → (new ≡ x) ⊎ (get s (stream_id new.stream) ≡ some x))
      (not (Snapshots.older (get s (stream_id new.stream)) new) && every holds new.persons)
      (λ k. inl (
        ground (
          arith,
          k,
          get-set s (stream_id new.stream) new (stream_id new.stream),
          eq_iff (stream_id new.stream) (stream_id new.stream),
        )))
      (λ k. inr k) h

module _ {R : Type 0} (shares : Shares R) (d : Devalue) (devalue : IsFaithful d) (strict : Bool)
    (show : ℕ → String) (message : Failure → String)
    (loads : ℕ → ℕ → StreamIdentity → ℕ → Result LoadedEvents)
    (meanwhile : Snapshots.Store → Snapshots.Store) (holds : KeyedPerson → Bool)
    (a : AggregateRuntime R) (settings : SnapshotSettings R) (n : ℕ) (id : String)
    (history : ℕ → List Event) where
  abbrev pub taken_of : StreamIdentity
  taken_of = record { aggregate_type = a.name; aggregate_id = id }

  -- What the store keeps for the stream, folded by the aggregate's code, is trusted.
  unfoldable pub KeptTrusted : Snapshots.Store → List Event → Type 0
  KeptTrusted s events =
      (kept : Snapshot)
      → Snapshots.get_snapshot s taken_of ≡ some kept
      → kept.fingerprint ≡ settings.fingerprint
      → Trusted d a events kept

  none-KeptTrusted :
      (s : Snapshots.Store) (events : List Event)
      → Snapshots.get_snapshot s taken_of ≡ none
      → KeptTrusted s events
  unfolding KeptTrusted
  none-KeptTrusted s events gone kept there same = cc

  module _ (follows : Follows (loads n) taken_of history) where
    open follows use {is_numbered, new, grows}

    -- What was trusted stays so as the stream grows.
    Trusted-grows : (kept : Snapshot) → Trusted d a (history 0) kept → Trusted d a (history 1) kept
    unfolding Trusted Faithful
    Trusted-grows kept (le, faithful) = (
      omega (arith, le, length-history_le follows),
      λ reached f read.
          ap (λ es. fold_state a (within (some kept.version) es) (initial a)) grows
          ∙ ap (λ es. fold_state a es (initial a)) (within_grown follows kept.version le)
          ∙ faithful le f read,
    )

    KeptTrusted-grows :
        (s : Snapshots.Store) → KeptTrusted s (history 0) → KeptTrusted s (history 1)
    unfolding KeptTrusted
    KeptTrusted-grows s trusted kept there same = Trusted-grows kept (trusted kept there same)

    abbrev written : LoadedAggregate → String → Snapshot
    written loaded state = record {
      stream = taken_of;
      version = loaded.version;
      fingerprint = settings.fingerprint;
      state = state;
      persons = loaded.persons;
    }

    written-Trusted :
        (loaded : LoadedAggregate) (state : String)
        → serialize_fold d loaded.folded ≡ ok state
        → loaded.version ≤ length (history 1)
        → fold_state a (within (some loaded.version) (history 1)) (initial a) ≡ ok loaded.folded
        → Trusted d a (history 1) (written loaded state)
    unfolding Trusted Faithful
    written-Trusted loaded state serialized le folded = (
      le,
      λ reached f read.
          folded
          ∙ sym (deserialize_fold-serialize_fold d devalue loaded.folded state serialized)
          ∙ read,
    )

    put-KeptTrusted :
        (s : Snapshots.Store) (loaded : LoadedAggregate) (state : String)
        → KeptTrusted s (history 1)
        → Trusted d a (history 1) (written loaded state)
        → KeptTrusted (Snapshots.put s (written loaded state) holds) (history 1)
    unfolding KeptTrusted
    put-KeptTrusted s loaded state trusted fresh kept there same =
        elim (get_snapshot-put s (written loaded state) kept holds there) [
          | inl e ↦ subst (Trusted d a (history 1)) e fresh
          | inr k ↦ trusted kept k same
        ]

    write-KeptTrusted :
        (s : Loader R) (loaded : LoadedAggregate) (m : Result String)
        → serialize_fold d loaded.folded ≡ m
        → loaded.version ≤ length (history 1)
        → fold_state a (within (some loaded.version) (history 1)) (initial a) ≡ ok loaded.folded
        → KeptTrusted s.snapshots (history 1)
        → KeptTrusted
            (write shares d strict show message loads meanwhile holds a settings s id loaded
              m).0.snapshots
            (history 1)
    unfolding write
    write-KeptTrusted s loaded (err e) serialized le folded trusted = trusted
    write-KeptTrusted s loaded (ok state) serialized le folded trusted =
        put-KeptTrusted s.snapshots loaded state trusted
          (written-Trusted loaded state serialized le folded)

    write_loaded-KeptTrusted :
        (x : Loader R × Result LoadedAggregate)
        → KeptTrusted x.0.snapshots (history 1)
        → ((r : LoadedAggregate)
            → x.1 ≡ ok r
            → (r.version ≤ length (history 1))
              × (fold_state a (within (some r.version) (history 1)) (initial a) ≡ ok r.folded))
        → KeptTrusted
            (write_loaded shares d strict show message loads meanwhile holds a settings id
              x).0.snapshots
            (history 1)
    unfolding write_loaded
    write_loaded-KeptTrusted (s, err e) trusted replays = trusted
    write_loaded-KeptTrusted (s, ok loaded) trusted replays =
        write-KeptTrusted s loaded _ refl (replays loaded refl).0 (replays loaded refl).1 trusted

    left-KeptTrusted :
        (s : Loader R) (x : Loader R × Result LoadedAggregate)
        → KeptTrusted s.snapshots (history 0)
        → Leaves shares d strict show (loads n) meanwhile a taken_of s.snapshots x
        → KeptTrusted x.0.snapshots (history 1)
    left-KeptTrusted s x trusted (inl same) =
        subst (λ (t : Snapshots.Store). KeptTrusted t (history 1)) (sym same)
          (KeptTrusted-grows s.snapshots trusted)
    left-KeptTrusted s x trusted (inr gone) = none-KeptTrusted x.0.snapshots (history 1) gone

    KeptTrusted-Faithful :
        (s : Loader R)
        → a.snapshot ≡ some settings
        → KeptTrusted s.snapshots (history 0)
        → KeptFaithful shares d strict show (loads n) meanwhile a id history s.snapshots
    unfolding KeptTrusted KeptFaithful Trusted
    KeptTrusted-Faithful s takes trusted settings' kept takes' there same =
        let e : settings' ≡ settings = cc in
        (trusted kept there (same ∙ ap (λ (g : SnapshotSettings R). g.fingerprint) e)).1

    -- For an aggregate that takes snapshots: if what is kept of a stream is trusted when the subscriber
    -- comes to it, what is kept afterwards is trusted of the stream as it has grown, whether the
    -- snapshot was written, refused, dropped, or the load or the serialization threw.
    pub snapshot-KeptTrusted :
        (s : Loader R)
        → a.snapshot ≡ some settings
        → KeptTrusted s.snapshots (history 0)
        → KeptTrusted
            (snapshot shares d strict show message loads meanwhile holds a settings n s
              id).0.snapshots
            (history 1)
    unfolding snapshot load
    snapshot-KeptTrusted s takes trusted =
        let x = load shares d strict show (loads n) meanwhile a s id in
        write_loaded-KeptTrusted x
          (left-KeptTrusted s x trusted (
            load_under-Leaves shares d strict show (loads n) meanwhile a taken_of s.snapshots s
              a.snapshot refl))
          (λ r.
            load-Replays shares d strict show (loads n) meanwhile a id history s follows r
              (KeptTrusted-Faithful s takes trusted))
