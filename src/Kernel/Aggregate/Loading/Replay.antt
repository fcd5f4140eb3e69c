-- ===== src/Kernel/Aggregate/Loading/Replay.antt =====
-- kernel/aggregate/load-aggregate.ts: a load answers what folding the whole stream gives.
use package.text.Mathlib.TextEquality.{eq_iff}
use bounda.Prelude.{
  ℕ, ◌+◌, ◌≤◌, ◌≡◌, refl, ap, sym, ◌∙◌, subst, String, Bool, true, false, Option, none, some, List,
  arith,
}
use bounda.Prelude.Tests.{ltb, ltb→ge, ◌==◌, string_eq, if_both, if_either}
use bounda.Prelude.Lists.{length}
use bounda.Contracts.Errors.{Result, ok, err, ◌>>=◌, bind-eq-ok, ok-injective}
use bounda.Contracts.Events.{StreamIdentity}
use bounda.Memory.Snapshots
use bounda.Memory.Snapshots.{Snapshot}
use bounda.Kernel.Aggregate.{
  Event, SnapshotSettings, AggregateRuntime, FoldedState, fold_state, initial,
}
use bounda.Kernel.Aggregate.Folding.{fold_state-append}
use bounda.Kernel.Aggregate.Codec.{Devalue, deserialize_fold, folds_equal}
use bounda.Kernel.Aggregate.Loading.{
  LoadedEvents, SnapshotOutcome, LoadedAggregate, Shares, Loader, within, capped, due, whole_of,
  from_start, judge, missing, stale, unreadable, ahead, dropped, compared, sampled, folded_on,
  load_after, load_read, load_from, load_under, load,
}
use bounda.Kernel.Aggregate.Loading.Streams.{
  Follows, at_least, at_least-first, split_at, within_first, within_second, length-history_le,
}

-- A snapshot holds what the events up to its version fold to, where the stream reaches it.
unfoldable pub Faithful :
    {R : Type 0} → Devalue → AggregateRuntime R → List Event → Snapshot → Type 0
Faithful d a events snapshot =
    snapshot.version ≤ length events
    → (f : FoldedState) → deserialize_fold d snapshot.state ≡ ok f
    → fold_state a (within (some snapshot.version) events) (initial a) ≡ ok f

module _ {R : Type 0} (shares : Shares R) (d : Devalue) (strict : Bool) (show : ℕ → String)
    (loads : ℕ → StreamIdentity → ℕ → Result LoadedEvents)
    (meanwhile : Snapshots.Store → Snapshots.Store) (a : AggregateRuntime R)
    (stream : StreamIdentity) (history : ℕ → List Event)
    (follows : Follows loads stream history) where
  open follows use {answers, is_numbered}

  -- The stream holds the version loaded, and its events up to it fold to the state loaded.
  unfoldable pub Replays : LoadedAggregate → Type 0
  Replays r =
      (r.version ≤ length (history 1))
      × (fold_state a (within (some r.version) (history 1)) (initial a) ≡ ok r.folded)

  abbrev AllReplay : Result LoadedAggregate → Type 0
  AllReplay (ok r) = Replays r
  AllReplay (err e) = Unit

  whole_of_lem :
      (i : ℕ) (through : Option ℕ) (l : LoadedEvents) (f : FoldedState)
      → loads i stream 1 ≡ ok l
      → fold_state a (within through l.events) (initial a) ≡ ok f
      → let r = whole_of shares d strict show loads meanwhile a through l f in
        (fold_state a (within through (history i)) (initial a) ≡ ok r.folded)
        × (r.version ≡ capped through (length (history i)))
  unfolding whole_of
  whole_of_lem i through l f loaded folded =
      let (same_events, same_version) = answers i 1 l loaded in
      let events : l.events ≡ history i =
        same_events ∙ at_least-first (history i) (is_numbered i) in
      (
        ap (λ es. fold_state a (within through es) (initial a)) (sym events) ∙ folded,
        ap (capped through) same_version,
      )

  -- What a load from the first event says of the events it read.
  from_start_lem :
      (i : ℕ) (through : Option ℕ) (r : LoadedAggregate)
      → from_start shares d strict show loads meanwhile a i stream through ≡ ok r
      → (fold_state a (within through (history i)) (initial a) ≡ ok r.folded)
        × (r.version ≡ capped through (length (history i)))
  unfolding from_start
  from_start_lem i through r h =
      let (l, loaded, rest) = bind-eq-ok (loads i stream 1) _ h in
      let (f, folded, answer) =
        bind-eq-ok (fold_state a (within through l.events) (initial a)) _ rest in
      subst
        (λ (r : LoadedAggregate).
          (fold_state a (within through (history i)) (initial a) ≡ ok r.folded)
          × (r.version ≡ capped through (length (history i))))
        (ok-injective answer) (whole_of_lem i through l f loaded folded)

  -- A state folded from all that a load read, when the stream held it already at the first load.
  whole-Replays :
      (r : LoadedAggregate) (es : List Event)
      → fold_state a es (initial a) ≡ ok r.folded
      → r.version ≡ length es
      → within (some (length es)) (history 1) ≡ es
      → length es ≤ length (history 1)
      → Replays r
  unfolding Replays
  whole-Replays r es folded version same le = (
    omega (arith, version, le),
    ap (λ v. fold_state a (within (some v) (history 1)) (initial a)) version
        ∙ ap (λ xs. fold_state a xs (initial a)) same
        ∙ folded,
  )

  first-Replays :
      (r : LoadedAggregate)
      → from_start shares d strict show loads meanwhile a 0 stream none ≡ ok r
      → Replays r
  first-Replays r h =
      let (folded, version) = from_start_lem 0 none r h in
      whole-Replays r (history 0) folded version (within_first follows) (length-history_le follows)

  second-Replays :
      (r : LoadedAggregate)
      → from_start shares d strict show loads meanwhile a 1 stream none ≡ ok r
      → Replays r
  second-Replays r h =
      let (folded, version) = from_start_lem 1 none r h in
      whole-Replays r (history 1) folded version (within_second follows) (omega arith)

  judge-Replays :
      (outcome : SnapshotOutcome) (version : Option ℕ) (m : Result LoadedAggregate)
      → ((r : LoadedAggregate) → m ≡ ok r → Replays r)
      → AllReplay (judge shares d strict show loads meanwhile a outcome version m)
  unfolding judge Replays
  judge-Replays outcome version (ok r) h = h r refl
  judge-Replays outcome version (err e) h = tt

  -- What the verification folds, up to a version of the first load.
  checked-Replays :
      (r : LoadedAggregate)
      → from_start shares d strict show loads meanwhile a 1 stream (some (length (history 0)))
        ≡ ok r
      → Replays r
  unfolding Replays
  checked-Replays r h =
      let (folded, version) = from_start_lem 1 (some (length (history 0))) r h in
      let same : r.version ≡ length (history 0) =
        omega (arith, version, length-history_le follows) in
      (
        omega (arith, same, length-history_le follows),
        ap (λ v. fold_state a (within (some v) (history 1)) (initial a)) same ∙ folded,
      )

  compared-Replays :
      (s : Loader R) (version : ℕ) (r : LoadedAggregate) (m : Result LoadedAggregate)
      → Replays r
      → ((w : LoadedAggregate) → m ≡ ok w → Replays w)
      → AllReplay (compared shares d strict show loads meanwhile a s stream version r m).1
  unfolding compared Replays
  compared-Replays s version r (err e) h k = tt
  compared-Replays s version r (ok whole) h k =
      if_both (λ (x : Loader R × Result LoadedAggregate). AllReplay x.1)
        (folds_equal r.folded whole.folded) h
        (if_both (λ (x : Loader R × Result LoadedAggregate). AllReplay x.1) strict tt
          (k whole refl))

  sampled-Replays :
      (s : Loader R) (b : Bool) (version : ℕ) (r : LoadedAggregate)
      → Replays r
      → r.version ≡ length (history 0)
      → AllReplay (sampled shares d strict show loads meanwhile a (s, b) stream version r).1
  unfolding sampled Replays
  sampled-Replays s false version r h head = h
  sampled-Replays s true version r h head = compared-Replays s version r _ h (λ w e.
      checked-Replays w (
        ap (λ v. from_start shares d strict show loads meanwhile a 1 stream (some v)) (sym head)
        ∙ e))

  folded_on_replays :
      (s : Loader R) (settings : SnapshotSettings R) (snapshot : Snapshot) (from : FoldedState)
      (l : LoadedEvents) (m : Result FoldedState)
      → Faithful d a (history 0) snapshot
      → deserialize_fold d snapshot.state ≡ ok from
      → loads 0 stream (snapshot.version + 1) ≡ ok l
      → snapshot.version ≤ l.version
      → fold_state a l.events from ≡ m
      → AllReplay
          (folded_on shares d strict show loads meanwhile a s stream settings snapshot l m).1
  unfolding folded_on Faithful due
  folded_on_replays s settings snapshot from l (err e) faithful read loaded le h = tt
  folded_on_replays s settings snapshot from l (ok f) faithful read loaded le h =
      sampled-Replays _ _ snapshot.version _
        (whole-Replays _ (history 0) folded same_version (within_first follows)
          (length-history_le follows))
        same_version
    where
      same_version : l.version ≡ length (history 0)
      same_version = (answers 0 (snapshot.version + 1) l loaded).1

      before : fold_state a (within (some snapshot.version) (history 0)) (initial a) ≡ ok from
      before = faithful (omega (arith, same_version, le)) from read

      folded : fold_state a (history 0) (initial a) ≡ ok f
      folded =
          ap (λ es. fold_state a es (initial a))
            (sym (split_at snapshot.version (history 0) (is_numbered 0)))
          ∙ fold_state-append a (within (some snapshot.version) (history 0))
              (at_least (snapshot.version + 1) (history 0)) (initial a)
          ∙ ap (λ m. m >>= fold_state a (at_least (snapshot.version + 1) (history 0))) before
          ∙ ap (λ es. fold_state a es from) (sym (answers 0 (snapshot.version + 1) l loaded).0)
          ∙ h

  dropped_replays :
      (s : Loader R) (outcome : SnapshotOutcome)
      → AllReplay (dropped shares d strict show loads meanwhile a s stream outcome 0).1
        × AllReplay (dropped shares d strict show loads meanwhile a s stream outcome 1).1
  unfolding dropped
  dropped_replays s outcome =
      (judge-Replays outcome none _ first-Replays, judge-Replays outcome none _ second-Replays)

  load_after_replays :
      (s : Loader R) (settings : SnapshotSettings R) (snapshot : Snapshot) (from : FoldedState)
      (m : Result LoadedEvents)
      → Faithful d a (history 0) snapshot
      → deserialize_fold d snapshot.state ≡ ok from
      → loads 0 stream (snapshot.version + 1) ≡ m
      → AllReplay
          (load_after shares d strict show loads meanwhile a s stream settings snapshot from m).1
  unfolding load_after
  load_after_replays s settings snapshot from (err e) faithful read loaded = tt
  load_after_replays s settings snapshot from (ok l) faithful read loaded =
      if_either (λ (x : Loader R × Result LoadedAggregate). AllReplay x.1)
        (ltb l.version snapshot.version) (λ past. (dropped_replays s ahead).1)
        (λ reached.
          folded_on_replays s settings snapshot from l _ faithful read loaded
            (ltb→ge l.version snapshot.version reached) refl)

  load_read_replays :
      (s : Loader R) (settings : SnapshotSettings R) (snapshot : Snapshot) (m : Result FoldedState)
      → Faithful d a (history 0) snapshot
      → deserialize_fold d snapshot.state ≡ m
      → AllReplay (load_read shares d strict show loads meanwhile a s stream settings snapshot m).1
  unfolding load_read
  load_read_replays s settings snapshot (err e) faithful read = (dropped_replays s unreadable).0
  load_read_replays s settings snapshot (ok from) faithful read =
      load_after_replays s settings snapshot from _ faithful read refl

  load_from_replays :
      (s : Loader R) (settings : SnapshotSettings R) (o : Option Snapshot)
      → ((snapshot : Snapshot)
          → o ≡ some snapshot
          → snapshot.fingerprint ≡ settings.fingerprint
          → Faithful d a (history 0) snapshot)
      → AllReplay (load_from shares d strict show loads meanwhile a s stream settings o).1
  unfolding load_from
  load_from_replays s settings none faithful = judge-Replays missing none _ first-Replays
  load_from_replays s settings (some snapshot) faithful =
      if_either (λ (x : Loader R × Result LoadedAggregate). AllReplay x.1)
        (snapshot.fingerprint == settings.fingerprint)
        (λ same.
          load_read_replays s settings snapshot _
            (faithful snapshot refl ((eq_iff snapshot.fingerprint settings.fingerprint).0 same))
            refl)
        (λ other. judge-Replays stale none _ first-Replays)

module _ {R : Type 0} (shares : Shares R) (d : Devalue) (strict : Bool) (show : ℕ → String)
    (loads : ℕ → StreamIdentity → ℕ → Result LoadedEvents)
    (meanwhile : Snapshots.Store → Snapshots.Store) (a : AggregateRuntime R) (id : String)
    (history : ℕ → List Event) where
  abbrev pub stream_of : StreamIdentity
  stream_of = record { aggregate_type = a.name; aggregate_id = id }

  -- The snapshot kept for the stream, where the aggregate takes snapshots and its code is the one that
  -- folded it, holds what its events fold to.
  unfoldable pub KeptFaithful : Snapshots.Store → Type 0
  KeptFaithful s =
      (settings : SnapshotSettings R) (snapshot : Snapshot)
      → a.snapshot ≡ some settings
      → Snapshots.get_snapshot s stream_of ≡ some snapshot
      → snapshot.fingerprint ≡ settings.fingerprint
      → Faithful d a (history 0) snapshot

  load_under-Replays :
      (s : Loader R) (follows : Follows loads stream_of history) (o : Option (SnapshotSettings R))
      (r : LoadedAggregate)
      → KeptFaithful s.snapshots
      → a.snapshot ≡ o
      → (load_under shares d strict show loads meanwhile a s stream_of o).1 ≡ ok r
      → Replays shares d strict show loads meanwhile a stream_of history follows r
  unfolding load_under KeptFaithful
  load_under-Replays s follows none r faithful takes h =
      first-Replays shares d strict show loads meanwhile a stream_of history follows r h
  load_under-Replays s follows (some settings) r faithful takes h = replays_of _ h (
      load_from_replays shares d strict show loads meanwhile a stream_of history follows s settings
        (Snapshots.get_snapshot s.snapshots stream_of)
        (λ snapshot kept same. faithful settings snapshot takes kept same))
    where
      replays_of :
          (m : Result LoadedAggregate)
          → m ≡ ok r
          → AllReplay shares d strict show loads meanwhile a stream_of history follows m
          → Replays shares d strict show loads meanwhile a stream_of history follows r
      replays_of m e k =
          subst (AllReplay shares d strict show loads meanwhile a stream_of history follows) e k

  -- Where the kept snapshot is faithful to the stream, whatever is appended to the stream meanwhile and
  -- whatever the snapshot was worth, a load that succeeds answers a version that the stream has, and
  -- the state that the stream's events up to it fold to from the first one.
  pub load-Replays :
      (s : Loader R) (follows : Follows loads stream_of history) (r : LoadedAggregate)
      → KeptFaithful s.snapshots
      → (load shares d strict show loads meanwhile a s id).1 ≡ ok r
      → (r.version ≤ length (history 1))
        × (fold_state a (within (some r.version) (history 1)) (initial a) ≡ ok r.folded)
  unfolding load Replays
  load-Replays s follows r faithful h = load_under-Replays s follows a.snapshot r faithful refl h
