-- ===== src/Kernel/Aggregate/Loading/Drops.antt =====
-- kernel/aggregate/load-aggregate.ts: a load leaves the snapshots as they were, or drops its stream's.
use package.text.Mathlib.TextEquality.{eq_iff}
use bounda.Prelude.{
  ℕ, ◌≡◌, ◌∙◌, refl, String, Bool, true, false, Option, none, some, ◌⊎◌, inl, inr, arith,
}
use bounda.Prelude.Tests.{ltb, ◌==◌, string_eq, if_both}
use bounda.Prelude.Dict.{get-delete}
use bounda.Contracts.Errors.{Result, ok, err}
use bounda.Contracts.Events.{StreamIdentity, stream_id}
use bounda.Memory.Snapshots
use bounda.Memory.Snapshots.{Snapshot}
use bounda.Kernel.Aggregate.{SnapshotSettings, AggregateRuntime, FoldedState}
use bounda.Kernel.Aggregate.Codec.{Devalue, folds_equal}
use bounda.Kernel.Aggregate.Loading.{
  LoadedEvents, SnapshotOutcome, ahead, unreadable, LoadedAggregate, Shares, Loader, due,
  drop_snapshot, dropped, compared, sampled, folded_on, load_after, load_read, load_from,
  load_under,
}

module _ {R : Type 0} (shares : Shares R) (d : Devalue) (strict : Bool) (show : ℕ → String)
    (loads : ℕ → StreamIdentity → ℕ → Result LoadedEvents)
    (meanwhile : Snapshots.Store → Snapshots.Store) (a : AggregateRuntime R)
    (stream : StreamIdentity) (kept : Snapshots.Store) where
  abbrev pub Leaves : Loader R × Result LoadedAggregate → Type 0
  Leaves x = (x.0.snapshots ≡ kept) ⊎ (Snapshots.get_snapshot x.0.snapshots stream ≡ none)

  drop_snapshot-none :
      (s : Loader R)
      → Snapshots.get_snapshot
          (drop_snapshot shares d strict show loads meanwhile a s stream).snapshots
          stream
        ≡ none
  unfolding drop_snapshot Snapshots.remove Snapshots.get_snapshot
  drop_snapshot-none s = ground (
    arith,
    get-delete (meanwhile s.snapshots) (stream_id stream) (stream_id stream),
    eq_iff (stream_id stream) (stream_id stream),
  )

  dropped-Leaves :
      (s : Loader R) (outcome : SnapshotOutcome) (i : ℕ)
      → Leaves (dropped shares d strict show loads meanwhile a s stream outcome i)
  unfolding dropped
  dropped-Leaves s outcome i = inr (drop_snapshot-none s)

  compared-Leaves :
      (s : Loader R) (version : ℕ) (r : LoadedAggregate) (m : Result LoadedAggregate)
      → s.snapshots ≡ kept
      → Leaves (compared shares d strict show loads meanwhile a s stream version r m)
  unfolding compared
  compared-Leaves s version r (err e) same = inl same
  compared-Leaves s version r (ok whole) same =
      if_both Leaves (folds_equal r.folded whole.folded) (inl same)
        (if_both Leaves strict (inl same) (inr (drop_snapshot-none s)))

  sampled-Leaves :
      (s : Loader R) (b : Bool) (version : ℕ) (r : LoadedAggregate)
      → s.snapshots ≡ kept
      → Leaves (sampled shares d strict show loads meanwhile a (s, b) stream version r)
  unfolding sampled
  sampled-Leaves s false version r same = inl same
  sampled-Leaves s true version r same = compared-Leaves s version r _ same

  due-snapshots :
      (s : Loader R) (verify : R)
      → (due shares d strict show loads meanwhile a s verify).0.snapshots ≡ s.snapshots
  unfolding due
  due-snapshots s verify =
      if_both (λ (x : Loader R × Bool). x.0.snapshots ≡ s.snapshots) strict refl refl

  folded_on-Leaves :
      (s : Loader R) (settings : SnapshotSettings R) (snapshot : Snapshot) (l : LoadedEvents)
      (m : Result FoldedState)
      → s.snapshots ≡ kept
      → Leaves (folded_on shares d strict show loads meanwhile a s stream settings snapshot l m)
  unfolding folded_on
  folded_on-Leaves s settings snapshot l (err e) same = inl same
  folded_on-Leaves s settings snapshot l (ok f) same =
      sampled-Leaves _ _ snapshot.version _ (due-snapshots s settings.verify ∙ same)

  load_after-Leaves :
      (s : Loader R) (settings : SnapshotSettings R) (snapshot : Snapshot) (from : FoldedState)
      (m : Result LoadedEvents)
      → s.snapshots ≡ kept
      → Leaves (load_after shares d strict show loads meanwhile a s stream settings snapshot from m)
  unfolding load_after
  load_after-Leaves s settings snapshot from (err e) same = inl same
  load_after-Leaves s settings snapshot from (ok l) same =
      if_both Leaves (ltb l.version snapshot.version) (dropped-Leaves s ahead 1)
        (folded_on-Leaves s settings snapshot l _ same)

  load_read-Leaves :
      (s : Loader R) (settings : SnapshotSettings R) (snapshot : Snapshot) (m : Result FoldedState)
      → s.snapshots ≡ kept
      → Leaves (load_read shares d strict show loads meanwhile a s stream settings snapshot m)
  unfolding load_read
  load_read-Leaves s settings snapshot (err e) same = dropped-Leaves s unreadable 0
  load_read-Leaves s settings snapshot (ok from) same =
      load_after-Leaves s settings snapshot from _ same

  load_from-Leaves :
      (s : Loader R) (settings : SnapshotSettings R) (o : Option Snapshot)
      → s.snapshots ≡ kept
      → Leaves (load_from shares d strict show loads meanwhile a s stream settings o)
  unfolding load_from
  load_from-Leaves s settings none same = inl same
  load_from-Leaves s settings (some snapshot) same =
      if_both Leaves (snapshot.fingerprint == settings.fingerprint)
        (load_read-Leaves s settings snapshot _ same) (inl same)

  pub load_under-Leaves :
      (s : Loader R) (o : Option (SnapshotSettings R))
      → s.snapshots ≡ kept
      → Leaves (load_under shares d strict show loads meanwhile a s stream o)
  unfolding load_under
  load_under-Leaves s none same = inl same
  load_under-Leaves s (some settings) same = load_from-Leaves s settings _ same
