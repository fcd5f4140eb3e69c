-- ===== src/Memory/EventStore/Runs.antt =====
-- The states that memory/event-store.ts reaches from the empty store, by any sequence of its calls in
-- which positions handed over were reserved and are still to write.
use bounda.Prelude.{ℕ, refl, List, [], ◌∷◌, arith}
use bounda.Prelude.Tests.{nat_eq, nat_beq_iff}
use bounda.Prelude.Lists.{All, Distinct}
use bounda.Prelude.Dict.{get, get-set}
use bounda.Contracts.Errors.{Result, ok, err, ◌>>◌}
use bounda.Contracts.Events.{stream_id}
use bounda.Memory.EventStore.{
  Store, Kept, PendingKept, Batch, Codec, empty, reserve, release, release_positions, append_all,
  append_checked, write_all, write_batches, write_batch, log_event, log_events, place, advance,
  advance_round, check_versions, prepare, read_all,
}
use bounda.Memory.EventStore.Watermark.{WellFormed, IsSettled, advance-IsSettled, advance_induction}
use bounda.Memory.EventStore.Writes.{
  Extends, Extends-refl, Extends-trans, BatchesHeld, append_all-Extends,
}
use bounda.Memory.EventStore.Release.{
  IsOutstanding, release-WellFormed, release_positions-same, sorted,
}
use bounda.Memory.EventStore.Readers.{Continues, read_all-Continues}
use bounda.Memory.EventStore.Paging.{IsIndexed}

log_events-IsIndexed : (s : Store) (es : List Kept) → IsIndexed s → IsIndexed (log_events s es)
unfolding log_events log_event
log_events-IsIndexed s [] i = i
log_events-IsIndexed s (e ∷ es) i = log_events-IsIndexed (log_event s e) es (record {
  at = λ p k h. ground (arith, get-set s.log e.position e p, nat_beq_iff e.position p, i.at p k);
})

advance-IsIndexed : (s : Store) → IsIndexed s → IsIndexed (advance s)
advance-IsIndexed s i =
    advance_induction IsIndexed (λ t _ j. unfold advance_round in record { at = j.at })
      (λ t ns j. record { at = j.at }) s i

-- What holds of the store between two calls.
pub record IsSound (s : Store) : Type 0 where
  pub well_formed : WellFormed s
  pub settled : IsSettled s
  pub indexed : IsIndexed s

release-IsIndexed : (s : Store) (ps : List ℕ) → IsIndexed s → IsIndexed (release s ps)
unfolding release
release-IsIndexed s ps i =
    advance-IsIndexed (release_positions s (sorted ps))
      (record { at = λ p k h. ground (arith, i.at p k, (release_positions-same s (sorted ps)).0) })

module _ {P M : Type 0} (c : Codec P M) where
  write_batches-IsIndexed :
      (s : Store) (bs : List (Batch P M)) (kss : List (List PendingKept))
      → IsIndexed s
      → IsIndexed (write_batches c s bs kss).0
  unfolding write_batches write_batch
  write_batches-IsIndexed s [] kss i = i
  write_batches-IsIndexed s (b ∷ bs) [] i = i
  write_batches-IsIndexed s (b ∷ bs) (ks ∷ kss) i =
      write_batches-IsIndexed (write_batch s (stream_id b.stream) ks b.positions) bs kss
        (log_events-IsIndexed _ (place s.reserved ks b.positions).0 (record { at = i.at }))

  append_checked-IsSound :
      (s : Store) (bs : List (Batch P M)) (r : Result (List (List PendingKept)))
      → WellFormed (append_checked c s bs r).0
      → IsSound s
      → IsSound (append_checked c s bs r).0
  unfolding append_checked write_all
  append_checked-IsSound s bs (err e) v i = i
  append_checked-IsSound s bs (ok kss) v i = record {
    well_formed = v;
    settled = advance-IsSettled (write_batches c s bs kss).0;
    indexed =
        advance-IsIndexed (write_batches c s bs kss).0 (write_batches-IsIndexed s bs kss i.indexed);
  }

  -- A call on the store.
  pub data Step (s : Store) : Store → Type 0 where
    reserves : Step s (reserve s).1
    appends : (bs : List (Batch P M)) → BatchesHeld s bs → Step s (append_all c s bs).0
    releases : (ps : List ℕ) → Distinct ps → All (IsOutstanding s) ps → Step s (release s ps)

  pub data Reach (s : Store) : Store → Type 0 where
    here : Reach s s
    next : {t u : Store} → Reach s t → Step t u → Reach s u

  Step-IsSound : {s t : Store} → Step s t → IsSound s → IsSound t × Extends s t
  Step-IsSound {s} reserves i =
      unfold reserve in
      (
        record {
          well_formed = record {
            log_within = λ p h. omega (arith, i.well_formed.log_within p h);
            gaps_within = λ p g. omega (arith, i.well_formed.gaps_within p g);
            apart = i.well_formed.apart;
            seen = omega (arith, i.well_formed.seen);
          };
          settled = i.settled;
          indexed = record { at = i.indexed.at };
        },
        record { watermark_le = omega arith; log_seen = λ p h. refl },
      )
  Step-IsSound {s} (appends bs held) i =
      let (v, e) = append_all-Extends c s bs i.well_formed held in
      (
        unfold append_all in
            append_checked-IsSound s bs (check_versions c [] s bs >> prepare c bs) v i,
        e,
      )
  Step-IsSound {s} (releases ps d out) i =
      let (v, e) = release-WellFormed s ps i.well_formed d out in
      (
        record {
          well_formed = v;
          settled = unfold release in advance-IsSettled (release_positions s (sorted ps));
          indexed = release-IsIndexed s ps i.indexed;
        },
        e,
      )

  -- From a sound store (well formed, settled, and each event of the log under its own position),
  -- whatever calls follow in which positions handed over or given back are outstanding, the store
  -- stays sound and every position that readers may have passed reads the same.
  pub Reach-IsSound : {s t : Store} → IsSound s → Reach s t → IsSound t × Extends s t
  Reach-IsSound {s} i here = (i, Extends-refl s)
  Reach-IsSound i (next r st) =
      let (j, e) = Reach-IsSound i r in let (k, f) = Step-IsSound st j in (k, Extends-trans e f)

  pub empty-IsSound : IsSound empty
  unfolding get
  empty-IsSound = record {
    well_formed = record {
      log_within = λ p h. cc;
      gaps_within = λ p g. cc;
      apart = λ p g. cc;
      seen = omega arith;
    };
    settled = (refl, refl);
    indexed = record { at = λ p k h. cc };
  }

  -- From the empty store, whatever calls come first (`s`) and whatever calls follow (`t`), a reader
  -- of `t` gets all that a reader of `s` got at the same place, first and in the same order: no event
  -- is ever written before one that a reader has passed.
  pub readers_never_overtaken :
      (s t : Store) (after limit : ℕ)
      → Reach empty s
      → Reach s t
      → Continues (read_all c s after limit) (read_all c t after limit)
  readers_never_overtaken s t after limit r q =
      read_all-Continues c s t after limit (Reach-IsSound (Reach-IsSound empty-IsSound r).0 q).1
