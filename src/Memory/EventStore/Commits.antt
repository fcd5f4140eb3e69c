-- ===== src/Memory/EventStore/Commits.antt =====
-- `appendAll` of memory/event-store.ts on several streams at once: all of them or none, each event at
-- the position handed over with it.
use text.Mathlib.TextEquality.{eq_iff}
use bounda.Prelude.{
  ℕ, zero, suc, ◌+◌, ◌<◌, ◌≡◌, refl, ap, sym, ◌∙◌, subst, String, false, none, List, [], ◌∷◌, ◌++◌,
  map, arith, inl, inr,
}
use mathlib.Core.List.{map-append}
use bounda.Prelude.Tests.{leb, if◌then◌else◌, ◌==◌, Bool-cases, nat_eq, string_eq, nat_beq_iff}
use bounda.Prelude.Lists.{sort_by, length, All, All-map, All-both}
use bounda.Prelude.Dict.{Dict, get, set, get-set}
use bounda.Contracts.Errors.{Failure, Result, ok, err, ◌>>=◌, bind-eq-ok}
use bounda.Contracts.Events.{PendingEvent, StoredEvent, AppendResult, stream_id}
use bounda.Memory.EventStore.{
  Store, PendingKept, Batch, Codec, stream_of, version_in, take_position, place, write_batch,
  write_batches, write_all, append_checked, append_all, check_versions, prepare, keep_all, restore,
  advance, events_of, release, release_positions, release_position,
}
use bounda.Memory.EventStore.Streams.{
  IsLossless, log_events-streams, advance-streams, keep_all-cons, restore-keep,
}

module _ {P M : Type 0} where
  -- Each event with its position.
  abbrev pub numbered : List (PendingEvent P M) → List ℕ → List (StoredEvent P M)
  numbered [] ps = []
  numbered (e ∷ es) [] = []
  numbered (e ∷ es) (p ∷ ps) = record { event = e; position = p } ∷ numbered es ps

  abbrev pub key_of : Batch P M → String
  key_of b = stream_id b.stream

  abbrev pub Apart : Batch P M → List (Batch P M) → Type 0
  Apart b = All (λ other. (key_of b == key_of other) ≡ false)

  -- No stream twice.
  abbrev pub Distinct : List (Batch P M) → Type 0
  Distinct [] = Unit
  Distinct (b ∷ bs) = Apart b bs × Distinct bs

  -- A position for each event.
  abbrev pub HasPositions : Batch P M → Type 0
  HasPositions b = All (λ p. 0 < p) b.positions × (length b.positions ≡ length b.events)

nothing_counted :
    {P M : Type 0} (bs : List (Batch P M))
    → All (λ b. get {K = String} {V = ℕ} [] (key_of b) ≡ none) bs
unfolding get
nothing_counted [] = tt
nothing_counted (b ∷ bs) = (refl, nothing_counted bs)

stream_of-written :
    (s : Store) (key : String) (ks : List PendingKept) (ps : List ℕ) (j : String)
    → stream_of (write_batch s key ks ps) j
      ≡ (if key == j then stream_of s key ++ (place s.reserved ks ps).0 else stream_of s j)
unfolding write_batch
stream_of-written s key ks ps j = ground (
  arith,
  log_events-streams
      (record s {
        reserved = (place s.reserved ks ps).1;
        streams = set s.streams key (stream_of s key ++ (place s.reserved ks ps).0);
      })
      (place s.reserved ks ps).0,
  get-set s.streams key (stream_of s key ++ (place s.reserved ks ps).0) j,
)

module _ {P M : Type 0} (c : Codec P M) where
  map-restore-numbered :
      IsLossless c
      → (r : ℕ) (es : List (PendingEvent P M)) (ks : List PendingKept) (ps : List ℕ)
      → keep_all c es ≡ ok ks
      → All (λ p. 0 < p) ps
      → length ps ≡ length es
      → map (restore c) (place r ks ps).0 ≡ numbered es ps
  unfolding place take_position
  map-restore-numbered l r [] ks ps h pos same = unfold keep_all in ground arith
  map-restore-numbered l r (e ∷ es) ks [] h pos same = absurd (omega arith)
  map-restore-numbered l r (e ∷ es) ks (zero ∷ ps) h pos same = absurd (omega (arith, pos.0))
  map-restore-numbered l r (e ∷ es) ks (suc p ∷ ps) h pos same =
      let (k, kept, first, others, eq) = keep_all-cons c e es ks h in
      rw eq (
        cc (
          restore-keep c l e k (suc p) first,
          map-restore-numbered l r es kept ps others pos.1 (omega (arith, same)),
        ))

  prepare-cons :
      (b : Batch P M) (bs : List (Batch P M)) (kss : List (List PendingKept))
      → prepare c (b ∷ bs) ≡ ok kss
      → (ks : List PendingKept) × (more : List (List PendingKept)) × (keep_all c b.events ≡ ok ks)
        × (prepare c bs ≡ ok more)
        × (kss ≡ ks ∷ more)
  unfolding prepare
  prepare-cons b bs kss h =
      let (ks, kept, left) =
        bind-eq-ok (keep_all c b.events) (λ ks. prepare c bs >>= λ more. ok (ks ∷ more)) h in
      let (more, others, done) = bind-eq-ok (prepare c bs) (λ more. ok (ks ∷ more)) left in
      (ks, more, kept, others, ground arith)

  stream_of-others :
      (s : Store) (bs : List (Batch P M)) (kss : List (List PendingKept)) (j : String)
      → All (λ b. (key_of b == j) ≡ false) bs
      → stream_of (write_batches c s bs kss).0 j ≡ stream_of s j
  unfolding write_batches
  stream_of-others s [] kss j h = refl
  stream_of-others s (b ∷ bs) [] j h = refl
  stream_of-others s (b ∷ bs) (ks ∷ kss) j h =
      stream_of-others (write_batch s (key_of b) ks b.positions) bs kss j h.1
      ∙ ground (arith, stream_of-written s (key_of b) ks b.positions j)

  Apart-reversed :
      (b : Batch P M) (bs : List (Batch P M))
      → Apart b bs
      → All (λ other. (key_of other == key_of b) ≡ false) bs
  Apart-reversed b bs h =
      All-map (λ other. (key_of b == key_of other) ≡ false)
        (λ other. (key_of other == key_of b) ≡ false)
        (λ other k.
          ground (arith, eq_iff (key_of b) (key_of other), eq_iff (key_of other) (key_of b)))
        bs h

  -- The stream of the batch in `t` is the one in `s` and then the events of the batch.
  abbrev pub Appended : Store → Store → Batch P M → Type 0
  Appended s t b =
      map (restore c) (stream_of t (key_of b))
      ≡ map (restore c) (stream_of s (key_of b)) ++ numbered b.events b.positions

  write_batches-Appended :
      IsLossless c
      → (s : Store) (bs : List (Batch P M)) (kss : List (List PendingKept)) → prepare c bs ≡ ok kss
      → Distinct bs
      → All HasPositions bs
      → All (Appended s (write_batches c s bs kss).0) bs
  unfolding write_batches
  write_batches-Appended l s [] kss h d held = tt
  write_batches-Appended l s (b ∷ bs) kss h d held =
      let (ks, more, kept, others, eq) = prepare-cons b bs kss h in
      let s' : Store = write_batch s (key_of b) ks b.positions in
      subst (λ zs. All (Appended s (write_batches c s (b ∷ bs) zs).0) (b ∷ bs)) (sym eq)
        (
          ap (map (restore c)) (
                stream_of-others s' bs more (key_of b) (Apart-reversed b bs d.0)
                ∙ stream_of-written s (key_of b) ks b.positions (key_of b)
                ∙ ground (arith, eq_iff (key_of b) (key_of b)))
              ∙ map-append (restore c) (stream_of s (key_of b)) (place s.reserved ks b.positions).0
              ∙ ap (λ zs. map (restore c) (stream_of s (key_of b)) ++ zs)
                  (map-restore-numbered l s.reserved b.events ks b.positions kept held.0.0
                    held.0.1),
          All-map
              (λ other.
                ((key_of b == key_of other) ≡ false)
                × Appended s' (write_batches c s' bs more).0 other)
              (Appended s (write_batches c s' bs more).0)
              (λ other h.
                h.1
                ∙ ap (λ zs. map (restore c) zs ++ numbered other.events other.positions)
                    (ground
                      (arith, stream_of-written s (key_of b) ks b.positions (key_of other), h.0)))
              bs (All-both _ _ bs d.0 (write_batches-Appended l s' bs more others d.1 held.1)),
        )

  check_versions-AtVersion :
      (versions : Dict String ℕ) (s : Store) (bs : List (Batch P M))
      → check_versions c versions s bs ≡ ok tt
      → All (λ b. get versions (key_of b) ≡ none) bs
      → Distinct bs
      → All (λ b. length (stream_of s (key_of b)) ≡ b.expected_version) bs
  unfolding check_versions
  check_versions-AtVersion versions s [] h new d = tt
  check_versions-AtVersion versions s (b ∷ bs) h new d =
      let actual : ℕ = version_in versions s (key_of b) in
      elim (Bool-cases (actual == b.expected_version)) [
        | inr other ↦ absurd (ground arith)
        | inl same ↦ (
          ground (arith, nat_beq_iff actual b.expected_version, new.0),
          check_versions-AtVersion (set versions (key_of b) (actual + length b.events)) s bs
              (ground arith)
              (All-map
                (λ other.
                  ((key_of b == key_of other) ≡ false) × (get versions (key_of other) ≡ none))
                (λ other.
                  get (set versions (key_of b) (actual + length b.events)) (key_of other) ≡ none)
                (λ other k. ground (
                  arith,
                  get-set versions (key_of b) (actual + length b.events) (key_of other),
                  k.0,
                  k.1,
                ))
                bs (All-both _ _ bs d.0 new.1))
              d.1,
        )
      ]

  append_checked-ok :
      (s t : Store) (bs : List (Batch P M)) (rs : List (AppendResult P M))
      (r : Result (List (List PendingKept)))
      → append_checked c s bs r ≡ (t, ok rs)
      → (kss : List (List PendingKept)) × (r ≡ ok kss) × (t ≡ advance (write_batches c s bs kss).0)
  unfolding append_checked write_all
  append_checked-ok s t bs rs (err e) h = absurd (ground arith)
  append_checked-ok s t bs rs (ok kss) h = (kss, refl, sym (ap (λ r. r.0) h))

  append_checked-err :
      (s t : Store) (bs : List (Batch P M)) (e : Failure) (r : Result (List (List PendingKept)))
      → append_checked c s bs r ≡ (t, err e)
      → t ≡ s
  unfolding append_checked
  append_checked-err s t bs e (err f) h = sym (ap (λ r. r.0) h)
  append_checked-err s t bs e (ok kss) h = absurd (ground arith)

  abbrev pub Together : Store → Store → List (Batch P M) → Result (List (AppendResult P M)) → Type 0
  Together s t bs (ok rs) =
      All (λ b. (length (stream_of s (key_of b)) ≡ b.expected_version) × Appended s t b) bs
  Together s t bs (err e) = t ≡ s

  -- An `appendAll` of batches for different streams, each event with its position, that succeeds found
  -- each stream at the version its batch expects and appended the batch's events to it, at their
  -- positions; one that throws leaves the store as it was.
  pub append_all-Together :
      IsLossless c
      → (s t : Store) (bs : List (Batch P M)) (r : Result (List (AppendResult P M))) → Distinct bs
      → All HasPositions bs
      → append_all c s bs ≡ (t, r)
      → Together s t bs r
  unfolding append_all
  append_all-Together l s t bs (err e) d held h = append_checked-err s t bs e _ h
  append_all-Together l s t bs (ok rs) d held h =
      let (kss, both, done) = append_checked-ok s t bs rs _ h in
      let (u, versions, prepared) =
        bind-eq-ok (check_versions c [] s bs) (λ _. prepare c bs) both in
      All-both _ _ bs (check_versions-AtVersion [] s bs versions (nothing_counted bs) d) (
        subst (λ x. All (Appended s x) bs) (sym done)
          (All-map (Appended s (write_batches c s bs kss).0)
            (Appended s (advance (write_batches c s bs kss).0))
            (λ b k.
              ap (λ m. map (restore c) (events_of (get m (key_of b))))
                (advance-streams (write_batches c s bs kss).0)
              ∙ k)
            bs (write_batches-Appended l s bs kss prepared d held)))

release_positions-streams : (s : Store) (ps : List ℕ) → (release_positions s ps).streams ≡ s.streams
unfolding release_positions release_position
release_positions-streams s [] = refl
release_positions-streams s (p ∷ ps) =
    ground (arith, release_positions-streams (release_position s p) ps)

pub release-streams : (s : Store) (ps : List ℕ) → (release s ps).streams ≡ s.streams
unfolding release
release-streams s ps =
    advance-streams (release_positions s (sort_by (λ a b. leb b a) ps))
    ∙ release_positions-streams s (sort_by (λ a b. leb b a) ps)
