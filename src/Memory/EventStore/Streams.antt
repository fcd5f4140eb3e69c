-- ===== src/Memory/EventStore/Streams.antt =====
-- `append` and `load` of memory/event-store.ts: optimistic concurrency, and what a load gives back.
use bounda.Prelude.{
  ℕ, suc, ◌+◌, ◌≡◌, refl, ap, String, Bool, inl, inr, some, List, [], ◌∷◌, ◌++◌, map, arith,
}
use mathlib.Core.List.{map-append}
use bounda.Prelude.Tests.{
  if◌then◌else◌, ◌==◌, Bool-cases, Option-cases, nat_eq, string_eq, nat_beq_iff, leb,
}
use bounda.Prelude.Lists.{length, length-append, keep_if}
use bounda.Prelude.Dict.{get, set, get-set}
use bounda.Contracts.Errors.{ok, ◌>>=◌, bind-eq-ok}
use bounda.Contracts.Events.{
  StreamIdentity, PendingEvent, StoredEvent, AppendArgs, AppendResult, stream_id,
}
use bounda.Memory.EventStore.{
  Store, Kept, PendingKept, Codec, stream_of, advance, advance_round, take_position, place,
  log_event, log_events, write_batch, write_batches, write_all, append_checked, append_all, append,
  check_versions, prepare, first_result, keep, keep_all, restore, placed, result_of, load,
  or_type_error, rest,
}
use bounda.Memory.EventStore.Watermark.{advance_induction}

-- `JSON.parse` gives back what `JSON.stringify` wrote.
pub record IsLossless {P M : Type 0} (c : Codec P M) : Type 0 where
  pub payload_back : (p : P) (t : String) → c.payload_json p ≡ some t → c.payload_parse t ≡ p
  pub metadata_back : (m : M) (t : String) → c.metadata_json m ≡ some t → c.metadata_parse t ≡ m

pub log_events-streams : (s : Store) (es : List Kept) → (log_events s es).streams ≡ s.streams
unfolding log_events log_event
log_events-streams s [] = refl
log_events-streams s (e ∷ es) = log_events-streams (log_event s e) es

pub advance-streams : (s : Store) → (advance s).streams ≡ s.streams
advance-streams s =
    advance_induction (λ t. t.streams ≡ s.streams) (λ t _ h. unfold advance_round in h)
      (λ t ns h. h) s refl

length-place : (r : ℕ) (ks : List PendingKept) (ps : List ℕ) → length (place r ks ps).0 ≡ length ks
unfolding place
length-place r [] ps = refl
length-place r (k ∷ ks) ps = ap suc (length-place (take_position r ps).1 ks (rest ps))

pub keep_if-append :
    {A : Type 0} (p : A → Bool) (xs ys : List A)
    → keep_if p (xs ++ ys) ≡ keep_if p xs ++ keep_if p ys
keep_if-append p [] ys = refl
keep_if-append p (x ∷ xs) ys = ground (arith, keep_if-append p xs ys)

module _ {P M : Type 0} (c : Codec P M) where
  pub keep_all-cons :
      (e : PendingEvent P M) (es : List (PendingEvent P M)) (ks : List PendingKept)
      → keep_all c (e ∷ es) ≡ ok ks
      → (k : PendingKept) × (rest : List PendingKept) × (keep c e ≡ ok k)
        × (keep_all c es ≡ ok rest)
        × (ks ≡ k ∷ rest)
  unfolding keep_all
  keep_all-cons e es ks h =
      let (k, kept, more) = bind-eq-ok (keep c e) (λ k. keep_all c es >>= λ ks. ok (k ∷ ks)) h in
      let (rest, others, done) = bind-eq-ok (keep_all c es) (λ ks. ok (k ∷ ks)) more in
      (k, rest, kept, others, ground arith)

  length-keep_all :
      (es : List (PendingEvent P M)) (ks : List PendingKept)
      → keep_all c es ≡ ok ks
      → length ks ≡ length es
  length-keep_all [] ks h = unfold keep_all in ground arith
  length-keep_all (e ∷ es) ks h =
      let (k, rest, _, others, eq) = keep_all-cons e es ks h in
      rw eq (ap suc (length-keep_all es rest others))

  pub restore-keep :
      IsLossless c
      → (e : PendingEvent P M) (k : PendingKept) (p : ℕ) → keep c e ≡ ok k
      → restore c (record { event = k; position = p }) ≡ record { event = e; position = p }
  unfolding keep restore or_type_error
  restore-keep l e k p h = elim (Option-cases (c.payload_json e.payload)) [
    | inl bad ↦ ground arith
    | inr (t, good) ↦ elim (Option-cases (c.metadata_json e.metadata)) [
      | inl bad ↦ ground arith
      | inr (u, fine) ↦ ground (arith, l.payload_back e.payload t, l.metadata_back e.metadata u)
    ]
  ]

  -- The events written, seen as a load hands them out, are those of the result.
  map-restore-place :
      IsLossless c
      → (r : ℕ) (es : List (PendingEvent P M)) (ks : List PendingKept) (ps : List ℕ)
      → keep_all c es ≡ ok ks
      → map (restore c) (place r ks ps).0 ≡ placed c es (place r ks ps).0
  unfolding place placed
  map-restore-place l r [] ks ps h = unfold keep_all in ground arith
  map-restore-place l r (e ∷ es) ks ps h =
      let (k, kept, first, others, eq) = keep_all-cons e es ks h in
      rw (eq, place)
        (cc (
          restore-keep l e k (take_position r ps).0 first,
          map-restore-place l (take_position r ps).1 es kept (rest ps) others,
        ))

  abbrev written : Store → List PendingKept → List Kept
  written s ks = (place s.reserved ks []).0

  append-eq :
      (s : Store) (args : AppendArgs P M) (ks : List PendingKept)
      → length (stream_of s (stream_id args.stream)) ≡ args.expected_version
      → keep_all c args.events ≡ ok ks
      → append c s args ≡ (
        advance (write_batch s (stream_id args.stream) ks []),
        ok (result_of c (record { args = args; positions = [] }) (written s ks)),
      )
  unfolding append append_all check_versions prepare append_checked write_all write_batches
      first_result get
  append-eq s args ks h k =
      ground
        (arith, nat_beq_iff (length (stream_of s (stream_id args.stream))) args.expected_version)

  abbrev pub at_least : ℕ → List (StoredEvent P M) → List (StoredEvent P M)
  at_least from = keep_if (λ e. leb from e.version)

  pub map-restore-keep_if :
      (from : ℕ) (ks : List Kept)
      → map (restore c) (keep_if (λ k. leb from k.version) ks) ≡ at_least from (map (restore c) ks)
  unfolding restore
  map-restore-keep_if from [] = refl
  map-restore-keep_if from (k ∷ ks) = ground (arith, map-restore-keep_if from ks)

  stream_of-write_batch :
      (s : Store) (key : String) (ks : List PendingKept) (j : String)
      → stream_of (advance (write_batch s key ks [])) j
        ≡ (if key == j then stream_of s key ++ written s ks else stream_of s j)
  unfolding write_batch
  stream_of-write_batch s key ks j = ground (
    arith,
    advance-streams (write_batch s key ks []),
    log_events-streams
        (record s {
          reserved = (place s.reserved ks []).1;
          streams = set s.streams key (stream_of s key ++ written s ks);
        })
        (written s ks),
    get-set s.streams key (stream_of s key ++ written s ks) j,
  )

  abbrev answer : Store → AppendArgs P M → List PendingKept → AppendResult P M
  answer s args ks = result_of c (record { args = args; positions = [] }) (written s ks)

  module _ (l : IsLossless c) (s : Store) (args : AppendArgs P M) (ks : List PendingKept)
      (expected : length (stream_of s (stream_id args.stream)) ≡ args.expected_version)
      (kept : keep_all c args.events ≡ ok ks) where
    events-answer :
        (from : ℕ)
        → map (restore c) (
            keep_if (λ k. leb from k.version) (stream_of s (stream_id args.stream) ++ written s ks))
          ≡ (load c s args.stream from).events ++ at_least from (answer s args ks).events
    unfolding load result_of
    events-answer from = simp (
      map-restore-keep_if,
      map-append,
      keep_if-append,
      map-restore-place l s.reserved args.events ks [] kept,
    )

    version-answer :
        length (stream_of s (stream_id args.stream) ++ written s ks) ≡ (answer s args ks).version
    unfolding result_of
    version-answer =
        omega (arith, length-append (stream_of s (stream_id args.stream)) (written s ks))

    load-advance-write_batch :
        (stream : StreamIdentity) (from : ℕ)
        → load c (advance (write_batch s (stream_id args.stream) ks [])) stream from ≡ (
            if stream_id args.stream == stream_id stream
            then record {
              events =
                  (load c s args.stream from).events ++ at_least from (answer s args ks).events;
              version = (answer s args ks).version;
            }
            else load c s stream from)
    load-advance-write_batch stream from =
        elim (Bool-cases (stream_id args.stream == stream_id stream)) [
          | inl hit ↦
              unfold load in
              rw (stream_of-write_batch s (stream_id args.stream) ks (stream_id stream), hit)
                (cc (events-answer from, version-answer))
          | inr miss ↦
              unfold load in
              rw (stream_of-write_batch s (stream_id args.stream) ks (stream_id stream), miss)
        ]

    -- With a JSON that loses nothing, an append at the stream's version of events that JSON takes
    -- succeeds; its result answers the version that a load of the stream then has, and a load from
    -- any version gives what it gave before and then the result's events of at least that version.
    -- A load of any other stream is unchanged.
    pub load-append :
        (r : AppendResult P M) × ((append c s args).1 ≡ ok r)
        × (r.version ≡ args.expected_version + length args.events)
        × ((stream : StreamIdentity) (from : ℕ)
            → load c (append c s args).0 stream from ≡ (
                if stream_id args.stream == stream_id stream
                then record {
                  events = (load c s args.stream from).events ++ at_least from r.events;
                  version = r.version;
                }
                else load c s stream from))
    load-append = (
      answer s args ks,
      rw (append-eq s args ks expected kept),
      omega (
        arith,
        version-answer,
        length-append (stream_of s (stream_id args.stream)) (written s ks),
        length-place s.reserved ks [],
        length-keep_all args.events ks kept,
      ),
      λ stream from. rw (append-eq s args ks expected kept) (load-advance-write_batch stream from),
    )
