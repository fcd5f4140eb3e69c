-- ===== src/Adapter/StagedEvents/View.antt =====
-- adapter/staged-event-store.ts: the view of a stream with what was staged for it, and what holds of
-- every view however the base store changed between its calls.
use text.Mathlib.TextEquality.{eq_iff}
use bounda.Prelude.{
  ℕ, suc, ◌+◌, ◌≡◌, ◌≢◌, refl, ap, sym, ◌∙◌, String, Bool, some, List, [], ◌∷◌, ◌++◌, map, arith,
  inl, inr,
}
use mathlib.Core.List.{append_assoc}
use bounda.Prelude.Tests.{leb, if◌then◌else◌, ◌==◌, nat_eq, string_eq, nat_beq_iff, Bool-cases}
use bounda.Prelude.Lists.{length, length-append, keep_if}
use bounda.Prelude.Dict.{get, set, get-set}
use bounda.Contracts.Errors.{runtime_error, concurrency, ok, err}
use bounda.Contracts.Events.{
  StreamIdentity, PendingEvent, StoredEvent, AppendArgs, AppendResult, LoadResult, stream_id,
}
use bounda.Adapter.StagedEvents.{
  Base, IsLawful, StagedStream, Streams, max_safe_integer, created, met, meet, with_positions,
  keep_persons, load, append,
}

keep_if-append :
    {A : Type 0} (p : A → Bool) (xs ys : List A)
    → keep_if p (xs ++ ys) ≡ keep_if p xs ++ keep_if p ys
keep_if-append p [] ys = refl
keep_if-append p (x ∷ xs) ys = ground (arith, keep_if-append p xs ys)

module _ {P M : Type 0} where
  abbrev pub at_least : ℕ → List (StoredEvent P M) → List (StoredEvent P M)
  at_least from = keep_if (λ e. leb from e.version)

  pub get-meet :
      (v : Streams P M) (stream : StreamIdentity) (version : ℕ) (key : String)
      → get (meet v stream version) key
        ≡ (if stream_id stream == key then some (met v stream version) else get v key)
  unfolding meet met
  get-meet v stream version key = ground (
    arith,
    get-set v (stream_id stream) (created stream version) key,
    eq_iff (stream_id stream) key,
    ap (get v),
  )

  met-meet :
      (v : Streams P M) (stream : StreamIdentity) (version : ℕ) (key : StreamIdentity) (other : ℕ)
      → stream_id stream ≡ stream_id key
      → met (meet v stream version) key other ≡ met v stream version
  unfolding met
  met-meet v stream version key other same =
      ground (
        arith,
        get-meet v stream version (stream_id key),
        eq_iff (stream_id stream) (stream_id key),
      )

module _ {S P M : Type 0} (b : Base S P M) where
  -- What `load` answers for a staged stream.
  abbrev pub seen_as : S → StagedStream P M → StreamIdentity → ℕ → LoadResult P M
  seen_as s staged stream from = record {
    events =
        keep_if (λ e. leb e.version staged.base) (b.load s stream from).events
        ++ at_least from staged.events;
    version = staged.base + length staged.events;
  }

  load-eq :
      (s : S) (v : Streams P M) (stream : StreamIdentity) (from : ℕ)
      → load b s v stream from ≡ (
        meet v stream (b.load s stream from).version,
        seen_as s (met v stream (b.load s stream from).version) stream from,
      )
  unfolding load
  load-eq s v stream from = refl

  length-with_positions :
      (s : S) (es : List (PendingEvent P M)) → length (with_positions b s es).0 ≡ length es
  unfolding with_positions
  length-with_positions s [] = refl
  length-with_positions s (e ∷ es) = ap suc (length-with_positions (b.next_position s).1 es)

  events-with_positions :
      (s : S) (es : List (PendingEvent P M)) → map (λ e. e.event) (with_positions b s es).0 ≡ es
  unfolding with_positions
  events-with_positions s [] = refl
  events-with_positions s (e ∷ es) =
      ap (λ zs. e ∷ zs) (events-with_positions (b.next_position s).1 es)

  module _ (l : IsLawful b) (s : S) (v : Streams P M) (args : AppendArgs P M) (from' : ℕ) where
    -- The view once the kernel has loaded the stream, and the stream in it.
    abbrev seen : Streams P M
    seen = (load b s v args.stream from').0

    abbrev seen_version : ℕ
    seen_version = (load b s v args.stream from').1.version

    abbrev base_version : ℕ
    base_version = (b.load s args.stream max_safe_integer).version

    abbrev staged : StagedStream P M
    staged = met v args.stream base_version

    abbrev new : List (StoredEvent P M)
    new = (with_positions b s args.events).0

    abbrev grown : Streams P M
    grown = set (meet v args.stream base_version) (stream_id args.stream) (record staged {
      events = staged.events ++ new;
      persons = keep_persons staged.persons args.persons;
    })

    seen-eq : seen ≡ meet v args.stream base_version
    unfolding load
    seen-eq = ap (meet v args.stream) (l.version_from s args.stream from' max_safe_integer)

    seen_version-eq : seen_version ≡ staged.base + length staged.events
    unfolding load
    seen_version-eq =
        ap (λ (n : ℕ). (met v args.stream n).base + length (met v args.stream n).events)
          (l.version_from s args.stream from' max_safe_integer)

    append-accepted :
        args.expected_version ≡ seen_version
        → append b s v args ≡ (
          (with_positions b s args.events).1,
          grown,
          ok (record { version = seen_version + length new; events = new }),
        )
    unfolding append
    append-accepted h = ground (
      arith,
      seen_version-eq,
      nat_beq_iff (staged.base + length staged.events) args.expected_version,
    )

    grown-staged : StagedStream P M
    grown-staged = record staged {
      events = staged.events ++ new;
      persons = keep_persons staged.persons args.persons;
    }

    met-grown :
        (stream : StreamIdentity) (n : ℕ)
        → met grown stream n ≡ (
            if stream_id args.stream == stream_id stream
            then grown-staged
            else met (meet v args.stream base_version) stream n)
    unfolding met grown-staged
    met-grown stream n = ground (
      arith,
      get-set (meet v args.stream base_version) (stream_id args.stream) grown-staged
          (stream_id stream),
    )

    load-same :
        (u : S) (stream : StreamIdentity) (from : ℕ)
        → seen_as u grown-staged stream from ≡ record {
          events = (seen_as u staged stream from).events ++ at_least from new;
          version = seen_version + length new;
        }
    unfolding grown-staged
    load-same u stream from = cc (
      keep_if-append (λ (e : StoredEvent P M). leb from e.version) staged.events new,
      append_assoc
          (keep_if (λ (e : StoredEvent P M). leb e.version staged.base)
            (b.load u stream from).events)
          (at_least from staged.events) (at_least from new),
      counted,
    )
      where
        counted : staged.base + length (staged.events ++ new) ≡ seen_version + length new
        counted = omega (arith, seen_version-eq, length-append staged.events new)

    load-grown :
        (u : S) (stream : StreamIdentity) (from : ℕ)
        → (load b u grown stream from).1 ≡ (
            if stream_id args.stream == stream_id stream
            then record {
              events = (load b u seen stream from).1.events ++ at_least from new;
              version = seen_version + length new;
            }
            else (load b u seen stream from).1)
    load-grown u stream from =
        let n : ℕ = (b.load u stream from).version in
        let to_base : (load b u seen stream from).1
            ≡ seen_as u (met (meet v args.stream base_version) stream n) stream from =
          ap (λ w. (load b u w stream from).1) seen-eq
          ∙ ap (λ r. r.1) (load-eq u (meet v args.stream base_version) stream from) in
        ap (λ r. r.1) (load-eq u grown stream from)
        ∙ ap (λ st. seen_as u st stream from) (met-grown stream n)
        ∙ elim (Bool-cases (stream_id args.stream == stream_id stream)) [
          | inl hit ↦ rw hit (
              load-same u stream from
              ∙ ap
                  (λ (r : LoadResult P M). record {
                    events = r.events ++ at_least from new;
                    version = seen_version + length new;
                  })
                  (sym (
                    to_base
                    ∙ ap (λ st. seen_as u st stream from)
                        (met-meet v args.stream base_version stream n ((eq_iff _ _).0 hit)))))
          | inr miss ↦ rw miss (sym to_base)
        ]

    -- An append through a view that has loaded the stream, at another version than the load answered,
    -- throws `ConcurrencyError` with both versions, stages nothing and takes no position.
    pub append-conflicting :
        args.expected_version ≢ seen_version
        → append b s v args ≡ (
          s,
          seen,
          err (
              runtime_error
                (concurrency (stream_id args.stream) args.expected_version seen_version)),
        )
    append-conflicting h =
        rw (seen-eq, seen_version-eq)
          (unfold append in
            ground (
              arith,
              seen_version-eq,
              nat_beq_iff (staged.base + length staged.events) args.expected_version,
            ))

    -- An append through a view that has loaded the stream, at the version that the load answered,
    -- succeeds with the events handed in and answers the version that the stream then has in the view;
    -- from then on a load of the stream, from any version and whatever the base store holds by then,
    -- gives what it would have given and then the new events, and a load of another stream is as it was.
    pub append-load :
        args.expected_version ≡ seen_version
        → (r : AppendResult P M) × ((append b s v args).2 ≡ ok r)
          × (r.version ≡ args.expected_version + length args.events)
          × (map (λ e. e.event) r.events ≡ args.events)
          × ((u : S) (stream : StreamIdentity) (from : ℕ)
              → (load b u (append b s v args).1 stream from).1 ≡ (
                  if stream_id args.stream == stream_id stream
                  then record {
                    events = (load b u seen stream from).1.events ++ at_least from r.events;
                    version = r.version;
                  }
                  else (load b u seen stream from).1))
    append-load h = (
      record { version = seen_version + length new; events = new },
      ap (λ r. r.2) (append-accepted h),
      omega (arith, h, length-with_positions s args.events),
      events-with_positions s args.events,
      λ u stream from.
          ap (λ r. (load b u r.1 stream from).1) (append-accepted h) ∙ load-grown u stream from,
    )
