-- ===== src/Memory/Transaction/Commit.antt =====
-- memory/transaction.ts: what a committed transaction leaves in the event store is what its own view
-- showed, and a failed one leaves every stream as it was.
use bounda.Prelude.{
  ℕ, ◌+◌, ◌≤◌, ◌≡◌, refl, ap, sym, ◌∙◌, subst, Bool, true, some, List, [], ◌∷◌, ◌++◌, map, arith,
}
use bounda.Prelude.Tests.{leb, le→leb, string_eq}
use bounda.Prelude.Lists.{length, length-append, length-map, All, All-map, keep_if, All-keep_if}
use bounda.Prelude.Dict.{get, values, get-All, get-IsKeyed}
use bounda.Contracts.Errors.{Failure, Result, ok, err}
use bounda.Contracts.Events.{StreamIdentity, StoredEvent, AppendResult, LoadResult, stream_id}
use bounda.Adapter.StagedEvents
use bounda.Adapter.StagedEvents.{IsLawful, StagedStream, Streams, is_staged, batch_of, batches, met}
use bounda.Adapter.StagedEvents.View.{at_least, seen_as}
use bounda.Adapter.StagedEvents.Batches.{IsView, Views, Views-IsView}
use bounda.Memory.EventStore.{
  Codec, Store, Kept, stream_of, events_of, restore, load, reserve, append_all, release,
}
use bounda.Memory.EventStore.Streams.{IsLossless, keep_if-append, map-restore-keep_if}
use bounda.Memory.EventStore.Commits.{Together, append_all-Together, release-streams}
use bounda.Memory.Transaction.Batches.{
  batched, All-of_batched, batched-Distinct, batched-HasPositions, numbered-own,
}
use bounda.Memory.Transaction.{memory_base, settle_commit, commit}

keep_if-every :
    {A : Type 0} (test : A → Bool) (xs : List A)
    → All (λ x. test x ≡ true) xs
    → keep_if test xs ≡ xs
keep_if-every test [] h = refl
keep_if-every test (x ∷ xs) h = ground (arith, keep_if-every test xs h.1)

-- No event of the stream has a version past the stream's.
abbrev pub IsNumbered : List Kept → Type 0
IsNumbered ks = All (λ k. k.version ≤ length ks) ks

module _ {P M : Type 0} (c : Codec P M) where
  pub memory_base-IsLawful : IsLawful (memory_base c)
  unfolding load reserve
  memory_base-IsLawful = record {
    version_from = λ s stream from from'. refl;
    next_position_pos = λ s. omega arith;
  }

  abbrev loaded : List Kept → ℕ → LoadResult P M
  loaded ks from = record {
    events = map (restore c) (keep_if (λ k. leb from k.version) ks);
    version = length ks;
  }

  load-loaded :
      (s : Store) (stream : StreamIdentity) (from : ℕ)
      → load c s stream from ≡ loaded (stream_of s (stream_id stream)) from
  unfolding load
  load-loaded s stream from = refl

  load-streams :
      (u w : Store) (stream : StreamIdentity) (from : ℕ)
      → u.streams ≡ w.streams
      → load c u stream from ≡ load c w stream from
  load-streams u w stream from same =
      load-loaded u stream from
      ∙ ap (λ m. loaded (events_of (get m (stream_id stream))) from) same
      ∙ sym (load-loaded w stream from)

  settle-ok :
      (s t : Store) (reserved : List ℕ) (r : Result (List (AppendResult P M)))
      → settle_commit c s reserved r ≡ (t, ok tt)
      → (rs : List (AppendResult P M)) × (r ≡ ok rs) × (t ≡ release s [])
  unfolding settle_commit
  settle-ok s t reserved (ok rs) h = (rs, refl, sym (ap (λ x. x.0) h))
  settle-ok s t reserved (err e) h = absurd (ground arith)

  settle-err :
      (s t : Store) (reserved : List ℕ) (r : Result (List (AppendResult P M))) (e : Failure)
      → settle_commit c s reserved r ≡ (t, err e)
      → (r ≡ err e) × (t ≡ release s reserved)
  unfolding settle_commit
  settle-err s t reserved (ok rs) e h = absurd (ground arith)
  settle-err s t reserved (err f) e h = (cc, sym (ap (λ x. x.0) h))

  within_base :
      (n : ℕ) (ks : List Kept)
      → All (λ k. k.version ≤ n) ks
      → All (λ (e : StoredEvent P M). leb e.version n ≡ true) (map (restore c) ks)
  unfolding restore
  within_base n [] h = tt
  within_base n (k ∷ ks) h = (le→leb k.version n h.0, within_base n ks h.1)

  All-at_least :
      (Q : StoredEvent P M → Type 0) (from : ℕ) (es : List (StoredEvent P M))
      → All Q es
      → All Q (at_least from es)
  All-at_least Q from es h =
      All-map (λ e. Q e × (leb from e.version ≡ true)) Q (λ e k. k.0) _
        (All-keep_if Q (λ e. leb from e.version) es h)

  -- What a load shows of a stream once the staged events stand behind what was there.
  shown :
      (s t : Store) (staged : StagedStream P M) (stream : StreamIdentity) (from : ℕ)
      → map (restore c) (stream_of t (stream_id stream))
        ≡ map (restore c) (stream_of s (stream_id stream)) ++ staged.events
      → length (stream_of s (stream_id stream)) ≡ staged.base
      → IsNumbered (stream_of s (stream_id stream))
      → loaded (stream_of t (stream_id stream)) from ≡ seen_as (memory_base c) s staged stream from
  unfolding load
  shown s t staged stream from behind counted numbering =
      let old : List Kept = stream_of s (stream_id stream) in
      let events : map (restore c)
            (keep_if (λ k. leb from k.version) (stream_of t (stream_id stream)))
          ≡ keep_if (λ (e : StoredEvent P M). leb e.version staged.base)
              (map (restore c) (keep_if (λ k. leb from k.version) old))
            ++ at_least from staged.events =
        map-restore-keep_if c from (stream_of t (stream_id stream))
        ∙ ap (at_least from) behind
        ∙ keep_if-append (λ e. leb from e.version) (map (restore c) old) staged.events
        ∙ ap (λ (zs : List (StoredEvent P M)). zs ++ at_least from staged.events)
            (sym (
              ap (keep_if (λ (e : StoredEvent P M). leb e.version staged.base))
                (map-restore-keep_if c from old)
              ∙ keep_if-every (λ (e : StoredEvent P M). leb e.version staged.base)
                  (at_least from (map (restore c) old))
                  (All-at_least (λ e. leb e.version staged.base ≡ true) from (map (restore c) old)
                    (within_base staged.base old
                      (subst (λ n. All (λ k. k.version ≤ n) old) counted numbering))))) in
      let version : length (stream_of t (stream_id stream)) ≡ staged.base + length staged.events =
        omega (
          arith,
          ap length behind,
          counted,
          length-append (map (restore c) old) staged.events,
          length-map (restore c) old,
          length-map (restore c) (stream_of t (stream_id stream)),
        ) in
      cc (events, version)

  module _ (l : IsLossless c) (s t : Store) (v : Streams P M) (reserved : List ℕ)
      (views : Views (memory_base c) v) where
    view : IsView v
    view = Views-IsView (memory_base c) memory_base-IsLawful views

    abbrev after : Store
    after = (append_all c s (batched (values v))).0

    together :
        (r : Result (List (AppendResult P M)))
        → (append_all c s (batched (values v))).1 ≡ r
        → Together c s after (batched (values v)) r
    together r h =
        append_all-Together c l s after (batched (values v)) r (batched-Distinct v view.keyed)
          (batched-HasPositions v view) (ap (λ x. (after, x)) h)

    committed-stream :
        (rs : List (AppendResult P M)) (stream : StreamIdentity) (staged : StagedStream P M)
        → (append_all c s (batched (values v))).1 ≡ ok rs
        → get v (stream_id stream) ≡ some staged
        → is_staged staged ≡ true
        → (length (stream_of s (stream_id stream)) ≡ staged.base)
          × (map (restore c) (stream_of after (stream_id stream))
              ≡ map (restore c) (stream_of s (stream_id stream)) ++ staged.events)
    unfolding batch_of
    committed-stream rs stream staged h there yes_staged =
        let own : stream_id staged.stream ≡ stream_id stream =
          get-IsKeyed (λ (st : StagedStream P M). stream_id st.stream) v (stream_id stream) staged
            view.keyed there in
        let (counted, behind) =
          get-All _ v (stream_id stream) staged (All-of_batched _ (values v) (together (ok rs) h))
            there yes_staged in
        subst
          (λ k.
            (length (stream_of s k) ≡ staged.base)
            × (map (restore c) (stream_of after k)
                ≡ map (restore c) (stream_of s k) ++ staged.events))
          own
          (
            counted,
            behind
                ∙ ap (λ zs. map (restore c) (stream_of s (stream_id staged.stream)) ++ zs)
                    (numbered-own staged.events),
          )

    view-load :
        (stream : StreamIdentity) (staged : StagedStream P M) (from : ℕ)
        → get v (stream_id stream) ≡ some staged
        → (StagedEvents.load (memory_base c) s v stream from).1
          ≡ seen_as (memory_base c) s staged stream from
    unfolding StagedEvents.load met
    view-load stream staged from there =
        let e : met v stream (load c s stream from).version ≡ staged = ground arith in
        ap (λ st. seen_as (memory_base c) s st stream from) e

    commit-eq :
        commit c s v reserved
        ≡ settle_commit c after reserved (append_all c s (batched (values v))).1
    unfolding commit batches
    commit-eq = refl

    -- The commit of a view, made by the loads and appends of one transaction over a JSON that loses
    -- nothing, whatever others wrote between them. When it succeeds, each stream that something was
    -- staged for, where no event had a version past the stream's, was still at the version the view
    -- first met it at, and a load of it from any version then answers what the view answered at the
    -- commit.
    pub commit-load :
        commit c s v reserved ≡ (t, ok tt)
        → (stream : StreamIdentity) (staged : StagedStream P M) (from : ℕ)
        → get v (stream_id stream) ≡ some staged
        → is_staged staged ≡ true
        → IsNumbered (stream_of s (stream_id stream))
        → (length (stream_of s (stream_id stream)) ≡ staged.base)
          × (load c t stream from ≡ (StagedEvents.load (memory_base c) s v stream from).1)
    commit-load h stream staged from there yes_staged numbering =
        let (rs, done, e) =
          settle-ok after t reserved (append_all c s (batched (values v))).1 (sym commit-eq ∙ h) in
        let (counted, behind) = committed-stream rs stream staged done there yes_staged in
        (
          counted,
          load-streams t after stream from (ap (λ x. x.streams) e ∙ release-streams after [])
              ∙ load-loaded after stream from
              ∙ shown s after staged stream from behind counted numbering
              ∙ sym (view-load stream staged from there),
        )

    -- When the commit of such a view throws, every load of every stream answers what it did before.
    pub load-commit_failed :
        (e : Failure)
        → commit c s v reserved ≡ (t, err e)
        → (stream : StreamIdentity) (from : ℕ) → load c t stream from ≡ load c s stream from
    load-commit_failed e h stream from =
        let (threw, back) =
          settle-err after t reserved (append_all c s (batched (values v))).1 e
            (sym commit-eq ∙ h) in
        load-streams t s stream from (
          ap (λ x. x.streams) back
          ∙ release-streams after reserved
          ∙ ap (λ x. x.streams) (together (err e) threw))
