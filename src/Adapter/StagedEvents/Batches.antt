-- ===== src/Adapter/StagedEvents/Batches.antt =====
-- adapter/staged-event-store.ts: every view holds each stream once, under its own id, with positions
-- to append at.
use bounda.Prelude.{
  ℕ, ◌+◌, ◌<◌, ◌≡◌, refl, subst, String, some, List, [], ◌∷◌, ◌++◌, arith, inl, inr,
}
use bounda.Prelude.Tests.{◌==◌, nat_eq, string_eq, Bool-cases, Option-cases}
use bounda.Prelude.Lists.{length, All, All-append}
use bounda.Prelude.Dict.{get, set, get-set, IsKeyed, set-IsKeyed, get-IsKeyed}
use bounda.Contracts.Events.{StreamIdentity, PendingEvent, StoredEvent, AppendArgs, stream_id}
use bounda.Adapter.StagedEvents.{
  Base, IsLawful, StagedStream, Streams, max_safe_integer, created, met, meet, with_positions,
  keep_persons, load, append,
}
use bounda.Adapter.StagedEvents.View.{get-meet}

module _ {P M : Type 0} where
  -- Each stream once, under its own id.
  abbrev pub Keyed : Streams P M → Type 0
  Keyed = IsKeyed (λ staged. stream_id staged.stream)

  abbrev pub Positioned : StagedStream P M → Type 0
  Positioned staged = All (λ e. 0 < e.position) staged.events

  -- What holds of every view.
  pub record IsView (v : Streams P M) : Type 0 where
    pub keyed : Keyed v
    pub positioned :
        (key : String) (staged : StagedStream P M) → get v key ≡ some staged → Positioned staged

  met-stream :
      (v : Streams P M) (stream : StreamIdentity) (n : ℕ)
      → Keyed v
      → stream_id (met v stream n).stream ≡ stream_id stream
  unfolding met created
  met-stream v stream n k = elim (Option-cases (get v (stream_id stream))) [
    | inl new ↦ ground arith
    | inr (old, there) ↦ ground (
      arith,
      get-IsKeyed (λ (st : StagedStream P M). stream_id st.stream) v (stream_id stream) old k there,
    )
  ]

  met-Positioned :
      (v : Streams P M) (stream : StreamIdentity) (n : ℕ) → IsView v → Positioned (met v stream n)
  unfolding met created
  met-Positioned v stream n i = elim (Option-cases (get v (stream_id stream))) [
    | inl new ↦ let e : created stream n ≡ met v stream n = ground arith in subst Positioned e tt
    | inr (old, there) ↦
        let e : old ≡ met v stream n = ground arith in
        subst Positioned e (i.positioned (stream_id stream) old there)
  ]

  meet-Keyed :
      (v : Streams P M) (stream : StreamIdentity) (n : ℕ) → Keyed v → Keyed (meet v stream n)
  unfolding meet created
  meet-Keyed v stream n k = elim (Option-cases (get v (stream_id stream))) [
    | inl new ↦ subst Keyed (ground arith) (
        set-IsKeyed (λ (st : StagedStream P M). stream_id st.stream) v (stream_id stream)
          (created stream n) refl k)
    | inr (old, there) ↦ subst Keyed (ground arith) k
  ]

  set-IsView :
      (v : Streams P M) (stream : StreamIdentity) (staged : StagedStream P M)
      → IsView v
      → stream_id staged.stream ≡ stream_id stream
      → Positioned staged
      → IsView (set v (stream_id stream) staged)
  set-IsView v stream staged i own p = record {
    keyed =
        set-IsKeyed (λ (st : StagedStream P M). stream_id st.stream) v (stream_id stream) staged own
          i.keyed;
    positioned = λ key st there. elim (Bool-cases (stream_id stream == key)) [
      | inl hit ↦
          let e : staged ≡ st = ground (arith, get-set v (stream_id stream) staged key) in
          subst Positioned e p
      | inr miss ↦ i.positioned key st (ground (arith, get-set v (stream_id stream) staged key))
    ];
  }

  meet-IsView :
      (v : Streams P M) (stream : StreamIdentity) (n : ℕ) → IsView v → IsView (meet v stream n)
  meet-IsView v stream n i = record {
    keyed = meet-Keyed v stream n i.keyed;
    positioned = λ key st there. elim (Bool-cases (stream_id stream == key)) [
      | inl hit ↦
          let e : met v stream n ≡ st = ground (arith, get-meet v stream n key) in
          subst Positioned e (met-Positioned v stream n i)
      | inr miss ↦ i.positioned key st (ground (arith, get-meet v stream n key))
    ];
  }

module _ {S P M : Type 0} (b : Base S P M) where
  -- A view, made by the calls of one transaction, at whatever states others left the base store in.
  pub data Views : Streams P M → Type 0 where
    opened : Views []
    loads :
        {v : Streams P M}
        → Views v
        → (s : S) (stream : StreamIdentity) (from : ℕ) → Views (load b s v stream from).0
    appends :
        {v : Streams P M} → Views v → (s : S) (args : AppendArgs P M) → Views (append b s v args).1

  with_positions-pos :
      IsLawful b
      → (s : S) (es : List (PendingEvent P M)) → All (λ e. 0 < e.position) (with_positions b s es).0
  unfolding with_positions
  with_positions-pos l s [] = tt
  with_positions-pos l s (e ∷ es) =
      (l.next_position_pos s, with_positions-pos l (b.next_position s).1 es)

  pub Views-IsView : IsLawful b → {v : Streams P M} → Views v → IsView v
  unfolding load append
  Views-IsView l opened = record {
    keyed = tt;
    positioned = λ key st there. absurd (unfold get in ground arith);
  }
  Views-IsView l (loads {v = v} r s stream from) =
      meet-IsView v stream (b.load s stream from).version (Views-IsView l r)
  Views-IsView l (appends {v = v} r s args) =
      let i : IsView v = Views-IsView l r in
      let n : ℕ = (b.load s args.stream max_safe_integer).version in
      let staged : StagedStream P M = met v args.stream n in
      let more : List (StoredEvent P M) = (with_positions b s args.events).0 in
      let grown : StagedStream P M = record staged {
        events = staged.events ++ more;
        persons = keep_persons staged.persons args.persons;
      } in
      elim (Bool-cases (staged.base + length staged.events == args.expected_version)) [
        | inl accepted ↦ subst IsView (ground arith) (
            set-IsView (meet v args.stream n) args.stream grown (meet-IsView v args.stream n i)
              (met-stream v args.stream n i.keyed)
              (All-append (λ e. 0 < e.position) staged.events more
                (met-Positioned v args.stream n i) (with_positions-pos l s args.events)))
        | inr refused ↦ subst IsView (ground arith) (meet-IsView v args.stream n i)
      ]
