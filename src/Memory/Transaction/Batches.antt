-- ===== src/Memory/Transaction/Batches.antt =====
-- The batches of memory/transaction.ts: each staged stream once, each of its events at its position.
use bounda.Prelude.{
  ◌<◌, ◌≡◌, refl, ap, sym, ◌∙◌, subst, String, Bool, true, false, List, [], ◌∷◌, map, arith, inl,
  inr,
}
use text.Mathlib.TextEquality.{eq_iff}
use bounda.Prelude.Tests.{if◌then◌else◌, ◌==◌, string_eq, Bool-cases}
use bounda.Prelude.Lists.{length-map, All, keep_if, contains}
use bounda.Prelude.Dict.{values, keys, All-values}
use bounda.Contracts.Events.{StoredEvent, stream_id}
use bounda.Adapter.StagedEvents.{StagedStream, Streams, is_staged, batch_of}
use bounda.Adapter.StagedEvents.Batches.{Keyed, IsView}
use bounda.Memory.EventStore.{Batch}
use bounda.Memory.EventStore.Commits.{numbered, key_of, Distinct, HasPositions}
use bounda.Memory.Transaction.{positioned}

module _ {P M : Type 0} where
  abbrev pub batched : List (StagedStream P M) → List (Batch P M)
  batched sts = map positioned (map batch_of (keep_if is_staged sts))

  All-batched :
      (Q : Batch P M → Type 0) (sts : List (StagedStream P M))
      → All (λ st. Q (positioned (batch_of st))) sts
      → All Q (batched sts)
  All-batched Q [] h = tt
  All-batched Q (st ∷ sts) h = elim (Bool-cases (is_staged st)) [
    | inl yes_staged ↦ rw yes_staged (h.0, All-batched Q sts h.1)
    | inr unstaged ↦ rw unstaged (All-batched Q sts h.1)
  ]

  pub All-of_batched :
      (Q : Batch P M → Type 0) (sts : List (StagedStream P M))
      → All Q (batched sts)
      → All (λ st. is_staged st ≡ true → Q (positioned (batch_of st))) sts
  All-of_batched Q [] h = tt
  All-of_batched Q (st ∷ sts) h =
      let with_test = λ (b : Bool). All Q (
        map positioned
          (map batch_of (if b then st ∷ keep_if is_staged sts else keep_if is_staged sts))) in
      elim (Bool-cases (is_staged st)) [
        | inl yes_staged ↦
            let (own, others) = subst with_test yes_staged h in
            (λ e. own, All-of_batched Q sts others)
        | inr unstaged ↦ (λ e. absurd (cc), All-of_batched Q sts (subst with_test unstaged h))
      ]

  absent-apart :
      (k : String) (v : Streams P M)
      → Keyed v
      → contains k (keys v) ≡ false
      → All (λ st. (k == stream_id st.stream) ≡ false) (values v)
  absent-apart k [] i h = tt
  absent-apart k ((j, st) ∷ v) i h = (
    ground (arith, eq_iff k (stream_id st.stream), eq_iff j k),
    absent-apart k v i.2 (ground arith),
  )

  pub batched-Distinct : (v : Streams P M) → Keyed v → Distinct (batched (values v))
  unfolding batch_of
  batched-Distinct [] i = tt
  batched-Distinct ((k, st) ∷ v) i = elim (Bool-cases (is_staged st)) [
    | inl yes_staged ↦ rw yes_staged (
      All-batched (λ other. (stream_id st.stream == key_of other) ≡ false) (values v)
          (absent-apart (stream_id st.stream) v i.2 (ap (λ x. contains x (keys v)) i.0 ∙ i.1)),
      batched-Distinct v i.2,
    )
    | inr unstaged ↦ rw unstaged (batched-Distinct v i.2)
  ]

  positions-pos :
      (es : List (StoredEvent P M))
      → All (λ e. 0 < e.position) es
      → All (λ p. 0 < p) (map (λ e. e.position) es)
  positions-pos [] h = tt
  positions-pos (e ∷ es) h = (h.0, positions-pos es h.1)

  pub batched-HasPositions : (v : Streams P M) → IsView v → All HasPositions (batched (values v))
  unfolding batch_of
  batched-HasPositions v i = All-batched HasPositions (values v) (
      All-values (λ st. stream_id st.stream) (λ st. HasPositions (positioned (batch_of st))) v
        i.keyed
        (λ st there. (
          positions-pos st.events (i.positioned (stream_id st.stream) st there),
          length-map (λ e. e.position) st.events ∙ sym (length-map (λ e. e.event) st.events),
        )))

  pub numbered-own :
      (es : List (StoredEvent P M))
      → numbered (map (λ e. e.event) es) (map (λ e. e.position) es) ≡ es
  numbered-own [] = refl
  numbered-own (e ∷ es) = ap (λ zs. e ∷ zs) (numbered-own es)
