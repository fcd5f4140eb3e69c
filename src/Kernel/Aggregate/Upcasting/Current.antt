-- ===== src/Kernel/Aggregate/Upcasting/Current.antt =====
-- kernel/aggregate/upcasting.ts: what was upcast is current.
use bounda.Prelude.{
  ℕ, ◌≡◌, refl, ap, sym, ◌∙◌, subst, String, Bool, Option, none, some, List, [], ◌∷◌, arith, inl,
  inr,
}
use bounda.Prelude.Tests.{ltb, if◌then◌else◌, ◌==◌, nat_eq, string_eq, Bool-cases, nat_beq_iff}
use bounda.Prelude.Dict.{Dict}
use bounda.Contracts.Errors.{ok, ◌>>=◌, bind-eq-ok, ok-injective}
use bounda.Kernel.Values.{Value}
use bounda.Kernel.Aggregate.{Event, EventRuntime, AggregateRuntime}
use bounda.Kernel.Aggregate.Upcasting.{
  event_runtime, with_payload, upcast_to, current_under, upcast_event, upcast_all, upcasts_from,
  run_upcasts,
}

module _ {R : Type 0} (show : ℕ → String) (aggregates : Dict String (AggregateRuntime R)) where
  -- The event's code is known and is of its version, or nothing of it is to be read.
  pub IsCurrent : Event → Type 0
  IsCurrent e = upcast_event show aggregates e ≡ ok e

  upcast_to_same :
      (runtime : EventRuntime) (e : Event)
      → e.metadata.schema_version ≡ runtime.schema_version
      → current_under show aggregates (some runtime) e ≡ ok e
  unfolding current_under upcast_to
  upcast_to_same runtime e same = ground arith

  with_payload-IsCurrent :
      (runtime : EventRuntime) (e : Event) (payload : Value)
      → event_runtime show aggregates e ≡ some runtime
      → IsCurrent (with_payload show aggregates e runtime.schema_version payload)
  unfolding IsCurrent upcast_event event_runtime with_payload
  with_payload-IsCurrent runtime e payload known =
      ap
        (λ o.
          current_under show aggregates o
            (with_payload show aggregates e runtime.schema_version payload))
        known
      ∙ upcast_to_same runtime (with_payload show aggregates e runtime.schema_version payload) refl

  known-IsCurrent :
      (runtime : EventRuntime) (e : Event)
      → event_runtime show aggregates e ≡ some runtime
      → e.metadata.schema_version ≡ runtime.schema_version
      → IsCurrent e
  unfolding IsCurrent upcast_event
  known-IsCurrent runtime e known same =
      ap (λ o. current_under show aggregates o e) known ∙ upcast_to_same runtime e same

  upcast_to-IsCurrent :
      (runtime : EventRuntime) (e e' : Event)
      → event_runtime show aggregates e ≡ some runtime
      → upcast_to show aggregates runtime e ≡ ok e'
      → IsCurrent e'
  unfolding upcast_to
  upcast_to-IsCurrent runtime e e' known h =
      let from = e.metadata.schema_version in
      elim (Bool-cases (ltb runtime.schema_version from)) [
        | inl later ↦ cc (rw later at h)
        | inr not_later ↦ elim (Bool-cases (from == runtime.schema_version)) [
          | inl same ↦
              let q : ok e ≡ ok e' = rw (not_later, same) at h in
              subst IsCurrent (ok-injective q)
                (known-IsCurrent runtime e known ((nat_beq_iff from runtime.schema_version).0 same))
          | inr older ↦
              let q : (run_upcasts (upcasts_from from runtime.upcasts) e.payload >>= (λ payload.
                ok (with_payload show aggregates e runtime.schema_version payload)))
                  ≡ ok e' =
                rw (not_later, older) at h in
              let (payload, ran, answer) =
                bind-eq-ok (run_upcasts (upcasts_from from runtime.upcasts) e.payload)
                  (λ payload. ok (with_payload show aggregates e runtime.schema_version payload))
                  q in
              subst IsCurrent (ok-injective answer) (with_payload-IsCurrent runtime e payload known)
        ]
      ]

  current_under-IsCurrent :
      (o : Option EventRuntime) (e e' : Event)
      → event_runtime show aggregates e ≡ o
      → current_under show aggregates o e ≡ ok e'
      → IsCurrent e'
  unfolding current_under IsCurrent upcast_event
  current_under-IsCurrent none e e' known h =
      subst (λ d. current_under show aggregates (event_runtime show aggregates d) d ≡ ok d)
        (ok-injective h) (ap (λ o. current_under show aggregates o e) known)
  current_under-IsCurrent (some runtime) e e' known h = elim (Bool-cases e.metadata.system) [
    | inl system ↦
        let q : ok e ≡ ok e' = sym (chosen system) ∙ h in
        subst IsCurrent (ok-injective q)
          (ap (λ o. current_under show aggregates o e) known ∙ chosen system)
    | inr user ↦
        let q : upcast_to show aggregates runtime e ≡ ok e' = sym (chosen user) ∙ h in
        upcast_to-IsCurrent runtime e e' known q
  ]
    where
      chosen :
          {b : Bool}
          → e.metadata.system ≡ b
          → (if e.metadata.system then ok e else upcast_to show aggregates runtime e)
            ≡ (if b then ok e else upcast_to show aggregates runtime e)
      chosen p = ap (λ b. if b then ok e else upcast_to show aggregates runtime e) p

  upcast_event-IsCurrent : (e e' : Event) → upcast_event show aggregates e ≡ ok e' → IsCurrent e'
  unfolding upcast_event
  upcast_event-IsCurrent e e' h =
      current_under-IsCurrent (event_runtime show aggregates e) e e' refl h

  -- What was upcast is current: upcasting it again succeeds and changes nothing.
  pub upcast_all-idempotent :
      (events current : List Event)
      → upcast_all show aggregates events ≡ ok current
      → upcast_all show aggregates current ≡ ok current
  unfolding upcast_all
  upcast_all-idempotent [] current h =
      subst (λ es. upcast_all show aggregates es ≡ ok es) (ok-injective h) refl
  upcast_all-idempotent (e ∷ es) current h =
      let (d, first, rest) =
        bind-eq-ok (upcast_event show aggregates e)
          (λ d. upcast_all show aggregates es >>= λ ds. ok (d ∷ ds)) h in
      let (ds, others, answer) =
        bind-eq-ok (upcast_all show aggregates es) (λ ds. ok (d ∷ ds)) rest in
      subst (λ es. upcast_all show aggregates es ≡ ok es) (ok-injective answer)
        (head_and_rest d ds (upcast_event-IsCurrent e d first) (upcast_all-idempotent es ds others))
    where
      head_and_rest :
          (d : Event) (ds : List Event)
          → IsCurrent d
          → upcast_all show aggregates ds ≡ ok ds
          → upcast_all show aggregates (d ∷ ds) ≡ ok (d ∷ ds)
      head_and_rest d ds p q = unfold IsCurrent in (rw p (rw q))
