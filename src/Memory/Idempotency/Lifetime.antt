-- ===== src/Memory/Idempotency/Lifetime.antt =====
-- memory/idempotency-store.ts: one outcome for a key while it lives, and what `purge` and `forget` take.
use text.Mathlib.TextEquality.{eq_iff}
use bounda.Prelude.{
  ℕ, ◌+◌, ◌≤◌, ◌<◌, ◌≡◌, refl, ap, ◌∙◌, String, Bool, true, none, some, List, [], ◌∷◌, arith, inl,
  inr,
}
use bounda.Prelude.Tests.{leb, if◌then◌else◌, string_eq, Option-cases}
use bounda.Prelude.Lists.{every}
use bounda.Prelude.Dict.{get, delete, get-set, delete_each, get-delete_where, unless, Unique}
use bounda.Contracts.Errors.{runtime_error, idempotency_key_taken, ok, err}
use bounda.Contracts.Events.{KeyedPerson}
use bounda.Memory.Idempotency.{
  Store, IdempotencyRecord, expired, live, copy, copied, get_record, put, purge_each, purge,
}

module _ {O : Type 0} (outcome_copy : O → O) where
  stored :
      (s t : Store O) (r : IdempotencyRecord O) (now : ℕ) (holds : KeyedPerson → Bool)
      → put outcome_copy s r now holds ≡ ok t
      → every holds r.persons ≡ true
      → get t r.key ≡ some (copy outcome_copy r)
  unfolding put
  stored s t r now holds h held = elim (Option-cases (live outcome_copy (get s r.key) now)) [
    | inl free ↦ ground (arith, get-set s r.key (copy outcome_copy r) r.key, eq_iff r.key r.key)
    | inr (other, taken) ↦ absurd (ground arith)
  ]

  -- A dispatch that recorded its outcome, for people who hold their keys: until the record expires,
  -- `get` gives the record back, its outcome read through JSON, and from then on nothing.
  pub get-put :
      (s t : Store O) (r : IdempotencyRecord O) (now now' : ℕ) (holds : KeyedPerson → Bool)
      → put outcome_copy s r now holds ≡ ok t
      → every holds r.persons ≡ true
      → get_record outcome_copy t r.key now'
        ≡ (if leb r.expires_at now' then none else some (copy outcome_copy (copy outcome_copy r)))
  unfolding get_record live copied expired copy
  get-put s t r now now' holds h held =
      let there : get t r.key ≡ some (copy outcome_copy r) = stored s t r now holds h held in
      ground (arith, there)

  -- While a recorded outcome lives, another `put` under its key throws `IdempotencyKeyTakenError`.
  pub put-taken :
      (s t : Store O) (r r' : IdempotencyRecord O) (now now' : ℕ)
      (holds holds' : KeyedPerson → Bool)
      → put outcome_copy s r now holds ≡ ok t
      → every holds r.persons ≡ true
      → r'.key ≡ r.key
      → now' < r.expires_at
      → put outcome_copy t r' now' holds' ≡ err (runtime_error (idempotency_key_taken r.key))
  unfolding put live expired copy
  put-taken s t r r' now now' holds holds' h held same early =
      let there : get t r.key ≡ some (copy outcome_copy r) = stored s t r now holds h held in
      ground (arith, there, ap (get t) same)

module _ {O : Type 0} where
  pub purge_each-eq-delete_each :
      (now : ℕ) (s : Store O) (left : List (String × IdempotencyRecord O))
      → (purge_each now s left).0 ≡ delete_each (λ r. expired r now) s left
  unfolding purge_each delete_each
  purge_each-eq-delete_each now s [] = refl
  purge_each-eq-delete_each now s ((k, r) ∷ left) =
      purge_each-eq-delete_each now (if expired r now then delete s k else s) left

  abbrev pub expired_in : ℕ → List (String × IdempotencyRecord O) → ℕ
  expired_in now [] = 0
  expired_in now ((k, r) ∷ left) =
      if expired r now then expired_in now left + 1 else expired_in now left

  purge_each-count :
      (now : ℕ) (s : Store O) (left : List (String × IdempotencyRecord O))
      → (purge_each now s left).1 ≡ expired_in now left
  unfolding purge_each
  purge_each-count now s [] = refl
  purge_each-count now s ((k, r) ∷ left) =
      ground (arith, purge_each-count now (if expired r now then delete s k else s) left)

  -- `purge` takes exactly the records expired by `now` and answers how many they are, so no `get` at
  -- `now` or later is answered otherwise.
  pub get-purge :
      (outcome_copy : O → O) (s : Store O) (key : String) (now now' : ℕ)
      → Unique s
      → now ≤ now'
      → ((purge s now).1 ≡ expired_in now s)
        × (get (purge s now).0 key ≡ unless (λ r. expired r now) (get s key))
        × (get_record outcome_copy (purge s now).0 key now' ≡ get_record outcome_copy s key now')
  unfolding purge
  get-purge outcome_copy s key now now' u later = (
    purge_each-count now s s,
    taken,
    unfold get_record live expired copied copy in ground (arith, taken),
  )
    where
      taken : get (purge s now).0 key ≡ unless (λ r. expired r now) (get s key)
      taken =
          ap (λ m. get m key) (purge_each-eq-delete_each now s s)
          ∙ get-delete_where (λ r. expired r now) s key u
