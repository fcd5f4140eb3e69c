-- ===== src/Memory/Idempotency.antt =====
-- memory/idempotency-store.ts: what a dispatch answered, under its key. Times are milliseconds.
-- `outcome_copy` is `jsonCopy` on an outcome; `holds` is whether a person holds the key a record names.
pub mod Lifetime
mod Tests
use bounda.Prelude.{ℕ, ◌+◌, String, Bool, true, false, Option, none, some, List, [], ◌∷◌}
use bounda.Prelude.Tests.{leb, if◌then◌else◌, ◌==◌, string_eq}
use bounda.Prelude.Lists.{any, every}
use bounda.Prelude.Dict.{Dict, get, set, delete, delete_where}
use bounda.Contracts.Errors.{runtime_error, idempotency_key_taken, Result, ok, err}
use bounda.Contracts.Events.{KeyedPerson}

pub record IdempotencyRecord (O : Type 0) : Type 0 where
  pub key : String
  pub fingerprint : String
  pub outcome : O
  pub expires_at : ℕ
  pub persons : List KeyedPerson

abbrev pub Store : Type 0 → Type 0
Store O = Dict String (IdempotencyRecord O)

module _ {O : Type 0} where
  unfoldable pub expired : IdempotencyRecord O → ℕ → Bool
  expired r now = leb r.expires_at now

  -- The loop of `purge`, over the entries left to visit.
  unfoldable pub purge_each : ℕ → Store O → List (String × IdempotencyRecord O) → Store O × ℕ
  unfolding expired
  purge_each now s [] = (s, 0)
  purge_each now s ((key, r) ∷ left) =
      let (s', purged) = purge_each now (if expired r now then delete s key else s) left in
      (s', if expired r now then purged + 1 else purged)

  unfoldable pub purge : Store O → ℕ → Store O × ℕ
  unfolding purge_each
  purge s now = purge_each now s s

  unfoldable pub names : String → IdempotencyRecord O → Bool
  names person r = any (λ held. held.person == person) r.persons

  unfoldable pub forget : Store O → String → Store O
  unfolding names
  forget s person = delete_where (names person) s

module _ {O : Type 0} (outcome_copy : O → O) where
  unfoldable pub copy : IdempotencyRecord O → IdempotencyRecord O
  copy r = record r { outcome = outcome_copy r.outcome }

  -- A record expired by now is as good as gone.
  unfoldable pub live : Option (IdempotencyRecord O) → ℕ → Option (IdempotencyRecord O)
  unfolding expired
  live none now = none
  live (some r) now = if expired r now then none else some r

  unfoldable pub copied : Option (IdempotencyRecord O) → Option (IdempotencyRecord O)
  unfolding copy
  copied none = none
  copied (some r) = some (copy r)

  unfoldable pub get_record : Store O → String → ℕ → Option (IdempotencyRecord O)
  unfolding live copied
  get_record s key now = copied (live (get s key) now)

  unfoldable pub put : Store O → IdempotencyRecord O → ℕ → (KeyedPerson → Bool) → Result (Store O)
  unfolding live copy
  put s r now holds = elim (live (get s r.key) now) [
    | some existing ↦ err (runtime_error (idempotency_key_taken r.key))
    | none ↦ ok (if every holds r.persons then set s r.key (copy r) else s)
  ]
