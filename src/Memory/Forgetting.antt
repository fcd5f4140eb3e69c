-- ===== src/Memory/Forgetting.antt =====
-- memory/personal-key-store.ts with memory/snapshot-store.ts and memory/idempotency-store.ts, which
-- keep personal data in the clear only for people who hold the key it was read under: the three
-- first calls of kernel/personal-data/forget.ts on them, and the calls others make meanwhile.
pub mod ForGood
mod Tests
use text.Mathlib.TextEquality.{eq_iff}
use bounda.Prelude.{
  subst, ◌⊎◌, ℕ, ◌≡◌, ◌≢◌, refl, ap, sym, ◌∙◌, String, Bool, true, false, ◌&&◌, ◌||◌, not, Option,
  none, some, List, [], ◌∷◌, arith, inl, inr,
}
use bounda.Prelude.Tests.{if◌then◌else◌, ◌==◌, string_eq, Bool-cases, Option-cases, if_both}
use bounda.Prelude.Lists.{any, every}
use bounda.Prelude.Dict.{
  Dict, get, set, delete, get-set, get-delete, delete_where, delete_where-some,
}
use bounda.Contracts.Errors.{Result, ok, err}
use bounda.Contracts.Events.{KeyedPerson, StreamIdentity, stream_id}
use bounda.Memory.PersonalKeys
use bounda.Memory.PersonalKeys.{StoredPersonalKey, RewrappedKey, holds, same_kid}
use bounda.Memory.Snapshots
use bounda.Memory.Snapshots.{Snapshot}
use bounda.Memory.Idempotency
use bounda.Memory.Idempotency.Lifetime.{purge_each-eq-delete_each}
use bounda.Memory.Idempotency.{IdempotencyRecord}

pub record Stores (O : Type 0) : Type 0 where
  pub keys : PersonalKeys.Store
  pub snapshots : Snapshots.Store
  pub records : Idempotency.Store O

module _ {O : Type 0} where
  unfoldable pub remove_key : Stores O → String → Stores O
  remove_key s person = record s { keys = (PersonalKeys.remove s.keys person).0 }

  unfoldable pub forget_snapshots : Stores O → String → Stores O
  forget_snapshots s person = record s { snapshots = Snapshots.forget s.snapshots person }

  unfoldable pub forget_records : Stores O → String → Stores O
  forget_records s person = record s { records = Idempotency.forget s.records person }

module _ {O : Type 0} (outcome_copy : O → O) (person fingerprint : String) where
  -- A call on the three stores, by anyone. None adds a key of this fingerprint for the person: a key
  -- made anew has a fingerprint of its own.
  pub data Step (s : Stores O) : Stores O → Type 0 where
    adds :
        (p : String) (key : StoredPersonalKey)
        → ((p == person) ≡ true → key.fingerprint ≢ fingerprint)
        → Step s (record s { keys = (PersonalKeys.add s.keys p key).0 })
    removes : (p : String) → Step s (record s { keys = (PersonalKeys.remove s.keys p).0 })
    rewraps :
        (p : String) (from : StoredPersonalKey) (to : RewrappedKey)
        → Step s (record s { keys = (PersonalKeys.rewrap s.keys p from to).0 })
    puts_snapshot :
        (snapshot : Snapshot)
        → Step s (record s { snapshots = Snapshots.put s.snapshots snapshot (holds s.keys) })
    removes_snapshot :
        (stream : StreamIdentity)
        → Step s (record s { snapshots = Snapshots.remove s.snapshots stream })
    forgets_snapshots :
        (p : String) → Step s (record s { snapshots = Snapshots.forget s.snapshots p })
    puts_record :
        (r : IdempotencyRecord O) (now : ℕ) (records : Idempotency.Store O)
        → Idempotency.put outcome_copy s.records r now (holds s.keys) ≡ ok records
        → Step s (record s { records = records })
    purges : (now : ℕ) → Step s (record s { records = (Idempotency.purge s.records now).0 })
    forgets_records : (p : String) → Step s (record s { records = Idempotency.forget s.records p })

  pub data Reach (s : Stores O) : Stores O → Type 0 where
    here : Reach s s
    next : {t u : Stores O} → Reach s t → Step t u → Reach s u
