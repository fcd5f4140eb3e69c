-- ===== src/Contracts/Events.antt =====
-- contracts/event.ts, contracts/metadata.ts and the arguments of adapter/storage/event-store.ts.
-- `P` is the type of payloads and `M` that of metadata: the live ones, or the JSON texts a store
-- keeps.
use Prim.Native.String.{◌++◌ as text_append}
use text.Mathlib.TextEquality.{eq_iff}
use bounda.Prelude.{ℕ, ◌≡◌, ◌↔◌, ◌&&◌, String, Bool, true, false, Option, none, some, List, arith}
use bounda.Prelude.Tests.{Strict, ◌==◌, string_eq}
use bounda.Prelude.Lists.{any}

pub record EventMetadata : Type 0 where
  pub correlation_id : String
  pub causation_id : String
  pub command_id : Option String
  pub actor : Option String
  pub depth : ℕ
  pub schema_version : ℕ
  pub system : Bool

pub record StreamIdentity : Type 0 where
  pub aggregate_type : String
  pub aggregate_id : String

-- `PendingEvent` has no position; an event of the store has one, so the position is apart.
pub record PendingEvent (P M : Type 0) : Type 0 where
  pub id : String
  pub aggregate_type : String
  pub aggregate_id : String
  pub version : ℕ
  pub type : String
  pub payload : P
  pub timestamp : String
  pub metadata : M
  pub person : Option String

pub record StoredEvent (P M : Type 0) : Type 0 where
  pub event : PendingEvent P M
  pub open event use *
  pub position : ℕ

unfoldable pub stream_id : StreamIdentity → String
stream_id s = text_append s.aggregate_type (text_append ":" s.aggregate_id)

-- A person and the key their data was read under.
pub record KeyedPerson : Type 0 where
  pub person : String
  pub fingerprint : Option String

abbrev pub same_fingerprint : Option String → Option String → Bool
same_fingerprint none none = true
same_fingerprint none (some b) = false
same_fingerprint (some a) none = false
same_fingerprint (some a) (some b) = a == b

-- Equality of the texts of `keyedPersonId`, the JSON of the pair.
abbrev pub same_keyed_person : KeyedPerson → KeyedPerson → Bool
same_keyed_person a b = a.person == b.person && same_fingerprint a.fingerprint b.fingerprint

same_fingerprint_iff : (a b : Option String) → (same_fingerprint a b ≡ true) ↔ (a ≡ b)
same_fingerprint_iff none none = ground arith
same_fingerprint_iff none (some b) = ground arith
same_fingerprint_iff (some a) none = ground arith
same_fingerprint_iff (some a) (some b) = ground (arith, eq_iff a b)

pub same_keyed_person_iff : (a b : KeyedPerson) → (same_keyed_person a b ≡ true) ↔ (a ≡ b)
same_keyed_person_iff a b =
    ground (arith, eq_iff a.person b.person, same_fingerprint_iff a.fingerprint b.fingerprint)

instance abbrev pub keyed_person_eq : Strict KeyedPerson
keyed_person_eq = record { same = same_keyed_person; same_iff = same_keyed_person_iff }

-- A row that names the person, under any key.
unfoldable pub names_person : Option (List KeyedPerson) → String → Bool
names_person none person = false
names_person (some held) person = any (λ k. k.person == person) held

pub record AppendArgs (P M : Type 0) : Type 0 where
  pub stream : StreamIdentity
  pub expected_version : ℕ
  pub events : List (PendingEvent P M)
  pub persons : List KeyedPerson

pub record AppendResult (P M : Type 0) : Type 0 where
  pub version : ℕ
  pub events : List (StoredEvent P M)

pub record LoadResult (P M : Type 0) : Type 0 where
  pub events : List (StoredEvent P M)
  pub version : ℕ
