-- ===== src/Memory/DeadLetters.antt =====
-- memory/dead-letter-store.ts: the handler runs that gave up, until an operator settles them.
-- `P` is the type of payloads, which all have a JSON, and `payload_copy` is `jsonCopy` on them; what
-- it does to texts, sealed texts and persons is to copy them, which changes no value. Times are
-- ISO texts, compared as such.
pub mod Settlement
pub mod Listing
mod Tests
use Prim.Native.Nat.{Ordering}
use bounda.Prelude.{
  ℕ, String, Bool, true, false, ◌&&◌, ◌||◌, Option, none, some, List, [], ◌∷◌, map,
}
use bounda.Prelude.Tests.{if◌then◌else◌, ◌==◌, string_eq}
use bounda.Prelude.Lists.{length, keep_if, sort_by, slice}
use bounda.Prelude.Dict.{Dict, get, set, delete, values}
use bounda.Prelude.Removal.{delete_all}
use bounda.Contracts.Errors.{runtime_error, dead_letter_settled, Result, ok, err}
use bounda.Contracts.Events.{KeyedPerson, names_person}
use bounda.Adapter.Order.{text_order, then_by, is_not_after}

pub data DeadLetterKind : Type 0 where
  policy : DeadLetterKind
  process : DeadLetterKind
  scheduled : DeadLetterKind

pub data DeadLetterErrorType : Type 0 where
  terminal : DeadLetterErrorType
  retriable_exhausted : DeadLetterErrorType

pub data DeadLetterStatus : Type 0 where
  failed : DeadLetterStatus
  retried : DeadLetterStatus
  discarded : DeadLetterStatus

-- `PersonalEnvelope`, the whole of a `SealedValue`.
pub record PersonalEnvelope : Type 0 where
  pub person : String
  pub key : String
  pub iv : String
  pub sealed : String

-- `string | SealedValue`.
pub data ErrorText : Type 0 where
  clear : String → ErrorText
  sealed_value : PersonalEnvelope → ErrorText

pub record NewDeadLetter (P : Type 0) : Type 0 where
  pub id : String
  pub kind : DeadLetterKind
  pub handler : String
  pub event_id : String
  pub event_type : String
  pub aggregate_type : String
  pub aggregate_id : String
  pub person : Option String
  pub error_type : DeadLetterErrorType
  pub error_name : String
  pub error_code : Option String
  pub error_message : ErrorText
  pub error_stack : Option ErrorText
  pub attempts : ℕ
  pub first_failed_at : String
  pub last_failed_at : String
  pub payload : Option P
  pub persons : Option (List KeyedPerson)

pub record StoredDeadLetter (P : Type 0) : Type 0 where
  pub letter : NewDeadLetter P
  pub open letter use *
  pub status : DeadLetterStatus

pub record ListDeadLettersArgs : Type 0 where
  pub kind : Option DeadLetterKind
  pub handler : Option String
  pub status : Option DeadLetterStatus
  pub limit : Option ℕ
  pub offset : ℕ

abbrev pub Store : Type 0 → Type 0
Store P = Dict String (StoredDeadLetter P)

abbrev pub same_kind : DeadLetterKind → DeadLetterKind → Bool
same_kind policy policy = true
same_kind process process = true
same_kind scheduled scheduled = true
same_kind _ _ = false

abbrev pub same_status : DeadLetterStatus → DeadLetterStatus → Bool
same_status failed failed = true
same_status retried retried = true
same_status discarded discarded = true
same_status _ _ = false

-- `wanted === undefined || value === wanted`.
abbrev pub wants : {A : Type 0} → (A → A → Bool) → Option A → A → Bool
wants same none value = true
wants same (some wanted) value = same value wanted

-- `value === wanted`, where `value` may be `null` or absent.
abbrev pub is_text : Option String → String → Bool
is_text none wanted = false
is_text (some value) wanted = value == wanted

abbrev pub everything : ListDeadLettersArgs
everything = record { kind = none; handler = none; status = none; limit = none; offset = 0 }

abbrev pub failed_only : ListDeadLettersArgs
failed_only = record { kind = none; handler = none; status = some failed; limit = none; offset = 0 }

module _ {P : Type 0} where
  unfoldable pub matches : StoredDeadLetter P → ListDeadLettersArgs → Bool
  matches letter args =
      wants same_kind args.kind letter.kind
      && wants (λ a b. a == b) args.handler letter.handler
      && wants same_status args.status letter.status

  -- The sign of `byFirstFailure`.
  unfoldable pub by_first_failure : StoredDeadLetter P → StoredDeadLetter P → Ordering
  by_first_failure a b =
      then_by (text_order a.first_failed_at b.first_failed_at) (text_order a.id b.id)

  abbrev pub not_after : StoredDeadLetter P → StoredDeadLetter P → Bool
  not_after a b = is_not_after (by_first_failure a b)

  unfoldable pub select : Store P → ListDeadLettersArgs → List (StoredDeadLetter P)
  unfolding matches by_first_failure
  select s args = sort_by not_after (keep_if (λ letter. matches letter args) (values s))

  unfoldable pub count : Store P → ListDeadLettersArgs → ℕ
  unfolding select
  count s args = length (select s args)

  unfoldable pub update_status : Store P → String → DeadLetterStatus → Result (Store P)
  update_status s id status = elim (get s id) [
    | none ↦ err (runtime_error (dead_letter_settled id none))
    | some existing ↦
        if same_status existing.status failed
        then ok (set s id (record existing { status = status }))
        else err (runtime_error (dead_letter_settled id none))
  ]

  unfoldable pub remove : Store P → String → Store P
  remove s id = delete s id

  unfoldable pub naming : Store P → String → List (StoredDeadLetter P)
  unfolding by_first_failure
  naming s person = keep_if (λ letter. names_person letter.persons person) (select s everything)

module _ {P : Type 0} (payload_copy : P → P) where
  copied_payload : Option P → Option P
  copied_payload none = none
  copied_payload (some payload) = some (payload_copy payload)

  -- An empty list of persons is dropped.
  copied_persons : Option (List KeyedPerson) → Option (List KeyedPerson)
  copied_persons none = none
  copied_persons (some []) = none
  copied_persons (some (held ∷ persons)) = some (held ∷ persons)

  unfoldable pub copy : StoredDeadLetter P → StoredDeadLetter P
  unfolding copied_payload copied_persons
  copy letter = record letter {
    letter = record letter.letter {
      payload = copied_payload letter.payload;
      persons = copied_persons letter.persons;
    };
  }

  -- The store and the letter that `add` answers.
  unfoldable pub add : Store P → NewDeadLetter P → Store P × StoredDeadLetter P
  unfolding copy
  add s letter = elim (get s letter.id) [
    | some existing ↦ (s, copy existing)
    | none ↦
        let stored = copy (record { letter = letter; status = failed }) in
        (set s letter.id stored, copy stored)
  ]

  copied : Option (StoredDeadLetter P) → Option (StoredDeadLetter P)
  unfolding copy
  copied none = none
  copied (some letter) = some (copy letter)

  unfoldable pub get_letter : Store P → String → Option (StoredDeadLetter P)
  unfolding copied
  get_letter s id = copied (get s id)

  unfoldable pub list : Store P → ListDeadLettersArgs → List (StoredDeadLetter P)
  unfolding select copy
  list s args = map copy (slice args.offset args.limit (select s args))

  unfoldable pub list_failed : Store P → String → String → List (StoredDeadLetter P)
  unfolding select copy
  list_failed s person error_code = map copy (
      keep_if (λ letter. is_text letter.person person && is_text letter.error_code error_code)
        (select s failed_only))

  unfoldable pub list_by_person : Store P → String → List (StoredDeadLetter P)
  unfolding select copy
  list_by_person s person = map copy (
      keep_if (λ letter. is_text letter.person person || names_person letter.persons person)
        (select s everything))

  unfoldable pub forget : Store P → String → Store P × List (StoredDeadLetter P)
  unfolding naming copy
  forget s person =
      (delete_all (λ letter. letter.id) s (naming s person), map copy (naming s person))
