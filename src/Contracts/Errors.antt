-- ===== src/Contracts/Errors.antt =====
-- contracts/errors.ts: the errors the runtime throws, each with its stable code, and the result of
-- an operation that may throw. `subclass` is a class that another file derives, by its name and code.
-- Messages that are fixed by the other fields are left out.
use bounda.Prelude.{ℕ, ◌≡◌, refl, ap, String, Option}

pub data BoundaError : Type 0 where
  domain : String → String → BoundaError
  concurrency : String → ℕ → ℕ → BoundaError
  validation : String → BoundaError
  idempotency_key_conflict : String → String → BoundaError
  idempotency_key_taken : String → BoundaError
  claim_lost : String → String → BoundaError
  dead_letter_settled : String → Option String → BoundaError
  dead_letter_not_retriable : String → BoundaError
  scheduled_claim_lost : String → BoundaError
  processing_restricted : String → BoundaError
  not_found : String → BoundaError
  configuration : String → BoundaError
  creation_order : String → BoundaError
  chain_depth_exceeded : ℕ → ℕ → BoundaError
  snapshot_failed : String → BoundaError
  rebuild_superseded : String → BoundaError
  subclass : String → String → BoundaError

unfoldable pub code : BoundaError → String
code (domain rejected message) = "DOMAIN_ERROR"
code (concurrency stream expected actual) = "CONCURRENCY_CONFLICT"
code (validation message) = "VALIDATION_FAILED"
code (idempotency_key_conflict key type) = "IDEMPOTENCY_KEY_CONFLICT"
code (idempotency_key_taken key) = "IDEMPOTENCY_KEY_TAKEN"
code (claim_lost handler event) = "CLAIM_LOST"
code (dead_letter_settled id status) = "DEAD_LETTER_SETTLED"
code (dead_letter_not_retriable message) = "DEAD_LETTER_NOT_RETRIABLE"
code (scheduled_claim_lost key) = "SCHEDULED_CLAIM_LOST"
code (processing_restricted person) = "PROCESSING_RESTRICTED"
code (not_found message) = "NOT_FOUND"
code (configuration message) = "INVALID_CONFIGURATION"
code (creation_order message) = "CREATION_ORDER"
code (chain_depth_exceeded depth max_depth) = "CHAIN_DEPTH_EXCEEDED"
code (snapshot_failed message) = "SNAPSHOT_FAILED"
code (rebuild_superseded model) = "REBUILD_SUPERSEDED"
code (subclass name code_text) = code_text

-- The class names, which the constructors set as `name`.
unfoldable pub class_name : BoundaError → String
class_name (domain rejected message) = "DomainError"
class_name (concurrency stream expected actual) = "ConcurrencyError"
class_name (validation message) = "ValidationError"
class_name (idempotency_key_conflict key type) = "IdempotencyKeyConflictError"
class_name (idempotency_key_taken key) = "IdempotencyKeyTakenError"
class_name (claim_lost handler event) = "ClaimLostError"
class_name (dead_letter_settled id status) = "DeadLetterSettledError"
class_name (dead_letter_not_retriable message) = "DeadLetterNotRetriableError"
class_name (scheduled_claim_lost key) = "ScheduledClaimLostError"
class_name (processing_restricted person) = "ProcessingRestrictedError"
class_name (not_found message) = "NotFoundError"
class_name (configuration message) = "ConfigurationError"
class_name (creation_order message) = "CreationOrderError"
class_name (chain_depth_exceeded depth max_depth) = "ChainDepthExceededError"
class_name (snapshot_failed message) = "SnapshotError"
class_name (rebuild_superseded model) = "RebuildSupersededError"
class_name (subclass name code_text) = name

-- What JavaScript throws: an error of the runtime, any other `Error` by the name it is known by,
-- or a value that is no error, by its `typeof`.
pub data Failure : Type 0 where
  runtime_error : BoundaError → Failure
  error : String → Failure
  value : String → Failure

pub data Result {ℓ} (A : Type ℓ) : Type ℓ where
  ok : A → Result A
  err : Failure → Result A

infixl 5 ◌>>=◌ ◌>>◌
abbrev pub ◌>>=◌ {ℓ κ} : {T : Type ℓ} {U : Type κ} → Result T → (T → Result U) → Result U
ok answer >>= next = next answer
err failure >>= next = err failure

abbrev pub ◌>>◌ {ℓ} : {B : Type ℓ} → Result (Unit {0}) → Result B → Result B
first >> second = first >>= λ _. second

pub bind-eq-ok {ℓ κ} :
    {A : Type ℓ} {B : Type κ} (first : Result A) (next : A → Result B) {answer : B}
    → (first >>= next) ≡ ok answer
    → (a : A) × (first ≡ ok a) × (next a ≡ ok answer)
bind-eq-ok (ok a) next h = (a, refl, h)
bind-eq-ok (err failure) next h = cc

abbrev value_or {ℓ} : {A : Type ℓ} → A → Result A → A
value_or d (ok a) = a
value_or d (err e) = d

pub ok-injective {ℓ} : {A : Type ℓ} {a b : A} → ok a ≡ ok b → a ≡ b
ok-injective {a} h = ap (value_or a) h
