-- ===== src/Kernel/Retry.antt =====
-- kernel/shared/retry.ts: which failures are retried, how long after, and what is kept of them.
-- Attempts count from 1, and delays are exact milliseconds: the code's doubles differ from them only
-- where they exceed `maxDelayMs`.
pub mod Delays
mod Tests
use Prim.Native.String.{◌++◌ as text_append}
use bounda.Prelude.{
  ℕ, ◌-◌, ◌*◌, ◌^◌, String, Bool, true, false, Option, none, some, List, [], ◌∷◌, min,
}
use bounda.Prelude.Tests.{if◌then◌else◌, string_eq}
use bounda.Prelude.Lists.{contains}
use bounda.Contracts.Errors.{Failure, runtime_error, error, value, code, class_name}

pub data FailureKind : Type 0 where
  terminal : FailureKind
  retriable : FailureKind

pub data RetryStrategy : Type 0 where
  never : RetryStrategy
  fixed : RetryStrategy
  linear : RetryStrategy
  exponential : RetryStrategy

pub record ResolvedRetryConfig : Type 0 where
  pub strategy : RetryStrategy
  pub max_attempts : ℕ
  pub base_delay_ms : ℕ
  pub max_delay_ms : ℕ

abbrev pub terminal_codes : List String
terminal_codes =
    "DOMAIN_ERROR" ∷ "FOREIGN_REJECTION" ∷ "VALIDATION_FAILED" ∷ "INVALID_CONFIGURATION"
    ∷ "NOT_FOUND" ∷ "CHAIN_DEPTH_EXCEEDED" ∷ "CREATION_ORDER" ∷ "IDEMPOTENCY_KEY_CONFLICT"
    ∷ "PROCESSING_RESTRICTED" ∷ []

unfoldable pub classify_failure : Failure → FailureKind
classify_failure (runtime_error e) =
    if contains (code e) terminal_codes then terminal else retriable
classify_failure (error name) = retriable
classify_failure (value type) = retriable

unfoldable pub raw_delay_ms : ResolvedRetryConfig → ℕ → RetryStrategy → ℕ
raw_delay_ms retry attempt never = 0
raw_delay_ms retry attempt fixed = retry.base_delay_ms
raw_delay_ms retry attempt linear = retry.base_delay_ms * attempt
raw_delay_ms retry attempt exponential = retry.base_delay_ms * 2 ^ (attempt - 1)

unfoldable pub retry_delay_ms : ResolvedRetryConfig → ℕ → ℕ
unfolding raw_delay_ms
retry_delay_ms retry attempt = min (raw_delay_ms retry attempt retry.strategy) retry.max_delay_ms

pub record ErrorIdentity : Type 0 where
  pub error_name : String
  pub error_code : Option String

unfoldable pub error_identity : Failure → ErrorIdentity
error_identity (runtime_error e) = record { error_name = class_name e; error_code = some (code e) }
error_identity (error name) = record { error_name = name; error_code = none }
error_identity (value type) = record { error_name = type; error_code = none }

unfoldable pub error_label : ErrorIdentity → String
error_label identity = elim identity.error_code [
  | none ↦ identity.error_name
  | some error_code ↦
      text_append identity.error_name (text_append " (" (text_append error_code ")"))
]
