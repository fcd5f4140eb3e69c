-- ===== src/Memory/InboxLedger.antt =====
-- memory/inbox-ledger.ts: the claims of handlers on events. Times are milliseconds.
pub mod Claims
pub mod Success
mod Tests
use Prim.Native.String.{◌++◌ as text_append}
use bounda.Prelude.{ℕ, zero, suc, ◌+◌, String, Bool, true, false, Option, none, some, List, [], ◌∷◌}
use bounda.Prelude.Tests.{ltb, if◌then◌else◌, ◌==◌, string_eq}
use bounda.Prelude.Dict.{Dict, get, set}
use bounda.Contracts.Errors.{runtime_error, claim_lost, Result, ok, err, ◌>>=◌}

pub data ClaimStatus : Type 0 where
  pending succeeded failed : ClaimStatus

pub record ClaimKey : Type 0 where
  pub handler : String
  pub event_id : String

pub record ClaimRecord : Type 0 where
  pub key : ClaimKey
  pub status : ClaimStatus
  pub attempts : ℕ
  pub claimed_at : ℕ
  pub claim_id : Option String
  pub last_error : Option String

abbrev pub Store : Type 0
Store = Dict String ClaimRecord

unfoldable pub key_of : ClaimKey → String
key_of k = text_append k.handler (text_append "\0" k.event_id)

unfoldable pub lost {ℓ} : {A : Type ℓ} → ClaimKey → Result A
lost k = err (runtime_error (claim_lost k.handler k.event_id))

unfoldable pub holds : Option ClaimRecord → String → Bool
holds none claim_id = false
holds (some r) claim_id = elim r.claim_id [ none ↦ false | some id ↦ id == claim_id ]

-- What settles a claim may leave the claim's id out.
unfoldable pub held : Store → ClaimKey → Option String → Result (Option ClaimRecord)
unfolding lost holds
held s k none = ok (get s (key_of k))
held s k (some claim_id) =
    if holds (get s (key_of k)) claim_id then ok (get s (key_of k)) else lost k

unfoldable pub is_claimable : Option ClaimRecord → ℕ → ℕ → Bool
is_claimable none now lease_ms = true
is_claimable (some r) now lease_ms = elim r.status [
  | pending ↦ ltb (r.claimed_at + lease_ms) now
  | succeeded ↦ false
  | failed ↦ true
]

abbrev pub attempts_in : Option ClaimRecord → ℕ
attempts_in none = 0
attempts_in (some r) = r.attempts

abbrev error_in : Option ClaimRecord → Option String
error_in none = none
error_in (some r) = r.last_error

unfoldable pub pending_claim : ClaimKey → Option ClaimRecord → ℕ → String → ClaimRecord
pending_claim k existing now uuid = record {
  key = k;
  status = pending;
  attempts = attempts_in existing + 1;
  claimed_at = now;
  claim_id = some uuid;
  last_error = error_in existing;
}

-- `uuid` is what `randomUUID()` answers.
unfoldable pub try_claim : Store → ClaimKey → ℕ → ℕ → String → Store × Option String
unfolding is_claimable pending_claim
try_claim s k now lease_ms uuid =
    let existing = get s (key_of k) in
    if is_claimable existing now lease_ms
    then (set s (key_of k) (pending_claim k existing now uuid), some uuid)
    else (s, none)

unfoldable pub put_if_there :
    Store → ClaimKey → Option ClaimRecord → (ClaimRecord → ClaimRecord) → Store
put_if_there s k none f = s
put_if_there s k (some r) f = set s (key_of k) (f r)

unfoldable pub complete : Store → ClaimKey → Option String → Result Store
unfolding held put_if_there
complete s k claim_id = do
  existing ← held s k claim_id
  ok (put_if_there s k existing (λ r. record r { status = succeeded }))

unfoldable pub fail : Store → ClaimKey → Option String → String → Result Store
unfolding held put_if_there
fail s k claim_id error = do
  existing ← held s k claim_id
  ok (put_if_there s k existing (λ r. record r { status = failed; last_error = some error }))

unfoldable pub renew : Store → ClaimKey → String → ℕ → Result Store
unfolding holds lost put_if_there
renew s k claim_id now =
    let existing = get s (key_of k) in
    if holds existing claim_id
    then ok (put_if_there s k existing (λ r. record r { claimed_at = now }))
    else lost k

unfoldable pub get_claim : Store → ClaimKey → Option ClaimRecord
get_claim s k = get s (key_of k)
