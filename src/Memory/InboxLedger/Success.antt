-- ===== src/Memory/InboxLedger/Success.antt =====
-- memory/inbox-ledger.ts: what completing a claim by its id leaves.
use bounda.Prelude.{◌≡◌, Bool, refl, subst, String, true, false, Option, none, some, arith}
use bounda.Prelude.Tests.{if◌then◌else◌, string_eq}
use bounda.Prelude.Dict.{get, get-set}
use bounda.Contracts.Errors.{ok, ◌>>=◌, ok-injective}
use bounda.Memory.InboxLedger.{
  Store, ClaimKey, ClaimRecord, succeeded, key_of, holds, held, lost, put_if_there, complete,
  get_claim,
}
use text.Mathlib.TextEquality.{eq_iff}

-- The claim under the key has succeeded.
unfoldable pub Succeeded : Store → ClaimKey → Type 0
Succeeded s k = (r : ClaimRecord) × (get_claim s k ≡ some r) × (r.status ≡ succeeded)

put_succeeded :
    (s : Store) (k : ClaimKey) (o : Option ClaimRecord) (claim_id : String)
    → holds o claim_id ≡ true
    → Succeeded (put_if_there s k o (λ r. record r { status = succeeded })) k
unfolding Succeeded put_if_there holds get_claim
put_succeeded s k none claim_id h = cc
put_succeeded s k (some r) claim_id h = (
  record r { status = succeeded },
  ground (
    arith,
    get-set s (key_of k) (record r { status = succeeded }) (key_of k),
    eq_iff (key_of k) (key_of k),
  ),
  refl,
)

settled-Succeeded :
    (s s' : Store) (k : ClaimKey) (claim_id : String) (b : Bool)
    → holds (get s (key_of k)) claim_id ≡ b
    → ((if b then ok (get s (key_of k)) else lost k)
        >>= (λ existing. ok (put_if_there s k existing (λ r. record r { status = succeeded }))))
      ≡ ok s'
    → Succeeded s' k
unfolding lost
settled-Succeeded s s' k claim_id true mine h =
    subst (λ t. Succeeded t k) (ok-injective h) (put_succeeded s k (get s (key_of k)) claim_id mine)
settled-Succeeded s s' k claim_id false other h = cc

pub complete-Succeeded :
    (s s' : Store) (k : ClaimKey) (claim_id : String)
    → complete s k (some claim_id) ≡ ok s'
    → Succeeded s' k
unfolding complete held
complete-Succeeded s s' k claim_id h =
    settled-Succeeded s s' k claim_id (holds (get s (key_of k)) claim_id) refl h
