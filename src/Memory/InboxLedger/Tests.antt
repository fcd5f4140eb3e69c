-- ===== src/Memory/InboxLedger/Tests.antt =====
-- Runs of memory/inbox-ledger.ts on small inputs.
use text.Mathlib.TextEquality.{eq_iff}
use bounda.Prelude.{◌+◌, ◌≡◌, refl, ◌↔◌, none, some, List, [], ◌∷◌, arith}
use bounda.Prelude.Tests.{string_eq}
use bounda.Prelude.Dict.{get, set}
use bounda.Contracts.Errors.{err, runtime_error, claim_lost}
use bounda.Memory.InboxLedger.{Store, ClaimKey, key_of, try_claim, complete, fail, renew}
use bounda.Memory.InboxLedger.Claims.{
  MayClaim, try_claim_iff, try_claim-exclusive, superseded_claims_are_lost, renews, Call, claims,
  completes, fails, run, grants, attempts_of, attempts-run,
}

abbrev notify : ClaimKey
notify = record { handler = "order.notify"; event_id = "e1" }

abbrev claimed : Store
claimed = (try_claim [] notify 5 10 "first").0

try_claim_iff_sample :
    ((try_claim claimed notify 16 10 "second").1 ≡ some "second") ↔ MayClaim claimed notify 16 10
try_claim_iff_sample = try_claim_iff claimed notify 16 10 "second"

-- The runner renews its claim, others ask in vain, and it completes.
abbrev meanwhile : List Call
meanwhile =
    renews notify "first" 9 ∷ claims notify 14 10 "early" ∷ completes notify (some "first") ∷ []

try_claim-exclusive_example :
    try_claim (run claimed meanwhile) notify 15 10 "second" ≡ (run claimed meanwhile, none)
unfolding try_claim get key_of
try_claim-exclusive_example =
    try_claim-exclusive [] notify 5 15 10 10 "first" "second" meanwhile refl
      ((λ same. omega arith), ((λ same. omega arith), (tt, tt))) (omega arith)

abbrev calls : List Call
calls =
    claims notify 5 10 "a"
    ∷ fails notify (some "a") "boom"
    ∷ claims notify 6 10 "b"
    ∷ completes notify none
    ∷ []

attempts-run_example :
    attempts_of (run [] calls) notify ≡ attempts_of [] notify + grants [] notify calls
attempts-run_example = attempts-run [] notify calls

two_attempts : attempts_of (run [] calls) notify ≡ 2
unfolding run try_claim fail complete get set key_of
two_attempts = refl

superseded_claims_are_lost_example :
    let refused = runtime_error (claim_lost "order.notify" "e1") in
    (complete claimed notify (some "other") ≡ err refused)
    × (fail claimed notify (some "other") "late" ≡ err refused)
    × (renew claimed notify "other" 7 ≡ err refused)
unfolding try_claim get set key_of
superseded_claims_are_lost_example =
    superseded_claims_are_lost [] notify 5 10 7 "first" "other" "late" refl
      (λ same. ground (arith, eq_iff "first" "other"))
