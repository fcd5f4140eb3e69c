-- ===== src/Memory/Idempotency/Tests.antt =====
-- An outcome recorded, asked for, recorded again and purged.
use bounda.Prelude.{ℕ, ◌≡◌, refl, Bool, true, none, some, [], ◌∷◌, arith}
use bounda.Prelude.Tests.{leb, string_eq, if◌then◌else◌}
use bounda.Prelude.Dict.{get, set, unless}
use bounda.Contracts.Errors.{runtime_error, idempotency_key_taken, ok, err}
use bounda.Contracts.Events.{KeyedPerson}
use bounda.Memory.Idempotency.{Store, IdempotencyRecord, copy, get_record, put, purge, expired}
use bounda.Memory.Idempotency.Lifetime.{get-put, put-taken, get-purge, expired_in}

abbrev answered : ℕ → IdempotencyRecord ℕ
answered outcome = record {
  key = "k";
  fingerprint = "c";
  outcome = outcome;
  expires_at = 50;
  persons = record { person = "ada"; fingerprint = none } ∷ [];
}

abbrev same_outcome : ℕ → ℕ
same_outcome o = o

abbrev anyone : KeyedPerson → Bool
anyone held = true

abbrev kept : Store ℕ
kept = ("k", answered 7) ∷ []

put-kept : put same_outcome [] (answered 7) 10 anyone ≡ ok kept
unfolding put get set
put-kept = refl

get-put_sample :
    get_record same_outcome kept "k" 20
    ≡ (if leb 50 20 then none else some (copy same_outcome (copy same_outcome (answered 7))))
get-put_sample = get-put same_outcome [] kept (answered 7) 10 20 anyone put-kept refl

put-taken_sample :
    put same_outcome kept (answered 8) 20 anyone ≡ err (runtime_error (idempotency_key_taken "k"))
put-taken_sample =
    put-taken same_outcome [] kept (answered 7) (answered 8) 10 20 anyone anyone put-kept refl refl
      (omega arith)

get-purge_sample :
    ((purge kept 60).1 ≡ expired_in 60 kept)
    × (get (purge kept 60).0 "k" ≡ unless (λ r. expired r 60) (get kept "k"))
    × (get_record same_outcome (purge kept 60).0 "k" 70 ≡ get_record same_outcome kept "k" 70)
get-purge_sample = get-purge same_outcome kept "k" 60 70 (refl, tt) (omega arith)
