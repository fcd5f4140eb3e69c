-- ===== src/Memory/Forgetting/Tests.antt =====
-- A forget of one person, with a late snapshot and a late outcome of theirs in between.
use bounda.Prelude.{String, ◌≡◌, refl, true, false, ℕ, none, some, [], ◌∷◌}
use bounda.Prelude.Tests.{string_eq}
use bounda.Contracts.Events.{KeyedPerson, stream_id}
use bounda.Prelude.Dict.{get, set, delete, delete_each}
use text.Mathlib.TextEquality.{eq_iff}
use bounda.Memory.Idempotency
use bounda.Memory.Idempotency.{IdempotencyRecord}
use bounda.Memory.PersonalKeys
use bounda.Memory.PersonalKeys.{StoredPersonalKey, holds}
use bounda.Memory.Snapshots
use bounda.Memory.Snapshots.{Snapshot}
use bounda.Memory.Forgetting.{
  Stores, remove_key, forget_snapshots, forget_records, Reach, here, next, puts_snapshot,
  puts_record, adds,
}
use bounda.Memory.Forgetting.ForGood.{forgotten_for_good, Keyless, Unsnapshotted, Unrecorded}

abbrev ada : KeyedPerson
ada = record { person = "ada"; fingerprint = some "f1" }

abbrev key_of_ada : String → StoredPersonalKey
key_of_ada f = record { key = "wrapped"; fingerprint = f; kid = none }

abbrev account : Snapshot
account = record {
  stream = record { aggregate_type = "account"; aggregate_id = "1" };
  version = 3;
  fingerprint = "v1";
  state = "{}";
  persons = ada ∷ [];
}

abbrev answered : IdempotencyRecord ℕ
answered = record { key = "k"; fingerprint = "c"; outcome = 7; expires_at = 50; persons = ada ∷ [] }

abbrev before : Stores ℕ
before = record {
  keys = ("ada", key_of_ada "f1") ∷ [];
  snapshots = ("account:1", account) ∷ [];
  records = ("k", answered) ∷ [];
}

-- A snapshot of hers is offered before the snapshots are forgotten, and after.
abbrev unkeyed : Stores ℕ
unkeyed = record {
  keys = [];
  snapshots = Snapshots.put before.snapshots account (holds []);
  records = before.records;
}

unkeyed-Reach : Reach (λ o. o) "ada" "f1" (remove_key before "ada") unkeyed
unfolding remove_key PersonalKeys.remove delete
unkeyed-Reach = next here (puts_snapshot account)

abbrev unsnapshotted : Stores ℕ
unsnapshotted = record { keys = []; snapshots = []; records = before.records }

unsnapshotted-Reach : Reach (λ o. o) "ada" "f1" (forget_snapshots unkeyed "ada") unsnapshotted
unfolding forget_snapshots Snapshots.forget Snapshots.put delete_each get stream_id holds delete
unsnapshotted-Reach = here

-- She comes back under a new key, and her dispatch is recorded for a person who held the old one.
abbrev returned : Stores ℕ
returned = record { keys = ("ada", key_of_ada "f2") ∷ []; snapshots = []; records = [] }

returned-Reach : Reach (λ o. o) "ada" "f1" (forget_records unsnapshotted "ada") returned
unfolding forget_records Idempotency.forget Idempotency.put PersonalKeys.add get delete_each delete
    holds set
returned-Reach =
    next
      (next here (
        adds "ada" (key_of_ada "f2")
          (λ e same. let x : false ≡ true = (eq_iff "f2" "f1").1 same in cc)))
      (puts_record answered 10 [] refl)

forgotten_for_good_example :
    Keyless "ada" "f1" returned.keys
    × Unsnapshotted "ada" "f1" returned.snapshots
    × Unrecorded "ada" "f1" returned.records
forgotten_for_good_example =
    forgotten_for_good (λ (o : ℕ). o) "ada" "f1" before unkeyed unsnapshotted returned unkeyed-Reach
      unsnapshotted-Reach returned-Reach
