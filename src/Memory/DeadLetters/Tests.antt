-- ===== src/Memory/DeadLetters/Tests.antt =====
-- Letters filed, settled, listed and forgotten.
use mathlib.Core.List.{Perm}
use bounda.Prelude.{ℕ, ◌+◌, String, ◌≡◌, refl, none, some, [], ◌∷◌, ◌++◌, map}
use bounda.Prelude.Tests.{string_eq}
use bounda.Prelude.Lists.{length, keep_if}
use bounda.Prelude.Dict.{get, set, unless, values}
use bounda.Contracts.Errors.{runtime_error, dead_letter_settled, ok, err}
use bounda.Contracts.Events.{names_person}
use bounda.Memory.DeadLetters.{
  Store, NewDeadLetter, StoredDeadLetter, DeadLetterStatus, policy, terminal, failed, discarded,
  clear, add, copy, get_letter, update_status, forget, list, count, everything, matches,
}
use bounda.Memory.DeadLetters.Settlement.{
  add-keeps_first, Keeping, here, next, adds, settled_once, get-forget, Step-IsKeyed, Keyed,
  settles,
}
use bounda.Memory.DeadLetters.Listing.{list-pages}

abbrev written : String → NewDeadLetter ℕ
written id = record {
  id = id;
  kind = policy;
  handler = "order.notify";
  event_id = "e1";
  event_type = "OrderPlaced";
  aggregate_type = "order";
  aggregate_id = "1";
  person = some "ada";
  error_type = terminal;
  error_name = "DomainError";
  error_code = some "DOMAIN_ERROR";
  error_message = clear "no";
  error_stack = none;
  attempts = 1;
  first_failed_at = "2024-01-01T00:00:00.000Z";
  last_failed_at = "2024-01-01T00:00:00.000Z";
  payload = some 7;
  persons = some (record { person = "ada"; fingerprint = none } ∷ []);
}

abbrev same_payload : ℕ → ℕ
same_payload p = p

abbrev filed : DeadLetterStatus → StoredDeadLetter ℕ
filed status = record { letter = written "a"; status = status }

abbrev waiting : Store ℕ
waiting = ("a", filed failed) ∷ []

abbrev settled : Store ℕ
settled = ("a", filed discarded) ∷ []

add-keeps_first_sample :
    (add same_payload (add same_payload [] (written "a")).0 (written "a")
      ≡ add same_payload [] (written "a"))
    × (get_letter same_payload (add same_payload [] (written "a")).0 "a"
        ≡ some (add same_payload [] (written "a")).1)
add-keeps_first_sample = add-keeps_first same_payload [] (written "a") (written "a") refl

update_status_settled : update_status waiting "a" discarded ≡ ok settled
unfolding update_status get set
update_status_settled = refl

-- Another letter is filed after the first was discarded.
abbrev later : Store ℕ
later = (add same_payload settled (written "b")).0

later-kept : Keeping same_payload "a" settled later
unfolding add get set
later-kept = next here (adds (written "b")) refl

settled_once_example :
    (get later "a" ≡ get settled "a")
    × ((again : DeadLetterStatus)
        → update_status later "a" again ≡ err (runtime_error (dead_letter_settled "a" none)))
settled_once_example =
    settled_once same_payload waiting settled later "a" discarded update_status_settled refl
      later-kept

get-forget_sample :
    get (forget same_payload waiting "ada").0 "a"
    ≡ unless (λ l. names_person l.persons "ada") (get waiting "a")
get-forget_sample = get-forget same_payload waiting "ada" "a" (refl, refl, tt)

Step-IsKeyed_sample : Keyed settled
Step-IsKeyed_sample =
    Step-IsKeyed same_payload (settles "a" discarded settled update_status_settled) (refl, refl, tt)

list-pages_example :
    (list same_payload waiting (record everything { limit = some 1 })
        ++ list same_payload waiting (record everything { limit = none; offset = 0 + 1 })
      ≡ list same_payload waiting (record everything { limit = none }))
    × Perm
        (list same_payload waiting (record everything { limit = none; offset = 0 }))
        (map (copy same_payload) (keep_if (λ l. matches l everything) (values waiting)))
    × (length (list same_payload waiting (record everything { limit = none; offset = 0 }))
        ≡ count waiting everything)
list-pages_example = list-pages same_payload waiting everything 1
