-- ===== src/Memory/DeadLetters/Listing.antt =====
-- memory/dead-letter-store.ts: what a listing holds, in what order, and how its pages fit together.
use mathlib.Core.List.{Perm}
use mathlib.Core.List.Perm
use bounda.Prelude.{ℕ, ◌+◌, ◌≡◌, refl, ap, sym, ◌∙◌, none, some, List, [], ◌∷◌, ◌++◌, map}
use bounda.Prelude.Tests.{string_eq}
use bounda.Prelude.Lists.{length, keep_if, take, drop, drop-add, take-append-drop, length-map}
use bounda.Prelude.Dict.{values}
use bounda.Prelude.Sorting.{sort_by-Perm}
use bounda.Memory.DeadLetters.{
  Store, ListDeadLettersArgs, copy, matches, not_after, select, list, count,
}

map-append : {A B : Type 0} (f : A → B) (xs ys : List A) → map f (xs ++ ys) ≡ map f xs ++ map f ys
map-append f [] ys = refl
map-append f (x ∷ xs) ys = ap (λ zs. f x ∷ zs) (map-append f xs ys)

module _ {P : Type 0} (payload_copy : P → P) where
  -- A page of `n` letters and the listing from `n` further on are the listing from where the page
  -- begins. The listing from 0 is a permutation of the stored letters that match, copied, and has as
  -- many as `count` says: nothing is skipped or listed twice.
  pub list-pages :
      (s : Store P) (args : ListDeadLettersArgs) (n : ℕ)
      → (list payload_copy s (record args { limit = some n })
            ++ list payload_copy s (record args { limit = none; offset = args.offset + n })
          ≡ list payload_copy s (record args { limit = none }))
        × Perm
            (list payload_copy s (record args { limit = none; offset = 0 }))
            (map (copy payload_copy) (keep_if (λ l. matches l args) (values s)))
        × (length (list payload_copy s (record args { limit = none; offset = 0 })) ≡ count s args)
  unfolding list select matches count
  list-pages s args n = (
    sym (map-append (copy payload_copy) _ _)
        ∙ ap (map (copy payload_copy)) (
            ap (λ zs. take n (drop args.offset (select s args)) ++ zs)
              (drop-add args.offset n (select s args))
            ∙ take-append-drop n (drop args.offset (select s args))),
    Perm.map (copy payload_copy)
        (sort_by-Perm not_after (keep_if (λ l. matches l args) (values s))),
    length-map (copy payload_copy) (select s args),
  )
