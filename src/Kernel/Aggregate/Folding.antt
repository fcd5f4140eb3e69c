-- ===== src/Kernel/Aggregate/Folding.antt =====
-- kernel/aggregate/fold-state.ts and `personsOf`: folding in parts.
use bounda.Prelude.{◌≡◌, refl, String, List, [], ◌∷◌, ◌++◌}
use bounda.Prelude.Dict.{Dict}
use bounda.Contracts.Errors.{Result, ok, err, ◌>>=◌}
use bounda.Contracts.Events.{KeyedPerson}
use bounda.Kernel.Aggregate.{Event, AggregateRuntime, FoldedState, fold_event, fold_state, add_all}

bind_assoc :
    {A B C : Type 0} (m : Result A) (f : A → Result B) (g : B → Result C)
    → ((m >>= f) >>= g) ≡ (m >>= λ a. f a >>= g)
bind_assoc (ok a) f g = refl
bind_assoc (err e) f g = refl

module _ {R : Type 0} (a : AggregateRuntime R) where
  fold_rest :
      (m : Result FoldedState) (xs ys : List Event)
      → ((f : FoldedState) → fold_state a (xs ++ ys) f ≡ (fold_state a xs f >>= fold_state a ys))
      → (m >>= fold_state a (xs ++ ys)) ≡ ((m >>= fold_state a xs) >>= fold_state a ys)
  fold_rest (ok f) xs ys h = h f
  fold_rest (err e) xs ys h = refl

  -- Folding two runs of events is folding the second from the state that the first folds to.
  pub fold_state-append :
      (xs ys : List Event) (from : FoldedState)
      → fold_state a (xs ++ ys) from ≡ (fold_state a xs from >>= fold_state a ys)
  unfolding fold_state
  fold_state-append [] ys from = refl
  fold_state-append (x ∷ xs) ys from =
      fold_rest (fold_event a from x) xs ys (λ f. fold_state-append xs ys f)

  pub add_all-append :
      (fingerprints : Dict String String) (xs ys : List Event)
      (persons : Dict KeyedPerson KeyedPerson)
      → add_all a fingerprints (xs ++ ys) persons
        ≡ add_all a fingerprints ys (add_all a fingerprints xs persons)
  unfolding add_all
  add_all-append fingerprints [] ys persons = refl
  add_all-append fingerprints (x ∷ xs) ys persons = add_all-append fingerprints xs ys _
