-- ===== src/Kernel/Projection/Once.antt =====
-- kernel/projection/runner.ts over kernel/dispatch/delivery.ts: the events that a batch applies, and the log.
use bounda.Prelude.{
  ℕ, zero, suc, ◌+◌, ◌≤◌, ◌<◌, ◌≡◌, refl, ap, sym, ◌∙◌, String, Bool, ◌&&◌, Option, none, some,
  List, [], ◌∷◌, ◌++◌, arith, inl, inr,
}
use bounda.Prelude.Tests.{ltb, leb, nat_eq, Bool-cases, if_both}
use bounda.Prelude.Lists.{length, get_elem?, take, keep_if}
use bounda.Prelude.Dict.{Dict}
use bounda.Contracts.Errors.{Failure}
use bounda.Contracts.Events.{StoredEvent}
use bounda.Kernel.Delivery.{Processed, through, partial, threw}
use bounda.Kernel.Projection.{projections_of, project_event, unless_thrown, project_from}

module _ {P M : Type 0} where
  -- The log's events in the order of their positions.
  abbrev pub Ascending : ℕ → List (StoredEvent P M) → Type 0
  Ascending p [] = Unit
  Ascending p (e ∷ es) = (p < e.position) × Ascending e.position es

  abbrev pub up_to : ℕ → List (StoredEvent P M) → List (StoredEvent P M)
  up_to p log = keep_if (λ e. leb e.position p) log

  abbrev pub after : ℕ → List (StoredEvent P M) → List (StoredEvent P M)
  after p log = keep_if (λ e. ltb p e.position) log

  Ascending-weaken :
      (p q : ℕ) (log : List (StoredEvent P M)) → p ≤ q → Ascending q log → Ascending p log
  Ascending-weaken p q [] le a = tt
  Ascending-weaken p q (e ∷ log) le (h, a) = (omega arith, a)

  up_to_none : (p q : ℕ) (log : List (StoredEvent P M)) → p ≤ q → Ascending q log → up_to p log ≡ []
  up_to_none p q [] le a = refl
  up_to_none p q (e ∷ log) le (h, a) = ground (arith, up_to_none p e.position log)

  after_all : (p q : ℕ) (log : List (StoredEvent P M)) → p ≤ q → Ascending q log → after p log ≡ log
  after_all p q [] le a = refl
  after_all p q (e ∷ log) le (h, a) = ground (arith, after_all p e.position log)

  -- Up to the k-th event there are the first k.
  up_to_taken :
      (k p : ℕ) (log : List (StoredEvent P M)) (last : StoredEvent P M)
      → Ascending p log
      → get_elem? log k ≡ some last
      → (up_to last.position log ≡ take (suc k) log) × (p < last.position)
  up_to_taken k p [] last a h = cc
  up_to_taken zero p (e ∷ log) last (h, a) there =
      ground (arith, there, up_to_none e.position e.position log)
  up_to_taken (suc k) p (e ∷ log) last (h, a) there =
      ground (arith, up_to_taken k e.position log last a there)

  -- Up to the k-th event after a position there are those up to it, and the first k after it.
  pub up_to_advanced :
      (k p q : ℕ) (log : List (StoredEvent P M)) (last : StoredEvent P M)
      → Ascending q log
      → get_elem? (after p log) k ≡ some last
      → (up_to last.position log ≡ up_to p log ++ take (suc k) (after p log)) × (p < last.position)
  up_to_advanced k p q [] last a h = cc
  up_to_advanced k p q (e ∷ log) last (h, a) there = elim (Bool-cases (leb e.position p)) [
    | inl old ↦
        let passed : after p (e ∷ log) ≡ after p log = ground (arith, old) in
        let ih =
          up_to_advanced k p e.position log last a
            (sym (ap (λ es. get_elem? es k) passed) ∙ there) in
        ground (arith, old, passed, ih.0, ih.1)
    | inr new ↦
        let ahead : Ascending p (e ∷ log) = (ground (arith, new), a) in
        let all : after p (e ∷ log) ≡ e ∷ log = after_all p p (e ∷ log) (omega arith) ahead in
        let none_yet : up_to p (e ∷ log) ≡ [] = up_to_none p p (e ∷ log) (omega arith) ahead in
        let taken =
          up_to_taken k p (e ∷ log) last ahead (sym (ap (λ es. get_elem? es k) all) ∙ there) in
        (
          taken.0
              ∙ ap (take (suc k)) (sym all)
              ∙ ap (λ es. es ++ take (suc k) (after p (e ∷ log))) (sym none_yet),
          taken.1,
        )
  ]

  pub take-take :
      (k n : ℕ) (es : List (StoredEvent P M))
      → k ≤ length (take n es)
      → take k (take n es) ≡ take k es
  take-take zero n es h = refl
  take-take (suc k) zero es h = absurd (omega arith)
  take-take (suc k) (suc n) [] h = refl
  take-take (suc k) (suc n) (e ∷ es) h = ap (λ xs. e ∷ xs) (take-take k n es (omega arith))

  pub get_elem?-take :
      (k n : ℕ) (es : List (StoredEvent P M))
      → k < length (take n es)
      → get_elem? (take n es) k ≡ get_elem? es k
  get_elem?-take k zero es h = absurd (omega arith)
  get_elem?-take k (suc n) [] h = refl
  get_elem?-take zero (suc n) (e ∷ es) h = refl
  get_elem?-take (suc k) (suc n) (e ∷ es) h = get_elem?-take k n es (omega arith)

module _ {T R P M : Type 0} (project : R → T → StoredEvent P M → T × Option Failure)
    (by_event : Dict String (List R)) (out_of_time : ℕ → List (StoredEvent P M) → Bool) where
  abbrev projected : T → StoredEvent P M → T × Option Failure
  projected t event =
      project_event project by_event out_of_time (projections_of project by_event out_of_time event)
        (t, none) event

  -- The rows that projecting the events one after the other gives, if no projection throws.
  abbrev go_on : T × Option Failure → (T → Option T) → Option T
  go_on (t, none) rest = rest t
  go_on (t, some e) rest = none

  unfoldable pub replay : T → List (StoredEvent P M) → Option T
  replay t [] = some t
  replay t (event ∷ events) = go_on (projected t event) (λ t'. replay t' events)

  abbrev pub then_replay : Option T → List (StoredEvent P M) → Option T
  then_replay none events = none
  then_replay (some t) events = replay t events

  go_on_then :
      (x : T × Option Failure) (f g : T → Option T) (ys : List (StoredEvent P M))
      → ((t : T) → g t ≡ then_replay (f t) ys)
      → go_on x g ≡ then_replay (go_on x f) ys
  go_on_then (t, none) f g ys h = h t
  go_on_then (t, some e) f g ys h = refl

  pub replay-append :
      (t : T) (xs ys : List (StoredEvent P M)) → replay t (xs ++ ys) ≡ then_replay (replay t xs) ys
  unfolding replay
  replay-append t [] ys = refl
  replay-append t (x ∷ xs) ys = go_on_then (projected t x) _ _ ys (λ t'. replay-append t' xs ys)

  -- What went through was the first events of the batch, each projected once.
  abbrev pub WentThrough : T → ℕ → List (StoredEvent P M) → T × Processed → Type 0
  WentThrough t done events (t', through n) =
      (k : ℕ) × (n ≡ done + k) × (k ≤ length events) × (replay t (take k events) ≡ some t')
  WentThrough t done events (t', partial n e) = Unit
  WentThrough t done events (t', threw e) = Unit

  one_more :
      (t : T) (done : ℕ) (event : StoredEvent P M) (events : List (StoredEvent P M))
      (x : T × Option Failure) (rest : T → T × Processed)
      → projected t event ≡ x
      → ((t' : T) → WentThrough t' (done + 1) events (rest t'))
      → WentThrough t done (event ∷ events) (unless_thrown project by_event out_of_time done x rest)
  unfolding unless_thrown
  one_more t done event events (t', some e) rest p ih = tt
  one_more t done event events (t', none) rest p ih = counted (rest t') (ih t')
    where
      counted :
          (y : T × Processed)
          → WentThrough t' (done + 1) events y
          → WentThrough t done (event ∷ events) y
      counted (u, through n) (k, same, le, replayed) =
          (suc k, omega arith, omega arith, unfold replay in (rw p replayed))
      counted (u, partial n e) w = tt
      counted (u, threw e) w = tt

  pub project_from-WentThrough :
      (done : ℕ) (t : T) (events : List (StoredEvent P M))
      → WentThrough t done events (project_from project by_event out_of_time done t events)
  unfolding project_from replay
  project_from-WentThrough done t [] = (0, omega arith, omega arith, refl)
  project_from-WentThrough done t (event ∷ events) =
      if_both (WentThrough t done (event ∷ events))
        (ltb zero done && out_of_time done (event ∷ events)) (0, omega arith, omega arith, refl)
        (one_more t done event events (projected t event) _ refl
          (λ t'. project_from-WentThrough (done + 1) t' events))
