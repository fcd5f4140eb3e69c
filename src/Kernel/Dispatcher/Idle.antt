-- ===== src/Kernel/Dispatcher/Idle.antt =====
-- kernel/dispatch/dispatcher.ts: passes end, and leave no subscriber behind that could go on.
use mathlib.Core.Bool.{false≢true}
use bounda.Prelude.{
  ℕ, zero, suc, ◌+◌, ◌-◌, ◌≤◌, ◌<◌, ◌≡◌, refl, ap, sym, subst, Bool, true, false, ◌||◌, Option,
  none, some, List, [], ◌∷◌, arith, ◌⊎◌, inl, inr,
}
use bounda.Prelude.Lists.{All}
use bounda.Contracts.Errors.{Result, ok, err}
use bounda.Kernel.Delivery.{Delivery, idle, busy, advanced, held, moved, failed}
use bounda.Kernel.Dispatcher.{
  DispatcherSetup, CheckpointedSubscriber, Dispatcher, is_moving, delivered, record_delivery,
  recorded, skipped, visit, then_pass, pass_over, pass, process_once, until_nothing_moves,
  run_until_idle,
}
use bounda.Kernel.Dispatcher.Progress.{Laws}
use bounda.Kernel.Dispatcher.Reaching.{Ahead}

-- A delivery that neither moved the checkpoint nor found nothing to deliver.
abbrev pub is_stuck : Delivery → Bool
is_stuck busy = true
is_stuck held = true
is_stuck (failed _) = true
is_stuck _ = false

module _ {S P M : Type 0} (k : DispatcherSetup S P M) (Fair : CheckpointedSubscriber S P M → Type 0)
    (laws : Laws k Fair) (head : ℕ)
    (moves_below : (b : CheckpointedSubscriber S P M) (wait : Bool) (w : S) (d : Delivery)
      → Fair b
      → (delivered k b wait w).1 ≡ ok d
      → is_moving d ≡ true
      → b.position w < head)
    (idle_at_head : (b : CheckpointedSubscriber S P M) (wait : Bool) (w : S)
      → Fair b
      → (delivered k b wait w).1 ≡ ok idle
      → head ≤ b.position (delivered k b wait w).0) where
  open laws use {delivered_keeps, delivered_moves}

  abbrev Onward : S → S → Type 0
  Onward = Ahead k Fair laws

  -- How far the subscribers are behind, taken together.
  abbrev pub lags : List (CheckpointedSubscriber S P M) → S → ℕ
  lags [] w = 0
  lags (b ∷ bs) w = (head - b.position w) + lags bs w

  lags_mono :
      (bs : List (CheckpointedSubscriber S P M)) (v w : S)
      → All Fair bs
      → Onward v w
      → lags bs w ≤ lags bs v
  lags_mono [] v w fair on = omega arith
  lags_mono (b ∷ bs) v w fair on = omega (arith, on b fair.0, lags_mono bs v w fair.1 on)

  -- The subscriber's own progress is one of the whole.
  abbrev Counts : List (CheckpointedSubscriber S P M) → CheckpointedSubscriber S P M → Type 0
  Counts bs b =
      (v w : S)
      → Onward v w
      → b.position v < b.position w
      → b.position v < head
      → lags bs w < lags bs v

  Counts-later :
      (c : CheckpointedSubscriber S P M) (bs cs : List (CheckpointedSubscriber S P M))
      → Fair c
      → All (Counts bs) cs
      → All (Counts (c ∷ bs)) cs
  Counts-later c bs [] fair h = tt
  Counts-later c bs (b ∷ cs) fair h = (
    λ v w on further le. omega (arith, on c fair, h.0 v w on further le),
    Counts-later c bs cs fair h.1,
  )

  All-Counts : (bs : List (CheckpointedSubscriber S P M)) → All Fair bs → All (Counts bs) bs
  All-Counts [] fair = tt
  All-Counts (b ∷ bs) fair = (
    λ v w on further le. omega (arith, further, le, lags_mono bs v w fair.1 on),
    Counts-later b bs bs fair.0 (All-Counts bs fair.1),
  )

  -- A delivery in that state would neither move the checkpoint nor find nothing to deliver.
  abbrev pub StuckAt : S → CheckpointedSubscriber S P M → Type 0
  StuckAt w b = (d : Delivery) × ((delivered k b true w).1 ≡ ok d) × (is_stuck d ≡ true)

  -- A pass from `s` to `t`, subscriber by subscriber: each ends with its checkpoint at the head or past
  -- it, or was stuck in the state that the pass came to it in.
  abbrev pub Settles : List (CheckpointedSubscriber S P M) → Dispatcher S → Dispatcher S → Type 0
  Settles [] s t = s ≡ t
  Settles (b ∷ bs) s t =
      ((head ≤ b.position t.world) ⊎ StuckAt s.world b)
      × Settles bs (visit k true false none s b).0 t

  visit_lem :
      (b : CheckpointedSubscriber S P M) (s : Dispatcher S) (x : S × Result Delivery)
      → delivered k b true s.world ≡ x
      → (visit k true false none s b).0 ≡ (recorded k b.name s x).0
  unfolding visit skipped
  visit_lem b s x e = ap (λ y. (recorded k b.name s y).0) e

  module _ (all : List (CheckpointedSubscriber S P M)) (all_fair : All Fair all) where
    -- What a pass comes to: it moved the subscribers on, or left each settled.
    abbrev Passed :
        List (CheckpointedSubscriber S P M)
        → Bool
        → Dispatcher S
        → Dispatcher S × Result Bool
        → Type 0
    Passed bs any_moved s (t, err e) = Onward s.world t.world
    Passed bs any_moved s (t, ok m) =
        Onward s.world t.world
        × (((m ≡ any_moved) × Settles bs s t)
            ⊎ ((m ≡ true) × (lags all t.world < lags all s.world)))

    module _ (b : CheckpointedSubscriber S P M) (fair : Fair b)
        (bs : List (CheckpointedSubscriber S P M)) (counts : Counts all b) where
      -- The subscriber did not move, and the others are passed over.
      unmoved :
          (any_moved : Bool) (s v : Dispatcher S) (r : Dispatcher S × Result Bool)
          → Onward s.world v.world
          → (visit k true false none s b).0 ≡ v
          → (head ≤ b.position v.world) ⊎ StuckAt s.world b
          → Passed bs any_moved v r
          → Passed (b ∷ bs) any_moved s r
      unmoved any_moved s v (t, err e) on seen h k = λ c fc. omega (arith, on c fc, k c fc)
      unmoved any_moved s v (t, ok m) on seen h (after, inl (same, rest)) = (
        λ c fc. omega (arith, on c fc, after c fc),
        inl (same, (ends h, subst (λ u. Settles bs u t) (sym seen) rest)),
      )
        where
          ends :
              (head ≤ b.position v.world) ⊎ StuckAt s.world b
              → (head ≤ b.position t.world) ⊎ StuckAt s.world b
          ends (inl there) = inl (omega (arith, there, after b fair))
          ends (inr stuck) = inr stuck
      unmoved any_moved s v (t, ok m) on seen h (after, inr (same, less)) = (
        λ c fc. omega (arith, on c fc, after c fc),
        inr (same, omega (arith, less, lags_mono all s.world v.world all_fair on)),
      )

      on_the_move :
          (any_moved : Bool) (s v : Dispatcher S) (r : Dispatcher S × Result Bool)
          → Onward s.world v.world
          → b.position s.world < b.position v.world
          → b.position s.world < head
          → Passed bs true v r
          → Passed (b ∷ bs) any_moved s r
      on_the_move any_moved s v (t, err e) on further below k =
          λ c fc. omega (arith, on c fc, k c fc)
      on_the_move any_moved s v (t, ok m) on further below (after, inl (same, rest)) = (
        λ c fc. omega (arith, on c fc, after c fc),
        inr (
          same,
          omega (
            arith,
            counts s.world v.world on further below,
            lags_mono all v.world t.world all_fair after,
          ),
        ),
      )
      on_the_move any_moved s v (t, ok m) on further below (after, inr (same, less)) = (
        λ c fc. omega (arith, on c fc, after c fc),
        inr (same, omega (arith, less, counts s.world v.world on further below)),
      )

      module _ (any_moved : Bool) (s : Dispatcher S)
          (rest : (t : Dispatcher S) (m : Bool)
            → Passed bs m t (pass_over k true false none bs m t)) where
        Settled-Passed :
            (t : Dispatcher S)
            → Onward s.world t.world
            → (visit k true false none s b).0 ≡ t
            → (head ≤ b.position t.world) ⊎ StuckAt s.world b
            → Passed (b ∷ bs) any_moved s (pass_over k true false none bs any_moved t)
        Settled-Passed t on seen h =
            unmoved any_moved s t (pass_over k true false none bs any_moved t) on seen h
              (rest t any_moved)

        moving-Passed :
            (t : Dispatcher S) (d : Delivery)
            → delivered k b true s.world ≡ (t.world, ok d)
            → is_moving d ≡ true
            → Onward s.world t.world
            → Passed (b ∷ bs) any_moved s (pass_over k true false none bs true t)
        moving-Passed t d e moving on =
            on_the_move any_moved s t (pass_over k true false none bs true t) on
              (subst (λ y. b.position s.world < b.position y.0) e
                (delivered_moves b true s.world d fair (ap (λ y. y.1) e) moving))
              (moves_below b true s.world d fair (ap (λ y. y.1) e) moving) (rest t true)

        visited-Passed :
            (x : S × Result Delivery)
            → delivered k b true s.world ≡ x
            → Onward s.world x.0
            → Passed (b ∷ bs) any_moved s (
                then_pass k
                  (recorded k b.name s x)
                  (λ s' moving. pass_over k true false none bs (moving || any_moved) s'))
        unfolding then_pass recorded record_delivery
        visited-Passed (w, err e) x on = on
        visited-Passed (w, ok idle) x on = Settled-Passed _ on (visit_lem b s (w, ok idle) x) (
            inl (
              subst (λ y. head ≤ b.position y.0) x
                (idle_at_head b true s.world fair (ap (λ y. y.1) x))))
        visited-Passed (w, ok busy) x on =
            Settled-Passed _ on (visit_lem b s (w, ok busy) x) (inr (busy, ap (λ y. y.1) x, refl))
        visited-Passed (w, ok held) x on =
            Settled-Passed _ on (visit_lem b s (w, ok held) x) (inr (held, ap (λ y. y.1) x, refl))
        visited-Passed (w, ok (failed f)) x on =
            Settled-Passed _ on (visit_lem b s (w, ok (failed f)) x)
              (inr (failed f, ap (λ y. y.1) x, refl))
        visited-Passed (w, ok advanced) x on = moving-Passed _ advanced x refl on
        visited-Passed (w, ok moved) x on = moving-Passed _ moved x refl on

    pass_over-Passed :
        (bs : List (CheckpointedSubscriber S P M)) (any_moved : Bool) (s : Dispatcher S)
        → All Fair bs
        → All (Counts all) bs
        → Passed bs any_moved s (pass_over k true false none bs any_moved s)
    unfolding pass_over
    pass_over-Passed [] any_moved s fair counts = ((λ c fc. omega arith), inl (refl, refl))
    pass_over-Passed (b ∷ bs) any_moved s fair counts =
        visited-Passed b fair.0 bs counts.0 any_moved s
          (λ t m. pass_over-Passed bs m t fair.1 counts.1) _ refl
          (λ c fc. delivered_keeps b c true s.world fair.0 fc)

    process_once-Passed : (s : Dispatcher S) → Passed all false s (process_once k all s)
    unfolding process_once pass
    process_once-Passed s = pass_over-Passed all false s all_fair (All-Counts all all_fair)

    -- The state that so many passes come to.
    unfoldable pub passes : ℕ → Dispatcher S → Dispatcher S
    passes zero s = s
    passes (suc n) s = passes n (process_once k all s).0

    -- What repeated passes from `s` come to: where they resolve, the last pass settles each subscriber.
    abbrev pub Ended : Dispatcher S → Dispatcher S × Option (Result (Unit {0})) → Type 0
    Ended s (t, none) = ⊥
    Ended s (t, some (err e)) = Onward s.world t.world
    Ended s (t, some (ok u)) = Onward s.world t.world × ((n : ℕ) × Settles all (passes n s) t)

    Ended-from :
        (s v : Dispatcher S) (x : Dispatcher S × Option (Result (Unit {0})))
        → (process_once k all s).0 ≡ v
        → Onward s.world v.world
        → Ended v x
        → Ended s x
    unfolding passes
    Ended-from s v (t, none) e on h = h
    Ended-from s v (t, some (err f)) e on h = λ c fc. omega (arith, on c fc, h c fc)
    Ended-from s v (t, some (ok u)) e on (after, (n, h)) = (
      (λ c fc. omega (arith, on c fc, after c fc)),
      (suc n, subst (λ w. Settles all (passes n w) t) (sym e) h),
    )

    abbrev Enough : ℕ → Dispatcher S × Result Bool → Type 0
    Enough fuel (t, err e) = Unit
    Enough fuel (t, ok false) = Unit
    Enough fuel (t, ok true) = lags all t.world < fuel

    next-Enough :
        (fuel : ℕ) (s : Dispatcher S) (x : Dispatcher S × Result Bool)
        → lags all s.world ≤ fuel
        → Passed all false s x
        → Enough fuel x
    next-Enough fuel s (t, err e) enough h = tt
    next-Enough fuel s (t, ok false) enough h = tt
    next-Enough fuel s (t, ok true) enough (on, inl (same, rest)) = absurd (false≢true (sym same))
    next-Enough fuel s (t, ok true) enough (on, inr (same, less)) = omega (arith, enough, less)

    until_nothing_moves-Ended :
        (fuel : ℕ) (s : Dispatcher S) (x : Dispatcher S × Result Bool)
        → process_once k all s ≡ x
        → Enough fuel x
        → Passed all false s x
        → Ended s (until_nothing_moves k fuel (process_once k all) x)
    unfolding until_nothing_moves passes
    until_nothing_moves-Ended fuel s (t, err e) same enough h = h
    until_nothing_moves-Ended fuel s (t, ok false) same enough (on, inl (still, rest)) =
        (on, (0, rest))
    until_nothing_moves-Ended fuel s (t, ok false) same enough (on, inr (still, less)) =
        absurd (false≢true still)
    until_nothing_moves-Ended zero s (t, ok true) same enough h = omega (arith, enough)
    until_nothing_moves-Ended (suc fuel) s (t, ok true) same enough h =
        let next : Passed all false t (process_once k all t) = process_once-Passed t in
        Ended-from s t (until_nothing_moves k fuel (process_once k all) (process_once k all t))
          (ap (λ x. x.0) same) h.0
          (until_nothing_moves-Ended fuel t (process_once k all t) refl
            (next-Enough fuel t (process_once k all t) (omega (arith, enough)) next) next)

    -- For subscribers that keep to `Laws`, where a delivery moves a checkpoint only from below the
    -- log's head, and is idle only at the head or past it: on fuel for as many passes as the
    -- subscribers are behind the head, taken together, the passes come to an end. No checkpoint has
    -- moved back; unless the storage failed, each subscriber has its checkpoint at the head or past
    -- it, or its delivery in the last of the passes answered that it was busy, that it held its events,
    -- or that it failed.
    pub run_until_idle-Ended :
        (fuel : ℕ) (s : Dispatcher S)
        → lags all s.world ≤ fuel
        → Ended s (run_until_idle k fuel all s)
    unfolding run_until_idle
    run_until_idle-Ended fuel s enough =
        let first : Dispatcher S × Result Bool = process_once k all s in
        until_nothing_moves-Ended fuel s first refl
          (next-Enough fuel s first enough (process_once-Passed s)) (process_once-Passed s)
