-- ===== src/Kernel/Dispatcher/Reaching.antt =====
-- kernel/dispatch/dispatcher.ts: the wait for a read model ends, and what its answer says.
use text.Mathlib.TextEquality.{eq_iff}
use bounda.Prelude.{
  ℕ, zero, suc, ◌+◌, ◌-◌, ◌≤◌, ◌<◌, ◌≡◌, refl, ap, sym, ◌∙◌, subst, String, Bool, true, false, ◌||◌,
  Option, none, some, List, [], ◌∷◌, arith, ◌⊎◌, inl, inr,
}
use bounda.Prelude.Tests.{ltb, leb, string_eq, if◌then◌else◌, if_either, leb→le, leb→gt}
use bounda.Prelude.Lists.{All, keep_if, keep_if-All}
use bounda.Prelude.Dict.{Dict, get, set, has, has-set}
use bounda.Contracts.Errors.{Failure, Result, ok, err}
use bounda.Kernel.Delivery.{Delivery, idle, busy, advanced, held, moved, failed}
use bounda.Kernel.Dispatcher.{
  DispatcherSetup, CheckpointedSubscriber, Dispatcher, Catching, FailingState, reached, behind,
  is_moving, delivered, record_delivery, record_failing, backing_off, reach_after, reach_from,
  reach, reacts, both_reached, then_reach, reach_each, catch_up_through,
}
use bounda.Kernel.Dispatcher.Progress.{Laws}

has-set_self :
    (m : Dict String FailingState) (k : String) (v : FailingState) → has (set m k v) k ≡ true
has-set_self m k v =
    has-set m k v k ∙ ap (λ same. if same then true else has m k) ((eq_iff k k).1 refl)

module _ {S P M : Type 0} (k : DispatcherSetup S P M) (Fair : CheckpointedSubscriber S P M → Type 0)
    (laws : Laws k Fair) where
  open laws use {delivered_keeps, delivered_moves, delivered_later, sleep_keeps, sleep_later}

  -- No checkpoint moved back.
  abbrev pub Ahead : S → S → Type 0
  Ahead w w' = (c : CheckpointedSubscriber S P M) → Fair c → c.position w ≤ c.position w'

  Ahead-trans : (u v w : S) → Ahead u v → Ahead v w → Ahead u w
  Ahead-trans u v w h k c fair = omega (arith, h c fair, k c fair)

  abbrev pub RejectedAt : CheckpointedSubscriber S P M → S → Type 0
  RejectedAt b w = (before : S) × ((e : Failure) × (delivered k b false before ≡ (w, err e)))

  -- Why a wait gave up: its time is over, the subscriber fails, or the storage does.
  abbrev pub Excused : CheckpointedSubscriber S P M → ℕ → Dispatcher S → Type 0
  Excused b deadline t =
      (deadline ≤ k.clock t.world)
      ⊎ ((has t.failing b.name ≡ true)
          ⊎ (((e : Failure) × (b.position_fails t.world ≡ some e)) ⊎ RejectedAt b t.world))

  abbrev pub Answered :
      CheckpointedSubscriber S P M → ℕ → ℕ → S → Dispatcher S × Option Catching → Type 0
  Answered b position deadline w (t, none) = ⊥
  Answered b position deadline w (t, some reached) =
      (position ≤ b.position t.world) × Ahead w t.world
  Answered b position deadline w (t, some behind) = Excused b deadline t × Ahead w t.world

  Answered_trans :
      (b : CheckpointedSubscriber S P M) (position deadline : ℕ) (u v : S)
      (x : Dispatcher S × Option Catching)
      → Ahead u v
      → Answered b position deadline v x
      → Answered b position deadline u x
  Answered_trans b position deadline u v (t, none) h a = a
  Answered_trans b position deadline u v (t, some reached) h a =
      (a.0, Ahead-trans u v t.world h a.1)
  Answered_trans b position deadline u v (t, some behind) h a = (a.0, Ahead-trans u v t.world h a.1)

  abbrev remaining : CheckpointedSubscriber S P M → ℕ → ℕ → S → ℕ
  remaining b position deadline w = (position - b.position w) + (deadline - k.clock w)

  abbrev Again :
      CheckpointedSubscriber S P M
      → ℕ
      → ℕ
      → S
      → (Dispatcher S → Dispatcher S × Option Catching)
      → Type 0
  Again b position deadline w again =
      (t : Dispatcher S)
      → remaining b position deadline t.world < remaining b position deadline w
      → Answered b position deadline t.world (again t)

  module _ (b : CheckpointedSubscriber S P M) (fair : Fair b) (position deadline : ℕ) where
    -- The wait goes on in a later state.
    goes_on :
        (w v : S) (t : Dispatcher S) (again : Dispatcher S → Dispatcher S × Option Catching)
        → t.world ≡ v
        → Again b position deadline w again
        → Ahead w v
        → remaining b position deadline v < remaining b position deadline w
        → Answered b position deadline w (again t)
    goes_on w v t again e h kept less =
        Answered_trans b position deadline w t.world (again t) (subst (Ahead w) (sym e) kept) (
          h t (
            subst (λ u. remaining b position deadline u < remaining b position deadline w) (sym e)
              less))

    asleep :
        (w v : S) (t : Dispatcher S) (again : Dispatcher S → Dispatcher S × Option Catching)
        → t.world ≡ k.sleep k.catch_up.poll_interval_ms v
        → Again b position deadline w again
        → k.clock w < deadline
        → Ahead w v
        → k.clock w ≤ k.clock v
        → Answered b position deadline w (again t)
    asleep w v t again e h before kept later =
        let kept' : Ahead w (k.sleep k.catch_up.poll_interval_ms v) =
          Ahead-trans w v (k.sleep k.catch_up.poll_interval_ms v) kept
            (λ c fc. sleep_keeps c v fc) in
        goes_on w (k.sleep k.catch_up.poll_interval_ms v) t again e h kept'
          (omega (arith, before, later, kept' b fair, sleep_later v))

    awake :
        (w v : S) (t : Dispatcher S) (again : Dispatcher S → Dispatcher S × Option Catching)
        → t.world ≡ v
        → Again b position deadline w again
        → b.position w < position
        → b.position w < b.position v
        → Ahead w v
        → k.clock w ≤ k.clock v
        → Answered b position deadline w (again t)
    awake w v t again e h short further kept later =
        goes_on w v t again e h kept (omega (arith, short, further, later))

    module _ (s : Dispatcher S) (again : Dispatcher S → Dispatcher S × Option Catching)
        (short : b.position s.world < position) (before : k.clock s.world < deadline)
        (h : Again b position deadline s.world again) where
      reach_after-Answered :
          (x : S × Result Delivery)
          → delivered k b false s.world ≡ x
          → Ahead s.world x.0
          → k.clock s.world ≤ k.clock x.0
          → ((d : Delivery) → x.1 ≡ ok d → is_moving d ≡ true → b.position s.world < b.position x.0)
          → Answered b position deadline s.world (reach_after k b s x again)
      unfolding reach_after record_delivery record_failing
      reach_after-Answered (w, err e) x kept later moves = (inr (inr (inr (s.world, (e, x)))), kept)
      reach_after-Answered (w, ok (failed f)) x kept later moves =
          (inr (inl (has-set_self s.failing b.name _)), kept)
      reach_after-Answered (w, ok idle) x kept later moves =
          asleep s.world w _ again refl h before kept later
      reach_after-Answered (w, ok busy) x kept later moves =
          asleep s.world w _ again refl h before kept later
      reach_after-Answered (w, ok held) x kept later moves =
          asleep s.world w _ again refl h before kept later
      reach_after-Answered (w, ok advanced) x kept later moves =
          awake s.world w _ again refl h short (moves advanced refl refl) kept later
      reach_after-Answered (w, ok moved) x kept later moves =
          awake s.world w _ again refl h short (moves moved refl refl) kept later

    backing_off_lem :
        (s : Dispatcher S) (name : String) → backing_off k s name ≡ true → has s.failing name ≡ true
    unfolding backing_off
    backing_off_lem s name = present (get s.failing name)
      where
        present :
            (o : Option FailingState)
            → (elim o [ none ↦ false | some current ↦ ltb (k.clock s.world) current.retry_at ])
              ≡ true
            → (elim o [ none ↦ false | some _ ↦ true ]) ≡ true
        present none h = h
        present (some current) h = refl

    gives_up :
        (s : Dispatcher S) (p q : Bool)
        → (p ≡ true → Excused b deadline s)
        → (q ≡ true → Excused b deadline s)
        → p || q ≡ true
        → Excused b deadline s
    gives_up s true q h k e = h refl
    gives_up s false q h k e = k e

    or_false : (p q : Bool) → p || q ≡ false → p ≡ false
    or_false true q e = e
    or_false false q e = refl

    reach_from-Answered :
        (s : Dispatcher S) (again : Dispatcher S → Dispatcher S × Option Catching)
        (o : Option Failure)
        → b.position_fails s.world ≡ o
        → Again b position deadline s.world again
        → Answered b position deadline s.world (reach_from k b position deadline s o again)
    unfolding reach_from
    reach_from-Answered s again (some e) fails h = (inr (inr (inl (e, fails))), λ c fc. omega arith)
    reach_from-Answered s again none fails h =
        if_either (Answered b position deadline s.world) (leb position (b.position s.world))
          (λ there. (leb→le position (b.position s.world) there, λ c fc. omega arith))
          (λ short.
            if_either (Answered b position deadline s.world)
              (leb deadline (k.clock s.world) || backing_off k s b.name)
              (λ over. (
                gives_up s _ _ (λ late. inl (leb→le deadline (k.clock s.world) late))
                    (λ off. inr (inl (backing_off_lem s b.name off))) over,
                λ c fc. omega arith,
              ))
              (λ goes.
                reach_after-Answered s again (leb→gt position (b.position s.world) short)
                  (leb→gt deadline (k.clock s.world) (or_false _ _ goes)) h _ refl
                  (λ c fc. delivered_keeps b c false s.world fair fc)
                  (delivered_later b false s.world fair)
                  (λ d e m. delivered_moves b false s.world d fair e m)))

    -- For subscribers, a clock and sleeps that keep to `Laws`, and on fuel above what is left of
    -- the position and of the time together, the wait for one read model ends, and no checkpoint
    -- has moved back. It ends with the checkpoint at the position or past it, or because the
    -- deadline is over, the subscriber fails, or the storage rejected a read or a delivery.
    pub reach-Answered :
        (fuel : ℕ) (s : Dispatcher S)
        → remaining b position deadline s.world < fuel
        → Answered b position deadline s.world (reach k fuel b position deadline s)
    unfolding reach
    reach-Answered zero s enough = omega (arith, enough)
    reach-Answered (suc fuel) s enough =
        reach_from-Answered s _ (b.position_fails s.world) refl
          (λ t less. reach-Answered fuel t (omega (arith, enough, less)))

  -- What a wait for several subscribers comes to.
  abbrev pub CaughtUp :
      List (CheckpointedSubscriber S P M) → ℕ → S → Dispatcher S × Option Catching → Type 0
  CaughtUp bs position w (t, none) = ⊥
  CaughtUp bs position w (t, some reached) =
      All (λ b. position ≤ b.position t.world) bs × Ahead w t.world
  CaughtUp bs position w (t, some behind) = Ahead w t.world

  module _ (b : CheckpointedSubscriber S P M) (fair : Fair b)
      (bs : List (CheckpointedSubscriber S P M)) (position deadline : ℕ) where
    both-CaughtUp :
        (v w : S) (answer : Catching) (t : Dispatcher S) (x : Dispatcher S × Option Catching)
        → Answered b position deadline w (t, some answer)
        → v ≡ t.world
        → CaughtUp bs position v x
        → CaughtUp (b ∷ bs) position w (x.0, both_reached k answer x.1)
    both-CaughtUp v w reached t (u, none) a e c = c
    both-CaughtUp v w behind t (u, none) a e c = c
    both-CaughtUp v w reached t (u, some behind) a e c =
        Ahead-trans w t.world u.world a.1 (subst (λ v. Ahead v u.world) e c)
    both-CaughtUp v w behind t (u, some behind) a e c =
        Ahead-trans w t.world u.world a.1 (subst (λ v. Ahead v u.world) e c)
    both-CaughtUp v w behind t (u, some reached) a e c =
        Ahead-trans w t.world u.world a.1 (subst (λ v. Ahead v u.world) e c.1)
    both-CaughtUp v w reached t (u, some reached) a e c =
        let kept : Ahead t.world u.world = subst (λ v. Ahead v u.world) e c.1 in
        ((omega (arith, a.0, kept b fair), c.0), Ahead-trans w t.world u.world a.1 kept)

    then_reach-CaughtUp :
        (w : S) (x : Dispatcher S × Option Catching)
        (rest : Dispatcher S → Dispatcher S × Option Catching)
        → Answered b position deadline w x
        → ((t : Dispatcher S) → CaughtUp bs position t.world (rest t))
        → CaughtUp (b ∷ bs) position w (then_reach k x rest)
    unfolding then_reach
    then_reach-CaughtUp w (t, none) rest a c = a
    then_reach-CaughtUp w (t, some answer) rest a c =
        both-CaughtUp t.world w answer t (rest t) a refl (c t)

  reach_each-CaughtUp :
      (fuel : ℕ) (bs : List (CheckpointedSubscriber S P M)) (position deadline : ℕ)
      (s : Dispatcher S)
      → All Fair bs
      → position + deadline < fuel
      → CaughtUp bs position s.world (reach_each k fuel bs position deadline s)
  unfolding reach_each
  reach_each-CaughtUp fuel [] position deadline s fair enough = (tt, λ c fc. omega arith)
  reach_each-CaughtUp fuel (b ∷ bs) position deadline s fair enough =
      then_reach-CaughtUp b fair.0 bs position deadline s.world _ _
        (reach-Answered b fair.0 position deadline fuel s (omega (arith, enough)))
        (λ t. reach_each-CaughtUp fuel bs position deadline t fair.1 enough)

  -- For subscribers, a clock and sleeps that keep to `Laws`, and on fuel above the position and the
  -- deadline together, a command's wait for the read models ends, and no checkpoint has moved back.
  -- It answers that they caught up only when each subscriber that reacts to one of the events has
  -- its checkpoint at the command's position or past it.
  pub catch_up_through-CaughtUp :
      (fuel : ℕ) (bs : List (CheckpointedSubscriber S P M)) (position : ℕ) (aggregate_type : String)
      (event_types : List String) (s : Dispatcher S)
      → All Fair bs
      → position + (k.clock s.world + k.catch_up.timeout_ms) < fuel
      → CaughtUp
          (keep_if (reacts k aggregate_type event_types) bs)
          position
          s.world
          (catch_up_through k fuel bs position aggregate_type event_types s)
  unfolding catch_up_through
  catch_up_through-CaughtUp fuel bs position aggregate_type event_types s fair enough =
      reach_each-CaughtUp fuel _ position _ s (keep_if-All Fair _ bs fair) enough
