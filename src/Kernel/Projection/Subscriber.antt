-- ===== src/Kernel/Projection/Subscriber.antt =====
-- kernel/projection/runner.ts as a subscriber of kernel/dispatch/dispatcher.ts: a world of one read
-- model over a log, and a clock that a delivery does not move.
use mathlib.Core.Bool.{false≢true}
use mathlib.Core.List.{cons≢nil}
use bounda.Prelude.{
  ℕ, suc, ◌+◌, ◌≤◌, ◌<◌, ◌≡◌, refl, ap, sym, ◌∙◌, subst, String, Bool, true, false, Option, none,
  some, List, [], ◌∷◌, arith, inl, inr, ◌⊎◌,
}
use bounda.Prelude.Tests.{
  ltb, ltb→lt, ltb→ge, Bool-cases, if◌then◌else◌, ◌==◌, nat_eq, string_eq, nat_beq_iff,
}
use bounda.Prelude.Lists.{take, All, All-take}
use bounda.Prelude.Dict.{Dict, get}
use bounda.Contracts.Errors.{Failure, Result, ok, ok-injective}
use bounda.Contracts.Events.{StoredEvent}
use bounda.Kernel.Delivery.{
  Claiming, Delivery, idle, busy, advanced, held, moved, failed, deliver, deliver_batch,
}
use bounda.Kernel.Delivery.Advance.{Guards, Advances, deliver-Advances}
use bounda.Kernel.InOrder.{or_nobody}
use bounda.Kernel.Projection.{ReadModel, process, transaction, deliver_projected}
use bounda.Kernel.Projection.Once.{Ascending, after}
use bounda.Kernel.Dispatcher.{
  projection, CheckpointedSubscriber, DispatcherBackoff, DispatcherCatchUp, DispatcherSetup,
  is_moving, delivered,
}
use bounda.Kernel.Dispatcher.Progress.{Laws}

-- The position of the log's last event.
abbrev pub head_of : {P M : Type 0} → ℕ → List (StoredEvent P M) → ℕ
head_of q [] = q
head_of q (e ∷ es) = head_of e.position es

abbrev is_idle : Delivery → Bool
is_idle idle = true
is_idle _ = false

pub record World (T : Type 0) : Type 0 where
  pub read_model : ReadModel T
  pub time : ℕ

-- A read model's projections, and what the subscriber finds around them.
pub record Hosting (T R P M : Type 0) : Type 0 where
  pub project : R → T → StoredEvent P M → T × Option Failure
  pub by_event : Dict String (List R)
  pub out_of_time : ℕ → List (StoredEvent P M) → Bool
  pub acquires : ReadModel T → Bool → Bool
  pub commit_fails : ReadModel T → Option Failure
  pub message : Failure → String
  pub meanwhile : ReadModel T → ReadModel T
  pub name : String

module _ {T R P M : Type 0} (h : Hosting T R P M) where
  open h use {project, by_event, out_of_time, acquires, commit_fails, message, meanwhile}

  abbrev pub deliver_in : World T → ReadModel T × Delivery → World T × Result Delivery
  deliver_in w (s, d) = (record w { read_model = s }, ok d)

  unfoldable pub subscriber : CheckpointedSubscriber (World T) P M
  subscriber = record {
    name = h.name;
    kind = projection;
    reacts_to =
        some (λ qualified. elim (or_nobody (get by_event qualified)) [ [] ↦ false | _ ∷ _ ↦ true ]);
    position = λ w. w.read_model.position;
    position_fails = λ w. none;
    deliver = λ read wait w. deliver_in w (
        deliver_projected project by_event out_of_time acquires commit_fails message meanwhile read
          wait w.read_model);
  }

  unfoldable pub asleep : ℕ → World T → World T
  asleep ms w = record { read_model = meanwhile w.read_model; time = w.time + ms }

  module _ (others : (s : ReadModel T) → s.position ≤ (meanwhile s).position) where
    abbrev c : Claiming (ReadModel T)
    c = transaction project by_event out_of_time acquires commit_fails

    compared :
        (s t : ReadModel T) (q : ℕ) (same stored : Bool)
        → ◌≡◌ {A = ReadModel T × Bool}
            (if same then (record s { position = q }, true) else (s, false))
            (t, stored)
        → (stored ≡ same) × (stored ≡ true → t.position ≡ q)
    compared s t q true stored h = (sym (ap (λ x. x.1) h), λ kept. sym (ap (λ x. x.0.position) h))
    compared s t q false stored h =
        (sym (ap (λ x. x.1) h), λ kept. absurd (false≢true (ap (λ x. x.1) h ∙ kept)))

    pub transaction-Guards : Guards c (process project by_event out_of_time) meanwhile
    unfolding transaction process
    transaction-Guards = record {
      sets = λ s t p q h. (compared s t q (s.position == p) true h).1 refl;
      refuses = λ s t p q h at.
          false≢true
            ((compared s t q (s.position == p) false h).0 ∙ (nat_beq_iff s.position p).1 at);
      undoes = λ s t. refl;
      processes = λ s events. refl;
      others = others;
    }

    module _ (log : List (StoredEvent P M)) (ascending : Ascending 0 log) (n : ℕ) where
      abbrev result : Bool → ReadModel T → ReadModel T × Delivery
      result wait s =
          deliver_projected project by_event out_of_time acquires commit_fails message meanwhile
            (λ p. take (suc n) (after p log)) wait s

      after-Later : (p : ℕ) (es : List (StoredEvent P M)) → All (λ e. p < e.position) (after p es)
      after-Later p [] = tt
      after-Later p (e ∷ es) = ground (arith, after-Later p es)

      result-Advances :
          (wait : Bool) (s : ReadModel T)
          → Advances c
              (process project by_event out_of_time)
              message
              meanwhile
              transaction-Guards
              (λ p. take (suc n) (after p log))
              s
              (result wait s)
      unfolding deliver_projected transaction
      result-Advances wait s =
          deliver-Advances c (process project by_event out_of_time) message meanwhile
            transaction-Guards (λ p. take (suc n) (after p log)) wait s
            (All-take (λ e. s.position < e.position) (suc n) (after s.position log)
              (after-Later s.position log))

      result_le : (wait : Bool) (s : ReadModel T) → s.position ≤ (result wait s).0.position
      unfolding transaction
      result_le wait s = advanced_le (result wait s) (result-Advances wait s)
        where
          advanced_le :
              (x : ReadModel T × Delivery)
              → Advances c
                  (process project by_event out_of_time)
                  message
                  meanwhile
                  transaction-Guards
                  (λ p. take (suc n) (after p log))
                  s
                  x
              → s.position ≤ x.0.position
          advanced_le (t, idle) h = omega (arith, h.1)
          advanced_le (t, busy) h = h
          advanced_le (t, held) h = h
          advanced_le (t, failed f) h = h
          advanced_le (t, advanced) h = omega (arith, h)
          advanced_le (t, moved) h = omega (arith, h)

      result_lt :
          (wait : Bool) (s : ReadModel T)
          → is_moving (result wait s).1 ≡ true
          → s.position < (result wait s).0.position
      unfolding transaction
      result_lt wait s moving = advanced_lt (result wait s) (result-Advances wait s) moving
        where
          advanced_lt :
              (x : ReadModel T × Delivery)
              → Advances c
                  (process project by_event out_of_time)
                  message
                  meanwhile
                  transaction-Guards
                  (λ p. take (suc n) (after p log))
                  s
                  x
              → is_moving x.1 ≡ true
              → s.position < x.0.position
          advanced_lt (t, advanced) h e = h
          advanced_lt (t, moved) h e = h
          advanced_lt (t, idle) h e = absurd (false≢true e)
          advanced_lt (t, busy) h e = absurd (false≢true e)
          advanced_lt (t, held) h e = absurd (false≢true e)
          advanced_lt (t, failed f) h e = absurd (false≢true e)

      abbrev pub Fair : CheckpointedSubscriber (World T) P M → Type 0
      Fair b = b ≡ subscriber

      module _ (backoff : DispatcherBackoff) (catch_up : DispatcherCatchUp) where
        -- Reads answer the next `n` events of the log and one more.
        abbrev pub setup : DispatcherSetup (World T) P M
        setup = record {
          read_all = λ w p size. take size (after p log);
          batch_size = suc n;
          backoff = backoff;
          catch_up = catch_up;
          clock = λ w. w.time;
          sleep = asleep;
        }

      module _ (backoff : DispatcherBackoff) (catch_up : DispatcherCatchUp)
          (polls : 0 < catch_up.poll_interval_ms) where
        abbrev Delivered :
            CheckpointedSubscriber (World T) P M → Bool → World T → World T × Result Delivery
        Delivered b wait w = delivered (setup backoff catch_up) b wait w

        subscriber_moves :
            (wait : Bool) (w : World T) (d : Delivery)
            → (Delivered subscriber wait w).1 ≡ ok d
            → is_moving d ≡ true
            → w.read_model.position < (Delivered subscriber wait w).0.read_model.position
        unfolding delivered subscriber
        subscriber_moves wait w d e moving =
            result_lt wait w.read_model (ap is_moving (ok-injective e) ∙ moving)

        pub subscriber-Laws : Laws (setup backoff catch_up) Fair
        unfolding asleep subscriber delivered
        subscriber-Laws = record {
          delivered_keeps = λ b c wait w fair fair'.
              subst (λ c. c.position w ≤ c.position (Delivered b wait w).0) (sym fair')
                (subst (λ b. w.read_model.position ≤ (Delivered b wait w).0.read_model.position)
                  (sym fair) (result_le wait w.read_model));
          delivered_moves = λ b wait w d fair.
              subst
                (λ b.
                  (Delivered b wait w).1 ≡ ok d
                  → is_moving d ≡ true
                  → b.position w < b.position (Delivered b wait w).0)
                (sym fair) (subscriber_moves wait w d);
          delivered_later = λ b wait w fair.
              subst (λ b. w.time ≤ (Delivered b wait w).0.time) (sym fair) (omega arith);
          sleep_keeps = λ c w fair.
              subst (λ c. c.position w ≤ c.position (asleep catch_up.poll_interval_ms w)) (sym fair)
                (others w.read_model);
          sleep_later = λ w. omega (arith, polls);
        }

      head_of-le : (q : ℕ) (es : List (StoredEvent P M)) → Ascending q es → q ≤ head_of q es
      head_of-le q [] h = omega arith
      head_of-le q (e ∷ es) h = omega (arith, h.0, head_of-le e.position es h.1)

      -- A position is at the head of the log or past it, or before an event of it.
      abbrev Standing : ℕ → ℕ → List (StoredEvent P M) → Type 0
      Standing p head left =
          ((left ≡ []) × (head ≤ p))
          ⊎ (((e : StoredEvent P M) × ((rest : List (StoredEvent P M)) × (left ≡ e ∷ rest)))
              × (p < head))

      standing :
          (p q : ℕ) (es : List (StoredEvent P M))
          → Ascending q es
          → q ≤ p
          → Standing p (head_of q es) (after p es)
      standing p q [] h le = inl (refl, le)
      standing p q (e ∷ es) h le = elim (Bool-cases (ltb p e.position)) [
        | inl new ↦ inr (
          (e, (after p es, ap (λ b. if b then e ∷ after p es else after p es) new)),
          omega (arith, ltb→lt p e.position new, head_of-le e.position es h.1),
        )
        | inr old ↦
            subst (λ xs. Standing p (head_of e.position es) xs)
              (sym (ap (λ b. if b then e ∷ after p es else after p es) old))
              (standing p e.position es h.1 (ltb→ge p e.position old))
      ]

      nothing_read :
          (wait : Bool) (s : ReadModel T) → after s.position log ≡ [] → (result wait s).1 ≡ idle
      unfolding deliver_projected deliver deliver_batch transaction
      nothing_read wait s none_left =
          ap
            (λ es.
              (deliver_batch c (process project by_event out_of_time) message meanwhile s.position
                (take (suc n) es) wait s).1)
            none_left

      result_below :
          (wait : Bool) (s : ReadModel T)
          → is_moving (result wait s).1 ≡ true
          → s.position < head_of 0 log
      result_below wait s moving = elim (standing s.position 0 log ascending (omega arith)) [
        | inl (none_left, le) ↦
            absurd (false≢true (sym (ap is_moving (nothing_read wait s none_left)) ∙ moving))
        | inr (there, less) ↦ less
      ]

      result_idle :
          (wait : Bool) (s : ReadModel T)
          → (result wait s).1 ≡ idle
          → head_of 0 log ≤ (result wait s).0.position
      unfolding transaction
      result_idle wait s e = idle_at (result wait s) (result-Advances wait s) e
        where
          idle_at :
              (x : ReadModel T × Delivery)
              → Advances c
                  (process project by_event out_of_time)
                  message
                  meanwhile
                  transaction-Guards
                  (λ p. take (suc n) (after p log))
                  s
                  x
              → x.1 ≡ idle
              → head_of 0 log ≤ x.0.position
          idle_at (t, idle) (empty, same) e =
              elim (standing s.position 0 log ascending (omega arith)) [
                | inl (none_left, le) ↦ omega (arith, le, same)
                | inr ((f, (rest, there)), less) ↦
                    absurd (cons≢nil (sym (ap (take (suc n)) there) ∙ empty))
              ]
          idle_at (t, busy) h e = absurd (false≢true (ap is_idle e))
          idle_at (t, held) h e = absurd (false≢true (ap is_idle e))
          idle_at (t, failed f) h e = absurd (false≢true (ap is_idle e))
          idle_at (t, advanced) h e = absurd (false≢true (ap is_idle e))
          idle_at (t, moved) h e = absurd (false≢true (ap is_idle e))

      module _ (backoff : DispatcherBackoff) (catch_up : DispatcherCatchUp)
          (b : CheckpointedSubscriber (World T) P M) (wait : Bool) (w : World T) where
        abbrev Answer : CheckpointedSubscriber (World T) P M → World T × Result Delivery
        Answer b = delivered (setup backoff catch_up) b wait w

        pub subscriber_below :
            (d : Delivery)
            → Fair b
            → (Answer b).1 ≡ ok d
            → is_moving d ≡ true
            → b.position w < head_of 0 log
        unfolding subscriber delivered
        subscriber_below d fair =
            subst (λ b. (Answer b).1 ≡ ok d → is_moving d ≡ true → b.position w < head_of 0 log)
              (sym fair)
              (λ e moving. result_below wait w.read_model (ap is_moving (ok-injective e) ∙ moving))

        pub subscriber_idle :
            Fair b → (Answer b).1 ≡ ok idle → head_of 0 log ≤ b.position (Answer b).0
        unfolding subscriber delivered
        subscriber_idle fair =
            subst (λ b. (Answer b).1 ≡ ok idle → head_of 0 log ≤ b.position (Answer b).0) (sym fair)
              (λ e. result_idle wait w.read_model (ok-injective e))
