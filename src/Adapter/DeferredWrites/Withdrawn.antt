-- ===== src/Adapter/DeferredWrites/Withdrawn.antt =====
-- adapter/deferred-writes.ts: a flush writes what was held back, in order, and nothing that was
-- withdrawn.
use bounda.Prelude.{◌≡◌, refl, ap, sym, ◌∙◌, String, Bool, none, List, [], ◌∷◌, ◌++◌, map, arith}
use mathlib.Core.List.{append_assoc, append-nil}
use bounda.Prelude.Tests.{if◌then◌else◌, ◌==◌, string_eq}
use bounda.Prelude.Lists.{any}
use bounda.Prelude.Dict.{get, delete, get-delete}
use bounda.Contracts.Errors.{Result, ok, err, ◌>>=◌, bind-eq-ok, ok-injective}
use bounda.Contracts.Events.{KeyedPerson}
use bounda.Memory.Scheduler
use bounda.Memory.Scheduler.{ScheduleArgs, ScheduledCommand, Json}
use bounda.Adapter.DeferredWrites.{
  as_scheduled, Write, Deferred, Target, later, cancel_each, cancel_command, named_commands,
  withdraw_scheduled, run_write, flush,
}

module _ {J C P O : Type 0} where
  cancels : List (ScheduleArgs J C) → List (Write J C P O)
  cancels [] = []
  cancels (args ∷ named) = cancel_command args.dedupe_key ∷ cancels named

  recorded-cancel_each :
      (d : Deferred J C P O) (named : List (ScheduleArgs J C))
      → (cancel_each d named).recorded ≡ d.recorded ++ cancels named
  unfolding cancel_each later cancels
  recorded-cancel_each d [] = sym (append-nil d.recorded)
  recorded-cancel_each d (args ∷ named) =
      recorded-cancel_each
        (record d {
          scheduled = delete d.scheduled args.dedupe_key;
          recorded = d.recorded ++ cancel_command args.dedupe_key ∷ [];
        })
        named
      ∙ append_assoc d.recorded (cancel_command args.dedupe_key ∷ []) (cancels named)

abbrev pub withdrawn_key : {J C : Type 0} → String → List (ScheduledCommand J C) → Bool
withdrawn_key key = any (λ c. c.dedupe_key == key)

bind_assoc :
    {A B D : Type 0} (r : Result A) (f : A → Result B) (g : B → Result D)
    → ((r >>= f) >>= g) ≡ (r >>= λ a. f a >>= g)
bind_assoc (ok a) f g = refl
bind_assoc (err e) f g = refl

bind_same :
    {A B : Type 0} (r : Result A) {f g : A → Result B}
    → ((a : A) → f a ≡ g a)
    → (r >>= f) ≡ (r >>= g)
bind_same (ok a) h = h a
bind_same (err e) h = refl

module _ {J C P O : Type 0} (json : Json J C) (payload_copy : P → P) (outcome_copy : O → O)
    (holds : KeyedPerson → Bool) where
  abbrev run : Target J C P O → List (Write J C P O) → Result (Target J C P O)
  run = flush json payload_copy outcome_copy holds

  flush-append :
      (t : Target J C P O) (xs ys : List (Write J C P O))
      → run t (xs ++ ys) ≡ (run t xs >>= λ u. run u ys)
  unfolding flush
  flush-append t [] ys = refl
  flush-append t (x ∷ xs) ys =
      bind_same (run_write json payload_copy outcome_copy holds t x) (λ u. flush-append u xs ys)
      ∙ sym (
          bind_assoc (run_write json payload_copy outcome_copy holds t x) (λ u. run u xs)
            (λ u. run u ys))

  cancel_all : Scheduler.Store J C → List (ScheduleArgs J C) → Scheduler.Store J C
  cancel_all s [] = s
  cancel_all s (args ∷ named) = cancel_all (Scheduler.cancel s args.dedupe_key) named

  flush-cancels :
      (t : Target J C P O) (named : List (ScheduleArgs J C))
      → run t (cancels named) ≡ ok (record t { scheduler = cancel_all t.scheduler named })
  unfolding flush run_write cancels cancel_all
  flush-cancels t [] = refl
  flush-cancels t (args ∷ named) =
      flush-cancels (record t { scheduler = Scheduler.cancel t.scheduler args.dedupe_key }) named

  get-cancel_all :
      (s : Scheduler.Store J C) (named : List (ScheduleArgs J C)) (key : String)
      → get (cancel_all s named) key
        ≡ (if withdrawn_key key (map as_scheduled named) then none else get s key)
  unfolding cancel_all Scheduler.cancel as_scheduled
  get-cancel_all s [] key = refl
  get-cancel_all s (args ∷ named) key = ground (
    arith,
    get-cancel_all (Scheduler.cancel s args.dedupe_key) named key,
    get-delete s args.dedupe_key key,
  )

  -- What was withdrawn, as a forget withdraws what names a person, is never scheduled: a flush that
  -- succeeds after it does what the flush of the writes before it would have done, except that the
  -- scheduler holds nothing under the key of any command that the withdrawal answered.
  pub withdrawn_never_scheduled :
      (t t' : Target J C P O) (d : Deferred J C P O) (person : String)
      → run t (withdraw_scheduled d person).0.recorded ≡ ok t'
      → (u : Target J C P O) × (run t d.recorded ≡ ok u)
        × (t' ≡ record u { scheduler = t'.scheduler })
        × ((key : String)
            → get t'.scheduler key ≡ (
                if withdrawn_key key (withdraw_scheduled d person).1
                then none
                else get u.scheduler key))
  unfolding withdraw_scheduled
  withdrawn_never_scheduled t t' d person h =
      let named : List (ScheduleArgs J C) = named_commands d person in
      let split : (run t d.recorded >>= λ u. run u (cancels named)) ≡ ok t' =
        sym (ap (run t) (recorded-cancel_each d named) ∙ flush-append t d.recorded (cancels named))
        ∙ h in
      let (u, before, after) = bind-eq-ok (run t d.recorded) (λ u. run u (cancels named)) split in
      let e : record u { scheduler = cancel_all u.scheduler named } ≡ t' =
        ok-injective (sym (flush-cancels u named) ∙ after) in
      (
        u,
        before,
        cc,
        λ key.
            ap (λ (x : Target J C P O). get x.scheduler key) (sym e)
            ∙ get-cancel_all u.scheduler named key,
      )
