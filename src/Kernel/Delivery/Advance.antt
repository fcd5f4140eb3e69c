-- ===== src/Kernel/Delivery/Advance.antt =====
-- kernel/dispatch/delivery.ts: what a delivery does to the checkpoint, by what it answers.
use mathlib.Core.Bool.{false≢true}
use mathlib.Core.Option.{some-injective}
use bounda.Prelude.{
  ℕ, zero, suc, ◌≤◌, ◌<◌, ◌≡◌, ◌≢◌, refl, sym, ◌∙◌, subst, String, Bool, true, false, Option, none,
  some, List, [], ◌∷◌, arith,
}
use bounda.Prelude.Tests.{◌==◌, nat_eq, nat_beq_iff, if_both, if_either}
use bounda.Prelude.Lists.{get_elem?, take, All, All-take}
use bounda.Contracts.Errors.{Failure}
use bounda.Contracts.Events.{StoredEvent}
use bounda.Kernel.Delivery.{
  Claiming, Processed, through, partial, threw, Ending, committed, not_acquired, stopped, failing,
  Delivery, idle, busy, advanced, held, moved, failed, last_done, moved_on, advance_to, settle,
  work, claimed, commit, salvage, salvaged, answered, attempt, deliver_batch, deliver,
}

-- What a transactional claim's checkpoint does: it is set where it is what the caller expects, rolled
-- back, and left alone by what the subscriber writes; others only move it on.
pub record Guards {S P M : Type 0} (c : Claiming S)
    (process : S → List (StoredEvent P M) → S × Processed) (meanwhile : S → S) : Type 0 where
  pub sets : (s t : S) (p q : ℕ) → c.compare_and_set s p q ≡ (t, true) → c.get t ≡ q
  pub refuses : (s t : S) (p q : ℕ) → c.compare_and_set s p q ≡ (t, false) → c.get s ≢ p
  pub undoes : (s t : S) → c.get (c.undo s t) ≡ c.get s
  pub processes : (s : S) (events : List (StoredEvent P M)) → c.get (process s events).0 ≡ c.get s
  pub others : (s : S) → c.get s ≤ c.get (meanwhile s)

All-get_elem? {ℓ κ} :
    {A : Type ℓ} (Q : A → Type κ) (xs : List A) (n : ℕ) (a : A)
    → All Q xs
    → get_elem? xs n ≡ some a
    → Q a
All-get_elem? Q [] n a h e = cc
All-get_elem? Q (x ∷ xs) zero a h e = subst Q (some-injective x a e) h.0
All-get_elem? Q (x ∷ xs) (suc n) a h e = All-get_elem? Q xs n a h.1 e

module _ {S P M : Type 0} (c : Claiming S) (process : S → List (StoredEvent P M) → S × Processed)
    (message : Failure → String) (meanwhile : S → S) (guards : Guards c process meanwhile) where
  open guards use {sets, refuses, undoes, processes, others}

  abbrev Later : ℕ → List (StoredEvent P M) → Type 0
  Later p events = All (λ e. p < e.position) events

  -- What a commit from a position leaves of the checkpoint.
  abbrev Committed : S → ℕ → S × Ending → Type 0
  Committed s p (t, committed) = (c.get s ≡ p) × (c.get s < c.get t)
  Committed s p (t, not_acquired) = c.get t ≡ c.get s
  Committed s p (t, stopped moved) = (c.get t ≡ c.get s) × (c.get s ≢ p)
  Committed s p (t, stopped held) = c.get t ≡ c.get s
  Committed s p (t, stopped _) = ⊥
  Committed s p (t, failing done e) = c.get t ≡ c.get s

  moved_on-Committed :
      (s t : S) (p q : ℕ) (x : S × Bool)
      → c.compare_and_set t p q ≡ x
      → c.get s ≡ p
      → c.get t ≡ c.get s
      → p < q
      → Committed s p (moved_on c process message meanwhile x)
  unfolding moved_on
  moved_on-Committed s t p q (u, true) e at kept less =
      (at, omega (arith, at, sets t u p q e, less))
  moved_on-Committed s t p q (u, false) e at kept less = absurd (refuses t u p q e (kept ∙ at))

  advance_to-Committed :
      (s t : S) (p : ℕ) (o : Option (StoredEvent P M))
      → c.get s ≡ p
      → c.get t ≡ c.get s
      → ((last : StoredEvent P M) → o ≡ some last → p < last.position)
      → Committed s p (advance_to c process message meanwhile t p o)
  unfolding advance_to
  advance_to-Committed s t p none at kept later = kept
  advance_to-Committed s t p (some last) at kept later =
      moved_on-Committed s t p last.position _ refl at kept (later last refl)

  last_done-Later :
      (p done : ℕ) (events : List (StoredEvent P M)) (last : StoredEvent P M)
      → Later p events
      → last_done c process message meanwhile done events ≡ some last
      → p < last.position
  unfolding last_done
  last_done-Later p zero events last later e = cc
  last_done-Later p (suc done) events last later e =
      All-get_elem? (λ e. p < e.position) events _ last later e

  settle-Committed :
      (s : S) (p : ℕ) (events : List (StoredEvent P M)) (x : S × Processed)
      → c.get s ≡ p
      → c.get x.0 ≡ c.get s
      → Later p events
      → Committed s p (settle c process message meanwhile p events x)
  unfolding settle
  settle-Committed s p events (t, through done) at kept later =
      advance_to-Committed s t p _ at kept (λ last e. last_done-Later p done events last later e)
  settle-Committed s p events (t, partial done f) at kept later = kept
  settle-Committed s p events (t, threw f) at kept later = kept

  work-Committed :
      (s : S) (p : ℕ) (events : List (StoredEvent P M))
      → Later p events
      → Committed s p (work c process message meanwhile p events s)
  unfolding work
  work-Committed s p events later =
      if_either (Committed s p) (c.get s == p)
        (λ same.
          settle-Committed s p events _ ((nat_beq_iff (c.get s) p).0 same) (processes s events)
            later)
        (λ other. (refl, λ same. false≢true (sym other ∙ (nat_beq_iff (c.get s) p).1 same)))

  claimed-Committed :
      (s : S) (p : ℕ) (x : S × Ending)
      → Committed s p x
      → Committed s p (claimed c process message meanwhile s x)
  unfolding claimed
  claimed-Committed s p (t, committed) h = unless_failed (c.commit_fails t)
    where
      unless_failed :
          (o : Option Failure)
          → Committed s p (elim o [ none ↦ (t, committed) | some e ↦ (c.undo s t, failing zero e) ])
      unless_failed none = h
      unless_failed (some e) = undoes s t
  claimed-Committed s p (t, not_acquired) h = undoes s t
  claimed-Committed s p (t, stopped moved) h = (undoes s t, h.1)
  claimed-Committed s p (t, stopped held) h = undoes s t
  claimed-Committed s p (t, stopped idle) h = h
  claimed-Committed s p (t, stopped busy) h = h
  claimed-Committed s p (t, stopped advanced) h = h
  claimed-Committed s p (t, stopped (failed f)) h = h
  claimed-Committed s p (t, failing done e) h = undoes s t

  commit-Committed :
      (s : S) (p : ℕ) (events : List (StoredEvent P M)) (wait : Bool)
      → Later p events
      → Committed s p (commit c process message meanwhile p events wait s)
  unfolding commit
  commit-Committed s p events wait later =
      if_both (Committed s p) (c.acquires s wait)
        (claimed-Committed s p _ (work-Committed s p events later)) refl

  Committed-le : (s : S) (p : ℕ) (x : S × Ending) → Committed s p x → c.get s ≤ c.get x.0
  Committed-le s p (t, committed) h = omega (arith, h.1)
  Committed-le s p (t, not_acquired) h = omega (arith, h)
  Committed-le s p (t, stopped moved) h = omega (arith, h.0)
  Committed-le s p (t, stopped held) h = omega (arith, h)
  Committed-le s p (t, stopped idle) h = absurd h
  Committed-le s p (t, stopped busy) h = absurd h
  Committed-le s p (t, stopped advanced) h = absurd h
  Committed-le s p (t, stopped (failed f)) h = absurd h
  Committed-le s p (t, failing done e) h = omega (arith, h)

  salvaged_le :
      (s : S) (p : ℕ) (events : List (StoredEvent P M)) (done : ℕ) (wait : Bool)
      → Later p events
      → c.get s ≤ c.get (salvaged c process message meanwhile p events done wait s)
  unfolding salvaged salvage
  salvaged_le s p events zero wait later = omega arith
  salvaged_le s p events (suc done) wait later = omega (
    arith,
    others s,
    Committed-le (meanwhile s) p _ (
        commit-Committed (meanwhile s) p (take (suc done) events) wait
          (All-take (λ e. p < e.position) (suc done) events later)),
  )

  -- What a delivery from a checkpoint leaves of it.
  abbrev pub Advances : (ℕ → List (StoredEvent P M)) → S → S × Delivery → Type 0
  Advances read s (t, idle) = (read (c.get s) ≡ []) × (c.get t ≡ c.get s)
  Advances read s (t, advanced) = c.get s < c.get t
  Advances read s (t, moved) = c.get s < c.get t
  Advances read s (t, _) = c.get s ≤ c.get t

  answered-Advances :
      (read : ℕ → List (StoredEvent P M)) (s v : S) (events : List (StoredEvent P M))
      (first : StoredEvent P M) (wait : Bool) (x : S × Ending)
      → c.get s ≤ c.get v
      → Later (c.get s) events
      → Committed v (c.get s) x
      → Advances read s (answered c process message meanwhile (c.get s) events first wait x)
  unfolding answered
  answered-Advances read s v events first wait (t, committed) le later h = omega (arith, le, h.1)
  answered-Advances read s v events first wait (t, not_acquired) le later h = omega (arith, le, h)
  answered-Advances read s v events first wait (t, stopped moved) le later h =
      omega (arith, le, h.0, h.1)
  answered-Advances read s v events first wait (t, stopped held) le later h = omega (arith, le, h)
  answered-Advances read s v events first wait (t, stopped idle) le later h = absurd h
  answered-Advances read s v events first wait (t, stopped busy) le later h = absurd h
  answered-Advances read s v events first wait (t, stopped advanced) le later h = absurd h
  answered-Advances read s v events first wait (t, stopped (failed f)) le later h = absurd h
  answered-Advances read s v events first wait (t, failing done e) le later h =
      omega (arith, le, h, salvaged_le t (c.get s) events done wait later)

  deliver_batch-Advances :
      (read : ℕ → List (StoredEvent P M)) (s : S) (events : List (StoredEvent P M)) (wait : Bool)
      → read (c.get s) ≡ events
      → Later (c.get s) events
      → Advances read s (deliver_batch c process message meanwhile (c.get s) events wait s)
  unfolding deliver_batch attempt
  deliver_batch-Advances read s [] wait e later = (e, refl)
  deliver_batch-Advances read s (first ∷ events) wait e later =
      answered-Advances read s (meanwhile s) (first ∷ events) first wait _ (others s) later
        (commit-Committed (meanwhile s) (c.get s) (first ∷ events) wait later)

  -- Under a claim that keeps to `Guards`, where the read answers events past the position it is given,
  -- the checkpoint never moves back; a
  -- delivery that is idle read no event and left it, and one that advanced or found it moved by
  -- someone else has it past where the delivery began.
  pub deliver-Advances :
      (read : ℕ → List (StoredEvent P M)) (wait : Bool) (s : S)
      → All (λ e. c.get s < e.position) (read (c.get s))
      → Advances read s (deliver c process message meanwhile read wait s)
  unfolding deliver
  deliver-Advances read wait s later =
      deliver_batch-Advances read s (read (c.get s)) wait refl later
