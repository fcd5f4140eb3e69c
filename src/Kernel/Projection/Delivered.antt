-- ===== src/Kernel/Projection/Delivered.antt =====
-- kernel/projection/runner.ts over kernel/dispatch/delivery.ts: every event is applied exactly once.
use bounda.Prelude.{
  ℕ, zero, suc, ◌≤◌, ◌<◌, ◌≡◌, refl, ap, sym, ◌∙◌, subst, String, Bool, Option, none, some, List,
  [], ◌∷◌, arith,
}
use bounda.Prelude.Tests.{◌==◌, nat_eq, nat_beq_iff, if_both, if_either}
use bounda.Prelude.Lists.{length, get_elem?, take}
use bounda.Prelude.Dict.{Dict}
use bounda.Contracts.Errors.{Failure}
use bounda.Contracts.Events.{StoredEvent}
use bounda.Kernel.Delivery.{
  Claiming, Processed, through, partial, threw, Ending, committed, not_acquired, stopped, failing,
  last_done, moved_on, advance_to, settle, work, claimed, commit, salvage, salvaged, answered,
  attempt, deliver_batch, deliver,
}
use bounda.Kernel.Projection.{ReadModel, project_batch, process, transaction, deliver_projected}
use bounda.Kernel.Projection.Once.{
  Ascending, up_to, after, up_to_advanced, take-take, get_elem?-take, replay, then_replay,
  replay-append, WentThrough, project_from-WentThrough,
}

module _ {T R P M : Type 0} (project : R → T → StoredEvent P M → T × Option Failure)
    (by_event : Dict String (List R)) (out_of_time : ℕ → List (StoredEvent P M) → Bool)
    (acquires : ReadModel T → Bool → Bool) (commit_fails : ReadModel T → Option Failure)
    (message : Failure → String) (meanwhile : ReadModel T → ReadModel T) (empty : T)
    (log : List (StoredEvent P M)) (ascending : Ascending 0 log) where
  -- The rows are what projecting every event of the log up to the checkpoint, each once and in order,
  -- makes of an empty read model.
  unfoldable pub AppliedOnce : ReadModel T → Type 0
  AppliedOnce s = replay project by_event out_of_time empty (up_to s.position log) ≡ some s.rows

  abbrev c : Claiming (ReadModel T)
  c = transaction project by_event out_of_time acquires commit_fails

  -- What a commit that went through leaves.
  abbrev Moves : ReadModel T → ReadModel T × Ending → Type 0
  Moves s (t, committed) = AppliedOnce t × (s.position < t.position)
  Moves s (t, not_acquired) = Unit
  Moves s (t, stopped outcome) = Unit
  Moves s (t, failing done e) = Unit

  abbrev IsBatch : ReadModel T → List (StoredEvent P M) → Type 0
  IsBatch s events = (n : ℕ) × (events ≡ take n (after s.position log))

  moved_rows :
      (s : ReadModel T) (t' : T) (n d : ℕ) (last : StoredEvent P M)
      → AppliedOnce s
      → suc d ≤ length (take n (after s.position log))
      → replay project by_event out_of_time s.rows (take (suc d) (take n (after s.position log)))
        ≡ some t'
      → get_elem? (take n (after s.position log)) d ≡ some last
      → AppliedOnce (record { position = last.position; rows = t' }) × (s.position < last.position)
  unfolding AppliedOnce
  moved_rows s t' n d last applied le replayed there =
      let (split, ahead) =
        up_to_advanced d s.position 0 log last ascending
          (sym (get_elem?-take d n (after s.position log) (omega arith)) ∙ there) in
      (
        ap (replay project by_event out_of_time empty) split
            ∙ replay-append project by_event out_of_time empty (up_to s.position log)
                (take (suc d) (after s.position log))
            ∙ ap
                (λ o.
                  then_replay project by_event out_of_time o (take (suc d) (after s.position log)))
                applied
            ∙ ap (replay project by_event out_of_time s.rows)
                (sym (take-take (suc d) n (after s.position log) le))
            ∙ replayed,
        ahead,
      )

  advance_to-Moves :
      (s : ReadModel T) (t' : T) (events : List (StoredEvent P M)) (d : ℕ)
      (o : Option (StoredEvent P M))
      → AppliedOnce s
      → IsBatch s events
      → suc d ≤ length events
      → replay project by_event out_of_time s.rows (take (suc d) events) ≡ some t'
      → get_elem? events d ≡ o
      → Moves s (
          advance_to c
            (process project by_event out_of_time)
            message
            meanwhile
            (record s { rows = t' })
            s.position
            o)
  unfolding advance_to moved_on transaction
  advance_to-Moves s t' events d none applied b le replayed there = tt
  advance_to-Moves s t' events d (some last) applied (n, e) le replayed there =
      if_both
        (λ (x : ReadModel T × Bool).
          Moves s (moved_on c (process project by_event out_of_time) message meanwhile x))
        (s.position == s.position)
        (moved_rows s t' n d last applied (rw (← e) le) (rw (← e) replayed) (rw (← e) there)) tt

  last_done_lem :
      (d : ℕ) (events : List (StoredEvent P M))
      → suc d ≤ length events
      → last_done c (process project by_event out_of_time) message meanwhile (suc d) events
        ≡ get_elem? events d
  unfolding last_done
  last_done_lem d events le = ap (get_elem? events) (omega arith)

  settle-Moves :
      (s : ReadModel T) (events : List (StoredEvent P M)) (x : T × Processed)
      → AppliedOnce s
      → IsBatch s events
      → WentThrough project by_event out_of_time s.rows 0 events x
      → Moves s (
          settle c
            (process project by_event out_of_time)
            message
            meanwhile
            s.position
            events
            (record s { rows = x.0 }, x.1))
  unfolding settle
  settle-Moves s events (t', partial n e) applied b w = tt
  settle-Moves s events (t', threw e) applied b w = tt
  settle-Moves s events (t', through zero) applied b w = unfold last_done advance_to in tt
  settle-Moves s events (t', through (suc d)) applied b (k, same, le, replayed) =
      let e : k ≡ suc d = omega (arith, same) in
      let le' : suc d ≤ length events = omega (arith, le, e) in
      subst
        (λ o. Moves s (
          advance_to c (process project by_event out_of_time) message meanwhile
            (record s { rows = t' }) s.position o))
        (sym (last_done_lem d events le'))
        (advance_to-Moves s t' events d (get_elem? events d) applied b le'
          (subst (λ j. replay project by_event out_of_time s.rows (take j events) ≡ some t') e
            replayed)
          refl)

  work-Moves :
      (s : ReadModel T) (p : ℕ) (events : List (StoredEvent P M))
      → AppliedOnce s
      → (n : ℕ) × (events ≡ take n (after p log))
      → Moves s (work c (process project by_event out_of_time) message meanwhile p events s)
  unfolding work transaction process project_batch
  work-Moves s p events applied (n, e) =
      if_either (Moves s) (s.position == p)
        (λ same.
          let q : s.position ≡ p = (nat_beq_iff s.position p).0 same in
          subst
            (λ j. Moves s (
              settle c (process project by_event out_of_time) message meanwhile j events
                (process project by_event out_of_time s events)))
            q
            (settle-Moves s events _ applied (n, e ∙ ap (λ j. take n (after j log)) (sym q))
              (project_from-WentThrough project by_event out_of_time 0 s.rows events)))
        (λ other. tt)

  claimed-Applied :
      (s : ReadModel T) (x : ReadModel T × Ending)
      → AppliedOnce s
      → Moves s x
      → let y = claimed c (process project by_event out_of_time) message meanwhile s x in
        AppliedOnce y.0 × (s.position ≤ y.0.position)
  unfolding claimed transaction
  claimed-Applied s (t, committed) applied m = unless_failed (commit_fails t)
    where
      unless_failed :
          (o : Option Failure)
          → let y : ReadModel T × Ending = elim o [
            | none ↦ (t, committed)
            | some e ↦ (s, failing zero e)
          ] in
            AppliedOnce y.0 × (s.position ≤ y.0.position)
      unless_failed none = (m.0, omega (arith, m.1))
      unless_failed (some e) = (applied, omega arith)
  claimed-Applied s (t, not_acquired) applied m = (applied, omega arith)
  claimed-Applied s (t, stopped outcome) applied m = (applied, omega arith)
  claimed-Applied s (t, failing done e) applied m = (applied, omega arith)

  commit-Applied :
      (s : ReadModel T) (p : ℕ) (events : List (StoredEvent P M)) (wait : Bool)
      → AppliedOnce s
      → (n : ℕ) × (events ≡ take n (after p log))
      → let y = commit c (process project by_event out_of_time) message meanwhile p events wait s in
        AppliedOnce y.0 × (s.position ≤ y.0.position)
  unfolding commit AppliedOnce transaction
  commit-Applied s p events wait applied b =
      if_both (λ (y : ReadModel T × Ending). AppliedOnce y.0 × (s.position ≤ y.0.position))
        (acquires s wait) (claimed-Applied s _ applied (work-Moves s p events applied b))
        (applied, omega arith)

  -- What a step does at most: it keeps the rows in line with the checkpoint, which never moves back.
  unfoldable pub Keeps : ReadModel T → ReadModel T → Type 0
  Keeps s t = AppliedOnce s → AppliedOnce t × (s.position ≤ t.position)

  take-of_take :
      (k n : ℕ) (es : List (StoredEvent P M)) → (m : ℕ) × (take k (take n es) ≡ take m es)
  take-of_take zero n es = (0, refl)
  take-of_take (suc k) zero es = (0, refl)
  take-of_take (suc k) (suc n) [] = (0, refl)
  take-of_take (suc k) (suc n) (e ∷ es) =
      let (m, same) = take-of_take k n es in (suc m, ap (λ xs. e ∷ xs) same)

  module _ (others : (s : ReadModel T) → Keeps s (meanwhile s)) where
    others_lem :
        (s : ReadModel T)
        → AppliedOnce s
        → AppliedOnce (meanwhile s) × (s.position ≤ (meanwhile s).position)
    unfolding Keeps
    others_lem s applied = others s applied

    salvaged-Applied :
        (s : ReadModel T) (p : ℕ) (events : List (StoredEvent P M)) (done : ℕ) (wait : Bool)
        → AppliedOnce s
        → (n : ℕ) × (events ≡ take n (after p log))
        → let t =
            salvaged c
              (process project by_event out_of_time)
              message
              meanwhile
              p
              events
              done
              wait
              s in
          AppliedOnce t × (s.position ≤ t.position)
    unfolding salvaged salvage
    salvaged-Applied s p events zero wait applied b = (applied, omega arith)
    salvaged-Applied s p events (suc d) wait applied (n, e) =
        let (m, same) = take-of_take (suc d) n (after p log) in
        let (waited, le) = others_lem s applied in
        let (kept, le') =
          commit-Applied (meanwhile s) p (take (suc d) events) wait waited
            (m, ap (take (suc d)) e ∙ same) in
        (kept, omega (arith, le, le'))

    answered-Applied :
        (s : ReadModel T) (p : ℕ) (events : List (StoredEvent P M)) (first : StoredEvent P M)
        (wait : Bool) (x : ReadModel T × Ending)
        → (n : ℕ) × (events ≡ take n (after p log))
        → AppliedOnce x.0 × (s.position ≤ x.0.position)
        → let t =
            answered c
              (process project by_event out_of_time)
              message
              meanwhile
              p
              events
              first
              wait
              x in
          AppliedOnce t.0 × (s.position ≤ t.0.position)
    unfolding answered
    answered-Applied s p events first wait (t, committed) b h = h
    answered-Applied s p events first wait (t, not_acquired) b h = h
    answered-Applied s p events first wait (t, stopped outcome) b h = h
    answered-Applied s p events first wait (t, failing done e) b (applied, le) =
        let (kept, le') = salvaged-Applied t p events done wait applied b in
        (kept, omega (arith, le, le'))

    deliver_batch-Applied :
        (s : ReadModel T) (p : ℕ) (events : List (StoredEvent P M)) (wait : Bool)
        → AppliedOnce s
        → (n : ℕ) × (events ≡ take n (after p log))
        → let t =
            deliver_batch c
              (process project by_event out_of_time)
              message
              meanwhile
              p
              events
              wait
              s in
          AppliedOnce t.0 × (s.position ≤ t.0.position)
    unfolding deliver_batch attempt
    deliver_batch-Applied s p [] wait applied b = (applied, omega arith)
    deliver_batch-Applied s p (first ∷ events) wait applied b =
        let (waited, le) = others_lem s applied in
        let (kept, le') = commit-Applied (meanwhile s) p (first ∷ events) wait waited b in
        answered-Applied s p (first ∷ events) first wait _ b (kept, omega (arith, le, le'))

    -- Where a log's positions ascend, a read answers the next events of it, however many, and what
    -- others do meanwhile keeps the rows in line with the checkpoint: a delivery to the projections of
    -- a read model keeps them so, whether the claim is had, a projection throws, the time runs out, the
    -- checkpoint has moved or the commit fails, and the checkpoint never moves back.
    pub deliver_projected-AppliedOnce :
        (read : ℕ → List (StoredEvent P M)) (wait : Bool) (s : ReadModel T)
        → ((p : ℕ) → (n : ℕ) × (read p ≡ take n (after p log)))
        → AppliedOnce s
        → let t =
            (deliver_projected project by_event out_of_time acquires commit_fails message meanwhile
              read wait s).0 in
          AppliedOnce t × (s.position ≤ t.position)
    unfolding deliver_projected deliver
    deliver_projected-AppliedOnce read wait s reads applied =
        deliver_batch-Applied s s.position (read s.position) wait applied (reads s.position)
