-- ===== src/Kernel/InOrder/Overtaking.antt =====
-- kernel/shared/in-order.ts: no event overtakes one that a reaction holds, and the count answered is
-- that of the leading events every reaction is done with.
use text.Mathlib.TextEquality.{eq_iff}
use bounda.Prelude.{
  ℕ, suc, ◌≤◌, ◌≡◌, refl, ◌∙◌, String, Bool, true, false, ◌&&◌, ◌||◌, not, List, [], ◌∷◌, arith,
  inl, inr,
}
use bounda.Prelude.Tests.{leb, ◌==◌, string_eq, nat_eq, Bool-cases}
use bounda.Prelude.Lists.{length, contains, contains-add, any, All}
use bounda.Prelude.Dict.{Dict}
use bounda.Contracts.Events.{StoredEvent}
use bounda.Kernel.InOrder.{
  ReactionOutcome, done, hold, Call, Progress, called, deliver_to, deliver_event, deliver_events,
  deliver_in_order, reactions_to,
}

abbrev pub is_hold : ReactionOutcome → Bool
is_hold done = false
is_hold hold = true

abbrev pub held_call : String → Call → Bool
held_call reaction c = c.reaction == reaction && is_hold c.outcome

abbrev pub done_call : ℕ → String → Call → Bool
done_call index reaction c = c.index == index && c.reaction == reaction && not (is_hold c.outcome)

-- No reaction is called again after it held an event.
abbrev pub NoOvertaking : List Call → Type 0
NoOvertaking [] = Unit
NoOvertaking (c ∷ earlier) = (any (held_call c.reaction) earlier ≡ false) × NoOvertaking earlier

abbrev pub hold_at : ℕ → Call → Bool
hold_at index c = c.index == index && is_hold c.outcome

-- While the event of the index is delivered, of `n` events.
record Invariant (n index : ℕ) (p : Progress) : Type 0 where
  ordered : NoOvertaking p.calls
  held_iff : (reaction : String) → any (held_call reaction) p.calls ≡ contains reaction p.held
  held_leading : (reaction : String) → contains reaction p.held ≡ true → p.leading ≤ index
  exact : (p.leading == n || any (hold_at p.leading) p.calls) ≡ true
  bounded : p.leading ≤ n

-- What later calls keep.
record Grows (p q : Progress) : Type 0 where
  leading_le : q.leading ≤ p.leading
  calls_kept :
      (index : ℕ) (reaction : String)
      → any (done_call index reaction) p.calls ≡ true
      → any (done_call index reaction) q.calls ≡ true

Grows-refl : (p : Progress) → Grows p p
Grows-refl p = record { leading_le = omega arith; calls_kept = λ i r h. h }

Grows-trans : {p q r : Progress} → Grows p q → Grows q r → Grows p r
Grows-trans a b = record {
  leading_le = omega (arith, a.leading_le, b.leading_le);
  calls_kept = λ i r h. b.calls_kept i r (a.calls_kept i r h);
}

module _ {R : Type 0} (name : R → String) where
  -- The reaction is done with the event, or the event is not among the leading ones.
  abbrev pub Covered : ℕ → Progress → List R → Type 0
  Covered index p =
      All (λ r. (any (done_call index (name r)) p.calls || leb p.leading index) ≡ true)

  Covered-Grows :
      (index : ℕ) {p q : Progress} (rs : List R)
      → Grows p q
      → Covered index p rs
      → Covered index q rs
  Covered-Grows index [] g h = tt
  Covered-Grows index (r ∷ rs) g h =
      (ground (arith, g.leading_le, g.calls_kept index (name r), h.0), Covered-Grows index rs g h.1)

module _ {S R P M : Type 0} (name : R → String)
    (deliver : S → R → StoredEvent P M → S × ReactionOutcome) (n : ℕ) where
  called-Invariant :
      (index : ℕ) (p : Progress) (r : R) (outcome : ReactionOutcome)
      → contains (name r) p.held ≡ false
      → Invariant n index p
      → Invariant n index (called name deliver index r p outcome)
  unfolding called
  called-Invariant index p r done free i = record {
    ordered = (i.held_iff (name r) ∙ free, i.ordered);
    held_iff = λ q. ground (arith, i.held_iff q);
    held_leading = i.held_leading;
    exact = ground (arith, i.exact);
    bounded = i.bounded;
  }
  called-Invariant index p r hold free i = record {
    ordered = (i.held_iff (name r) ∙ free, i.ordered);
    held_iff = λ q. ground (arith, i.held_iff q, contains-add (name r) q p.held);
    held_leading = λ q h. omega arith;
    exact = ground (arith, i.exact);
    bounded = omega (arith, i.bounded);
  }

  called-Grows :
      (index : ℕ) (p : Progress) (r : R) (outcome : ReactionOutcome)
      → Grows p (called name deliver index r p outcome)
  unfolding called
  called-Grows index p r done = record {
    leading_le = omega arith;
    calls_kept = λ i q h. ground (arith, h);
  }
  called-Grows index p r hold = record {
    leading_le = omega arith;
    calls_kept = λ i q h. ground (arith, h);
  }

  called-Covered :
      (index : ℕ) (p : Progress) (r : R) (outcome : ReactionOutcome)
      → (any (done_call index (name r)) (called name deliver index r p outcome).calls
          || leb (called name deliver index r p outcome).leading index)
        ≡ true
  unfolding called
  called-Covered index p r done = ground (arith, eq_iff (name r) (name r))
  called-Covered index p r hold = ground arith

  Next : ℕ → Progress → R → Progress → Type 0
  Next index p r q =
      Invariant n index q
      × Grows p q
      × ((any (done_call index (name r)) q.calls || leb q.leading index) ≡ true)

  deliver_to-Next :
      (index : ℕ) (event : StoredEvent P M) (sp : S × Progress) (r : R)
      → Invariant n index sp.1
      → Next index sp.1 r (deliver_to name deliver index event sp r).1
  unfolding deliver_to Next
  deliver_to-Next index event (s, p) r i = elim (Bool-cases (contains (name r) p.held)) [
    | inl held ↦ rw held (i, Grows-refl p, ground (arith, i.held_leading (name r) held))
    | inr free ↦
        let outcome : ReactionOutcome = (deliver s r event).1 in
        rw free (
          called-Invariant index p r outcome free i,
          called-Grows index p r outcome,
          called-Covered index p r outcome,
        )
  ]

  deliver_event-Next :
      (index : ℕ) (event : StoredEvent P M) (sp : S × Progress) (rs : List R)
      → Invariant n index sp.1
      → Invariant n index (deliver_event name deliver index event sp rs).1
        × Grows sp.1 (deliver_event name deliver index event sp rs).1
        × Covered name index (deliver_event name deliver index event sp rs).1 rs
  unfolding deliver_event Next
  deliver_event-Next index event sp [] i = (i, Grows-refl sp.1, tt)
  deliver_event-Next index event sp (r ∷ rs) i =
      let (i', g, own) = deliver_to-Next index event sp r i in
      let (i'', g', others) =
        deliver_event-Next index event (deliver_to name deliver index event sp r) rs i' in
      (i'', Grows-trans g g', ((Covered-Grows name index (r ∷ []) g' (own, tt)).0, others))

  module _ (by_event : Dict String (List R)) where
    -- Each event from the index on: every reaction to it is done with it, or it is not leading.
    abbrev pub CoveredFrom : ℕ → Progress → List (StoredEvent P M) → Type 0
    CoveredFrom index p [] = Unit
    CoveredFrom index p (e ∷ es) =
        Covered name index p (reactions_to name deliver by_event e) × CoveredFrom (suc index) p es

    later : {p : Progress} (index : ℕ) → Invariant n index p → Invariant n (suc index) p
    later index i = record {
      ordered = i.ordered;
      held_iff = i.held_iff;
      held_leading = λ r h. omega (arith, i.held_leading r h);
      exact = i.exact;
      bounded = i.bounded;
    }

    deliver_events-Next :
        (index : ℕ) (sp : S × Progress) (es : List (StoredEvent P M))
        → Invariant n index sp.1
        → (last : ℕ) × Invariant n last (deliver_events name deliver by_event index sp es).1
          × Grows sp.1 (deliver_events name deliver by_event index sp es).1
          × CoveredFrom index (deliver_events name deliver by_event index sp es).1 es
    unfolding deliver_events
    deliver_events-Next index sp [] i = (index, i, Grows-refl sp.1, tt)
    deliver_events-Next index sp (e ∷ es) i =
        let rs : List R = reactions_to name deliver by_event e in
        let next : S × Progress = deliver_event name deliver index e sp rs in
        let (i', g, here) = deliver_event-Next index e sp rs i in
        let (last, i'', g', others) = deliver_events-Next (suc index) next es (later index i') in
        (last, i'', Grows-trans g g', (Covered-Grows name index rs g' here, others))

module _ {S R P M : Type 0} (name : R → String)
    (deliver : S → R → StoredEvent P M → S × ReactionOutcome)
    (by_event : Dict String (List R)) where
  -- However `deliver` answers: no reaction is delivered anything after it held an event; every
  -- reaction to each of the leading events that the answer counts was delivered it and is done with
  -- it; and the answer counts all the events, or up to the first event that a reaction held.
  pub deliver_in_order-IsOrdered :
      (s : S) (events : List (StoredEvent P M))
      → let p = (deliver_in_order name deliver by_event s events).1 in
        NoOvertaking p.calls
        × CoveredFrom name deliver (length events) by_event 0 p events
        × (p.leading ≤ length events)
        × ((p.leading == length events || any (hold_at p.leading) p.calls) ≡ true)
  unfolding deliver_in_order
  deliver_in_order-IsOrdered s events =
      let (last, i, g, covered) =
        deliver_events-Next name deliver (length events) by_event 0
          (s, record { held = []; leading = length events; calls = [] }) events
          (record {
            ordered = tt;
            held_iff = λ r. refl;
            held_leading = λ r h. absurd (cc);
            exact = ground arith;
            bounded = omega arith;
          }) in
      (i.ordered, covered, i.bounded, i.exact)
