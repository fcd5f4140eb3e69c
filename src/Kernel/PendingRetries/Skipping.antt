-- ===== src/Kernel/PendingRetries/Skipping.antt =====
-- kernel/shared/pending-retries.ts: the clock moves to the first moment at which something falls due.
use bounda.Prelude.{
  ◌⊎◌, min, subst, ℕ, ◌≤◌, ◌<◌, ◌≡◌, refl, ap, sym, ◌∙◌, true, false, Option, none, some, List, [],
  ◌∷◌, ◌++◌, arith, inl, inr,
}
use bounda.Prelude.Tests.{leb, leb→le, leb→gt, Bool-cases, if◌then◌else◌}
use bounda.Kernel.PendingRetries.{
  PendingRetries, after_now, least, skip_target, skip_first, skip_to_next,
}

abbrev pub Among : ℕ → List ℕ → Type 0
Among at [] = ⊥
Among at (other ∷ others) = (at ≡ other) ⊎ Among at others

-- What falls due: a reaction's retry, a command's retry still to come, a scheduled command to come.
pub data FallsDue (p : PendingRetries) (now : ℕ) (scheduled retried : Option ℕ) (at : ℕ)
    : Type 0 where
  reaction : Among at p.due → FallsDue p now scheduled retried at
  command : retried ≡ some at → now < at → FallsDue p now scheduled retried at
  next_command : scheduled ≡ some at → now < at → FallsDue p now scheduled retried at

least_le : (at first : ℕ) (others : List ℕ) → Among at (first ∷ others) → least first others ≤ at
unfolding least
least_le at first [] (inl e) = omega arith
least_le at first [] (inr m) = elim m [ ]
least_le at first (other ∷ others) (inl e) = omega arith
least_le at first (other ∷ others) (inr m) =
    let h : least other others ≤ at = least_le at other others m in omega arith

least-Among : (first : ℕ) (others : List ℕ) → Among (least first others) (first ∷ others)
unfolding least
least-Among first [] = inl refl
least-Among first (other ∷ others) =
    let rest : ℕ = least other others in
    elim (Bool-cases (leb first rest)) [
      | inl h ↦
          let k : first ≤ rest = leb→le first rest h in
          let e : min first rest ≡ first = omega arith in inl e
      | inr h ↦
          let k : rest < first = leb→gt first rest h in
          let e : rest ≡ min first rest = omega arith in
          inr (subst (λ at. Among at (other ∷ others)) e (least-Among other others))
    ]

Among-append_left : (at : ℕ) (xs ys : List ℕ) → Among at xs → Among at (xs ++ ys)
Among-append_left at [] ys m = elim m [ ]
Among-append_left at (x ∷ xs) ys (inl e) = inl e
Among-append_left at (x ∷ xs) ys (inr m) = inr (Among-append_left at xs ys m)

Among-append_right : (at : ℕ) (xs ys : List ℕ) → Among at ys → Among at (xs ++ ys)
Among-append_right at [] ys m = m
Among-append_right at (x ∷ xs) ys m = inr (Among-append_right at xs ys m)

Among-append : (at : ℕ) (xs ys : List ℕ) → Among at (xs ++ ys) → Among at xs ⊎ Among at ys
Among-append at [] ys m = inr m
Among-append at (x ∷ xs) ys (inl e) = inl (inl e)
Among-append at (x ∷ xs) ys (inr m) = elim (Among-append at xs ys m) [
  | inl h ↦ inl (inr h)
  | inr h ↦ inr h
]

Among-after_now :
    (at now : ℕ) (retried : Option ℕ)
    → Among at (after_now now retried)
    → (retried ≡ some at) × (now < at)
unfolding after_now
Among-after_now at now none m = elim m [ ]
Among-after_now at now (some c) m = ground (arith, m)

after_now-Among : (at now : ℕ) → now < at → Among at (after_now now (some at))
unfolding after_now
after_now-Among at now h = ground arith

skip_target_le : (now retry : ℕ) (scheduled : Option ℕ) → skip_target now retry scheduled ≤ retry
unfolding skip_target
skip_target_le now retry none = omega arith
skip_target_le now retry (some before) = ground arith

skip_target-le-scheduled : (now retry at : ℕ) → now < at → skip_target now retry (some at) ≤ at
unfolding skip_target
skip_target-le-scheduled now retry at h = ground arith

skip_target_cases :
    (now retry : ℕ) (scheduled : Option ℕ)
    → (skip_target now retry scheduled ≡ retry)
      ⊎ ((scheduled ≡ some (skip_target now retry scheduled))
          × (now < skip_target now retry scheduled))
unfolding skip_target
skip_target_cases now retry none = inl refl
skip_target_cases now retry (some before) = ground arith

module _ (p : PendingRetries) (now : ℕ) (scheduled retried : Option ℕ) where
  target-FallsDue :
      (first : ℕ) (others : List ℕ)
      → p.due ++ after_now now retried ≡ first ∷ others
      → FallsDue p now scheduled retried (skip_target now (least first others) scheduled)
  target-FallsDue first others e = elim (skip_target_cases now (least first others) scheduled) [
    | inr h ↦ next_command h.0 h.1
    | inl h ↦
        let m : Among (skip_target now (least first others) scheduled) (first ∷ others) =
          subst (λ at. Among at (first ∷ others)) (sym h) (least-Among first others) in
        elim (Among-append _ p.due (after_now now retried) (subst (Among _) (sym e) m)) [
          | inl d ↦ reaction d
          | inr c ↦ (let k = Among-after_now _ now retried c in command k.0 k.1)
        ]
  ]

  target_first :
      (first : ℕ) (others : List ℕ) (at : ℕ)
      → p.due ++ after_now now retried ≡ first ∷ others
      → FallsDue p now scheduled retried at
      → skip_target now (least first others) scheduled ≤ at
  target_first first others at e (reaction m) =
      let k : least first others ≤ at =
        least_le at first others
          (subst (Among at) e (Among-append_left at p.due (after_now now retried) m)) in
      let l = skip_target_le now (least first others) scheduled in omega (arith, k, l)
  target_first first others at e (command r h) =
      let m : Among at (after_now now retried) =
        subst (λ o. Among at (after_now now o)) (sym r) (after_now-Among at now h) in
      let k : least first others ≤ at =
        least_le at first others
          (subst (Among at) e (Among-append_right at p.due (after_now now retried) m)) in
      let l = skip_target_le now (least first others) scheduled in omega (arith, k, l)
  target_first first others at e (next_command s h) =
      subst (λ o. skip_target now (least first others) o ≤ at) (sym s)
        (skip_target-le-scheduled now (least first others) at h)

  skip_first-lem :
      (waits : List ℕ) (t at : ℕ)
      → p.due ++ after_now now retried ≡ waits
      → skip_first now waits scheduled ≡ (t, true)
      → FallsDue p now scheduled retried at
      → FallsDue p now scheduled retried t × (t ≤ at)
  unfolding skip_first
  skip_first-lem [] t at e h due = ground (arith, h)
  skip_first-lem (first ∷ others) t at e h due =
      let q = ap (λ x. x.0) h in
      (
        subst (FallsDue p now scheduled retried) q (target-FallsDue first others e),
        subst (λ x. x ≤ at) q (target_first first others at e due),
      )

  -- When no retry is due at once and the skip answers true, the clock is set to a moment at which a
  -- reaction's retry, a command's retry or a scheduled command falls due, and none of them falls due
  -- before it.
  pub skip_to_next-FallsDue :
      (t at : ℕ)
      → p.due_now ≡ false
      → skip_to_next p now scheduled retried ≡ (t, true)
      → FallsDue p now scheduled retried at
      → FallsDue p now scheduled retried t × (t ≤ at)
  unfolding skip_to_next
  skip_to_next-FallsDue t at n h due =
      skip_first-lem (p.due ++ after_now now retried) t at refl
        (sym (
            ap
              (λ b.
                if b
                then (now, true)
                else skip_first now (p.due ++ after_now now retried) scheduled)
              n)
          ∙ h)
        due
