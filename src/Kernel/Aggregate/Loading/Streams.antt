-- ===== src/Kernel/Aggregate/Loading/Streams.antt =====
-- The streams that loads are made of: versions counted from 1, growing between one load and the next.
use bounda.Prelude.{ℕ, ◌+◌, ◌≤◌, ◌≡◌, refl, ap, ◌∙◌, some, List, [], ◌∷◌, ◌++◌, arith}
use bounda.Prelude.Tests.{leb}
use bounda.Prelude.Lists.{length, length-append, keep_if}
use bounda.Contracts.Errors.{Result, ok}
use bounda.Contracts.Events.{StreamIdentity}
use bounda.Kernel.Aggregate.{Event}
use bounda.Kernel.Aggregate.Loading.{LoadedEvents, within}

abbrev pub Numbered : ℕ → List Event → Type 0
Numbered n [] = Unit
Numbered n (e ∷ es) = (e.version ≡ n + 1) × Numbered (n + 1) es

abbrev pub at_least : ℕ → List Event → List Event
at_least from events = keep_if (λ e. leb from e.version) events

-- The loads of a stream answer what it holds at the time, `history i` at the i-th of them.
pub record Follows (loads : ℕ → StreamIdentity → ℕ → Result LoadedEvents) (stream : StreamIdentity)
    (history : ℕ → List Event) : Type 0 where
  pub answers :
      (i from : ℕ) (l : LoadedEvents)
      → loads i stream from ≡ ok l
      → (l.events ≡ at_least from (history i)) × (l.version ≡ length (history i))
  pub is_numbered : (i : ℕ) → Numbered 0 (history i)
  pub new : List Event
  pub grows : history 1 ≡ history 0 ++ new

at_least-all : (n from : ℕ) (es : List Event) → Numbered n es → from ≤ n + 1 → at_least from es ≡ es
at_least-all n from [] h le = refl
at_least-all n from (e ∷ es) (p, ps) le = ground (arith, at_least-all (n + 1) from es ps)

within_none : (n v : ℕ) (es : List Event) → Numbered n es → v ≤ n → within (some v) es ≡ []
within_none n v [] h le = refl
within_none n v (e ∷ es) (p, ps) le = ground (arith, within_none (n + 1) v es ps)

pub at_least-first : (es : List Event) → Numbered 0 es → at_least 1 es ≡ es
at_least-first es h = at_least-all 0 1 es h (omega arith)

within_all :
    (n v : ℕ) (es : List Event) → Numbered n es → n + length es ≤ v → within (some v) es ≡ es
within_all n v [] h le = refl
within_all n v (e ∷ es) (p, ps) le = ground (arith, within_all (n + 1) v es ps)

-- A stream is what it holds up to a version, and what it holds after it.
split_from :
    (n v : ℕ) (es : List Event) → Numbered n es → within (some v) es ++ at_least (v + 1) es ≡ es
split_from n v [] h = refl
split_from n v (e ∷ es) (p, ps) = ground (
  arith,
  split_from (n + 1) v es ps,
  within_none (n + 1) v es ps,
  at_least-all (n + 1) (v + 1) es ps,
)

pub split_at :
    (v : ℕ) (es : List Event) → Numbered 0 es → within (some v) es ++ at_least (v + 1) es ≡ es
split_at v es h = split_from 0 v es h

within-append :
    (n v : ℕ) (xs ys : List Event)
    → Numbered n (xs ++ ys)
    → v ≤ n + length xs
    → within (some v) (xs ++ ys) ≡ within (some v) xs
within-append n v [] ys h le = within_none n v ys h (omega arith)
within-append n v (x ∷ xs) ys (p, ps) le = ground (arith, within-append (n + 1) v xs ys ps)

module _ {loads : ℕ → StreamIdentity → ℕ → Result LoadedEvents} {stream : StreamIdentity}
    {history : ℕ → List Event} (f : Follows loads stream history) where
  open f use {answers, is_numbered, new, grows}

  -- What was there at the first load is what the second sees up to that version.
  pub within_first : within (some (length (history 0))) (history 1) ≡ history 0
  within_first =
      let numbered : Numbered 0 (history 0 ++ new) = subst_numbered grows (is_numbered 1) in
      ap (within (some (length (history 0)))) grows
      ∙ within-append 0 (length (history 0)) (history 0) new numbered (omega arith)
      ∙ within_all 0 (length (history 0)) (history 0) (is_numbered 0) (omega arith)
    where
      subst_numbered : {xs ys : List Event} → xs ≡ ys → Numbered 0 xs → Numbered 0 ys
      subst_numbered e h = rw (← e) h

  -- What is appended changes nothing up to a version that was there.
  pub within_grown :
      (v : ℕ)
      → v ≤ length (history 0)
      → within (some v) (history 0 ++ new) ≡ within (some v) (history 0)
  within_grown v le =
      within-append 0 v (history 0) new (rw (← grows) (is_numbered 1)) (omega (arith, le))

  pub within_second : within (some (length (history 1))) (history 1) ≡ history 1
  within_second = within_all 0 (length (history 1)) (history 1) (is_numbered 1) (omega arith)

  pub length-history_le : length (history 0) ≤ length (history 1)
  length-history_le = rw (grows, length-append) (omega arith)
