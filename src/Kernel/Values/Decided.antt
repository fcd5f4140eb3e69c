-- ===== src/Kernel/Values/Decided.antt =====
-- Whether two values are the same is decided.
use package.text.Mathlib.TextEquality.{eq_iff}
use package.text.Mathlib.Text.{◌==◌ as str_eq}
use bounda.Prelude.{String, inl, inr}
use bounda.Prelude.Tests.{Bool-cases}
use native.Mathlib.Decide.{ℕ_discrete}
use bounda.Kernel.Values.{Value}

pub String-discrete : Discrete String
String-discrete a b = elim (Bool-cases (str_eq a b)) [
  | inl h ↦ yes ((eq_iff a b).0 h)
  | inr h ↦ no (λ e. cc (h, (eq_iff a b).1 e))
]

pub Value-discrete : Discrete Value
Value-discrete = hlevel (ℕ_discrete, String-discrete)
