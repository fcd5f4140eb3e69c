-- ===== src/Adapter/Order.antt =====
-- adapter/sql/order.ts: `codePointOrder` over UTF-16 code units. A text here is the list of its
-- code points; `utf16` is how a JavaScript string holds it.
pub mod Total
mod Tests
use Prim.Native.Char.{code}
use Prim.Native.Nat.{compare, Ordering, ◌/◌, ◌%◌}
use native.Mathlib.Decide.{dec_lt}
use bounda.Prelude.{
  ap, ◌∙◌, ℕ, ◌+◌, ◌-◌, ◌≤◌, ◌<◌, ◌≡◌, refl, ◌⊎◌, String, Bool, true, false, List, [], ◌∷◌, ◌++◌,
  arith,
}
use bounda.Prelude.Tests.{ltb, leb, if◌then◌else◌, nat_beq}
use bounda.Prelude.Lists.{All}

unfoldable pub lift : ℕ → ℕ
lift unit =
    if leb 0xe000 unit then unit - 0x800 else if leb 0xd800 unit then unit + 0x2000 else unit

-- The sign of the number that the code returns.
unfoldable pub code_point_order : List ℕ → List ℕ → Ordering
unfolding lift
code_point_order [] [] = Ordering.eq
code_point_order [] (y ∷ ys) = Ordering.lt
code_point_order (x ∷ xs) [] = Ordering.gt
code_point_order (x ∷ xs) (y ∷ ys) =
    let rest = code_point_order xs ys in if nat_beq x y then rest else compare (lift x) (lift y)

-- The encoding of JavaScript strings.
units : ℕ → List ℕ
units c =
    if ltb c 0x10000
    then c ∷ []
    else (0xd800 + (c - 0x10000) / 1024) ∷ (0xdc00 + (c - 0x10000) % 1024) ∷ []

unfoldable pub utf16 : List ℕ → List ℕ
unfolding units
utf16 [] = []
utf16 (c ∷ cs) = units c ++ utf16 cs

abbrev pub codes : String → List ℕ
codes String.[] = []
codes (String.◌∷◌ c s) = code c ∷ codes s

unfoldable pub text_order : String → String → Ordering
unfolding code_point_order utf16
text_order a b = code_point_order (utf16 (codes a)) (utf16 (codes b))

-- By the numbers themselves: on code points as UTF-8 bytes compare, on UTF-16 units as `<` of
-- JavaScript does.
unfoldable pub lexicographic : List ℕ → List ℕ → Ordering
lexicographic [] [] = Ordering.eq
lexicographic [] (d ∷ ds) = Ordering.lt
lexicographic (c ∷ cs) [] = Ordering.gt
lexicographic (c ∷ cs) (d ∷ ds) =
    let rest = lexicographic cs ds in if nat_beq c d then rest else compare c d

-- `<` and `>` on texts, as the sign of a comparison.
unfoldable pub unit_order : String → String → Ordering
unfolding lexicographic utf16
unit_order a b = lexicographic (utf16 (codes a)) (utf16 (codes b))

-- `a || b` on two signs.
abbrev pub then_by : Ordering → Ordering → Ordering
then_by Ordering.lt second = Ordering.lt
then_by Ordering.eq second = second
then_by Ordering.gt second = Ordering.gt

-- What `sort` by a sign keeps in place.
abbrev pub is_not_after : Ordering → Bool
is_not_after Ordering.lt = true
is_not_after Ordering.eq = true
is_not_after Ordering.gt = false

-- A Unicode scalar value: a code point that is no surrogate.
abbrev pub IsScalarValue : ℕ → Type 0
IsScalarValue c = (c < 0xd800) ⊎ ((0xe000 ≤ c) × (c < 0x110000))

units_small : (c : ℕ) → c < 0x10000 → units c ≡ c ∷ []
unfolding units
units_small c h = ground arith

abbrev high : ℕ → ℕ
high c = 0xd800 + (c - 0x10000) / 1024

abbrev low : ℕ → ℕ
low c = 0xdc00 + (c - 0x10000) % 1024

units_large : (c : ℕ) → 0x10000 ≤ c → units c ≡ high c ∷ low c ∷ []
unfolding units
units_large c h = ground arith

-- A unit below U+D800 or from U+E000 on is never lifted past a surrogate, and they keep their order.
lift_small :
    (a b : ℕ)
    → IsScalarValue a
    → IsScalarValue b
    → a < 0x10000
    → b < 0x10000
    → compare (lift a) (lift b) ≡ compare a b
unfolding lift
lift_small a b h k u v = ground arith

lift_below : (a d : ℕ) → IsScalarValue a → a < 0x10000 → d < 1024 → lift a < lift (0xd800 + d)
unfolding lift
lift_below a d h u v = ground arith

lift_surrogate : (u : ℕ) → 0xd800 ≤ u → u < 0xe000 → lift u ≡ u + 0x2000
unfolding lift
lift_surrogate u h k = ground arith

compare_lt : (a b : ℕ) → a < b → compare a b ≡ Ordering.lt
compare_lt a b h = ground arith

compare_gt : (a b : ℕ) → b < a → compare a b ≡ Ordering.gt
compare_gt a b h = ground arith

high_range : (c : ℕ) → c < 0x110000 → (c - 0x10000) / 1024 < 1024
high_range c h = omega arith

both_large :
    (a b : ℕ)
    → 0x10000 ≤ a
    → 0x10000 ≤ b
    → a < 0x110000
    → b < 0x110000
    → (o : Ordering)
    → (if nat_beq (high a) (high b)
        then (if nat_beq (low a) (low b) then o else compare (lift (low a)) (lift (low b)))
        else compare (lift (high a)) (lift (high b)))
      ≡ (if nat_beq a b then o else compare a b)
both_large a b h k u v o = ground (
  arith,
  lift_surrogate (low a),
  lift_surrogate (low b),
  lift_surrogate (high a),
  lift_surrogate (high b),
)

head_order :
    (a b : ℕ) (xs ys : List ℕ)
    → IsScalarValue a
    → IsScalarValue b
    → code_point_order (units a ++ xs) (units b ++ ys)
      ≡ (if nat_beq a b then code_point_order xs ys else compare a b)
head_order a b xs ys h k = elim (dec_lt a 0x10000) [
  | yes p ↦ elim (dec_lt b 0x10000) [
    | yes q ↦
        rw (units_small a p, units_small b q)
          (unfold code_point_order in ground (arith, lift_small a b h k p q))
    | no q ↦
        rw (units_small a p, units_large b (omega arith))
          (unfold code_point_order in
            ground (
              arith,
              high_range b,
              lift_below a ((b - 0x10000) / 1024) h p,
              compare_lt (lift a) (lift (high b)),
              compare_lt a b,
            ))
  ]
  | no p ↦ elim (dec_lt b 0x10000) [
    | yes q ↦
        rw (units_large a (omega arith), units_small b q)
          (unfold code_point_order in
            ground (
              arith,
              high_range a,
              lift_below b ((a - 0x10000) / 1024) k q,
              compare_gt (lift (high a)) (lift b),
              compare_gt a b,
            ))
    | no q ↦
        rw (units_large a (omega arith), units_large b (omega arith))
          (unfold code_point_order in
            both_large a b (omega arith) (omega arith) (omega arith) (omega arith)
              (code_point_order xs ys))
  ]
]

-- On texts of Unicode scalar values, comparing the lifted UTF-16 units orders by code point.
pub code_point_order-utf16 :
    (xs ys : List ℕ)
    → All IsScalarValue xs
    → All IsScalarValue ys
    → code_point_order (utf16 xs) (utf16 ys) ≡ lexicographic xs ys
unfolding utf16 units lexicographic
code_point_order-utf16 [] [] h k = unfold code_point_order in refl
code_point_order-utf16 [] (b ∷ ys) h k = unfold code_point_order in ground arith
code_point_order-utf16 (a ∷ xs) [] h k = unfold code_point_order in ground arith
code_point_order-utf16 (a ∷ xs) (b ∷ ys) h k =
    head_order a b (utf16 xs) (utf16 ys) h.0 k.0
    ∙ ap (λ o. if nat_beq a b then o else compare a b) (code_point_order-utf16 xs ys h.1 k.1)
