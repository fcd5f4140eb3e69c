-- ===== src/Adapter/Order/Total.antt =====
-- The orders of adapter/sql/order.ts and of `<` are total: turned round, their sign is turned round.
use Prim.Native.Nat.{compare, Ordering}
use bounda.Prelude.{ℕ, ◌≡◌, refl, String, true, false, List, [], ◌∷◌, arith}
use bounda.Adapter.Order.{
  code_point_order, lexicographic, lift, codes, utf16, text_order, unit_order, then_by,
  is_not_after,
}

abbrev pub reversed : Ordering → Ordering
reversed Ordering.lt = Ordering.gt
reversed Ordering.eq = Ordering.eq
reversed Ordering.gt = Ordering.lt

compare-reversed : (a b : ℕ) → compare b a ≡ reversed (compare a b)
compare-reversed a b = ground arith

code_point_order-reversed :
    (xs ys : List ℕ) → code_point_order ys xs ≡ reversed (code_point_order xs ys)
unfolding code_point_order
code_point_order-reversed [] [] = refl
code_point_order-reversed [] (y ∷ ys) = refl
code_point_order-reversed (x ∷ xs) [] = refl
code_point_order-reversed (x ∷ xs) (y ∷ ys) =
    ground (arith, code_point_order-reversed xs ys, compare-reversed (lift x) (lift y))

lexicographic-reversed : (xs ys : List ℕ) → lexicographic ys xs ≡ reversed (lexicographic xs ys)
unfolding lexicographic
lexicographic-reversed [] [] = refl
lexicographic-reversed [] (y ∷ ys) = refl
lexicographic-reversed (x ∷ xs) [] = refl
lexicographic-reversed (x ∷ xs) (y ∷ ys) =
    ground (arith, lexicographic-reversed xs ys, compare-reversed x y)

pub text_order-reversed : (a b : String) → text_order b a ≡ reversed (text_order a b)
unfolding text_order
text_order-reversed a b = code_point_order-reversed (utf16 (codes a)) (utf16 (codes b))

pub unit_order-reversed : (a b : String) → unit_order b a ≡ reversed (unit_order a b)
unfolding unit_order
unit_order-reversed a b = lexicographic-reversed (utf16 (codes a)) (utf16 (codes b))

-- Of two things compared by a sign that turns round, one is not after the other.
pub then_by-total :
    (first second first' second' : Ordering)
    → first' ≡ reversed first
    → second' ≡ reversed second
    → is_not_after (then_by first second) ≡ false
    → is_not_after (then_by first' second') ≡ true
then_by-total Ordering.lt second first' second' p q h = ground arith
then_by-total Ordering.eq Ordering.lt first' second' p q h = ground arith
then_by-total Ordering.eq Ordering.eq first' second' p q h = ground arith
then_by-total Ordering.eq Ordering.gt first' second' p q h = ground arith
then_by-total Ordering.gt second first' second' p q h = ground arith
