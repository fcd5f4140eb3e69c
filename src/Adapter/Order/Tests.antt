-- ===== src/Adapter/Order/Tests.antt =====
-- adapter/sql/order.ts on a private-use character and one outside the basic plane.
use bounda.Prelude.{◌≡◌, inl, inr, [], ◌∷◌, arith}
use bounda.Adapter.Order.{code_point_order, utf16, lexicographic, code_point_order-utf16}

code_point_order-utf16_sample :
    code_point_order (utf16 (0x61 ∷ 0xe000 ∷ [])) (utf16 (0x61 ∷ 0x1f600 ∷ []))
    ≡ lexicographic (0x61 ∷ 0xe000 ∷ []) (0x61 ∷ 0x1f600 ∷ [])
code_point_order-utf16_sample =
    code_point_order-utf16 (0x61 ∷ 0xe000 ∷ []) (0x61 ∷ 0x1f600 ∷ [])
      (inl (omega arith), (inr (omega arith, omega arith), tt))
      (inl (omega arith), (inr (omega arith, omega arith), tt))
