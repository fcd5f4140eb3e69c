-- ===== src/Prelude/Sorting.antt =====
-- What `sort` and `slice` promise: each element stands where it is not after the next one.
use mathlib.Core.List.{Perm}
use mathlib.Core.List.Perm
use bounda.Prelude.{
  ℕ, zero, suc, ◌≡◌, ◌∙◌, Bool, true, false, Option, none, some, List, [], ◌∷◌, map, arith,
}
use bounda.Prelude.Tests.{if_both}
use bounda.Prelude.Lists.{sort_by, insert_by, take, drop, slice}

module _ {ℓ} {A : Type ℓ} (before : A → A → Bool) where
  abbrev pub LeadsTo : A → List A → Type 0
  LeadsTo a [] = Unit
  LeadsTo a (x ∷ xs) = before a x ≡ true

  abbrev pub IsSorted : List A → Type 0
  IsSorted [] = Unit
  IsSorted (x ∷ xs) = LeadsTo x xs × IsSorted xs

  LeadsTo-insert_by :
      (x a : A) (xs : List A) → before x a ≡ true → LeadsTo x xs → LeadsTo x (insert_by before a xs)
  LeadsTo-insert_by x a [] h l = h
  LeadsTo-insert_by x a (y ∷ ys) h l = ground arith

  module _ (total : (a b : A) → before a b ≡ false → before b a ≡ true) where
    insert_by-IsSorted : (a : A) (xs : List A) → IsSorted xs → IsSorted (insert_by before a xs)
    insert_by-IsSorted a [] s = (tt, tt)
    insert_by-IsSorted a (x ∷ xs) s = ground (
      arith,
      insert_by-IsSorted a xs s.1,
      total a x,
      λ (h : before x a ≡ true). LeadsTo-insert_by x a xs h s.0,
    )

    pub sort_by-IsSorted : (xs : List A) → IsSorted (sort_by before xs)
    sort_by-IsSorted [] = tt
    sort_by-IsSorted (x ∷ xs) = insert_by-IsSorted x (sort_by before xs) (sort_by-IsSorted xs)

  insert_by-Perm : (a : A) (xs : List A) → Perm (insert_by before a xs) (a ∷ xs)
  insert_by-Perm a [] = Perm.rfl
  insert_by-Perm a (x ∷ xs) =
      if_both (λ ys. Perm ys (a ∷ x ∷ xs)) (before a x) Perm.rfl
        (Perm.trans (Perm.cons x (insert_by-Perm a xs)) (Perm.swap a x xs))

  pub sort_by-Perm : (xs : List A) → Perm (sort_by before xs) xs
  sort_by-Perm [] = Perm.rfl
  sort_by-Perm (x ∷ xs) =
      Perm.trans (insert_by-Perm x (sort_by before xs)) (Perm.cons x (sort_by-Perm xs))

  pub take-IsSorted : (n : ℕ) (xs : List A) → IsSorted xs → IsSorted (take n xs)
  take-IsSorted zero xs s = tt
  take-IsSorted (suc n) [] s = tt
  take-IsSorted (suc zero) (x ∷ xs) s = (tt, tt)
  take-IsSorted (suc (suc n)) (x ∷ []) s = (tt, tt)
  take-IsSorted (suc (suc n)) (x ∷ y ∷ xs) s = (s.0, take-IsSorted (suc n) (y ∷ xs) s.1)

  pub drop-IsSorted : (n : ℕ) (xs : List A) → IsSorted xs → IsSorted (drop n xs)
  drop-IsSorted zero xs s = s
  drop-IsSorted (suc n) [] s = tt
  drop-IsSorted (suc n) (x ∷ xs) s = drop-IsSorted n xs s.1

  pub slice-IsSorted :
      (offset : ℕ) (limit : Option ℕ) (xs : List A) → IsSorted xs → IsSorted (slice offset limit xs)
  slice-IsSorted offset none xs s = drop-IsSorted offset xs s
  slice-IsSorted offset (some limit) xs s =
      take-IsSorted limit (drop offset xs) (drop-IsSorted offset xs s)

  pub map-IsSorted :
      (f : A → A) (xs : List A)
      → ((a b : A) → before (f a) (f b) ≡ before a b)
      → IsSorted xs
      → IsSorted (map f xs)
  map-IsSorted f [] same s = tt
  map-IsSorted f (x ∷ []) same s = (tt, tt)
  map-IsSorted f (x ∷ y ∷ xs) same s = (same x y ∙ s.0, map-IsSorted f (y ∷ xs) same s.1)
