-- ===== src/Prelude/Removal.antt =====
-- `for (const { id } of found) map.delete(id)`, over values found in the map by a test, in any order.
use bounda.Prelude.{
  ◌≡◌, ◌⊎◌, refl, ap, ◌∙◌, Bool, true, false, ◌||◌, none, some, List, [], ◌∷◌, arith, inl, inr,
}
use bounda.Prelude.Tests.{if◌then◌else◌, Strict, ◌==◌, Bool-cases}
use bounda.Prelude.Lists.{contains, keep_if, sort_by, insert_by}
use bounda.Prelude.Dict.{
  Dict, get, delete, get-delete, values, keys, IsKeyed, unless, delete-IsKeyed,
}

module _ {ℓ} {K V : Type ℓ} ⦃e : Strict K⦄ (key_of : V → K) where
  unfoldable pub delete_all : Dict K V → List V → Dict K V
  delete_all m [] = m
  delete_all m (v ∷ vs) = delete_all (delete m (key_of v)) vs

  pub delete_all-IsKeyed :
      (m : Dict K V) (vs : List V) → IsKeyed key_of m → IsKeyed key_of (delete_all m vs)
  unfolding delete_all
  delete_all-IsKeyed m [] i = i
  delete_all-IsKeyed m (v ∷ vs) i =
      delete_all-IsKeyed (delete m (key_of v)) vs (delete-IsKeyed key_of m (key_of v) i)

  abbrev finds : K → List V → Bool
  finds k [] = false
  finds k (v ∷ vs) = key_of v == k || finds k vs

  get-delete_all :
      (m : Dict K V) (vs : List V) (k : K)
      → get (delete_all m vs) k ≡ (if finds k vs then none else get m k)
  unfolding delete_all
  get-delete_all m [] k = refl
  get-delete_all m (v ∷ vs) k =
      ground (arith, get-delete_all (delete m (key_of v)) vs k, get-delete m (key_of v) k)

  finds-insert_by :
      (before : V → V → Bool) (k : K) (v : V) (vs : List V)
      → finds k (insert_by before v vs) ≡ (key_of v == k || finds k vs)
  finds-insert_by before k v [] = refl
  finds-insert_by before k v (w ∷ vs) = ground (arith, finds-insert_by before k v vs)

  finds-sort_by :
      (before : V → V → Bool) (k : K) (vs : List V) → finds k (sort_by before vs) ≡ finds k vs
  finds-sort_by before k [] = refl
  finds-sort_by before k (v ∷ vs) =
      ground (arith, finds-insert_by before k v (sort_by before vs), finds-sort_by before k vs)

  finds-kept :
      (test : V → Bool) (before : V → V → Bool) (k : K) (v : V) (vs : List V)
      → finds k (keep_if test (insert_by before v vs)) ≡ finds k (keep_if test (v ∷ vs))
  finds-kept test before k v [] = refl
  finds-kept test before k v (w ∷ vs) = ground (arith, finds-kept test before k v vs)

  finds-kept_sort :
      (test : V → Bool) (before : V → V → Bool) (k : K) (vs : List V)
      → finds k (keep_if test (sort_by before vs)) ≡ finds k (keep_if test vs)
  finds-kept_sort test before k [] = refl
  finds-kept_sort test before k (v ∷ vs) =
      ground
        (arith, finds-kept test before k v (sort_by before vs), finds-kept_sort test before k vs)

  finds-absent :
      (test : V → Bool) (k : K) (m : Dict K V)
      → IsKeyed key_of m
      → contains k (keys m) ≡ false
      → finds k (keep_if test (values m)) ≡ false
  finds-absent test k [] i h = refl
  finds-absent test k ((j, v) ∷ m) i h =
      ground (arith, finds-absent test k m i.2, e.same_iff (key_of v) k, e.same_iff j k)

  finds-get :
      (test : V → Bool) (k : K) (m : Dict K V)
      → IsKeyed key_of m
      → (if finds k (keep_if test (values m)) then none else get m k) ≡ unless test (get m k)
  unfolding get
  finds-get test k [] i = refl
  finds-get test k ((j, v) ∷ m) i = ground (
    arith,
    finds-get test k m i.2,
    e.same_iff (key_of v) k,
    e.same_iff j k,
    finds-absent test j m i.2,
    λ (h : j ≡ k). ap (λ x. finds x (keep_if test (values m))) h,
  )

  -- What the values found by a test, in any order, leave under a key when they are deleted.
  pub get-delete_found :
      (test : V → Bool) (before : V → V → Bool) (m : Dict K V) (k : K)
      → IsKeyed key_of m
      → get (delete_all m (sort_by before (keep_if test (values m)))) k ≡ unless test (get m k)
  get-delete_found test before m k i =
      get-delete_all m (sort_by before (keep_if test (values m))) k
      ∙ ap (λ (b : Bool). if b then none else get m k)
          (finds-sort_by before k (keep_if test (values m)))
      ∙ finds-get test k m i

  -- The same, where the test comes after the sort.
  pub get-delete_kept :
      (test : V → Bool) (before : V → V → Bool) (m : Dict K V) (k : K)
      → IsKeyed key_of m
      → get (delete_all m (keep_if test (sort_by before (values m)))) k ≡ unless test (get m k)
  get-delete_kept test before m k i =
      get-delete_all m (keep_if test (sort_by before (values m))) k
      ∙ ap (λ (b : Bool). if b then none else get m k) (finds-kept_sort test before k (values m))
      ∙ finds-get test k m i

  pub delete_all-kept :
      (m : Dict K V) (vs : List V) (k : K) (v : V)
      → get m k ≡ some v
      → (get (delete_all m vs) k ≡ some v) ⊎ (get (delete_all m vs) k ≡ none)
  delete_all-kept m vs k v there = elim (Bool-cases (finds k vs)) [
    | inl hit ↦ inr (ground (arith, get-delete_all m vs k))
    | inr miss ↦ inl (ground (arith, get-delete_all m vs k))
  ]

pub keep_if-all {ℓ} :
    {V : Type ℓ} (test : V → Bool) (vs : List V) → ((v : V) → test v ≡ true) → keep_if test vs ≡ vs
keep_if-all test [] h = refl
keep_if-all test (v ∷ vs) h = ground (arith, h v, keep_if-all test vs h)
