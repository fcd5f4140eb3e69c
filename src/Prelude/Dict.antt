-- ===== src/Prelude/Dict.antt =====
-- A JavaScript `Map`: entries in the order their keys were first set; `set` on a key that is there
-- keeps its place, `delete` drops the entry.
use mathlib.Core.Path.{◌≡◌, refl, subst, ap, ◌∙◌}
use mathlib.Core.Bool.{Bool, true, false, ◌||◌}
use mathlib.Core.List.{List, [], ◌∷◌}
use mathlib.Core.Option.{Option, none, some}
use native.Mathlib.Omega.{arith}
use mathlib.Core.Logic.{inl, inr}
use bounda.Prelude.Tests.{if◌then◌else◌, Strict, ◌==◌, Bool-cases, if_both}
use bounda.Prelude.Lists.{All, contains}

abbrev pub Dict {ℓ} : Type ℓ → Type ℓ → Type ℓ
Dict K V = List (K × V)

module _ {ℓ} {K V : Type ℓ} ⦃e : Strict K⦄ where
  unfoldable pub get : Dict K V → K → Option V
  get [] k = none
  get ((j, v) ∷ m) k = if j == k then some v else get m k

  unfoldable pub set : Dict K V → K → V → Dict K V
  set [] k v = (k, v) ∷ []
  set ((j, w) ∷ m) k v = if j == k then (j, v) ∷ m else (j, w) ∷ set m k v

  -- Every entry of the key goes, so that the law needs no invariant; a map holds at most one.
  unfoldable pub delete : Dict K V → K → Dict K V
  delete [] k = []
  delete ((j, w) ∷ m) k = if j == k then delete m k else (j, w) ∷ delete m k

  abbrev pub has : Dict K V → K → Bool
  has m k = elim (get m k) [ none ↦ false | some _ ↦ true ]

  pub get-set :
      (m : Dict K V) (k : K) (v : V) (j : K)
      → get (set m k v) j ≡ (if k == j then some v else get m j)
  unfolding get set
  get-set [] k v j = refl
  get-set ((i, w) ∷ m) k v j =
      ground (arith, e.same_iff k j, e.same_iff i k, e.same_iff i j, get-set m k v j)

  pub get-delete :
      (m : Dict K V) (k j : K) → get (delete m k) j ≡ (if k == j then none else get m j)
  unfolding get delete
  get-delete [] k j = ground arith
  get-delete ((i, w) ∷ m) k j =
      ground (arith, e.same_iff k j, e.same_iff i k, e.same_iff i j, get-delete m k j)

module _ {ℓ} {K V : Type ℓ} ⦃e : Strict K⦄ where
  pub has-set :
      (m : Dict K V) (k : K) (v : V) (j : K)
      → has (set m k v) j ≡ (if k == j then true else has m j)
  has-set m k v j = ground (arith, get-set m k v j)

abbrev pub values {ℓ} : {K V : Type ℓ} → Dict K V → List V
values [] = []
values ((k, v) ∷ m) = v ∷ values m

abbrev pub keys {ℓ} : {K V : Type ℓ} → Dict K V → List K
keys [] = []
keys ((k, v) ∷ m) = k ∷ keys m

module _ {ℓ} {K V : Type ℓ} ⦃e : Strict K⦄ where
  contains-keys-set :
      (m : Dict K V) (k : K) (v : V) (j : K)
      → contains j (keys (set m k v)) ≡ (k == j || contains j (keys m))
  unfolding set
  contains-keys-set [] k v j = refl
  contains-keys-set ((i, w) ∷ m) k v j =
      ground (arith, contains-keys-set m k v j, e.same_iff i k, e.same_iff k j, e.same_iff i j)

  contains-keys-delete :
      (m : Dict K V) (k j : K)
      → contains j (keys m) ≡ false
      → contains j (keys (delete m k)) ≡ false
  unfolding delete
  contains-keys-delete [] k j h = refl
  contains-keys-delete ((i, w) ∷ m) k j h = ground (arith, contains-keys-delete m k j)

-- A map whose keys are distinct, each the key of its value.
module _ {ℓ} {K V : Type ℓ} ⦃e : Strict K⦄ (key_of : V → K) where
  abbrev pub IsKeyed : Dict K V → Type ℓ
  IsKeyed [] = Unit
  IsKeyed ((k, v) ∷ m) = (key_of v ≡ k) × (contains k (keys m) ≡ false) × IsKeyed m

  pub set-IsKeyed : (m : Dict K V) (k : K) (v : V) → key_of v ≡ k → IsKeyed m → IsKeyed (set m k v)
  unfolding set
  set-IsKeyed [] k v h i = (h, refl, tt)
  set-IsKeyed ((j, w) ∷ m) k v h i =
      ground
        (arith, set-IsKeyed m k v h i.2, contains-keys-set m k v j, e.same_iff j k, e.same_iff k j)

  pub delete-IsKeyed : (m : Dict K V) (k : K) → IsKeyed m → IsKeyed (delete m k)
  unfolding delete
  delete-IsKeyed [] k i = tt
  delete-IsKeyed ((j, w) ∷ m) k i =
      ground (arith, delete-IsKeyed m k i.2, contains-keys-delete m k j)

  get_absent : (m : Dict K V) (k : K) → contains k (keys m) ≡ false → get m k ≡ none
  unfolding get
  get_absent [] k h = refl
  get_absent ((j, w) ∷ m) k h = ground (arith, get_absent m k)

  -- What holds of each value that a key answers holds of all the values.
  pub All-values {κ} :
      (P : V → Type κ) (m : Dict K V)
      → IsKeyed m
      → ((v : V) → get m (key_of v) ≡ some v → P v)
      → All P (values m)
  unfolding get
  All-values P [] i h = tt
  All-values P ((k, v) ∷ m) i h = (
    h v (ground (arith, e.same_iff k (key_of v))),
    All-values P m i.2 (λ w there. h w (ground (arith, e.same_iff k (key_of w), get_absent m k))),
  )

  pub get-IsKeyed : (m : Dict K V) (k : K) (v : V) → IsKeyed m → get m k ≡ some v → key_of v ≡ k
  unfolding get
  get-IsKeyed [] k v i h = cc
  get-IsKeyed ((j, w) ∷ m) k v i h = ground (arith, e.same_iff j k, get-IsKeyed m k v i.2)

pub get-All {ℓ κ} :
    {K V : Type ℓ} ⦃e : Strict K⦄ (P : V → Type κ) (m : Dict K V) (k : K) (v : V)
    → All P (values m)
    → get m k ≡ some v
    → P v
unfolding get
get-All P [] k v h there = absurd (ground arith)
get-All P ((j, w) ∷ m) k v h there = elim (Bool-cases (j == k)) [
  | inl hit ↦ subst P (ground arith) h.0
  | inr miss ↦ get-All P m k v h.1 (ground arith)
]

abbrev pub unless {ℓ} : {V : Type ℓ} → (V → Bool) → Option V → Option V
unless test none = none
unless test (some v) = if test v then none else some v

-- No key twice, as in every map.
module _ {ℓ} {K V : Type ℓ} ⦃e : Strict K⦄ where
  abbrev pub Unique : Dict K V → Type 0
  Unique [] = Unit
  Unique ((k, v) ∷ m) = (contains k (keys m) ≡ false) × Unique m

  pub Unique-set : (m : Dict K V) (k : K) (v : V) → Unique m → Unique (set m k v)
  unfolding set
  Unique-set [] k v u = (refl, tt)
  Unique-set ((j, w) ∷ m) k v u =
      ground
        (arith, Unique-set m k v u.1, contains-keys-set m k v j, e.same_iff j k, e.same_iff k j)

  pub Unique-delete : (m : Dict K V) (k : K) → Unique m → Unique (delete m k)
  unfolding delete
  Unique-delete [] k u = tt
  Unique-delete ((j, w) ∷ m) k u = ground (arith, Unique-delete m k u.1, contains-keys-delete m k j)

  -- `for (const [key, value] of m) if (test(value)) m.delete(key)`, over the entries left to visit.
  unfoldable pub delete_each : (V → Bool) → Dict K V → List (K × V) → Dict K V
  delete_each test m [] = m
  delete_each test m ((k, v) ∷ left) = delete_each test (if test v then delete m k else m) left

  abbrev pub delete_where : (V → Bool) → Dict K V → Dict K V
  delete_where test m = delete_each test m m

  -- The entry of the key goes if a visited one of that key is to go.
  abbrev hit : (V → Bool) → K → List (K × V) → Bool
  hit test k [] = false
  hit test k ((j, v) ∷ left) = (if j == k then test v else false) || hit test k left

  get-delete_each :
      (test : V → Bool) (m : Dict K V) (left : List (K × V)) (k : K)
      → get (delete_each test m left) k ≡ (if hit test k left then none else get m k)
  unfolding delete_each
  get-delete_each test m [] k = refl
  get-delete_each test m ((j, v) ∷ left) k =
      ground
        (arith, get-delete_each test (if test v then delete m j else m) left k, get-delete m j k)

  hit-absent :
      (test : V → Bool) (k : K) (m : Dict K V) → contains k (keys m) ≡ false → hit test k m ≡ false
  hit-absent test k [] h = refl
  hit-absent test k ((j, v) ∷ m) h = ground (arith, hit-absent test k m)

  hit-get :
      (test : V → Bool) (k : K) (m : Dict K V)
      → Unique m
      → (if hit test k m then none else get m k) ≡ unless test (get m k)
  unfolding get
  hit-get test k [] u = refl
  hit-get test k ((j, v) ∷ m) u =
      ground (arith, hit-get test k m u.1, hit-absent test j m, e.same_iff j k, same)
    where
      same : j ≡ k → hit test j m ≡ hit test k m
      same h = ap (λ i. hit test i m) h

  pub get-delete_where :
      (test : V → Bool) (m : Dict K V) (k : K)
      → Unique m
      → get (delete_where test m) k ≡ unless test (get m k)
  get-delete_where test m k u = get-delete_each test m m k ∙ hit-get test k m u

  hit-some :
      (test : V → Bool) (m : Dict K V) (k : K) (v : V)
      → get m k ≡ some v
      → hit test k m ≡ false
      → test v ≡ false
  unfolding get
  hit-some test [] k v there h = cc
  hit-some test ((j, w) ∷ m) k v there h = ground (arith, hit-some test m k v)

  -- What is left under a key was there, and did not pass the test.
  pub delete_where-some :
      (test : V → Bool) (m : Dict K V) (k : K) (v : V)
      → get (delete_where test m) k ≡ some v
      → (get m k ≡ some v) × (test v ≡ false)
  delete_where-some test m k v h = ground (arith, get-delete_each test m m k, hit-some test m k v)

  delete_each-Unique :
      (test : V → Bool) (m : Dict K V) (left : List (K × V))
      → Unique m
      → Unique (delete_each test m left)
  unfolding delete_each
  delete_each-Unique test m [] u = u
  delete_each-Unique test m ((k, v) ∷ left) u =
      delete_each-Unique test (if test v then delete m k else m) left
        (if_both Unique (test v) (Unique-delete m k u) u)

  pub delete_where-Unique :
      (test : V → Bool) (m : Dict K V) → Unique m → Unique (delete_where test m)
  delete_where-Unique test m u = delete_each-Unique test m m u

pub ruleset dict_laws = (get-set, get-delete)
