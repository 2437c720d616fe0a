-- ===== src/Base/JsMap.antt =====
-- JavaScript's `Map`: the entries in the order in which their keys were first set.
use mathlib.Core.Path.{◌≡◌, refl}
use mathlib.Core.Bool.{Bool}
use mathlib.Core.Option.{Option, none, some}
use mathlib.Core.List.{List, [], ◌∷◌, map}
use native.Mathlib.Omega.{arith}
use thunderchat_server.Base.Tests.{Eq, ◌==◌, if◌then◌else◌, is_some, eq_refl}

abbrev pub Map {ℓ κ} : Type ℓ → Type κ → Type (ℓ ⊔ κ)
Map K V = List (K × V)

module _ {ℓ κ} {K : Type ℓ} {V : Type κ} ⦃e : Eq K⦄ where
  unfoldable pub get : Map K V → K → Option V
  get [] k = none
  get ((j, v) ∷ m) k = if j == k then some v else get m k

  unfoldable pub has : Map K V → K → Bool
  unfolding get
  has m k = is_some (get m k)

  -- A key that is there keeps its place.
  unfoldable pub set : Map K V → K → V → Map K V
  set [] k v = (k, v) ∷ []
  set ((j, w) ∷ m) k v = if j == k then (k, v) ∷ m else (j, w) ∷ set m k v

  unfoldable pub delete : Map K V → K → Map K V
  delete [] k = []
  delete ((j, v) ∷ m) k = if j == k then delete m k else (j, v) ∷ delete m k

  pub get-set :
      (m : Map K V) (k j : K) (v : V) → get (set m k v) j ≡ (if k == j then some v else get m j)
  unfolding get set
  get-set [] k j v = refl
  get-set ((i, w) ∷ m) k j v =
      ground (arith, get-set m k j v, e.equals_iff i k, e.equals_iff i j, e.equals_iff k j)

  pub get-delete : (m : Map K V) (k j : K) → get (delete m k) j ≡ (if k == j then none else get m j)
  unfolding get delete
  get-delete [] k j = ground arith
  get-delete ((i, w) ∷ m) k j =
      ground (arith, get-delete m k j, e.equals_iff i k, e.equals_iff i j, e.equals_iff k j)

  pub get-set_self : (m : Map K V) (k : K) (v : V) → get (set m k v) k ≡ some v
  get-set_self m k v = rw (get-set m k k v, eq_refl k)

  pub get-delete_self : (m : Map K V) (k : K) → get (delete m k) k ≡ none
  get-delete_self m k = rw (get-delete m k k, eq_refl k)

  -- No key stands twice, as in every `Map`.
  abbrev pub IsMap : Map K V → Type (ℓ ⊔ κ)
  IsMap [] = Unit
  IsMap ((k, v) ∷ m) = (get m k ≡ none) × IsMap m

  pub set-IsMap : (m : Map K V) (k : K) (v : V) → IsMap m → IsMap (set m k v)
  unfolding set get
  set-IsMap [] k v h = (refl, tt)
  set-IsMap ((j, w) ∷ m) k v h =
      ground (arith, set-IsMap m k v h.1, get-set m k j v, e.equals_iff j k, e.equals_iff k j)

  pub delete-IsMap : (m : Map K V) (k : K) → IsMap m → IsMap (delete m k)
  unfolding delete
  delete-IsMap [] k h = tt
  delete-IsMap ((j, w) ∷ m) k h = ground (arith, delete-IsMap m k h.1, get-delete m k j)

  -- The values, in the order of the entries.
  abbrev pub values : Map K V → List V
  values = map (λ e. e.1)
