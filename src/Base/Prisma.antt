-- ===== src/Base/Prisma.antt =====
-- What the services rely on in the Prisma client, for one table. A table is the list of its rows,
-- the newest first; a query that changes rows answers `none` where its promise is rejected. The
-- client is not part of the repository: it is a parameter, with the laws that Prisma documents.

pub mod InMemory
pub mod Ordered
use mathlib.Core.Path.{◌≡◌, sym, subst}
use mathlib.Core.Bool.{Bool, true, false, not, ◌&&◌}
use mathlib.Core.Option.{Option, none, some}
use mathlib.Core.List.{List, [], ◌∷◌, ◌++◌, map, Memᴰ}
use native.Mathlib.Omega.{arith}
use Prim.Native.Nat.{ℕ, ◌+◌, ◌≤◌}
use thunderchat_server.Base.Tests.{if◌then◌else◌, ltb}
use thunderchat_server.Base.Lists
use thunderchat_server.Base.Lists.{filter, any, All}

-- No two rows agree on the columns of a unique constraint.
abbrev pub Distinct : {R : Type 0} → (R → R → Bool) → List R → Type 0
Distinct clash [] = Unit
Distinct clash (r ∷ rs) = (any (clash r) rs ≡ false) × Distinct clash rs

pub record Client (R : Type 0) (clash : R → R → Bool) : Type 0 where
  pub find_first : (R → Bool) → List R → Option R
  pub find_many : (R → Bool) → List R → List R
  pub count : (R → Bool) → List R → ℕ
  pub create : (ℕ → R) → List R → Option (R × List R)
  pub create_many : List R → List R → Option (List R)
  pub update : (R → Bool) → (R → R) → List R → Option (R × List R)
  pub delete : (R → Bool) → List R → Option (List R)
  pub delete_many : (R → Bool) → List R → Option (List R)
  pub find_first-some :
      (p : R → Bool) (rs : List R) (r : R) → find_first p rs ≡ some r → (p r ≡ true) × Memᴰ r rs
  pub find_first-none : (p : R → Bool) (rs : List R) → find_first p rs ≡ none → Lists.count p rs ≡ 0
  pub count-find_many :
      (p q : R → Bool) (rs : List R)
      → Lists.count q (find_many p rs) ≡ Lists.count (λ r. p r && q r) rs
  pub length-find_many :
      (p : R → Bool) (rs : List R) → Lists.length (find_many p rs) ≡ Lists.count p rs
  pub count_lem : (p : R → Bool) (rs : List R) → count p rs ≡ Lists.count p rs
  pub create-some :
      (mk : ℕ → R) (rs : List R) (r : R) (rs' : List R)
      → create mk rs ≡ some (r, rs')
      → (id : ℕ) × (r ≡ mk id) × (rs' ≡ r ∷ rs) × (any (clash r) rs ≡ false)
  pub create_many-some :
      (new rs rs' : List R)
      → create_many new rs ≡ some rs'
      → (rs' ≡ new ++ rs) × (Distinct clash rs → Distinct clash rs')
  pub update-some :
      (p : R → Bool) (f : R → R) (rs : List R) (r : R) (rs' : List R)
      → update p f rs ≡ some (r, rs')
      → (old : R) × Memᴰ old rs
        × (p old ≡ true)
        × (r ≡ f old)
        × (rs' ≡ map (λ x. if p x then f x else x) rs)
  pub delete-some :
      (p : R → Bool) (rs rs' : List R)
      → delete p rs ≡ some rs'
      → (1 ≤ Lists.count p rs) × (rs' ≡ filter (λ r. not (p r)) rs)
  pub delete_many-some :
      (p : R → Bool) (rs rs' : List R)
      → delete_many p rs ≡ some rs'
      → rs' ≡ filter (λ r. not (p r)) rs

-- `findFirst` with `orderBy: { …: 'desc' }`: a row with the largest key among those that pass; `none`
-- where the query is rejected.
pub record Latest (R : Type 0) : Type 0 where
  pub find_latest : (R → ℕ) → (R → Bool) → List R → Option (Option R)
  pub find_latest-some :
      (key : R → ℕ) (p : R → Bool) (rs : List R) (r : R)
      → find_latest key p rs ≡ some (some r)
      → (p r ≡ true) × Memᴰ r rs × All (λ x. (if p x then key x else 0) ≤ key r) rs
  pub find_latest-none :
      (key : R → ℕ) (p : R → Bool) (rs : List R)
      → find_latest key p rs ≡ some none
      → Lists.count p rs ≡ 0

-- `findMany` with `orderBy` and `take`: of the rows that pass at most `limit`, in the order of a key.
pub record Pages (R : Type 0) : Type 0 where
  pub find_page : (ascending : Bool) → (R → ℕ) → (R → Bool) → (limit : ℕ) → List R → List R
  pub length-find_page :
      (ascending : Bool) (key : R → ℕ) (p : R → Bool) (limit : ℕ) (rs : List R)
      → Lists.length (find_page ascending key p limit rs)
        ≡ (if ltb limit (Lists.count p rs) then limit else Lists.count p rs)
  pub find_page-passes :
      (ascending : Bool) (key : R → ℕ) (p : R → Bool) (limit : ℕ) (rs : List R)
      → All (λ r. p r ≡ true) (find_page ascending key p limit rs)
  pub count-find_page :
      (ascending : Bool) (key : R → ℕ) (p q : R → Bool) (limit : ℕ) (rs : List R)
      → Lists.count p rs ≤ limit
      → Lists.count q (find_page ascending key p limit rs) ≡ Lists.count (λ r. p r && q r) rs

pub All-mem {ℓ κ} : {A : Type ℓ} (P : A → Type κ) {a : A} {xs : List A} → All P xs → Memᴰ a xs → P a
All-mem P h (Memᴰ.head e) = subst P (sym e) h.0
All-mem P h (Memᴰ.tail m) = All-mem P h.1 m

-- A row that passes the test stands in the table after it is changed.
pub mem-map_if :
    {R : Type 0} (p : R → Bool) (f : R → R) {r : R} {rs : List R}
    → p r ≡ true
    → Memᴰ r rs
    → Memᴰ (f r) (map (λ x. if p x then f x else x) rs)
mem-map_if p f h (Memᴰ.head e) = Memᴰ.head (ground arith)
mem-map_if p f h (Memᴰ.tail m) = Memᴰ.tail (mem-map_if p f h m)

-- A row that passes the test is counted.
pub mem-count :
    {R : Type 0} (p : R → Bool) {r : R} {rs : List R}
    → Memᴰ r rs
    → p r ≡ true
    → 1 ≤ Lists.count p rs
mem-count p (Memᴰ.head e) h = ground arith
mem-count p (Memᴰ.tail m) h = ground (arith, mem-count p m h)
