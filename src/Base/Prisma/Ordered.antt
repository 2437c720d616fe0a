-- ===== src/Base/Prisma/Ordered.antt =====
-- Rows in memory read in an order: the laws of `Latest` and of `Pages` can be met.
use mathlib.Core.Path.{◌≡◌, refl, ap, ◌∙◌}
use mathlib.Core.Logic.{inl, inr}
use mathlib.Core.Bool.{Bool, true, false, ◌&&◌}
use mathlib.Core.Option.{Option, none, some}
use mathlib.Core.List.{List, [], ◌∷◌, Memᴰ}
use native.Mathlib.Omega.{arith}
use Prim.Native.Nat.{ℕ, ◌≤◌}
use thunderchat_server.Base.Tests.{if◌then◌else◌, ltb, Bool-cases, Option-cases}
use thunderchat_server.Base.Lists
use thunderchat_server.Base.Lists.{
  All, filter, any, find, find-none-count, find-some-count, find-some, count-filter,
}
use thunderchat_server.Base.Prisma.{Latest, Pages}
use thunderchat_server.Base.Sort.{
  sort_by, first_rows, All-sort_by, All-first_rows, length-sort_by, length-first_rows,
  count-sort_by, first_rows_all,
}
use thunderchat_server.Base.Prisma.InMemory.{length-filter}

module _ {R : Type 0} where
  abbrev pub better : (R → ℕ) → R → Option R → Option R
  better key x none = some x
  better key x (some y) = if ltb (key y) (key x) then some x else some y

  abbrev pub latest_of : (R → ℕ) → (R → Bool) → List R → Option R
  latest_of key p [] = none
  latest_of key p (x ∷ rs) =
      let best = latest_of key p rs in if p x then better key x best else best

  pub latest_of-none :
      (key : R → ℕ) (p : R → Bool) (rs : List R) → latest_of key p rs ≡ none → Lists.count p rs ≡ 0
  latest_of-none key p [] h = refl
  latest_of-none key p (x ∷ rs) h = elim (Option-cases (latest_of key p rs)) [
    | inl e ↦ ground (arith, latest_of-none key p rs e)
    | inr (y, e) ↦ absurd (ground arith)
  ]

  -- No row that passes has a larger key.
  abbrev IsBelow : (R → ℕ) → (R → Bool) → ℕ → List R → Type 0
  IsBelow key p n = All (λ x. (if p x then key x else 0) ≤ n)

  none-IsBelow :
      (key : R → ℕ) (p : R → Bool) (n : ℕ) (rs : List R) → Lists.count p rs ≡ 0 → IsBelow key p n rs
  none-IsBelow key p n [] h = tt
  none-IsBelow key p n (x ∷ rs) h = (ground arith, none-IsBelow key p n rs (ground arith))

  more-IsBelow :
      (key : R → ℕ) (p : R → Bool) (n m : ℕ) (rs : List R)
      → n ≤ m
      → IsBelow key p n rs
      → IsBelow key p m rs
  more-IsBelow key p n m [] le h = tt
  more-IsBelow key p n m (x ∷ rs) le h = (ground (arith, h.0), more-IsBelow key p n m rs le h.1)

  pub latest_of-some :
      (key : R → ℕ) (p : R → Bool) (rs : List R) (r : R)
      → latest_of key p rs ≡ some r
      → (p r ≡ true) × Memᴰ r rs × All (λ x. (if p x then key x else 0) ≤ key r) rs
  latest_of-some key p [] r h = absurd (ground arith)
  latest_of-some key p (x ∷ rs) r h = elim (Option-cases (latest_of key p rs)) [
    | inl e ↦
        let low = none-IsBelow key p (key r) rs (latest_of-none key p rs e) in
        elim (Bool-cases (p x)) [
          | inr fails ↦ absurd (ground arith)
          | inl passes ↦
              let same : r ≡ x = ground arith in
              (rw same passes, Memᴰ.head same, (ground arith, low))
        ]
    | inr (y, e) ↦
        let (passes_y, member, low) = latest_of-some key p rs y e in
        elim (Bool-cases (if p x then ltb (key y) (key x) else false)) [
          | inl larger ↦
              let same : r ≡ x = ground arith in
              let passes : p r ≡ true = rw same (ground arith) in
              (
                passes,
                Memᴰ.head same,
                (ground arith, more-IsBelow key p (key y) (key r) rs (ground arith) low),
              )
          | inr smaller ↦
              let same : r ≡ y = ground arith in
              (
                rw same passes_y,
                Memᴰ.tail (rw same member),
                (ground arith, more-IsBelow key p (key y) (key r) rs (ground arith) low),
              )
        ]
  ]

  pub unwrap : {x y : Option R} → some x ≡ some y → x ≡ y
  unwrap h = ground arith

  abbrev pub in_memory_latest : Latest R
  in_memory_latest = record {
    find_latest = λ key p rs. some (latest_of key p rs);
    find_latest-some = λ key p rs r h. latest_of-some key p rs r (unwrap h);
    find_latest-none = λ key p rs h. latest_of-none key p rs (unwrap h);
  }

  abbrev in_order : Bool → (R → ℕ) → R → R → Bool
  in_order ascending key y x = if ascending then ltb (key y) (key x) else ltb (key x) (key y)

  abbrev pub page_of : Bool → (R → ℕ) → (R → Bool) → ℕ → List R → List R
  page_of ascending key p limit rs =
      first_rows limit (sort_by (in_order ascending key) (filter p rs))

  filter-passes : (p : R → Bool) (rs : List R) → All (λ r. p r ≡ true) (filter p rs)
  filter-passes p [] = tt
  filter-passes p (r ∷ rs) = elim (Bool-cases (p r)) [
    | inl e ↦ rw e (e, filter-passes p rs)
    | inr e ↦ rw e (filter-passes p rs)
  ]

  pub page_of-passes :
      (ascending : Bool) (key : R → ℕ) (p : R → Bool) (limit : ℕ) (rs : List R)
      → All (λ r. p r ≡ true) (page_of ascending key p limit rs)
  page_of-passes ascending key p limit rs =
      All-first_rows (λ r. p r ≡ true) limit _
        (All-sort_by (λ r. p r ≡ true) (in_order ascending key) (filter p rs) (filter-passes p rs))

  sorted_length :
      (ascending : Bool) (key : R → ℕ) (p : R → Bool) (rs : List R)
      → Lists.length (sort_by (in_order ascending key) (filter p rs)) ≡ Lists.count p rs
  sorted_length ascending key p rs =
      length-sort_by (in_order ascending key) (filter p rs) ∙ length-filter p rs

  pub length-page_of :
      (ascending : Bool) (key : R → ℕ) (p : R → Bool) (limit : ℕ) (rs : List R)
      → Lists.length (page_of ascending key p limit rs)
        ≡ (if ltb limit (Lists.count p rs) then limit else Lists.count p rs)
  length-page_of ascending key p limit rs =
      length-first_rows limit (sort_by (in_order ascending key) (filter p rs))
      ∙ rw (sorted_length ascending key p rs) refl

  pub count-page_of :
      (ascending : Bool) (key : R → ℕ) (p q : R → Bool) (limit : ℕ) (rs : List R)
      → Lists.count p rs ≤ limit
      → Lists.count q (page_of ascending key p limit rs) ≡ Lists.count (λ r. p r && q r) rs
  count-page_of ascending key p q limit rs few =
      let sorted = sort_by (in_order ascending key) (filter p rs) in
      let small : Lists.length sorted ≤ limit =
        omega (arith, sorted_length ascending key p rs, few) in
      ap (Lists.count q) (first_rows_all limit sorted small)
      ∙ count-sort_by (in_order ascending key) q (filter p rs)
      ∙ count-filter p q rs

  abbrev pub in_memory_pages : Pages R
  in_memory_pages = record {
    find_page = page_of;
    length-find_page = length-page_of;
    find_page-passes = page_of-passes;
    count-find_page = count-page_of;
  }
