-- ===== src/Base/Sort.antt =====
-- A stable sort by a key, as `Array.prototype.sort` gives, and the first elements of a list.
use mathlib.Core.Path.{◌≡◌, refl}
use mathlib.Core.Bool.{Bool}
use mathlib.Core.List.{List, [], ◌∷◌}
use mathlib.Core.Logic.{inl, inr}
use native.Mathlib.Omega.{arith}
use Prim.Native.Nat.{ℕ, zero, suc, ◌+◌, ◌≤◌}
use thunderchat_server.Base.Tests.{if◌then◌else◌, ltb, Bool-cases}
use thunderchat_server.Base.Lists.{length, count, All}

module _ {ℓ} {A : Type ℓ} where
  abbrev pub insert_by : (A → A → Bool) → A → List A → List A
  insert_by before x [] = x ∷ []
  insert_by before x (y ∷ ys) =
      let rest = insert_by before x ys in if before y x then y ∷ rest else x ∷ y ∷ ys

  -- `before y x` holds where y comes strictly before x.
  abbrev pub sort_by : (A → A → Bool) → List A → List A
  sort_by before [] = []
  sort_by before (x ∷ xs) = insert_by before x (sort_by before xs)

  abbrev pub first_rows : ℕ → List A → List A
  first_rows zero xs = []
  first_rows (suc n) [] = []
  first_rows (suc n) (x ∷ xs) = x ∷ first_rows n xs

  count-insert_by :
      (before : A → A → Bool) (q : A → Bool) (x : A) (ys : List A)
      → count q (insert_by before x ys) ≡ (if q x then 1 else 0) + count q ys
  count-insert_by before q x [] = ground arith
  count-insert_by before q x (y ∷ ys) = ground (arith, count-insert_by before q x ys)

  pub count-sort_by :
      (before : A → A → Bool) (q : A → Bool) (xs : List A)
      → count q (sort_by before xs) ≡ count q xs
  count-sort_by before q [] = refl
  count-sort_by before q (x ∷ xs) =
      ground (arith, count-insert_by before q x (sort_by before xs), count-sort_by before q xs)

  length-insert_by :
      (before : A → A → Bool) (x : A) (ys : List A) → length (insert_by before x ys) ≡ length ys + 1
  length-insert_by before x [] = ground arith
  length-insert_by before x (y ∷ ys) = ground (arith, length-insert_by before x ys)

  pub length-sort_by :
      (before : A → A → Bool) (xs : List A) → length (sort_by before xs) ≡ length xs
  length-sort_by before [] = refl
  length-sort_by before (x ∷ xs) =
      ground (arith, length-insert_by before x (sort_by before xs), length-sort_by before xs)

  module _ {κ} (P : A → Type κ) where
    All-insert_by :
        (before : A → A → Bool) (x : A) (ys : List A)
        → P x
        → All P ys
        → All P (insert_by before x ys)
    All-insert_by before x [] h v = (h, tt)
    All-insert_by before x (y ∷ ys) h v =
        let rest = All-insert_by before x ys h v.1 in
        elim (Bool-cases (before y x)) [ inl e ↦ rw e (v.0, rest) | inr e ↦ rw e (h, v) ]

    pub All-sort_by : (before : A → A → Bool) (xs : List A) → All P xs → All P (sort_by before xs)
    All-sort_by before [] v = tt
    All-sort_by before (x ∷ xs) v =
        All-insert_by before x (sort_by before xs) v.0 (All-sort_by before xs v.1)

    pub All-first_rows : (n : ℕ) (xs : List A) → All P xs → All P (first_rows n xs)
    All-first_rows zero xs v = tt
    All-first_rows (suc n) [] v = tt
    All-first_rows (suc n) (x ∷ xs) v = (v.0, All-first_rows n xs v.1)

  pub length-first_rows :
      (n : ℕ) (xs : List A)
      → length (first_rows n xs) ≡ (if ltb n (length xs) then n else length xs)
  length-first_rows zero xs = ground arith
  length-first_rows (suc n) [] = ground arith
  length-first_rows (suc n) (x ∷ xs) = ground (arith, length-first_rows n xs)

  pub first_rows_all : (n : ℕ) (xs : List A) → length xs ≤ n → first_rows n xs ≡ xs
  first_rows_all zero [] h = refl
  first_rows_all zero (x ∷ xs) h = absurd (ground arith)
  first_rows_all (suc n) [] h = refl
  first_rows_all (suc n) (x ∷ xs) h = ground (arith, first_rows_all n xs)
