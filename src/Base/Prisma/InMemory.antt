-- ===== src/Base/Prisma/InMemory.antt =====
-- A client that keeps its rows in memory: the laws of the client can be met. `next` numbers the
-- new row of a `create`.
use mathlib.Core.Path.{◌≡◌, refl, sym, subst}
use mathlib.Core.Logic.{inl, inr}
use mathlib.Core.Bool.{Bool, true, false, not}
use mathlib.Core.Option.{Option, none, some}
use mathlib.Core.List.{List, [], ◌∷◌, ◌++◌, map, Memᴰ}
use native.Mathlib.Omega.{arith}
use Prim.Native.Nat.{ℕ, suc, ◌≤◌}
use thunderchat_server.Base.Tests.{if◌then◌else◌, Bool-cases, Option-cases}
use thunderchat_server.Base.Lists
use thunderchat_server.Base.Lists.{
  All, filter, any, find, find-none-count, find-some-count, find-some, count-filter,
}
use thunderchat_server.Base.Prisma.{Client, Distinct}

module _ {R : Type 0} where
  abbrev checked : Bool → R → List R → Option (List R)
  checked true r rs = none
  checked false r rs = some (r ∷ rs)

  abbrev insert : (R → R → Bool) → R → List R → Option (List R)
  insert clash r rs = checked (any (clash r) rs) r rs

  abbrev with_row : R → Option (List R) → Option (R × List R)
  with_row r none = none
  with_row r (some rs) = some (r, rs)

  abbrev create : (R → R → Bool) → (ℕ → R) → List R → Option (R × List R)
  create clash mk rs = let r = mk (suc (Lists.length rs)) in with_row r (insert clash r rs)

  abbrev insert_opt : (R → R → Bool) → R → Option (List R) → Option (List R)
  insert_opt clash r none = none
  insert_opt clash r (some rs) = insert clash r rs

  abbrev create_many : (R → R → Bool) → List R → List R → Option (List R)
  create_many clash [] rs = some rs
  create_many clash (r ∷ new) rs = insert_opt clash r (create_many clash new rs)

  abbrev update : (R → Bool) → (R → R) → List R → Option (R × List R)
  update p f rs = elim (find p rs) [
    | none ↦ none
    | some r ↦ some (f r, map (λ x. if p x then f x else x) rs)
  ]

  abbrev delete : (R → Bool) → List R → Option (List R)
  delete p rs = elim (find p rs) [ none ↦ none | some r ↦ some (filter (λ x. not (p x)) rs) ]

  abbrev delete_many : (R → Bool) → List R → Option (List R)
  delete_many p rs = some (filter (λ x. not (p x)) rs)

  pub find-mem : (p : R → Bool) (rs : List R) (r : R) → find p rs ≡ some r → Memᴰ r rs
  find-mem p [] r h = cc
  find-mem p (x ∷ rs) r h = elim (Bool-cases (p x)) [
    | inl e ↦ Memᴰ.head (ground arith)
    | inr e ↦ Memᴰ.tail (find-mem p rs r (ground arith))
  ]

  pub length-filter : (p : R → Bool) (rs : List R) → Lists.length (filter p rs) ≡ Lists.count p rs
  length-filter p [] = refl
  length-filter p (x ∷ rs) = ground (arith, length-filter p rs)

  insert-some :
      (clash : R → R → Bool) (r : R) (rs rs' : List R)
      → insert clash r rs ≡ some rs'
      → (rs' ≡ r ∷ rs) × (any (clash r) rs ≡ false)
  insert-some clash r rs rs' h = ground arith

  pub create-some :
      (clash : R → R → Bool) (mk : ℕ → R) (rs : List R) (r : R) (rs' : List R)
      → create clash mk rs ≡ some (r, rs')
      → (id : ℕ) × (r ≡ mk id) × (rs' ≡ r ∷ rs) × (any (clash r) rs ≡ false)
  create-some clash mk rs r rs' h =
      (suc (Lists.length rs), ground arith, ground arith, ground arith)

  pub create_many-some :
      (clash : R → R → Bool) (new rs rs' : List R)
      → create_many clash new rs ≡ some rs'
      → (rs' ≡ new ++ rs) × (Distinct clash rs → Distinct clash rs')
  create_many-some clash [] rs rs' h = (ground arith, λ d. subst (Distinct clash) (ground arith) d)
  create_many-some clash (r ∷ new) rs rs' h = elim (Option-cases (create_many clash new rs)) [
    | inl e ↦ absurd (ground arith)
    | inr (mid, e) ↦
        let (same, keep) = create_many-some clash new rs mid e in
        let (new_rows, fresh) = insert-some clash r mid rs' (rw (← h) (rw e)) in
        (ground arith, λ d. subst (Distinct clash) (sym new_rows) (fresh, keep d))
  ]

  pub update-some :
      (p : R → Bool) (f : R → R) (rs : List R) (r : R) (rs' : List R)
      → update p f rs ≡ some (r, rs')
      → (old : R) × Memᴰ old rs
        × (p old ≡ true)
        × (r ≡ f old)
        × (rs' ≡ map (λ x. if p x then f x else x) rs)
  update-some p f rs r rs' h = elim (Option-cases (find p rs)) [
    | inl e ↦ absurd (ground arith)
    | inr (old, e) ↦ (old, find-mem p rs old e, find-some p rs old e, ground arith, ground arith)
  ]

  pub delete-some :
      (p : R → Bool) (rs rs' : List R)
      → delete p rs ≡ some rs'
      → (1 ≤ Lists.count p rs) × (rs' ≡ filter (λ r. not (p r)) rs)
  delete-some p rs rs' h = elim (Option-cases (find p rs)) [
    | inl e ↦ absurd (ground arith)
    | inr (old, e) ↦ (find-some-count p rs old e, ground arith)
  ]

  pub delete_many-some :
      (p : R → Bool) (rs rs' : List R)
      → delete_many p rs ≡ some rs'
      → rs' ≡ filter (λ r. not (p r)) rs
  delete_many-some p rs rs' h = ground arith

-- The client of a table in memory.
abbrev pub in_memory : {R : Type 0} (clash : R → R → Bool) → Client R clash
in_memory clash = record {
  find_first = find;
  find_many = filter;
  count = Lists.count;
  create = create clash;
  create_many = create_many clash;
  update = update;
  delete = delete;
  delete_many = delete_many;
  find_first-some = λ p rs r h. (find-some p rs r h, find-mem p rs r h);
  find_first-none = find-none-count;
  count-find_many = count-filter;
  length-find_many = length-filter;
  count_lem = λ p rs. refl;
  create-some = create-some clash;
  create_many-some = create_many-some clash;
  update-some = update-some;
  delete-some = delete-some;
  delete_many-some = delete_many-some;
}
