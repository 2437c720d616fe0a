-- ===== src/Base/Adds.antt =====
-- Actions that let a size grow, by a bound at most, whether they return or throw.
use mathlib.Core.Path.{◌≡◌, refl}
use mathlib.Core.Logic.{inl, inr}
use mathlib.Core.Bool.{Bool}
use mathlib.Core.Option.{Option, none, some}
use native.Mathlib.Omega.{arith}
use Prim.Native.Nat.{ℕ, ◌+◌, ◌≤◌}
use thunderchat_server.Base.Tests.{Option-cases}
use thunderchat_server.Base.Action.{
  Action, Exception, Result-cases, pure, throw, throw_if, catch, query, ◌>>=◌,
}

abbrev pub Adds : {S A : Type 0} → (S → ℕ) → ℕ → Action S A → Type 0
Adds size k m = (s : _) → (size s ≤ size (m s).1) × (size (m s).1 ≤ size s + k)

module _ {S : Type 0} (size : S → ℕ) where
  pub Adds-bind :
      {A B : Type 0} (j k : ℕ) (m : Action S A) (f : A → Action S B)
      → Adds size j m
      → ((a : A) → Adds size k (f a))
      → Adds size (j + k) (m >>= f)
  Adds-bind j k m f h g s =
      let (low, high) = h s in
      elim (Result-cases (m s).0) [
        | inl (a, e) ↦ let (low', high') = g a (m s).1 in rw (e, ◌>>=◌) ((omega arith, omega arith))
        | inr (x, e) ↦ rw (e, ◌>>=◌) ((low, omega arith))
      ]

  pub Adds-catch :
      {A : Type 0} (j k : ℕ) (m : Action S A) (f : Exception → Action S A)
      → Adds size j m
      → ((e : Exception) → Adds size k (f e))
      → Adds size (j + k) (catch m f)
  Adds-catch j k m f h g s =
      let (low, high) = h s in
      elim (Result-cases (m s).0) [
        | inl (a, e) ↦ rw (e, catch) ((low, omega arith))
        | inr (x, e) ↦ let (low', high') = g x (m s).1 in rw (e, catch) ((omega arith, omega arith))
      ]

  -- A query that is answered by a value from which the new state is made.
  pub Adds-query :
      {A R : Type 0} (k : ℕ) (o : S → Option R) (a : R → A) (t : R → S → S)
      → ((r : R) (s : S) → o s ≡ some r → (size s ≤ size (t r s)) × (size (t r s) ≤ size s + k))
      → Adds size k (query (λ s. elim (o s) [ none ↦ none | some r ↦ some (a r, t r s) ]))
  Adds-query k o a t h s = elim (Option-cases (o s)) [
    | inl e ↦ rw (e, query) ((omega arith, omega arith))
    | inr (r, e) ↦ rw (e, query) (h r s e)
  ]

  pub Adds-none : {A : Type 0} (m : Action S A) → ((s : S) → size (m s).1 ≡ size s) → Adds size 0 m
  Adds-none m h s = let same = h s in (omega arith, omega arith)

  pub Adds-pure : {A : Type 0} (a : A) → Adds size 0 (pure a)
  Adds-pure a = Adds-none (pure a) λ s. refl

  pub Adds-throw : (A : Type 0) (e : Exception) → Adds size 0 (throw {A = A} e)
  Adds-throw A e = Adds-none (throw {A = A} e) λ s. refl

  pub Adds-throw_if : (c : Bool) (e : Exception) → Adds size 0 (throw_if c e)
  Adds-throw_if c e = Adds-none (throw_if c e) λ s. refl
