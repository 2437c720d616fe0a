-- ===== src/Base/Keeps.antt =====
-- Predicates on states that an action keeps, whether it returns or throws.
use mathlib.Core.Logic.{inl, inr}
use mathlib.Core.Option.{Option, none, some}
use thunderchat_server.Base.Tests.{Option-cases}
use thunderchat_server.Base.Action.{Action, Exception, Result-cases, catch, query, ◌>>=◌}

abbrev pub Keeps {ℓ} : {S A : Type 0} → (S → Type ℓ) → Action S A → Type ℓ
Keeps P m = (s : _) → P s → P (m s).1

module _ {ℓ} {S : Type 0} (P : S → Type ℓ) where
  pub Keeps-bind :
      {A B : Type 0} (m : Action S A) (f : A → Action S B)
      → Keeps P m
      → ((a : A) → Keeps P (f a))
      → Keeps P (m >>= f)
  Keeps-bind m f h k s v = elim (Result-cases (m s).0) [
    | inl (a, e) ↦ rw (e, ◌>>=◌) (k a (m s).1 (h s v))
    | inr (x, e) ↦ rw (e, ◌>>=◌) (h s v)
  ]

  pub Keeps-catch :
      {A : Type 0} (m : Action S A) (f : Exception → Action S A)
      → Keeps P m
      → ((e : Exception) → Keeps P (f e))
      → Keeps P (catch m f)
  Keeps-catch m f h k s v = elim (Result-cases (m s).0) [
    | inl (a, e) ↦ rw (e, catch) (h s v)
    | inr (x, e) ↦ rw (e, catch) (k x (m s).1 (h s v))
  ]

  -- A query that is answered by a value from which the new state is made.
  pub Keeps-query :
      {A R : Type 0} (o : S → Option R) (a : R → A) (t : R → S → S)
      → ((r : R) (s : S) → P s → P (t r s))
      → Keeps P (query (λ s. elim (o s) [ none ↦ none | some r ↦ some (a r, t r s) ]))
  Keeps-query o a t h s v = elim (Option-cases (o s)) [
    | inl e ↦ rw (e, query) v
    | inr (r, e) ↦ rw (e, query) (h r s v)
  ]
