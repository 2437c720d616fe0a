-- ===== src/Base/Tests.antt =====
-- Tests with results in `Bool`, the conditional, and an interface for types with an equality test.
use Prim.Native.Nat.{ℕ, compare, Ordering}
use Prim.Native.String.{String}
use mathlib.Core.Path.{◌≡◌, refl}
use mathlib.Core.Logic.{◌↔◌, ◌⊎◌, inl, inr}
use mathlib.Core.Bool.{Bool, true, false}
use mathlib.Core.Option.{Option, none, some}
use mathlib.Core.List.{List, [], ◌∷◌}
use native.Mathlib.Omega.{arith}
use text.Mathlib.Text.{◌==◌ as str_eq}
use text.Mathlib.TextEquality.{eq_iff}

abbrev pub ltb : ℕ → ℕ → Bool
ltb a b = elim (compare a b) [ Ordering.lt ↦ true | _ ↦ false ]

abbrev pub leb : ℕ → ℕ → Bool
leb a b = elim (compare a b) [ Ordering.gt ↦ false | _ ↦ true ]

abbrev pub nat_beq : ℕ → ℕ → Bool
nat_beq a b = elim (compare a b) [ Ordering.eq ↦ true | _ ↦ false ]

infix 1 if◌then◌else◌
abbrev pub if◌then◌else◌ {ℓ} : {A : Type ℓ} → Bool → A → A → A
if true then x else y = x
if false then x else y = y

pub nat_beq_iff : (a b : ℕ) → (nat_beq a b ≡ true) ↔ (a ≡ b)
nat_beq_iff a b = ground arith

-- Types whose elements can be compared, with what the comparison decides.
pub record Eq {ℓ} (A : Type ℓ) : Type ℓ where
  pub equals : A → A → Bool
  pub equals_iff : (x y : A) → (equals x y ≡ true) ↔ (x ≡ y)

instance abbrev pub string_eq : Eq String
string_eq = record { equals = str_eq; equals_iff = eq_iff }

instance abbrev pub nat_eq : Eq ℕ
nat_eq = record { equals = nat_beq; equals_iff = nat_beq_iff }

infix 50 ◌==◌
abbrev pub ◌==◌ {ℓ} : {A : Type ℓ} ⦃c : Eq A⦄ → A → A → Bool
◌==◌ ⦃c⦄ x y = c.equals x y

pub eq_refl {ℓ} : {A : Type ℓ} ⦃c : Eq A⦄ (a : A) → (a == a) ≡ true
eq_refl ⦃c⦄ a = (c.equals_iff a a).1 refl

-- Lists are compared element by element.
module _ {ℓ} {A : Type ℓ} ⦃c : Eq A⦄ where
  abbrev lists_equal : List A → List A → Bool
  lists_equal [] [] = true
  lists_equal (x ∷ xs) (y ∷ ys) = if x == y then lists_equal xs ys else false
  lists_equal _ _ = false

  pub lists_equal_iff : (xs ys : List A) → (lists_equal xs ys ≡ true) ↔ (xs ≡ ys)
  lists_equal_iff [] [] = ground arith
  lists_equal_iff [] (y ∷ ys) = ground arith
  lists_equal_iff (x ∷ xs) [] = ground arith
  lists_equal_iff (x ∷ xs) (y ∷ ys) = ground (arith, lists_equal_iff xs ys, c.equals_iff x y)

  instance abbrev pub list_eq : Eq (List A)
  list_eq = record { equals = lists_equal; equals_iff = lists_equal_iff }

pub Bool-cases : (b : Bool) → (b ≡ true) ⊎ (b ≡ false)
Bool-cases true = inl refl
Bool-cases false = inr refl

pub Option-cases {ℓ} : {A : Type ℓ} (o : Option A) → (o ≡ none) ⊎ ((a : A) × (o ≡ some a))
Option-cases none = inl refl
Option-cases (some a) = inr (a, refl)

abbrev pub is_some {ℓ} : {A : Type ℓ} → Option A → Bool
is_some none = false
is_some (some a) = true
