-- ===== src/Common/Tests.antt =====
-- Boolean tests on numbers and texts, and the conditional that the other modules branch by.
use Prim.Native.Nat.{ℕ, compare, Ordering}
use Prim.Native.String.{String}
use mathlib.Core.Path.{◌≡◌, refl}
use mathlib.Core.Logic.{◌↔◌, ◌⊎◌, ◌≢◌, inl, inr}
use mathlib.Core.Bool.{Bool, true, false}
use mathlib.Core.Option.{Option, none, some}
use native.Mathlib.Omega.{arith}
use text.Mathlib.Text.{◌==◌ as text_beq}
use text.Mathlib.TextEquality.{eq_iff}

abbrev pub ltb : ℕ → ℕ → Bool
ltb a b = elim (compare a b) [ Ordering.lt ↦ true | _ ↦ false ]

abbrev pub leb : ℕ → ℕ → Bool
leb a b = elim (compare a b) [ Ordering.gt ↦ false | _ ↦ true ]

abbrev nat_beq : ℕ → ℕ → Bool
nat_beq a b = elim (compare a b) [ Ordering.eq ↦ true | _ ↦ false ]

infix 1 if◌then◌else◌
abbrev pub if◌then◌else◌ {ℓ} : {A : Type ℓ} → Bool → A → A → A
if true then x else y = x
if false then x else y = y

-- Go's constraint `comparable`: a type whose `==` decides equality.
pub record Comparable {ℓ} (A : Type ℓ) : Type ℓ where
  pub equals : A → A → Bool
  pub equals_iff : (x y : A) → (equals x y ≡ true) ↔ (x ≡ y)

pub nat_beq_iff : (m n : ℕ) → (nat_beq m n ≡ true) ↔ (m ≡ n)
nat_beq_iff m n = ground arith

instance abbrev pub string_eq : Comparable String
string_eq = record { equals_iff = eq_iff; equals = text_beq }

instance abbrev pub nat_eq : Comparable ℕ
nat_eq = record { equals_iff = nat_beq_iff; equals = nat_beq }

infix 50 ◌==◌
abbrev pub ◌==◌ {ℓ} : {A : Type ℓ} ⦃c : Comparable A⦄ → A → A → Bool
◌==◌ ⦃c⦄ x y = c.equals x y

pub Bool-cases : (b : Bool) → (b ≡ true) ⊎ (b ≡ false)
Bool-cases true = inl refl
Bool-cases false = inr refl

pub Option-cases {ℓ} : {A : Type ℓ} (o : Option A) → (o ≡ none) ⊎ ((a : A) × (o ≡ some a))
Option-cases none = inl refl
Option-cases (some a) = inr (a, refl)

pub String-cases : (a b : String) → (a ≡ b) ⊎ (a ≢ b)
String-cases a b = elim (Bool-cases (text_beq a b)) [
  | inl same ↦ inl ((eq_iff a b).0 same)
  | inr other ↦ inr (λ e. cc ((eq_iff a b).1 e, other))
]
