-- ===== src/Prelude/Classes.antt =====
-- Equality tests by instances: `a == b` for numbers, texts, options and enumerations.
use Prim.Native.Nat.{ℕ}
use Prim.Native.String.{String}
use mathlib.Core.Path.{◌≡◌, refl}
use mathlib.Core.Logic.{◌↔◌}
use mathlib.Core.Bool.{Bool, true, false, ◌||◌}
use mathlib.Core.List.{List, [], ◌∷◌}
use mathlib.Core.Option.{Option, none, some}
use native.Mathlib.Omega.{arith}
use text.Mathlib.Text.{◌==◌ as str_eq}
use text.Mathlib.TextEquality.{eq_iff}
use guru_ji.Prelude.Tests.{nat_eqb, nat_eqb_iff}

-- An equality test with what it decides.
pub record Eq {ℓ} (A : Type ℓ) : Type ℓ where
  pub tests_equal : A → A → Bool
  pub decides : (a b : A) → (tests_equal a b ≡ true) ↔ (a ≡ b)

instance abbrev pub string_eq : Eq String
string_eq = record { tests_equal = str_eq; decides = eq_iff }

-- The test that a decision gives.
abbrev pub test {ℓ} : {P : Type ℓ} → Dec P → Bool
test (yes p) = true
test (no q) = false

Dec-test_iff {ℓ} : {P : Type ℓ} (d : Dec P) → (test d ≡ true) ↔ P
Dec-test_iff (yes p) = (λ _. p, λ _. refl)
Dec-test_iff (no q) = (λ h. absurd (cc), λ p. absurd (q p))

pub test_iff {ℓ} : {A : Type ℓ} (d : Discrete A) (a b : A) → (test (d a b) ≡ true) ↔ (a ≡ b)
test_iff d a b = Dec-test_iff (d a b)

abbrev pub discrete_eq {ℓ} : {A : Type ℓ} → Discrete A → Eq A
discrete_eq d = record { tests_equal = λ a b. test (d a b); decides = test_iff d }

infix 50 ◌==◌
abbrev pub ◌==◌ {ℓ} : {A : Type ℓ} ⦃i : Eq A⦄ → A → A → Bool
◌==◌ ⦃i⦄ a b = i.tests_equal a b

instance abbrev pub nat_eq : Eq ℕ
nat_eq = record { tests_equal = nat_eqb; decides = nat_eqb_iff }

-- `x in xs`
abbrev pub contains {ℓ} : {A : Type ℓ} ⦃e : Eq A⦄ → List A → A → Bool
contains [] a = false
contains (x ∷ xs) a = x == a || contains xs a

abbrev option_beq {ℓ} : {A : Type ℓ} → (A → A → Bool) → Option A → Option A → Bool
option_beq f none none = true
option_beq f (some a) (some b) = f a b
option_beq f _ _ = false

pub option_beq_iff {ℓ} :
    {A : Type ℓ} (e : Eq A) (a b : Option A) → (option_beq e.tests_equal a b ≡ true) ↔ (a ≡ b)
option_beq_iff e none none = ground arith
option_beq_iff e none (some b) = ground arith
option_beq_iff e (some a) none = ground arith
option_beq_iff e (some a) (some b) = ground (arith, e.decides a b)

instance abbrev pub option_eq {ℓ} : {A : Type ℓ} ⦃e : Eq A⦄ → Eq (Option A)
option_eq ⦃e⦄ = record { tests_equal = option_beq e.tests_equal; decides = option_beq_iff e }
