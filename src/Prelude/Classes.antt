-- ===== src/Prelude/Classes.antt =====
-- Equality tests as an interface, so that numbers and texts share one operator.
use Prim.Native.Nat.{ℕ}
use Prim.Native.String.{String}
use mathlib.Core.Path.{◌≡◌, refl, ap}
use mathlib.Core.Logic.{◌↔◌}
use mathlib.Core.Bool.{Bool, true, false}
use mathlib.Core.Option.{Option, none, some}
use native.Mathlib.Omega.{arith}
use text.Mathlib.Text.{◌==◌ as same_text}
use text.Mathlib.TextEquality.{eq_iff}
use lumescope.Prelude.Tests.{nat_beq, nat_beq_iff}

pub record Eq {ℓ} (A : Type ℓ) : Type ℓ where
  pub test : A → A → Bool
  pub test_iff : (x y : A) → (test x y ≡ true) ↔ (x ≡ y)

-- texts, and native numbers
instance abbrev pub string_eq : Eq String
string_eq = record { test = same_text; test_iff = eq_iff }

instance abbrev pub nat_eq : Eq ℕ
nat_eq = record { test = nat_beq; test_iff = nat_beq_iff }

abbrev pub same_option : {A : Type 0} → Eq A → Option A → Option A → Bool
same_option e none none = true
same_option e none (some b) = false
same_option e (some a) none = false
same_option e (some a) (some b) = e.test a b

pub same_option_iff :
    {A : Type 0} (e : Eq A) (o p : Option A) → (same_option e o p ≡ true) ↔ (o ≡ p)
same_option_iff e none none = (λ _. refl, λ _. refl)
same_option_iff e none (some b) = (λ h. ground arith, λ h. ground arith)
same_option_iff e (some a) none = (λ h. ground arith, λ h. ground arith)
same_option_iff e (some a) (some b) =
    (λ h. ap some ((e.test_iff a b).0 h), λ h. ground (arith, e.test_iff a b))

module _ {A : Type 0} ⦃e : Eq A⦄ where
  -- two absent values are equal, and one group for GROUP BY
  instance abbrev pub option_eq : Eq (Option A)
  option_eq = record { test = same_option e; test_iff = same_option_iff e }

module _ {ℓ} {A : Type ℓ} ⦃e : Eq A⦄ where
  infix 50 ◌==◌
  abbrev pub ◌==◌ : A → A → Bool
  x == y = e.test x y

  pub beq_refl : (x : A) → (x == x) ≡ true
  beq_refl x = (e.test_iff x x).1 refl
