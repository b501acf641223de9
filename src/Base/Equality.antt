-- ===== src/Base/Equality.antt =====
-- Equality tests as an interface: the `operator==` of the key types.
use Prim.Native.Nat.{ℕ}
use mathlib.Core.Path.{◌≡◌}
use mathlib.Core.Logic.{◌↔◌}
use mathlib.Core.Bool.{Bool, true, false, ◌&&◌}
use mathlib.Core.List.{List, [], ◌∷◌}
use native.Mathlib.Omega.{arith}
use comon.Base.Tests.{nat_beq, nat_beq_iff}

pub record Equals {ℓ} (A : Type ℓ) : Type ℓ where
  pub equals : A → A → Bool
  pub equals_iff : (x y : A) → (x ≡ y) ↔ (equals x y ≡ true)

module _ {ℓ} {A : Type ℓ} ⦃e : Equals A⦄ where
  infix 50 ◌==◌
  abbrev pub ◌==◌ : A → A → Bool
  x == y = e.equals x y

-- machine words and identifiers
instance abbrev pub nat_eq : Equals ℕ
nat_eq = record { equals = nat_beq; equals_iff = nat_beq_iff }

module _ {ℓ κ} {A : Type ℓ} {B : Type κ} where
  abbrev pub pair_beq : Equals A → Equals B → A × B → A × B → Bool
  pair_beq e f (a, b) (c, d) = e.equals a c && f.equals b d

  pub pair_beq_iff :
      (e : Equals A) (f : Equals B) (p q : A × B) → (p ≡ q) ↔ (pair_beq e f p q ≡ true)
  pair_beq_iff e f (a, b) (c, d) = ground (arith, e.equals_iff a c, f.equals_iff b d)

  instance abbrev pub pair_eq : ⦃e : Equals A⦄ ⦃f : Equals B⦄ → Equals (A × B)
  pair_eq ⦃e⦄ ⦃f⦄ = record { equals = pair_beq e f; equals_iff = pair_beq_iff e f }

module _ {ℓ} {A : Type ℓ} where
  abbrev pub list_beq : Equals A → List A → List A → Bool
  list_beq e [] [] = true
  list_beq e (x ∷ xs) (y ∷ ys) = e.equals x y && list_beq e xs ys
  list_beq e _ _ = false

  pub list_beq_iff : (e : Equals A) (xs ys : List A) → (xs ≡ ys) ↔ (list_beq e xs ys ≡ true)
  list_beq_iff e [] [] = ground arith
  list_beq_iff e (x ∷ xs) (y ∷ ys) = ground (arith, e.equals_iff x y, list_beq_iff e xs ys)
  list_beq_iff e [] (y ∷ ys) = ground arith
  list_beq_iff e (x ∷ xs) [] = ground arith

  instance abbrev pub list_eq : ⦃e : Equals A⦄ → Equals (List A)
  list_eq ⦃e⦄ = record { equals = list_beq e; equals_iff = list_beq_iff e }
