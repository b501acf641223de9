-- ===== src/Base/Bits.antt =====
-- The binary digits of numbers under `bit_and` and `bit_or`.
use Prim.Native.Nat.{
  ℕ, zero, suc, ◌+◌, ◌*◌, ◌/◌, ◌%◌, ◌≤◌, ◌<◌, min, max, bit_and, bit_or, digits, bitwise,
  bit_and-bitwise, bit_or-bitwise,
}
use mathlib.Core.Path.{◌≡◌, refl, sym, ◌∙◌, ap}
use mathlib.Core.Bool.{Bool, true, false, ◌&&◌}
use native.Mathlib.Omega.{arith}
use comon.Base.Tests.{nat_beq}
use comon.Base.Equality.{nat_eq}

-- digit `n`, the lowest first
abbrev pub bit : ℕ → ℕ → ℕ
bit zero x = x % 2
bit (suc n) x = bit n (x / 2)

module _ (z : ℕ → ℕ) (f : ℕ → ℕ → ℕ) where
  -- any count of digits that is enough gives the same
  digits_enough : (n m a b : ℕ) → a ≤ n → a ≤ m → digits z f n a b ≡ digits z f m a b
  digits_enough zero zero a b p q = refl
  digits_enough zero (suc m) zero b p q = refl
  digits_enough zero (suc m) (suc a) b p q = absurd (omega (arith, p))
  digits_enough (suc n) zero zero b p q = refl
  digits_enough (suc n) zero (suc a) b p q = absurd (omega (arith, q))
  digits_enough (suc n) (suc m) zero b p q = refl
  digits_enough (suc n) (suc m) (suc a) b p q =
      ap (λ (r : ℕ). r * 2 + f (suc a % 2) (b % 2))
        (digits_enough n m (suc a / 2) (b / 2) (omega (arith, p)) (omega (arith, q)))

  bitwise_step :
      ((b : ℕ) → z b ≡ z (b / 2) * 2 + f 0 (b % 2))
      → (a b : ℕ) → bitwise z f a b ≡ bitwise z f (a / 2) (b / 2) * 2 + f (a % 2) (b % 2)
  bitwise_step first zero b = first b
  bitwise_step first (suc a) b =
      ap (λ (r : ℕ). r * 2 + f (suc a % 2) (b % 2))
        (digits_enough a (suc a / 2) (suc a / 2) (b / 2) (omega arith) (omega arith))

and_step : (a b : ℕ) → bit_and a b ≡ bit_and (a / 2) (b / 2) * 2 + min (a % 2) (b % 2)
and_step a b =
    bit_and-bitwise a b
    ∙ bitwise_step (λ b. 0) min (λ b. omega arith) a b
    ∙ ap (λ (r : ℕ). r * 2 + min (a % 2) (b % 2)) (sym (bit_and-bitwise (a / 2) (b / 2)))

or_step : (a b : ℕ) → bit_or a b ≡ bit_or (a / 2) (b / 2) * 2 + max (a % 2) (b % 2)
or_step a b =
    bit_or-bitwise a b
    ∙ bitwise_step (λ b. b) max (λ b. omega arith) a b
    ∙ ap (λ (r : ℕ). r * 2 + max (a % 2) (b % 2)) (sym (bit_or-bitwise (a / 2) (b / 2)))

pub bit-bit_and : (n a b : ℕ) → bit n (bit_and a b) ≡ min (bit n a) (bit n b)
bit-bit_and zero a b = omega (arith, and_step a b)
bit-bit_and (suc n) a b =
    let half : bit_and a b / 2 ≡ bit_and (a / 2) (b / 2) = omega (arith, and_step a b) in
    ap (bit n) half ∙ bit-bit_and n (a / 2) (b / 2)

pub bit-bit_or : (n a b : ℕ) → bit n (bit_or a b) ≡ max (bit n a) (bit n b)
bit-bit_or zero a b = omega (arith, or_step a b)
bit-bit_or (suc n) a b =
    let half : bit_or a b / 2 ≡ bit_or (a / 2) (b / 2) = omega (arith, or_step a b) in
    ap (bit n) half ∙ bit-bit_or n (a / 2) (b / 2)

pub bit_small : (n x : ℕ) → bit n x < 2
bit_small zero x = omega arith
bit_small (suc n) x = bit_small n (x / 2)

-- a test of all numbers below a bound
abbrev all_below : ℕ → (ℕ → Bool) → Bool
all_below zero p = true
all_below (suc n) p = p n && all_below n p

all_below_lem : (n : ℕ) (p : ℕ → Bool) (x : ℕ) → all_below n p ≡ true → x < n → p x ≡ true
all_below_lem zero p x h less = absurd (omega (arith, less))
all_below_lem (suc n) p x h less = ground (arith, all_below_lem n p x)

-- the digits of a 32-bit mask that has all but one digit, and of that digit alone
abbrev mask_test : ℕ → Bool
mask_test n = nat_beq (bit n 0xfffffffb) (elim (nat_beq n 2) [ true ↦ 0 | false ↦ 1 ])

abbrev flag_test : ℕ → Bool
flag_test n = nat_beq (bit n 4) (elim (nat_beq n 2) [ true ↦ 1 | false ↦ 0 ])

mask_table : all_below 32 mask_test ≡ true
mask_table = refl

flag_table : all_below 32 flag_test ≡ true
flag_table = refl

pub bit_mask : (n : ℕ) → n < 32 → bit n 0xfffffffb ≡ elim (nat_beq n 2) [ true ↦ 0 | false ↦ 1 ]
bit_mask n small = (nat_eq.equals_iff _ _).1 (all_below_lem 32 mask_test n mask_table small)

pub bit_flag : (n : ℕ) → n < 32 → bit n 4 ≡ elim (nat_beq n 2) [ true ↦ 1 | false ↦ 0 ]
bit_flag n small = (nat_eq.equals_iff _ _).1 (all_below_lem 32 flag_test n flag_table small)
