-- ===== src/Base/Format.antt =====
-- Numbers as `std::format` writes them: `{}` and `{:#x}`.
use Prim.Native.Nat.{ℕ, zero, suc, ◌+◌, ◌-◌, ◌/◌, ◌%◌, ◌^◌}
use mathlib.Core.Bool.{true, false}
use mathlib.Core.List.{[], ◌∷◌, ◌++◌}
use comon.Base.Tests.{ltb}
use comon.Base.Texts.{Text}

-- a digit of a base up to 16
abbrev pub digit_char : ℕ → ℕ
digit_char d = elim (ltb d 10) [ true ↦ b'0' + d | false ↦ b'a' + (d - 10) ]

-- The digits of a number, on fuel; more fuel than the number is enough.
unfoldable pub digits_text : ℕ → ℕ → ℕ → Text
digits_text zero base n = []
digits_text (suc fuel) base n =
    let front = digits_text fuel base (n / base) in
    elim (ltb n base) [ true ↦ digit_char n ∷ [] | false ↦ front ++ digit_char (n % base) ∷ [] ]

unfoldable pub decimal_text : ℕ → Text
decimal_text n = digits_text (suc n) 10 n

unfoldable pub hex_text : ℕ → Text
hex_text n = b'0' ∷ b'x' ∷ digits_text (suc n) 16 n

-- a signed integer of `bits` bits, in two's complement
unfoldable pub signed_text : ℕ → ℕ → Text
signed_text bits n =
    let v : ℕ = n % 2 ^ bits in
    elim (ltb v (2 ^ (bits - 1))) [
      | true ↦ decimal_text v
      | false ↦ b'-' ∷ decimal_text (2 ^ bits - v)
    ]
