-- ===== src/Ext/Number/Printed.antt =====
-- comon/ext.cpp and comon/arch.cpp: numbers that the extension prints with `{:#x}`, read back by
-- `evaluate_number`.
use mathlib.Core.List.{append-nil}
use comon.Base.{
  ℕ, zero, suc, ◌+◌, ◌*◌, ◌/◌, ◌%◌, ◌^◌, ◌≤◌, ◌<◌, ◌≡◌, ◌≢◌, refl, ◌∙◌, true, false, some, [], ◌∷◌,
  ◌++◌, arith, ltb, inl, inr, Bool-cases, Text, digit_char, digits_text, hex_text,
}
use comon.Base.Result.{Result, ok}
use comon.Ext.Number.{digit, digit_value, evaluate_number}
use comon.Ext.Number.Reading.{value, AllDigits, hexadecimal, evaluate_number_prefixed}

digit-digit_char : (d : ℕ) → d < 16 → digit 16 (digit_char d) ≡ some d
unfolding digit digit_value
digit-digit_char d h = ground arith

value-append :
    (base acc d c : ℕ) (ds : Text)
    → AllDigits base ds
    → digit base c ≡ some d
    → value base acc (ds ++ c ∷ []) ≡ value base acc ds * base + d
unfolding value
value-append base acc d c [] h e = rw (e, value) refl
value-append base acc d c (x ∷ ds) h e =
    let (v, is) = h.0 in rw (is, value) (value-append base (acc * base + v) d c ds h.1 e)

AllDigits-append :
    (base d c : ℕ) (ds : Text)
    → AllDigits base ds
    → digit base c ≡ some d
    → AllDigits base (ds ++ c ∷ [])
AllDigits-append base d c [] h e = ((d, e), tt)
AllDigits-append base d c (x ∷ ds) h e = (h.0, AllDigits-append base d c ds h.1 e)

value_one : (c d : ℕ) → digit 16 c ≡ some d → value 16 0 (c ∷ []) ≡ d
unfolding value
value_one c d h = ground arith

digits_text_last : (fuel n : ℕ) → ltb n 16 ≡ true → digits_text (suc fuel) 16 n ≡ digit_char n ∷ []
unfolding digits_text
digits_text_last fuel n h = ground arith

digits_text_more :
    (fuel n : ℕ)
    → ltb n 16 ≡ false
    → digits_text (suc fuel) 16 n ≡ digits_text fuel 16 (n / 16) ++ digit_char (n % 16) ∷ []
unfolding digits_text
digits_text_more fuel n h = ground arith

-- enough fuel gives the digits of the number
digits_text_lem :
    (fuel n : ℕ)
    → n < fuel
    → AllDigits 16 (digits_text fuel 16 n) × (value 16 0 (digits_text fuel 16 n) ≡ n)
digits_text_lem zero n h = absurd (omega arith)
digits_text_lem (suc fuel) n h = elim (Bool-cases (ltb n 16)) [
  | inl last ↦
      let small : n < 16 = ground arith in
      rw (digits_text_last fuel n last)
        (((n, digit-digit_char n small), tt), value_one (digit_char n) n (digit-digit_char n small))
  | inr more ↦
      let big : 16 ≤ n = ground arith in
      let fewer : n / 16 < fuel = omega arith in
      let (all, same) = digits_text_lem fuel (n / 16) fewer in
      let front = digit-digit_char (n % 16) (omega arith) in
      rw (digits_text_more fuel n more) (
        AllDigits-append 16 (n % 16) (digit_char (n % 16)) (digits_text fuel 16 (n / 16)) all front,
        value-append 16 0 (n % 16) (digit_char (n % 16)) (digits_text fuel 16 (n / 16)) all front
            ∙ (rw same (omega arith)),
      )
]

append-ne : (xs : Text) (c : ℕ) → xs ++ c ∷ [] ≢ []
append-ne [] c = ground arith
append-ne (x ∷ xs) c = ground arith

digits_text_ne : (fuel n : ℕ) → n < fuel → digits_text fuel 16 n ≢ []
digits_text_ne zero n h = absurd (omega arith)
digits_text_ne (suc fuel) n h = elim (Bool-cases (ltb n 16)) [
  | inl last ↦ rw (digits_text_last fuel n last) (ground arith)
  | inr more ↦
      rw (digits_text_more fuel n more)
        (append-ne (digits_text fuel 16 (n / 16)) (digit_char (n % 16)))
]

-- An address below 2^64 that is written with `{:#x}` is read back as itself, whatever the radix of
-- the debugger.
pub evaluate_number-hex_text :
    (get_radix : Result ℕ) (n : ℕ) → n < 2 ^ 64 → evaluate_number get_radix (hex_text n) ≡ ok n
unfolding hex_text
evaluate_number-hex_text get_radix n h =
    let (all, same) = digits_text_lem (suc n) n (omega arith) in
    let read =
      evaluate_number_prefixed get_radix (digits_text (suc n) 16 n) [] hexadecimal all
        (digits_text_ne (suc n) n (omega arith)) tt (rw same h) in
    rw (append-nil (digits_text (suc n) 16 n), same) at read
