-- ===== src/Ext/Number.antt =====
-- comon/ext.cpp: `evaluate_number`, with `std::stoull` of the standard library as it reads a number.
pub mod Reading
pub mod Printed
use comon.Base.{
  drop, ℕ, zero, suc, ◌+◌, ◌-◌, ◌*◌, ◌%◌, ◌^◌, Bool, true, false, ◌&&◌, ◌||◌, List, [], ◌∷◌,
  nat_beq, leb, ltb, Text, codes, Option, none, some, starts_with, length,
}
use comon.Base.Result.{Result, ok, err, e_invalidarg}
use comon.Ext.Args.{is_space}

-- the value of a digit or letter
unfoldable pub digit_value : ℕ → Option ℕ
digit_value c = elim (leb b'0' c && leb c b'9') [
  | true ↦ some (c - b'0')
  | false ↦ elim (leb b'a' c && leb c b'z') [
    | true ↦ some (c - b'a' + 10)
    | false ↦ elim (leb b'A' c && leb c b'Z') [ true ↦ some (c - b'A' + 10) | false ↦ none ]
  ]
]

-- the digit that a character is in a base
unfoldable pub digit : ℕ → ℕ → Option ℕ
digit base c = elim (digit_value c) [
  | none ↦ none
  | some d ↦ elim (ltb d base) [ true ↦ some d | false ↦ none ]
]

-- value and number of the digits in front
unfoldable pub scan_digits : ℕ → ℕ → ℕ → Text → ℕ × ℕ
scan_digits base acc n [] = (acc, n)
scan_digits base acc n (c ∷ t) = elim (digit base c) [
  | none ↦ (acc, n)
  | some d ↦ scan_digits base (acc * base + d) (suc n) t
]

-- the length of a `0x` or `0X` that digits follow
unfoldable pub hex_mark : Text → ℕ
hex_mark (z ∷ x ∷ c ∷ t) = elim (nat_beq z b'0' && (nat_beq x b'x' || nat_beq x b'X')) [
  | false ↦ 0
  | true ↦ elim (digit 16 c) [ none ↦ 0 | some d ↦ 2 ]
]
hex_mark t = 0

unfoldable pub count_spaces : Text → ℕ
count_spaces [] = 0
count_spaces (c ∷ t) =
    let rest = count_spaces t in elim (is_space c) [ true ↦ suc rest | false ↦ 0 ]

-- the length of a sign, and whether it is a minus
unfoldable pub sign : Text → ℕ × Bool
sign [] = (0, false)
sign (c ∷ t) = elim (nat_beq c b'-') [
  | true ↦ (1, true)
  | false ↦ elim (nat_beq c b'+') [ true ↦ (1, false) | false ↦ (0, false) ]
]

-- The digits behind the first `skipped` characters; `none` is the exception for no digits or for
-- a value above 64 bits.
unfoldable pub stoull_digits : ℕ → ℕ → Bool → Text → Option (ℕ × ℕ)
stoull_digits base skipped negative t =
    let (value, n) = scan_digits base 0 0 t in
    elim (nat_beq n 0 || leb (2 ^ 64) value) [
      | true ↦ none
      | false ↦
          some (elim negative [ true ↦ (2 ^ 64 - value) % 2 ^ 64 | false ↦ value ], skipped + n)
    ]

-- `std::stoull(text, &pos, base)`: the value and `pos`
unfoldable pub stoull : ℕ → Text → Option (ℕ × ℕ)
stoull base t =
    let spaces = count_spaces t in
    let (signs, negative) = sign (drop spaces t) in
    let rest = drop (spaces + signs) t in
    let mark : ℕ = elim (nat_beq base 16) [ true ↦ hex_mark rest | false ↦ 0 ] in
    stoull_digits base (spaces + signs + mark) negative (drop mark rest)

-- `*number = std::stoull(text, nullptr, base)`, where an exception becomes E_INVALIDARG
unfoldable pub stoull_value : ℕ → Text → Result ℕ
stoull_value base t = elim (stoull base t) [ none ↦ err e_invalidarg | some (v, pos) ↦ ok v ]

-- `get_radix` is the answer of `IDebugControl4::GetRadix`.
unfoldable pub in_radix : Result ℕ → Text → Result ℕ
in_radix (err hr) arg = err hr
in_radix (ok radix) arg = elim (stoull radix arg) [
  | none ↦ err e_invalidarg
  | some (v, pos) ↦ elim (nat_beq pos (length arg)) [ true ↦ ok v | false ↦ err e_invalidarg ]
]

unfoldable pub evaluate_number : Result ℕ → Text → Result ℕ
evaluate_number get_radix arg = elim (starts_with (codes "0x") arg) [
  | true ↦ stoull_value 16 arg
  | false ↦ elim (starts_with (codes "0y") arg) [
    | true ↦ stoull_value 2 (drop 2 arg)
    | false ↦ elim (starts_with (codes "0t") arg) [
      | true ↦ stoull_value 8 (drop 2 arg)
      | false ↦ elim (starts_with (codes "0n") arg) [
        | true ↦ stoull_value 10 (drop 2 arg)
        | false ↦ in_radix get_radix arg
      ]
    ]
  ]
]
