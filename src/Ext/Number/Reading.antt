-- ===== src/Ext/Number/Reading.antt =====
-- comon/ext.cpp, `evaluate_number`: the numbers that it reads, and what it does with text behind.
use mathlib.Core.List.{append-nil}
use comon.Base.{
  ℕ, suc, ◌+◌, ◌*◌, ◌^◌, ◌≤◌, ◌<◌, ◌≡◌, refl, ◌≢◌, false, [], ◌∷◌, ◌++◌, arith, nat_beq, Text,
  codes, none, some, starts_with, length,
}
use comon.Base.Result.{Result, ok}
use comon.Ext.Args.{is_space}
use comon.Ext.Number.{
  digit_value, digit, scan_digits, hex_mark, count_spaces, sign, stoull_digits, stoull,
  stoull_value, in_radix, evaluate_number,
}

-- the value of a text of digits, most significant first
unfoldable pub value : ℕ → ℕ → Text → ℕ
value base acc [] = acc
value base acc (c ∷ t) = elim (digit base c) [ none ↦ 0 | some d ↦ value base (acc * base + d) t ]

abbrev pub AllDigits : ℕ → Text → Type 0
AllDigits base [] = Unit {0}
AllDigits base (c ∷ t) = ((d : ℕ) × (digit base c ≡ some d)) × AllDigits base t

-- no digit of the base in front
abbrev pub Stops : ℕ → Text → Type 0
Stops base [] = Unit {0}
Stops base (c ∷ t) = digit base c ≡ none

scan_digits_lem :
    (base acc n : ℕ) (ds junk : Text)
    → AllDigits base ds
    → Stops base junk
    → scan_digits base acc n (ds ++ junk) ≡ (value base acc ds, n + length ds)
unfolding scan_digits value
scan_digits_lem base acc n [] [] hd hj = ground arith
scan_digits_lem base acc n [] (c ∷ junk) hd hj = ground arith
scan_digits_lem base acc n (c ∷ ds) junk hd hj =
    let (d, e) = hd.0 in
    ground (arith, scan_digits_lem base (acc * base + d) (suc n) ds junk hd.1 hj)

stoull_digits_lem :
    (base skipped : ℕ) (ds junk : Text)
    → AllDigits base ds
    → ds ≢ []
    → Stops base junk
    → value base 0 ds < 2 ^ 64
    → stoull_digits base skipped false (ds ++ junk) ≡ some (value base 0 ds, skipped + length ds)
unfolding stoull_digits
stoull_digits_lem base skipped [] junk hd ne hj small = absurd (ne refl)
stoull_digits_lem base skipped (c ∷ ds) junk hd ne hj small =
    ground (arith, scan_digits_lem base 0 0 (c ∷ ds) junk hd hj)

-- a digit is no space and no sign
digit_plain :
    (base c d : ℕ)
    → digit base c ≡ some d
    → (is_space c ≡ false) × (nat_beq c b'-' ≡ false) × (nat_beq c b'+' ≡ false)
unfolding digit digit_value
digit_plain base c d h = ground arith

count_spaces-digit : (base c d : ℕ) (t : Text) → digit base c ≡ some d → count_spaces (c ∷ t) ≡ 0
unfolding count_spaces
count_spaces-digit base c d t h = ground (arith, digit_plain base c d h)

sign-digit : (base c d : ℕ) (t : Text) → digit base c ≡ some d → sign (c ∷ t) ≡ (0, false)
unfolding sign
sign-digit base c d t h = ground (arith, digit_plain base c d h)

-- Digits without a `0x` mark in front of what is no digit are read up to there.
stoull_lem :
    (base : ℕ) (ds junk : Text)
    → AllDigits base ds
    → ds ≢ []
    → Stops base junk
    → value base 0 ds < 2 ^ 64
    → (base ≡ 16 → hex_mark (ds ++ junk) ≡ 0)
    → stoull base (ds ++ junk) ≡ some (value base 0 ds, length ds)
unfolding stoull
stoull_lem base [] junk hd ne hj small plain = absurd (ne refl)
stoull_lem base (c ∷ ds) junk hd ne hj small plain =
    let (d, e) = hd.0 in
    ground (
      arith,
      count_spaces-digit base c d (ds ++ junk) e,
      sign-digit base c d (ds ++ junk) e,
      plain,
      stoull_digits_lem base 0 (c ∷ ds) junk hd ne hj small,
    )

-- digits behind `0x`
stoull_hex :
    (ds junk : Text)
    → AllDigits 16 ds
    → ds ≢ []
    → Stops 16 junk
    → value 16 0 ds < 2 ^ 64
    → stoull 16 (codes "0x" ++ ds ++ junk) ≡ some (value 16 0 ds, 2 + length ds)
unfolding stoull hex_mark count_spaces sign
stoull_hex [] junk hd ne hj small = absurd (ne refl)
stoull_hex (c ∷ ds) junk hd ne hj small =
    let (d, e) = hd.0 in ground (arith, stoull_digits_lem 16 2 (c ∷ ds) junk hd ne hj small)

-- A number behind the prefix of its base, `0x`, `0y`, `0t` or `0n`.
pub data Prefix : ℕ → Text → Type 0 where
  hexadecimal : Prefix 16 (codes "0x")
  binary : Prefix 2 (codes "0y")
  octal : Prefix 8 (codes "0t")
  decimal : Prefix 10 (codes "0n")

-- the first character of digits is a digit
no_mark : (base : ℕ) (ds : Text) → base ≤ 16 → AllDigits base ds → hex_mark ds ≡ 0
unfolding hex_mark digit digit_value
no_mark base [] h hd = refl
no_mark base (c ∷ []) h hd = refl
no_mark base (c ∷ x ∷ []) h hd = refl
no_mark base (z ∷ x ∷ c ∷ t) h hd = let (d, e) = hd.1.0 in ground arith

stoull_value_lem :
    (base : ℕ) (ds junk : Text)
    → base ≤ 10
    → AllDigits base ds
    → ds ≢ []
    → Stops base junk
    → value base 0 ds < 2 ^ 64
    → stoull_value base (ds ++ junk) ≡ ok (value base 0 ds)
unfolding stoull_value
stoull_value_lem base ds junk h hd ne hj small =
    ground (arith, stoull_lem base ds junk hd ne hj small (λ e. absurd (omega arith)))

-- Digits behind a prefix, at least one and of a value below 2^64, are read as the number that they
-- stand for in the base of the prefix, whatever the radix of the debugger; text behind them that
-- starts with no digit of the base is ignored.
pub evaluate_number_prefixed :
    (get_radix : Result ℕ) {base : ℕ} {prefix : Text} (ds junk : Text)
    → Prefix base prefix
    → AllDigits base ds
    → ds ≢ []
    → Stops base junk
    → value base 0 ds < 2 ^ 64
    → evaluate_number get_radix (prefix ++ ds ++ junk) ≡ ok (value base 0 ds)
unfolding evaluate_number starts_with stoull_value
evaluate_number_prefixed r ds junk hexadecimal hd ne hj small =
    ground (arith, stoull_hex ds junk hd ne hj small)
evaluate_number_prefixed r ds junk binary hd ne hj small =
    stoull_value_lem 2 ds junk (omega arith) hd ne hj small
evaluate_number_prefixed r ds junk octal hd ne hj small =
    stoull_value_lem 8 ds junk (omega arith) hd ne hj small
evaluate_number_prefixed r ds junk decimal hd ne hj small =
    stoull_value_lem 10 ds junk (omega arith) hd ne hj small

-- no prefix of `evaluate_number`
unmarked :
    (prefix_letter base : ℕ) (ds : Text)
    → base ≤ 16
    → digit 16 prefix_letter ≡ none
    → AllDigits base ds
    → starts_with (b'0' ∷ prefix_letter ∷ []) ds ≡ false
unfolding starts_with digit
unmarked p base [] h hp hd = refl
unmarked p base (c ∷ []) h hp hd = ground arith
unmarked p base (c ∷ x ∷ t) h hp hd = let (d, e) = hd.1.0 in ground arith

-- Without a prefix the radix of the debugger counts, and the whole argument has to be digits.
pub evaluate_number_radix :
    (radix : ℕ) (ds : Text)
    → radix ≤ 16
    → AllDigits radix ds
    → ds ≢ []
    → value radix 0 ds < 2 ^ 64
    → evaluate_number (ok radix) ds ≡ ok (value radix 0 ds)
unfolding evaluate_number in_radix digit digit_value
evaluate_number_radix radix ds h hd ne small = ground (
  arith,
  unmarked b'x' radix ds h refl hd,
  unmarked b'y' radix ds h refl hd,
  unmarked b't' radix ds h refl hd,
  unmarked b'n' radix ds h refl hd,
  whole,
)
  where
    whole : stoull radix ds ≡ some (value radix 0 ds, length ds)
    whole =
        rw (append-nil ds) at
          (stoull_lem radix ds [] hd ne tt small (λ e. rw (append-nil ds) (no_mark radix ds h hd)))
