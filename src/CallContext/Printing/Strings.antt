-- ===== src/CallContext/Printing/Strings.antt =====
-- comon/arch.cpp, `read_wstring` and `read_string`: when memory that was never written shows in the text.
use comon.Base.{
  ℕ, zero, suc, ◌*◌, ◌≤◌, ◌≡◌, refl, ap, true, List, [], ◌∷◌, ◌++◌, arith, nat_eq, member, length,
  take, Text,
}
use comon.Base.Result.{ok}
use comon.Guid.{Guid}
use comon.Engine.{Engine}
use comon.CallContext.Printing.{up_to_nul, wide_units, read_wstring, read_string}

up_to_nul-append : (xs ys : List ℕ) → member 0 xs ≡ true → up_to_nul (xs ++ ys) ≡ up_to_nul xs
unfolding member
up_to_nul-append [] ys h = ground (arith, h)
up_to_nul-append (x ∷ xs) ys h = ground (arith, h, up_to_nul-append xs ys)

wide_units-append :
    (xs ys : List ℕ)
    → member 0 (wide_units xs) ≡ true
    → up_to_nul (wide_units (xs ++ ys)) ≡ up_to_nul (wide_units xs)
unfolding member
wide_units-append [] ys h = ground (arith, h)
wide_units-append (a ∷ []) ys h = ground (arith, h)
wide_units-append (a ∷ b ∷ xs) ys h = ground (arith, h, wide_units-append xs ys)

-- what was read stands in front of what was there
take_read :
    (n : ℕ) (xs ys : List ℕ) → length xs ≤ n → (rest : List ℕ) × (take n (xs ++ ys) ≡ xs ++ rest)
take_read n [] ys h = (take n ys, refl)
take_read zero (x ∷ xs) ys h = absurd (omega arith)
take_read (suc n) (x ∷ xs) ys h =
    let (rest, e) = take_read n xs ys (omega arith) in (rest, ground (arith, e))

-- Where the bytes that could be read hold a terminating zero, both functions answer the text in
-- front of it, whatever stood in the memory of the buffer before.
pub read_string-stale :
    (E : Engine) (float_text : Text → ℕ → Text) (guid_text : Guid → Text) (widen : Text → Text)
    (stale bytes wide_bytes : List ℕ) (addr wide_addr maxlen : ℕ) (w : E.World)
    → E.read_virtual addr maxlen w ≡ ok bytes
    → length bytes ≤ maxlen
    → member 0 bytes ≡ true
    → E.read_virtual wide_addr (maxlen * 2) w ≡ ok wide_bytes
    → length wide_bytes ≤ maxlen * 2
    → member 0 (wide_units wide_bytes) ≡ true
    → (read_string E float_text guid_text widen stale addr maxlen w ≡ ok (up_to_nul bytes))
      × (read_wstring E float_text guid_text widen stale wide_addr maxlen w
          ≡ ok (up_to_nul (wide_units wide_bytes)))
unfolding read_string read_wstring
read_string-stale E ft gt wd stale bytes wide addr wide_addr maxlen w e fits nul e' fits' nul' =
    let (rest, same) = take_read maxlen bytes stale fits in
    let (rest', same') = take_read (maxlen * 2) wide stale fits' in
    (
      rw (e, same) (ap ok (up_to_nul-append bytes rest nul)),
      rw (e', same') (ap ok (wide_units-append wide rest' nul')),
    )
