-- ===== src/Tests/Texts.antt =====
-- comon/helpers.cpp and comon.h with a system that writes the units of ASCII as they are, and has a
-- text for one error.
use comon.Base.{
  Bool-cases, inl, inr, ℕ, ◌<◌, ◌≡◌, refl, true, false, [], ◌∷◌, arith, nat_beq, length, codes,
  Text,
}
use comon.Base.Result.{ok, ◌>>=◌}
use comon.Helpers.{Answer, Conversions, cp_utf8, to_utf8, from_utf8}
use comon.Logger.Messages.{IsText, messages, get_error_msg-messages}
use comon.Helpers.Encodings.{Converts, Utf8Laws, from_utf8-to_utf8}

-- a call with a buffer of another size fails with ERROR_INSUFFICIENT_BUFFER
abbrev copy : ℕ → ℕ → Text → ℕ → Text → Answer
copy code_page flags t size [] = record { count = size; buffer = []; last_error = 0 }
copy code_page flags t size (c ∷ out) = elim (nat_beq (length (c ∷ out)) (length t)) [
  | true ↦ record { count = size; buffer = t; last_error = 0 }
  | false ↦ record { count = 0; buffer = c ∷ out; last_error = 0x8007007a }
]

abbrev ascii : Conversions
ascii = record { multi_byte_to_wide_char = copy; wide_char_to_multi_byte = copy }

copied : (t : Text) (code_page : ℕ) → 0 < length t → Converts (copy code_page 0 t (length t)) t
copied t code_page some_text = record { sized = refl; filled = filled }
  where
    filled :
        (buffer : Text)
        → length buffer ≡ length t
        → ((copy code_page 0 t (length t) buffer).count ≡ length t)
          × ((copy code_page 0 t (length t) buffer).buffer ≡ t)
    filled [] e = absurd (omega (arith, some_text, e))
    filled (c ∷ out) e = ground (arith, e)

ascii_laws : Utf8Laws ascii
ascii_laws = record {
  IsWellFormed = λ t. Unit {0};
  encode = λ t. t;
  encode_few = λ t. omega arith;
  encode_some = λ t some_text. some_text;
  encodes = λ t wf some_text small. copied t cp_utf8 some_text;
  decodes = λ t wf some_text small. copied t cp_utf8 some_text;
}

from_utf8-to_utf8_example :
    (to_utf8 ascii (codes "cometa.db3") >>= from_utf8 ascii) ≡ ok (codes "cometa.db3")
unfolding ascii_laws
from_utf8-to_utf8_example = from_utf8-to_utf8 ascii ascii_laws (codes "cometa.db3") tt (omega arith)

-- a system with a text for the error 5 only
abbrev one_error : ℕ → Text
one_error hr = elim (nat_beq hr 5) [ true ↦ codes "denied\r\n" | false ↦ [] ]

abbrev one_text : ℕ → Text
one_text hr = elim (nat_beq hr 5) [ true ↦ codes "denied" | false ↦ [] ]

one_error-IsText : (hr : ℕ) → IsText one_error hr (one_text hr)
one_error-IsText hr = elim (Bool-cases (nat_beq hr 5)) [
  | inl five ↦ inl (rw (five, one_error, one_text) refl)
  | inr other ↦ inr (rw (other, one_error) refl, rw (other, one_text) refl)
]

get_error_msg-messages_example :
    messages one_error (5 ∷ 7 ∷ 5 ∷ []) [] ≡ codes "denied" ∷ [] ∷ codes "denied" ∷ []
get_error_msg-messages_example =
    get_error_msg-messages one_error one_text one_error-IsText (5 ∷ 7 ∷ 5 ∷ [])
