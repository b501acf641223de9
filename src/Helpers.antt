-- ===== src/Helpers.antt =====
-- comon/helpers.cpp: text from one encoding to another, and identifiers that have to be well-formed.
-- `MultiByteToWideChar` and `WideCharToMultiByte` belong to the system and are parameters.
pub mod Encodings
use comon.Base.{ℕ, zero, suc, ◌%◌, ◌^◌, Bool, true, false, List, [], ◌∷◌, nat_beq, length, Text}
use comon.Base.Result.{Result, ok, err}
use comon.Guid.{Guid, try_parse_guid}

-- `CP_ACP`, `CP_UTF8`, `MB_PRECOMPOSED`
abbrev pub cp_acp : ℕ
cp_acp = 0

abbrev pub cp_utf8 : ℕ
cp_utf8 = 65001

abbrev pub mb_precomposed : ℕ
mb_precomposed = 1

-- What a call gives back: its value, what then stands in the buffer, and the failure that
-- `THROW_LAST_ERROR` would throw.
pub record Answer : Type 0 where
  pub count : ℕ
  pub buffer : Text
  pub last_error : ℕ

-- The two functions of the system: a code page, flags, the text and its size, and the buffer; an empty
-- one is the null pointer, with which only the size of the result is asked for.
pub record Conversions : Type 0 where
  pub multi_byte_to_wide_char : ℕ → ℕ → Text → ℕ → Text → Answer
  pub wide_char_to_multi_byte : ℕ → ℕ → Text → ℕ → Text → Answer

-- `static_cast<int>` of a size, by its bits
abbrev pub int_size : Text → ℕ
int_size t = length t % 2 ^ 32

-- `out.resize(len, '\0')`
unfoldable pub zeros : ℕ → Text
zeros zero = []
zeros (suc n) = 0 ∷ zeros n

-- The body that the four functions share: one call for the size, one for the text. An exception is
-- `err`.
unfoldable pub two_calls : (Text → Answer) → Result Text
two_calls convert =
    let sized = convert [] in
    elim (nat_beq sized.count 0) [
      | true ↦ err sized.last_error
      | false ↦
          let filled = convert (zeros sized.count) in
          elim (nat_beq sized.count filled.count) [
            | true ↦ ok filled.buffer
            | false ↦ err filled.last_error
          ]
    ]

module _ (C : Conversions) where
  open C use {multi_byte_to_wide_char, wide_char_to_multi_byte}

  unfoldable pub widen : Text → Result Text
  widen [] = ok []
  widen (c ∷ s) =
      two_calls (multi_byte_to_wide_char cp_acp mb_precomposed (c ∷ s) (int_size (c ∷ s)))

  unfoldable pub narrow : Text → Result Text
  narrow [] = ok []
  narrow (c ∷ ws) = two_calls (wide_char_to_multi_byte cp_acp 0 (c ∷ ws) (int_size (c ∷ ws)))

  unfoldable pub to_utf8 : Text → Result Text
  to_utf8 [] = ok []
  to_utf8 (c ∷ ws) = two_calls (wide_char_to_multi_byte cp_utf8 0 (c ∷ ws) (int_size (c ∷ ws)))

  unfoldable pub from_utf8 : Text → Result Text
  from_utf8 [] = ok []
  from_utf8 (c ∷ s) = two_calls (multi_byte_to_wide_char cp_utf8 0 (c ∷ s) (int_size (c ∷ s)))

-- throws where `try_parse_guid` fails
unfoldable pub parse_guid : (Text → Result Guid) → Text → Result Guid
unfolding try_parse_guid
parse_guid iid_from_string ws = elim (try_parse_guid iid_from_string ws) [
  | ok guid ↦ ok guid
  | err hr ↦ err hr
]
