-- ===== src/Guid/Printing.antt =====
-- comon/comon.h and comon/helpers.cpp: identifiers as text. `StringFromIID` of the system is a
-- parameter.
use comon.Base.{
  ℕ, ◌%◌, ◌^◌, true, false, ◌||◌, [], ◌∷◌, ◌++◌, Option, none, some, nat_beq, drop, Text, codes,
  hex_text,
}
use comon.Base.Result.{Result, ok, err}
use comon.Guid.{Guid}

-- `std::formatter<GUID>::parse`: the kind of output, and what follows; `none` is the exception
unfoldable pub parse_format : Text → Option (ℕ × Text)
parse_format [] = some (b'd', [])
parse_format (c ∷ t) = elim (nat_beq c b'}') [
  | true ↦ some (b'd', c ∷ t)
  | false ↦ elim (nat_beq c b'n' || (nat_beq c b'd' || nat_beq c b'b')) [
    | false ↦ none
    | true ↦ elim (t) [
      | [] ↦ some (c, [])
      | x ∷ rest ↦ elim (nat_beq x b'}') [ true ↦ some (c, x ∷ rest) | false ↦ none ]
    ]
  ]
]

-- without braces and dashes
unfoldable pub plain_digits : Text → Text
plain_digits [] = []
plain_digits (c ∷ t) =
    let rest = plain_digits t in
    elim (nat_beq c b'{' || (nat_beq c b'}' || nat_beq c b'-')) [ true ↦ rest | false ↦ c ∷ rest ]

-- `pop_back`
abbrev pub without_last : Text → Text
without_last [] = []
without_last (c ∷ []) = []
without_last (c ∷ d ∷ t) = c ∷ without_last (d ∷ t)

module _ (string_from_iid : Guid → Result Text) where
  unfoldable pub wstring_from_guid : Guid → Text
  wstring_from_guid guid = elim (string_from_iid guid) [
    | ok s ↦ s
    | err hr ↦ codes "<invalid: " ++ hex_text (hr % 2 ^ 32) ++ codes ">"
  ]

  -- `std::formatter<GUID>::format`
  unfoldable pub format_guid : ℕ → Guid → Text
  format_guid output_type g = elim (nat_beq output_type b'n') [
    | true ↦ plain_digits (wstring_from_guid g)
    | false ↦ elim (nat_beq output_type b'b') [
      | true ↦ wstring_from_guid g
      | false ↦ without_last (drop 1 (wstring_from_guid g))
    ]
  ]
