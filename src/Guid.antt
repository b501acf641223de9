-- ===== src/Guid.antt =====
-- comon/comon.h and comon/helpers.cpp: identifiers of COM classes and interfaces. A `GUID` is its
-- 128-bit value, read from the text form left to right; `IIDFromString`, which the system
-- implements, is a parameter.
pub mod Printing
use comon.Base.{
  ℕ, ◌<◌, ◌≡◌, ◌≢◌, true, false, ◌&&◌, not, [], ◌∷◌, ◌++◌, arith, length, nat_beq, ltb, Text,
}
use comon.Base.Result.{Result}

abbrev pub Guid : Type 0
Guid = ℕ

-- `__uuidof(IUnknown)`
abbrev pub iid_iunknown : Guid
iid_iunknown = 0x00000000_0000_0000_c000_000000000046

-- `__uuidof(IClassFactory)`
abbrev pub iid_iclassfactory : Guid
iid_iclassfactory = 0x00000001_0000_0000_c000_000000000046

-- `__uuidof(IDispatch)`
abbrev pub iid_idispatch : Guid
iid_idispatch = 0x00020400_0000_0000_c000_000000000046

-- `ws[0]` and `ws[ws.size() - 1]` of a text that is not empty; 0 stands for none
abbrev pub first_unit : Text → ℕ
first_unit [] = 0
first_unit (c ∷ t) = c

abbrev pub last_unit : Text → ℕ
last_unit [] = 0
last_unit (c ∷ []) = c
last_unit (c ∷ d ∷ t) = last_unit (d ∷ t)

module _ (iid_from_string : Text → Result Guid) where
  -- the text with braces, if it has neither
  unfoldable pub try_parse_guid : Text → Result Guid
  try_parse_guid ws =
      elim (ltb 2 (length ws)
        && (not (nat_beq (first_unit ws) b'{') && not (nat_beq (last_unit ws) b'}'))) [
          | true ↦ iid_from_string (b'{' ∷ ws ++ b'}' ∷ [])
          | false ↦ iid_from_string ws
        ]

  -- A text of more than two characters that neither starts nor ends with a brace parses alike with
  -- and without braces around it.
  pub try_parse_guid_braces :
      (t : Text)
      → 2 < length t
      → first_unit t ≢ b'{'
      → last_unit t ≢ b'}'
      → try_parse_guid (b'{' ∷ t ++ b'}' ∷ []) ≡ try_parse_guid t
  unfolding try_parse_guid
  try_parse_guid_braces t h f l = ground arith
