-- ===== src/CallContext/Printing.antt =====
-- comon/arch.cpp: `get_arg_value_in_text`, which writes the value of an argument for the log.
pub mod Strings
use comon.Base.{
  ℕ, ◌+◌, ◌-◌, ◌*◌, ◌%◌, ◌^◌, true, false, ◌||◌, List, [], ◌∷◌, ◌++◌, nat_beq, nat_eq, list_eq,
  ◌==◌, ltb, length, take, little_endian, add64, Text, codes, ends_with, decimal_text, hex_text,
  signed_text,
}
use comon.Base.Result.{Result, ok, err, ◌>>=◌, e_notimpl}
use comon.Guid.{Guid}
use comon.Arch.{pointer_size}
use comon.Engine.{Engine}
use comon.CallContext.Types.{is_primitive_type, is_pointer_type}
use comon.CallContext.{read_pointer, read_object, read_guid}

-- a `char` as a wide code unit, its sign extended
abbrev pub wide_char : ℕ → ℕ
wide_char c = elim (ltb c 128) [ true ↦ c | false ↦ 0xff00 + c ]

-- everything up to the first 0
abbrev pub up_to_nul : List ℕ → List ℕ
up_to_nul [] = []
up_to_nul (c ∷ cs) = elim (nat_beq c 0) [ true ↦ [] | false ↦ c ∷ up_to_nul cs ]

-- the wide code units of bytes
abbrev pub wide_units : List ℕ → List ℕ
wide_units (a ∷ b ∷ bytes) = (a + 256 * b) ∷ wide_units bytes
wide_units _ = []

-- `typelib::bad_type_name`
abbrev pub bad_type_name : Text
bad_type_name = codes "BAD_TYPE"

-- ` (type)`
abbrev pub in_parens : Text → Text
in_parens type = codes " (" ++ type ++ codes ")"

-- `type.substr(0, type.size() - 1)`
abbrev pub pointee : Text → Text
pointee type = take (length type - 1) type

-- how a value of a floating point type is written
module _ (float_text : Text → ℕ → Text) where
  unfoldable pub get_primitive_arg_value_in_text : Text → ℕ → Text
  get_primitive_arg_value_in_text type raw_val = elim (type == codes "bool") [
    | true ↦ elim (nat_beq raw_val 0) [ true ↦ codes "false" | false ↦ codes "true" ]
    | false ↦ elim (type == codes "char") [
      | true ↦ 39 ∷ wide_char (raw_val % 2 ^ 8) ∷ 39 ∷ []
      | false ↦ elim (type == codes "unsigned char") [
        | true ↦ 39 ∷ decimal_text (raw_val % 2 ^ 8) ++ 39 ∷ []
        | false ↦ elim (type == codes "short" || type == codes "unsigned short") [
          | true ↦ signed_text 16 raw_val
          | false ↦ elim (type == codes "long" || type == codes "int") [
            | true ↦ signed_text 32 raw_val
            | false ↦ elim (type == codes "unsigned long" || type == codes "unsigned int") [
              | true ↦ decimal_text (raw_val % 2 ^ 32)
              | false ↦ elim (type == codes "int64") [
                | true ↦ signed_text 64 raw_val
                | false ↦ elim (type == codes "uint64") [
                  | true ↦ decimal_text (raw_val % 2 ^ 64)
                  | false ↦
                      elim (type == codes "single"
                        || (type == codes "float" || type == codes "double")) [
                          | true ↦ float_text type raw_val
                          | false ↦
                              elim (type == codes "DISPID"
                                || (type == codes "HRESULT" || type == codes "SCODE")) [
                                  | true ↦ hex_text (raw_val % 2 ^ 32)
                                  | false ↦ codes "??"
                                ]
                        ]
                ]
              ]
            ]
          ]
        ]
      ]
    ]
  ]

-- The text of an identifier, the widening of narrow text, and what stands in memory that was just
-- allocated.
module _ (E : Engine) (float_text : Text → ℕ → Text) (guid_text : Guid → Text) (widen : Text → Text)
    (stale : List ℕ) where
  open E use {World, arch, read_virtual}

  -- The buffer is not cleared, and only part of it may have been read.
  unfoldable pub read_wstring : ℕ → ℕ → World → Result Text
  read_wstring addr maxlen w = do
    bytes ← read_virtual addr (maxlen * 2) w
    ok (up_to_nul (wide_units (take (maxlen * 2) (bytes ++ stale))))

  unfoldable pub read_string : ℕ → ℕ → World → Result Text
  read_string addr maxlen w = do
    bytes ← read_virtual addr maxlen w
    ok (up_to_nul (take maxlen (bytes ++ stale)))

  -- `{:#x} ({}) -> `
  abbrev pub arrow : ℕ → Text → Text
  arrow addr type = hex_text addr ++ in_parens type ++ codes " -> "

  unfoldable pub dispparams_text : ℕ → Text → World → Result Text
  dispparams_text addr type w = do
    args ← read_pointer E addr w
    named_args ← read_pointer E (add64 addr (pointer_size arch)) w
    arg_count ← read_object E (add64 addr (2 * pointer_size arch)) 4 w
    named_arg_count ← read_object E (add64 addr (2 * pointer_size arch + 4)) 4 w
    ok (
        arrow addr type
        ++ codes "{ "
        ++ hex_text args
        ++ codes ", "
        ++ hex_text named_args
        ++ codes ", "
        ++ decimal_text (little_endian arg_count)
        ++ codes ", "
        ++ decimal_text (little_endian named_arg_count)
        ++ codes " }")

  unfoldable pub get_pointer_arg_value_in_text : Text → ℕ → World → Result Text
  get_pointer_arg_value_in_text type addr w = elim (nat_beq addr 0) [
    | true ↦ ok (codes "null" ++ in_parens type)
    | false ↦ elim (type == codes "GUID*") [
      | true ↦ do guid ← read_guid E addr w; ok (arrow addr type ++ guid_text guid)
      | false ↦ elim (type == codes "LPWSTR" || type == codes "BSTR") [
        | true ↦ do str ← read_wstring addr 100 w; ok (arrow addr type ++ b'"' ∷ str ++ b'"' ∷ [])
        | false ↦ elim (type == codes "LPSTR") [
          | true ↦ do
            str ← read_string addr 100 w
            ok (arrow addr type ++ b'"' ∷ widen str ++ b'"' ∷ [])
          | false ↦ elim (type == codes "DISPPARAMS*") [
            | true ↦ dispparams_text addr type w
            | false ↦ elim (is_primitive_type (pointee type)) [
              | true ↦ do
                val ← read_pointer E addr w
                ok (
                    arrow addr type
                    ++ get_primitive_arg_value_in_text float_text (pointee type) val)
              | false ↦ elim (ends_with (codes "**") type) [
                | true ↦ do pval ← read_pointer E addr w; ok (arrow addr type ++ hex_text pval)
                | false ↦ ok (hex_text addr ++ in_parens type)
              ]
            ]
          ]
        ]
      ]
    ]
  ]

  -- the text behind a failed read is the one that the caller passed
  abbrev pub or_text : Text → Result Text → Text × Result (Unit {0})
  or_text text (ok written) = (written, ok tt)
  or_text text (err hr) = (text, err hr)

  unfoldable pub get_arg_value_in_text : Text → ℕ → Text → World → Text × Result (Unit {0})
  get_arg_value_in_text type value text w =
      elim (type == codes "void" || (type == codes "null" || type == bad_type_name)) [
        | true ↦ (b'(' ∷ type ++ codes ")", ok tt)
        | false ↦ elim (is_primitive_type type) [
          | true ↦ (get_primitive_arg_value_in_text float_text type value ++ in_parens type, ok tt)
          | false ↦ elim (is_pointer_type type) [
            | true ↦ or_text text (get_pointer_arg_value_in_text type value w)
            | false ↦ (codes "??" ++ in_parens type, err e_notimpl)
          ]
        ]
      ]
