-- ===== src/CallContext/Types.antt =====
-- comon/arch.cpp: the kinds of types that arguments have, by their names.
use comon.Base.{
  Bool, ◌||◌, List, [], ◌∷◌, map, nat_eq, list_eq, ◌==◌, member, Text, codes, ends_with,
}

abbrev pub primitive_types : List Text
primitive_types = map codes (
    "bool" ∷ "char" ∷ "unsigned char" ∷ "short" ∷ "unsigned short" ∷ "long" ∷ "unsigned long"
    ∷ "int" ∷ "unsigned int" ∷ "int64" ∷ "uint64" ∷ "HRESULT" ∷ "DISPID" ∷ [])

unfoldable pub is_primitive_type : Text → Bool
is_primitive_type type = member type primitive_types

unfoldable pub is_float_type : Text → Bool
is_float_type type = type == codes "float" || type == codes "double" || type == codes "single"

unfoldable pub is_pointer_type : Text → Bool
is_pointer_type type =
    ends_with (codes "*") type
    || (type == codes "LPWSTR" || (type == codes "LPSTR" || type == codes "BSTR"))
