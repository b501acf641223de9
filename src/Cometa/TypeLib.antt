-- ===== src/Cometa/TypeLib.antt =====
-- comon/cometa_helpers.cpp, namespace `typelib`: types and functions of a type library. The
-- interface `ITypeInfo` of OLE Automation is a parameter.
pub mod Names
use comon.Base.{
  ℕ, ◌+◌, ◌*◌, ◌%◌, ◌^◌, ◌≤◌, ◌<◌, ◌≡◌, Bool, true, false, List, [], ◌∷◌, ◌++◌, Option, none, some,
  nat_beq, nat_eq, leb, length, find, Text, codes, decimal_text, arith,
}
use comon.Base.Result.{Result, ok, err, ◌>>=◌, e_invalidarg}
use comon.Guid.{Guid, iid_iunknown, iid_idispatch}
use comon.Cometa.Types.{CotypeKind, interface, disp_interface}
use comon.CallContext.Printing.{bad_type_name}

abbrev pub vt_void : ℕ
vt_void = 24

abbrev pub vt_hresult : ℕ
vt_hresult = 25

abbrev pub vt_ptr : ℕ
vt_ptr = 26

-- `TYPEDESC`: the type number `vt`, with the member of the union that it selects; the upper bits of
-- the numbers of arrays may be set.
pub data TypeDesc : Type 0 where
  pointer : TypeDesc → TypeDesc
  safearray : ℕ → TypeDesc → TypeDesc
  carray : ℕ → TypeDesc → List ℕ → TypeDesc
  userdefined : ℕ → TypeDesc
  plain : ℕ → TypeDesc

abbrev pub vt_of : TypeDesc → ℕ
vt_of (pointer d) = vt_ptr
vt_of (safearray flags d) = flags * 0x1000 + 27
vt_of (carray flags d bounds) = flags * 0x1000 + 28
vt_of (userdefined href) = 29
vt_of (plain vt) = vt

abbrev pub vt_names : List (ℕ × Text)
vt_names =
    (0, codes "void")
    ∷ (1, codes "null")
    ∷ (2, codes "short")
    ∷ (3, codes "long")
    ∷ (4, codes "single")
    ∷ (5, codes "double")
    ∷ (6, codes "CURRENCY")
    ∷ (7, codes "DATE")
    ∷ (8, codes "BSTR")
    ∷ (9, codes "IDispatch*")
    ∷ (10, codes "SCODE")
    ∷ (11, codes "bool")
    ∷ (12, codes "VARIANT")
    ∷ (13, codes "IUnknown*")
    ∷ (14, codes "DECIMAL")
    ∷ (16, codes "char")
    ∷ (17, codes "unsigned char")
    ∷ (18, codes "unsigned short")
    ∷ (19, codes "unsigned long")
    ∷ (20, codes "int64")
    ∷ (21, codes "uint64")
    ∷ (22, codes "int")
    ∷ (23, codes "unsigned int")
    ∷ (24, codes "void")
    ∷ (25, codes "HRESULT")
    ∷ (26, codes "void*")
    ∷ (37, codes "int*")
    ∷ (38, codes "unsigned int*")
    ∷ (27, codes "SAFEARRAY")
    ∷ (28, codes "CARRAY")
    ∷ (29, codes "USERDEFINED")
    ∷ (30, codes "LPSTR")
    ∷ (31, codes "LPWSTR")
    ∷ (64, codes "FILETIME")
    ∷ (65, codes "BLOB")
    ∷ (66, codes "STREAM")
    ∷ (67, codes "STORAGE")
    ∷ (68, codes "STREAMED_OBJECT")
    ∷ (69, codes "STORED_OBJECT")
    ∷ (70, codes "BLOB_OBJECT")
    ∷ (71, codes "CF")
    ∷ (72, codes "GUID")
    ∷ []

-- `vt` without its upper four bits, looked up
unfoldable pub vt_to_string : ℕ → Text
vt_to_string vt = elim (find (vt % 0x1000) vt_names) [ none ↦ bad_type_name | some name ↦ name ]

-- `TYPEATTR`, with `typekind` as a number
pub record TypeAttr : Type 0 where
  pub guid : Guid
  pub typekind : ℕ
  pub c_funcs : ℕ
  pub c_impl_types : ℕ

-- `FUNCDESC`: each parameter has its type and its `wIDLFlags`
pub record FuncDesc : Type 0 where
  pub memid : ℕ
  pub invkind : ℕ
  pub callconv : ℕ
  pub params : List (TypeDesc × ℕ)
  pub elemdesc_func : TypeDesc

-- `LoadTypeLibEx` with the types of the library, and `ITypeInfo`
pub record TypeInfos : Type 1 where
  pub TypeInfo : Type 0
  pub load_type_lib_ex : Text → Result (List (Result TypeInfo))
  pub get_documentation : TypeInfo → Result Text
  pub get_type_attr : TypeInfo → Result TypeAttr
  pub get_ref_type_of_impl_type : TypeInfo → ℕ → Result ℕ
  pub get_ref_type_info : TypeInfo → ℕ → Result TypeInfo
  pub get_func_desc : TypeInfo → ℕ → Result FuncDesc
  pub get_names : TypeInfo → ℕ → ℕ → Result (List Text)

-- `[{}]` for each dimension
abbrev pub dimensions : List ℕ → Text
dimensions [] = []
dimensions (n ∷ bounds) = (b'[' ∷ decimal_text n ++ b']' ∷ []) ++ dimensions bounds

module _ (O : TypeInfos) where
  open O use {
    TypeInfo, get_documentation, get_type_attr, get_ref_type_of_impl_type, get_ref_type_info,
    get_names,
  }

  unfoldable pub get_type_parent_iid : TypeInfo → CotypeKind → ℕ → Result Guid
  get_type_parent_iid typeinfo kind parentype_cnt = elim (nat_beq parentype_cnt 0) [
    | true ↦ ok (elim kind [ disp_interface ↦ iid_idispatch | interface ↦ iid_iunknown ])
    | false ↦ do
      href ← get_ref_type_of_impl_type typeinfo 0
      parenti ← get_ref_type_info typeinfo href
      attr ← get_type_attr parenti
      ok attr.guid
  ]

  abbrev pub max_method_args_number : ℕ
  max_method_args_number = 64

  -- the name that is missing where a property is set
  abbrev pub with_rhs : ℕ → List Text → List Text
  with_rhs c_params names = elim (leb (length names) c_params) [
    | true ↦ names ++ codes "rhs" ∷ []
    | false ↦ names
  ]

  unfoldable pub get_comethod_names : TypeInfo → FuncDesc → Result (List Text)
  get_comethod_names typeinfo fd = elim (leb max_method_args_number (length fd.params)) [
    | true ↦ err e_invalidarg
    | false ↦ do
      names ← get_names typeinfo fd.memid max_method_args_number
      ok (with_rhs (length fd.params) names)
  ]

  unfoldable pub get_type_desc : TypeInfo → TypeDesc → Result Text
  get_type_desc typeinfo (pointer d) = do
    pointed ← get_type_desc typeinfo d
    ok (pointed ++ codes "*")
  get_type_desc typeinfo (safearray flags d) = do
    element ← get_type_desc typeinfo d
    ok (codes "SAFEARRAY(" ++ element ++ codes "")
  get_type_desc typeinfo (carray flags d bounds) = do
    element ← get_type_desc typeinfo d
    ok (element ++ dimensions bounds)
  get_type_desc typeinfo (userdefined href) = do
    ref_typeinfo ← get_ref_type_info typeinfo href
    get_documentation ref_typeinfo
  get_type_desc typeinfo (plain vt) = ok (vt_to_string vt)
