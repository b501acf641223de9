-- ===== src/Cometa/Indexing.antt =====
-- comon/cometa.cpp: `index_tlb` and `index`, which fill the database from type libraries and from
-- the registry.
pub mod Rows
pub mod Commits
use comon.Base.{
  ℕ, zero, suc, ◌+◌, ◌-◌, ◌*◌, ◌/◌, ◌%◌, ◌^◌, Bool, true, false, ◌&&◌, ◌||◌, not, List, [], ◌∷◌,
  ◌++◌, Option, none, some, nat_beq, ltb, length, ◌==◌, nat_eq, list_eq, Text, codes,
}
use comon.Base.Result.{Result, ok, err}
use comon.Guid.{Guid, iid_iunknown, try_parse_guid}
use comon.Engine.{Comethod, ComethodArg}
use comon.Cometa.Types.{Cotype, Coclass, CotypeKind, interface, disp_interface, TypelibInfo}
use comon.Cometa.Registry.{Registry, get_child_key_names, read_text_value}
use comon.Cometa.Versions.{get_tlbinfo, key_read}
use comon.Cometa.TypeLib.{
  TypeInfos, TypeAttr, FuncDesc, TypeDesc, pointer, vt_of, vt_to_string, vt_hresult, vt_void,
  get_type_parent_iid, get_comethod_names, get_type_desc,
}
use comon.CallContext.Printing.{bad_type_name}
use comon.Cometa.Database.{Database}
use comon.Cometa.Writing.{
  Outcome, returns, fails, stops, Writing, ◌>>=◌, ◌>>◌, skip, pure, transaction, insert_cotype,
  insert_cotype_method, insert_cotype_method_arg, insert_coclass, parameter, this_parameter,
  idlflag_fout, idlflag_fretval,
}

-- `RETURN_IF_FAILED` of a call that does not write
abbrev pub outcome : {A : Type 0} → Result A → Outcome A
outcome (ok a) = returns a
outcome (err hr) = fails hr

abbrev pub reading : {Db A : Type 0} → Result A → Writing Db A
reading r db = (db, outcome r)

unfoldable pub stop : {Db A : Type 0} → Writing Db A
stop db = (db, stops)

-- a bit of `invkind`: `INVOKE_PROPERTYGET` is 2, `INVOKE_PROPERTYPUT` is 4 and
-- `INVOKE_PROPERTYPUTREF` is 8
abbrev pub has_bit : ℕ → ℕ → Bool
has_bit bit n = nat_beq (n / bit % 2) 1

unfoldable pub prefixed_name : ℕ → Text → Text
prefixed_name invkind name = elim (has_bit 8 invkind) [
  | true ↦ codes "putref_" ++ name
  | false ↦ elim (has_bit 4 invkind) [
    | true ↦ codes "put_" ++ name
    | false ↦ elim (has_bit 2 invkind) [ true ↦ codes "get_" ++ name | false ↦ name ]
  ]
]

-- how many methods at an ordinal belong to IUnknown or IDispatch, by the name of the first
unfoldable pub inherited : ℕ → Text → ℕ
inherited ordinal name = elim (nat_beq ordinal 0 && name == codes "QueryInterface") [
  | true ↦ 3
  | false ↦ elim ((nat_beq ordinal 0 || nat_beq ordinal 3) && name == codes "GetTypeInfoCount") [
    | true ↦ 4
    | false ↦ 0
  ]
]

-- The system's interfaces, the set of known types, and what a type is.
module _ (D : Database) (O : TypeInfos) (known_iids : List Guid) where
  open D use {Db}
  open O use {TypeInfo, load_type_lib_ex, get_documentation, get_type_attr, get_func_desc}

  -- `get_type_name`
  abbrev pub get_type_name : TypeInfo → TypeDesc → Text
  get_type_name typeinfo tdesc = elim (get_type_desc O typeinfo tdesc) [
    | ok type_name ↦ type_name
    | err _ ↦ bad_type_name
  ]

  -- the loop over the parameters, with their names, from an ordinal on
  unfoldable pub insert_params :
      TypeInfo → Guid → ℕ → List (TypeDesc × ℕ) → List Text → ℕ → Writing Db (Unit {0})
  insert_params typeinfo iid ordinal ((tdesc, flags) ∷ params) (name ∷ names) i =
      insert_cotype_method_arg D known_iids iid ordinal
        (parameter name (get_type_name typeinfo tdesc) flags) i
      >> insert_params typeinfo iid ordinal params names (suc i)
  insert_params typeinfo iid ordinal _ _ i = skip

  -- the return value is passed as an out parameter
  abbrev pub returns_by_parameter : CotypeKind → TypeDesc → Bool
  returns_by_parameter kind result =
      let result_vt : ℕ = vt_of result % 0x1000 in
      elim kind [
        | interface ↦ false
        | disp_interface ↦ not (nat_beq result_vt vt_hresult) && not (nat_beq result_vt vt_void)
      ]

  unfoldable pub insert_method :
      TypeInfo → TypeAttr → CotypeKind → ℕ → FuncDesc → Text → List Text → Writing Db (Unit {0})
  insert_method typeinfo typeattr kind ordinal fd name param_names =
      let iid = typeattr.guid in
      let method : Text → Comethod = λ return_type. record {
        iid = iid;
        name = prefixed_name fd.invkind name;
        ordinal = ordinal;
        callconv = fd.callconv;
        dispid = elim kind [ interface ↦ none | disp_interface ↦ some fd.memid ];
        return_type = return_type;
      } in
      insert_cotype_method_arg D known_iids iid ordinal this_parameter 0
      >> (insert_params typeinfo iid ordinal fd.params param_names 1
          >> elim (returns_by_parameter kind fd.elemdesc_func) [
            | true ↦
                insert_cotype_method_arg D known_iids iid ordinal
                  (parameter (codes "result") (get_type_name typeinfo (pointer fd.elemdesc_func))
                    (idlflag_fout + idlflag_fretval))
                  (suc (length fd.params))
                >> insert_cotype_method D known_iids (method (vt_to_string vt_hresult))
            | false ↦
                insert_cotype_method D known_iids (method (get_type_name typeinfo fd.elemdesc_func))
          ])

  -- the body of the loop for a function with its names: the methods inserted, and the ordinal
  -- afterwards
  unfoldable pub index_func :
      TypeInfo → TypeAttr → CotypeKind → ℕ → FuncDesc → List Text → Writing Db ℕ
  index_func typeinfo typeattr kind ordinal fd [] db = (db, stops)
  index_func typeinfo typeattr kind ordinal fd (name ∷ param_names) db =
      elim (nat_beq (inherited ordinal name) 0) [
        | false ↦ (db, returns (ordinal + inherited ordinal name))
        | true ↦ elim (nat_beq (length param_names) (length fd.params)) [
          | false ↦ (db, stops)
          | true ↦
              (insert_method typeinfo typeattr kind ordinal fd name param_names
                  >> pure (ordinal + 1))
                db
        ]
      ]

  -- the loop over the functions, on fuel
  unfoldable pub index_funcs : ℕ → TypeInfo → TypeAttr → CotypeKind → ℕ → Writing Db (Unit {0})
  index_funcs zero typeinfo typeattr kind ordinal = skip
  index_funcs (suc fuel) typeinfo typeattr kind ordinal =
      let again = index_funcs fuel typeinfo typeattr kind in
      elim (ltb ordinal typeattr.c_funcs) [
        | false ↦ skip
        | true ↦ do
          fd ← reading (get_func_desc typeinfo ordinal)
          names ← reading (get_comethod_names O typeinfo fd)
          next ← index_func typeinfo typeattr kind ordinal fd names
          again next
      ]

  -- the case of an interface or a dispatch interface
  unfoldable pub index_type : TypeInfo → TypeAttr → Text → CotypeKind → Writing Db (Unit {0})
  index_type typeinfo typeattr name kind = do
    parent_iid ← reading (get_type_parent_iid O typeinfo kind typeattr.c_impl_types)
    transaction D (do
      insert_cotype D known_iids (record {
        iid = typeattr.guid;
        name = name;
        type = kind;
        parent_iid = parent_iid;
        methods_available = true;
      })
      index_funcs typeattr.c_funcs typeinfo typeattr kind 0)

  -- by `typekind`: `TKIND_INTERFACE` is 3, `TKIND_DISPATCH` is 4 and `TKIND_COCLASS` is 5
  unfoldable pub index_typeinfo : TypeInfo → Writing Db (Unit {0})
  index_typeinfo typeinfo = do
    name ← reading (get_documentation typeinfo)
    typeattr ← reading (get_type_attr typeinfo)
    elim (nat_beq typeattr.typekind 3) [
      | true ↦ index_type typeinfo typeattr name interface
      | false ↦ elim (nat_beq typeattr.typekind 4) [
        | true ↦ index_type typeinfo typeattr name disp_interface
        | false ↦ elim (nat_beq typeattr.typekind 5) [
          | true ↦ insert_coclass D (record { clsid = typeattr.guid; name = name })
          | false ↦ skip
        ]
      ]
    ]

  unfoldable pub index_types : List (Result TypeInfo) → Writing Db (Unit {0})
  index_types [] = skip
  index_types (t ∷ types) = do typeinfo ← reading t; index_typeinfo typeinfo; index_types types

  unfoldable pub index_tlb : Text → Writing Db (Unit {0})
  index_tlb tlb_path = do types ← reading (load_type_lib_ex tlb_path); index_types types
