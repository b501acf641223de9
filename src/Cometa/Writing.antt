-- ===== src/Cometa/Writing.antt =====
-- comon/cometa.cpp: the writing methods of `cometa`, and the types that a new database starts with.
use comon.Base.{ℕ, suc, true, false, List, [], ◌∷◌, none, Text, codes, nat_eq, member, add_member}
use comon.Guid.{Guid, iid_iunknown, iid_idispatch}
use comon.Arch.{cc_stdcall}
use comon.Engine.{Comethod, ComethodArg, Covtable, Comodule}
use comon.Cometa.Types.{Cotype, Coclass, interface}
use comon.Cometa.Database.{Database}

-- how a method ends: it returns, it returns the code of a failure, or an assertion fails or an
-- exception is thrown
pub data Outcome (A : Type 0) : Type 0 where
  returns : A → Outcome A
  fails : ℕ → Outcome A
  stops : Outcome A

-- a method that writes into the database
abbrev pub Writing : Type 0 → Type 0 → Type 0
Writing Db A = Db → Db × Outcome A

unfoldable pub continue : {Db A B : Type 0} → Db → Outcome A → (A → Writing Db B) → Db × Outcome B
continue db (returns a) f = f a db
continue db (fails hr) f = (db, fails hr)
continue db stops f = (db, stops)

infixl 5 ◌>>=◌ ◌>>◌
unfoldable pub ◌>>=◌ : {Db A B : Type 0} → Writing Db A → (A → Writing Db B) → Writing Db B
unfolding continue
◌>>=◌ m f db = let (db', r) = m db in continue db' r f

unfoldable pub ◌>>◌ : {Db A B : Type 0} → Writing Db A → Writing Db B → Writing Db B
unfolding continue
◌>>◌ m k db = let (db', r) = m db in continue db' r (λ _. k)

unfoldable pub skip : {Db : Type 0} → Writing Db (Unit {0})
skip db = (db, returns tt)

unfoldable pub pure : {Db A : Type 0} → A → Writing Db A
pure a db = (db, returns a)

-- a writing statement; an exception of it leaves the method
unfoldable pub write : (D : Database) → (D.Db → D.Db) → Writing D.Db (Unit {0})
write D f db = elim (D.throws db) [ true ↦ (db, stops) | false ↦ (f db, returns tt) ]

abbrev pub idlflag_fin : ℕ
idlflag_fin = 1

abbrev pub idlflag_fout : ℕ
idlflag_fout = 2

abbrev pub idlflag_fretval : ℕ
idlflag_fretval = 8

module _ (D : Database) where
  open D use {
    Db, begin_transaction, commit, rollback, replace_cotype, replace_cotype_method,
    replace_cotype_method_arg, replace_coclass, replace_vtable, vtables,
  }

  -- `commit` at the end of the block, or the destructor, which rolls back what was not committed
  abbrev pub close : Db → Outcome (Unit {0}) → Db × Outcome (Unit {0})
  close db (returns u) = (commit db, returns u)
  close db (fails hr) = (rollback db, fails hr)
  close db stops = (rollback db, stops)

  -- the block of a `SQLite::Transaction`
  unfoldable pub transaction : Writing Db (Unit {0}) → Writing Db (Unit {0})
  transaction body db = let (db', r) = body (begin_transaction db) in close db' r

  -- the methods below read `_known_iids`
  module _ (known_iids : List Guid) where
    unfoldable pub insert_cotype : Cotype → Writing Db (Unit {0})
    insert_cotype typedesc = elim (member typedesc.iid known_iids) [
      | true ↦ skip
      | false ↦ write D (replace_cotype typedesc)
    ]

    unfoldable pub insert_cotype_method : Comethod → Writing Db (Unit {0})
    insert_cotype_method method = elim (member method.iid known_iids) [
      | true ↦ skip
      | false ↦ write D (replace_cotype_method method)
    ]

    unfoldable pub insert_cotype_method_arg : Guid → ℕ → ComethodArg → ℕ → Writing Db (Unit {0})
    insert_cotype_method_arg iid method_ordinal arg arg_ordinal = elim (member iid known_iids) [
      | true ↦ skip
      | false ↦ write D (replace_cotype_method_arg iid method_ordinal (arg_ordinal, arg))
    ]

  unfoldable pub insert_coclass : Coclass → Writing Db (Unit {0})
  insert_coclass classdesc = write D (replace_coclass classdesc)

  unfoldable pub save_module_vtable : Comodule → Covtable → Db → Db
  save_module_vtable comodule covtable db =
      replace_vtable
        ((covtable.clsid, covtable.iid), (comodule.name, (comodule.timestamp, covtable.address))) db

abbrev pub parameter : Text → Text → ℕ → ComethodArg
parameter name type flags = record { name = name; type_name = type; flags = flags }

-- `{ L"this", L"void*", 0 }`
abbrev pub this_parameter : ComethodArg
this_parameter = parameter (codes "this") (codes "void*") 0

-- the calls of `insert_cotype_method_arg` for one method
abbrev pub insert_args :
    (D : Database) → List Guid → Guid → ℕ → ℕ → List ComethodArg → Writing D.Db (Unit {0})
insert_args D known iid n i [] = skip
insert_args D known iid n i (arg ∷ args) =
    insert_cotype_method_arg D known iid n arg i >> insert_args D known iid n (suc i) args

-- a method of a known type with its arguments; `this` is the first
abbrev known_method :
    (D : Database) → List Guid → Guid → Text → ℕ → Text → List ComethodArg → Writing D.Db (Unit {0})
known_method D known iid name ordinal return_type args =
    insert_cotype_method D known (record {
      iid = iid;
      name = name;
      ordinal = ordinal;
      callconv = cc_stdcall;
      dispid = none;
      return_type = return_type;
    })
    >> insert_args D known iid ordinal 0 (this_parameter ∷ args)

abbrev known_type : (D : Database) → List Guid → Guid → Text → Guid → Writing D.Db (Unit {0})
known_type D known iid name parent = insert_cotype D known (record {
  iid = iid;
  name = name;
  type = interface;
  parent_iid = parent;
  methods_available = true;
})

module _ (D : Database) where
  open D use {Db}

  unfoldable pub insert_iunknown : List Guid → Writing Db (Unit {0})
  insert_iunknown known_iids = do
    known_type D known_iids iid_iunknown (codes "IUnknown") 0
    known_method D known_iids iid_iunknown (codes "QueryInterface") 0 (codes "HRESULT") (
        parameter (codes "riid") (codes "GUID*") idlflag_fin
        ∷ parameter (codes "ppvObject") (codes "void**") idlflag_fout
        ∷ [])
    known_method D known_iids iid_iunknown (codes "AddRef") 1 (codes "ULONG") []
    known_method D known_iids iid_iunknown (codes "Release") 2 (codes "ULONG") []

  unfoldable pub insert_idispatch : List Guid → Writing Db (Unit {0})
  insert_idispatch known_iids = do
    known_type D known_iids iid_idispatch (codes "IDispatch") iid_iunknown
    known_method D known_iids iid_idispatch (codes "GetTypeInfoCount") 0 (codes "HRESULT")
        (parameter (codes "pctinfo") (codes "UINT*") idlflag_fout ∷ [])
    known_method D known_iids iid_idispatch (codes "GetTypeInfo") 1 (codes "HRESULT") (
        parameter (codes "iTInfo") (codes "UINT") idlflag_fin
        ∷ parameter (codes "lcid") (codes "unsigned short") idlflag_fin
        ∷ parameter (codes "ppTInfo") (codes "ITypeInfo**") idlflag_fout
        ∷ [])
    known_method D known_iids iid_idispatch (codes "GetIDsOfNames") 2 (codes "HRESULT") (
        parameter (codes "riid") (codes "GUID*") idlflag_fin
        ∷ parameter (codes "rgszNames") (codes "LPOLESTR*") idlflag_fin
        ∷ parameter (codes "cNames") (codes "UINT") idlflag_fin
        ∷ parameter (codes "lcid") (codes "unsigned short") idlflag_fin
        ∷ parameter (codes "rgDispId") (codes "DISPID*") idlflag_fout
        ∷ [])
    known_method D known_iids iid_idispatch (codes "Invoke") 3 (codes "HRESULT") (
        parameter (codes "dispIdMember") (codes "DISPID") idlflag_fin
        ∷ parameter (codes "riid") (codes "GUID*") idlflag_fin
        ∷ parameter (codes "lcid") (codes "unsigned short") idlflag_fin
        ∷ parameter (codes "wFlags") (codes "unsigned short") idlflag_fin
        ∷ parameter (codes "pDispParams") (codes "DISPPARAMS*") idlflag_fin
        ∷ parameter (codes "pVarResult") (codes "VARIANT*") idlflag_fout
        ∷ parameter (codes "pExcepInfo") (codes "EXCEPINFO*") idlflag_fout
        ∷ parameter (codes "puArgErr") (codes "unsigned int*") idlflag_fout
        ∷ [])

  -- the database afterwards with how the transaction ended, and `_known_iids`
  unfoldable pub fill_known_iids : List Guid → Db → (Db × Outcome (Unit {0})) × List Guid
  unfolding insert_iunknown insert_idispatch
  fill_known_iids known_iids db = (
    transaction D (insert_iunknown known_iids >> insert_idispatch known_iids) db,
    add_member iid_idispatch (add_member iid_iunknown known_iids),
  )
