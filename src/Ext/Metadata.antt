-- ===== src/Ext/Metadata.antt =====
-- comon/ext.cpp: what the command `!cometa` prints of the metadata, as one text. `none` is a failed assertion
-- or the end of the fuel of `get_type_methods`.
pub mod Subcommands
pub mod Kept
pub mod Unchanged
use comon.Base.{
  ℕ, suc, Bool, true, false, List, [], ◌∷◌, ◌++◌, Option, none, some, nat_beq, ltb, ◌==◌, nat_eq,
  list_eq, Text, codes, decimal_text, hex_text,
}
use comon.Base.Result.{Result, ok, err, e_invalidarg}
use comon.Guid.{Guid, try_parse_guid}
use comon.Engine.{Comethod, ComethodArg}
use comon.Cometa.Types.{Cotype, Coclass}
use comon.Cometa.Registry.{Registry}
use comon.Cometa.TypeLib.{TypeInfos}
use comon.Cometa.Database.{Database}
use comon.Cometa.Writing.{Outcome, returns, fails}
use comon.Cometa.Queries.{
  Cometa, Query, resolve_type, resolve_class, resolve_type_name, resolve_class_name,
  get_type_methods, get_type_method_args, find_vtables_by_iid, find_vtables_by_clsid,
  find_clsids_by_module_name,
}
use comon.Cometa.Setup.{Files, save}
use comon.Cometa.Index.{index, index_path}

-- `{type} {name}` of each argument, with a comma between them
abbrev arg_text : ComethodArg → Text
arg_text a = a.type_name ++ codes " " ++ a.name

abbrev more_args : List ComethodArg → Text
more_args [] = []
more_args (a ∷ args) = codes ", " ++ arg_text a ++ more_args args

abbrev args_text : List ComethodArg → Text
args_text [] = []
args_text (a ∷ args) = arg_text a ++ more_args args

-- `ranges::sort` with `ranges::greater` by timestamp
unfoldable pub insert_greater : ℕ × Guid → List (ℕ × Guid) → List (ℕ × Guid)
insert_greater r [] = r ∷ []
insert_greater r (x ∷ rows) =
    let rest = insert_greater r rows in
    elim (ltb r.0 x.0) [ true ↦ x ∷ rest | false ↦ r ∷ x ∷ rows ]

unfoldable pub sort_greater : List (ℕ × Guid) → List (ℕ × Guid)
sort_greater [] = []
sort_greater (r ∷ rows) = insert_greater r (sort_greater rows)

abbrev name_or : Option Text → Text
name_or none = codes "N/A"
name_or (some name) = name

-- The victim of the caches, the text of an identifier, and the fuel of `get_type_methods`.
module _ (D : Database) (pick : List Guid → Guid) (guid_text : Guid → Text) (fuel : ℕ) where
  infixl 5 ◌>>=◌
  unfoldable pub ◌>>=◌ : {A B : Type 0} → Query D pick A → (A → Query D pick B) → Query D pick B
  ◌>>=◌ m f c = elim (m c) [ none ↦ none | some (c', a) ↦ f a c' ]

  unfoldable pub pure : {A : Type 0} → A → Query D pick A
  pure a c = some (c, a)

  unfoldable pub fail : {A : Type 0} → Query D pick A
  fail c = none

  -- reads the database
  unfoldable pub reading : {A : Type 0} → (D.Db → A) → Query D pick A
  reading f c = some (c, f c.db)

  abbrev module_link : Text → Text
  module_link name =
      codes "<link cmd=\"!cometa showm " ++ name ++ codes "\">" ++ name ++ codes "</link>"

  abbrev guid_link : Text → Guid → Text
  guid_link command guid =
      codes "<link cmd=\"!cometa "
      ++ command
      ++ codes " "
      ++ guid_text guid
      ++ codes "\">"
      ++ guid_text guid
      ++ codes "</link>"

  -- the loop over the methods, from number `i` on
  unfoldable pub show_methods : ℕ → List Comethod → Query D pick Text
  show_methods i [] = pure []
  show_methods i (method ∷ methods) = do
    method_args ← get_type_method_args D pick method
    rest ← show_methods (suc i) methods
    elim method_args [
      | none ↦ fail
      | some args ↦ pure (
          codes "- ["
          ++ decimal_text i
          ++ codes "] "
          ++ method.return_type
          ++ codes " "
          ++ method.name
          ++ codes "("
          ++ args_text args
          ++ codes ")\n"
          ++ rest)
    ]

  unfoldable pub show_type : Guid → Option Cotype → Query D pick Text
  show_type iid none =
      pure (codes "Can't find any details on IID: " ++ guid_text iid ++ codes " in the metadata.\n")
  show_type iid (some cotype) = do
    methods ← get_type_methods D pick fuel iid
    text ← elim methods [
      | none ↦ pure (codes "No information about the interface methods :(\n")
      | some methods ↦ do lines ← show_methods 0 methods; pure (codes "Methods:\n" ++ lines)
    ]
    pure (codes "Found: " ++ guid_text iid ++ codes " (" ++ cotype.name ++ codes ")\n\n" ++ text)

  unfoldable pub show_iid_tables : List (Text × (Guid × ℕ)) → Query D pick Text
  show_iid_tables [] = pure []
  show_iid_tables ((module_name, (clsid, vtbl)) ∷ tables) = do
    clsid_name ← resolve_class_name D pick clsid
    rest ← show_iid_tables tables
    pure (
        codes "- Module: "
        ++ module_link module_name
        ++ codes ", CLSID: "
        ++ guid_link (codes "showc") clsid
        ++ codes " ("
        ++ name_or clsid_name
        ++ codes "), VTable offset: "
        ++ hex_text vtbl
        ++ codes "\n"
        ++ rest)

  unfoldable pub cometa_showi : Guid → Query D pick Text
  cometa_showi iid = do
    cotype ← resolve_type D pick iid
    text ← show_type iid cotype
    tables ← reading (find_vtables_by_iid D iid)
    lines ← show_iid_tables tables
    pure (text ++ codes "\nRegistered VTables for IID:\n" ++ lines ++ codes "\n")

  unfoldable pub show_clsid_tables : List (Text × (Guid × ℕ)) → Query D pick Text
  show_clsid_tables [] = pure []
  show_clsid_tables ((module_name, (iid, vtbl)) ∷ tables) = do
    iid_name ← resolve_type_name D pick iid
    rest ← show_clsid_tables tables
    pure (
        codes "- module: "
        ++ module_link module_name
        ++ codes ", IID: "
        ++ guid_link (codes "showi") iid
        ++ codes " ("
        ++ name_or iid_name
        ++ codes "), VTable offset: "
        ++ hex_text vtbl
        ++ codes "\n"
        ++ rest)

  abbrev class_text : Guid → Option Coclass → Text
  class_text clsid none =
      codes "Can't find any details on CLSID: " ++ guid_text clsid ++ codes " in the metadata.\n"
  class_text clsid (some coclass) =
      codes "Found: " ++ guid_text clsid ++ codes " (" ++ coclass.name ++ codes ")\n"

  unfoldable pub cometa_showc : Guid → Query D pick Text
  cometa_showc clsid = do
    coclass ← resolve_class D pick clsid
    tables ← reading (find_vtables_by_clsid D clsid)
    lines ← show_clsid_tables tables
    pure (
        class_text clsid coclass
        ++ codes "\nRegistered VTables for CLSID:\n"
        ++ lines
        ++ codes "\n")

  -- The header is printed before `timestamp` is set, so it names the timestamp in front.
  unfoldable pub show_clsids : ℕ → List (ℕ × Guid) → Query D pick Text
  show_clsids timestamp [] = pure []
  show_clsids timestamp ((module_timestamp, clsid) ∷ clsids) = do
    clsid_name ← resolve_class_name D pick clsid
    rest ← show_clsids module_timestamp clsids
    pure (
        elim (nat_beq module_timestamp timestamp) [
          | true ↦ []
          | false ↦
              codes "\nRegistered CLSIDs for module with timestamp "
              ++ hex_text timestamp
              ++ codes ":\n"
        ]
        ++ codes "- CLSID: "
        ++ guid_link (codes "showc") clsid
        ++ codes " ("
        ++ name_or clsid_name
        ++ codes ")\n"
        ++ rest)

  unfoldable pub show_module : Text → List (ℕ × Guid) → Query D pick Text
  show_module module_name [] =
      pure
        (codes "Can't find any details on module '" ++ module_name ++ codes "' in the metadata.\n")
  show_module module_name (r ∷ clsids) = do
    lines ← show_clsids 0 (sort_greater (r ∷ clsids))
    pure (lines ++ codes "\n")

  unfoldable pub cometa_showm : Text → Query D pick Text
  cometa_showm module_name = do
    clsids ← reading (find_clsids_by_module_name D module_name)
    show_module module_name clsids
