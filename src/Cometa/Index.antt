-- ===== src/Cometa/Index.antt =====
-- comon/cometa.cpp and comon/cometa.h: `index` of the registry and `index` of one type library. A
-- thrown exception is `stops`.
pub mod Ends
pub mod Agreement
use comon.Base.{
  ℕ, ◌+◌, Bool, true, false, List, [], ◌∷◌, ◌++◌, Option, none, some, nat_beq, ◌==◌, nat_eq,
  list_eq, Text, codes, decimal_text,
}
use comon.Base.Result.{Result, ok, err, e_fail}
use comon.Guid.{Guid, iid_iunknown, try_parse_guid}
use comon.Lfu.Cache.{LfuCache, create}
use comon.Cometa.Types.{Cotype, Coclass, interface}
use comon.Cometa.Registry.{Registry, win32, get_child_key_names, read_text_value}
use comon.Cometa.Versions.{get_tlbinfo, key_read}
use comon.Cometa.TypeLib.{TypeInfos}
use comon.Cometa.Database.{Database}
use comon.Cometa.Writing.{
  Outcome, returns, fails, stops, Writing, ◌>>=◌, ◌>>◌, skip, insert_cotype, insert_coclass,
  fill_known_iids,
}
use comon.Cometa.Indexing.{index_tlb, stop, reading}
use comon.Cometa.Queries.{Cometa, invalidate_cache}

-- `KEY_WOW64_32KEY`
abbrev pub key_wow64_32key : ℕ
key_wow64_32key = 0x200

abbrev key_flags : Bool → ℕ
key_flags true = key_read + key_wow64_32key
key_flags false = key_read

-- the text of a value, which may be missing
abbrev text_or_empty : Result Text → Text
text_or_empty (ok name) = name
text_or_empty (err _) = []

module _ (D : Database) (R : Registry) (O : TypeInfos) (arch_x64 : Bool)
    (iid_from_string : Text → Result Guid) where
  open D use {Db}
  open R use {Key, local_machine, reg_open_key_ex}

  -- the loop over the keys of classes; an error is logged, and the loop goes on
  unfoldable pub insert_classes : Key → List Text → Writing Db (Unit {0})
  insert_classes clsids_hkey [] = skip
  insert_classes clsids_hkey (name ∷ names) =
      let go = insert_classes clsids_hkey names in
      elim (name == codes "CLSID") [
        | true ↦ go
        | false ↦ elim (try_parse_guid iid_from_string name) [
          | err _ ↦ go
          | ok clsid ↦ elim (reg_open_key_ex clsids_hkey name key_read) [
            | err _ ↦ go
            | ok clsid_hkey ↦
                insert_coclass D
                  (record { clsid = clsid; name = text_or_empty (read_text_value R clsid_hkey []) })
                >> go
          ]
        ]
      ]

  unfoldable pub index_coclasses : Bool → Writing Db (Unit {0})
  index_coclasses request_wow6432 = do
    clsids_hkey ← reading (
        win32 (
          reg_open_key_ex local_machine (codes "SOFTWARE\\Classes\\CLSID")
            (key_flags request_wow6432)))
    insert_classes clsids_hkey (get_child_key_names R clsids_hkey)

  unfoldable pub insert_interfaces : List Guid → Key → List Text → Writing Db (Unit {0})
  insert_interfaces known_iids interfaces_hkey [] = skip
  insert_interfaces known_iids interfaces_hkey (name ∷ names) =
      let go = insert_interfaces known_iids interfaces_hkey names in
      elim (try_parse_guid iid_from_string name) [
        | err _ ↦ go
        | ok iid ↦ elim (reg_open_key_ex interfaces_hkey name key_read) [
          | err _ ↦ go
          | ok iid_hkey ↦
              insert_cotype D known_iids (record {
                iid = iid;
                name = text_or_empty (read_text_value R iid_hkey []);
                type = interface;
                parent_iid = iid_iunknown;
                methods_available = false;
              })
              >> go
        ]
      ]

  unfoldable pub index_interfaces : List Guid → Bool → Writing Db (Unit {0})
  index_interfaces known_iids request_wow6432 = do
    interfaces_hkey ← reading (
        win32 (
          reg_open_key_ex local_machine (codes "SOFTWARE\\Classes\\Interface")
            (key_flags request_wow6432)))
    insert_interfaces known_iids interfaces_hkey (get_child_key_names R interfaces_hkey)

  -- a failure is logged
  unfoldable pub logged : Writing Db (Unit {0}) → Writing Db (Unit {0})
  logged m db =
      let (db', r) = m db in
      elim r [ returns _ ↦ (db', returns tt) | fails _ ↦ (db', returns tt) | stops ↦ (db', stops) ]

  unfoldable pub index_typelib_keys : List Guid → Key → List Text → Writing Db (Unit {0})
  index_typelib_keys known_iids typelibs_hkey [] = skip
  index_typelib_keys known_iids typelibs_hkey (name ∷ names) =
      let go = index_typelib_keys known_iids typelibs_hkey names in
      elim (reg_open_key_ex typelibs_hkey name key_read) [
        | err _ ↦ go
        | ok typelib_hkey ↦ elim (get_tlbinfo R arch_x64 typelib_hkey) [
          | none ↦ stop
          | some (err _) ↦ go
          | some (ok tlbinfo) ↦ logged (index_tlb D O known_iids tlbinfo.tlb_path) >> go
        ]
      ]

  unfoldable pub index_typelibs : List Guid → Writing Db (Unit {0})
  index_typelibs known_iids = do
    typelibs_hkey ←
        reading
          (win32 (reg_open_key_ex local_machine (codes "SOFTWARE\\Classes\\TypeLib") key_read))
    index_typelib_keys known_iids typelibs_hkey (get_child_key_names R typelibs_hkey)

  -- the types after the interfaces, whose last step forgets the caches
  unfoldable pub index_types_of : Cometa D → Cometa D × Outcome (Unit {0})
  index_types_of c = let (db, r) = index_typelibs c.known_iids c.db in (record c { db = db }, r)

  -- what follows the interfaces: the caches are forgotten, and the type libraries are read
  abbrev pub after_interfaces : Cometa D → D.Db × Outcome (Unit {0}) → Cometa D × Outcome (Unit {0})
  after_interfaces c (db, returns _) = index_types_of (invalidate_cache D (record c { db = db }))
  after_interfaces c (db, fails hr) = (record c { db = db }, fails hr)
  after_interfaces c (db, stops) = (record c { db = db }, stops)

  unfoldable pub index_interfaces_of : Bool → Cometa D → Cometa D × Outcome (Unit {0})
  unfolding index_types_of
  index_interfaces_of is_wow64 c = after_interfaces c (index_interfaces c.known_iids is_wow64 c.db)

  abbrev pub after_classes :
      Bool → Cometa D → D.Db × Outcome (Unit {0}) → Cometa D × Outcome (Unit {0})
  after_classes is_wow64 c (db, returns _) = index_interfaces_of is_wow64 (record c { db = db })
  after_classes is_wow64 c (db, fails hr) = (record c { db = db }, fails hr)
  after_classes is_wow64 c (db, stops) = (record c { db = db }, stops)

  unfoldable pub index : Bool → Cometa D → Cometa D × Outcome (Unit {0})
  unfolding index_interfaces_of
  index is_wow64 c = after_classes is_wow64 c (index_coclasses is_wow64 c.db)

  -- what follows a type library: the caches are forgotten only where all of it was read
  abbrev pub after_tlb : Cometa D → D.Db × Outcome (Unit {0}) → Cometa D × Outcome (Unit {0})
  after_tlb c (db, returns _) = (invalidate_cache D (record c { db = db }), returns tt)
  after_tlb c (db, fails hr) = (record c { db = db }, fails hr)
  after_tlb c (db, stops) = (record c { db = db }, stops)

  -- `index` of one type library
  unfoldable pub index_path : Text → Cometa D → Cometa D × Outcome (Unit {0})
  index_path tlb_path c = after_tlb c (index_tlb D O c.known_iids tlb_path c.db)
