-- ===== src/Cometa/Setup.antt =====
-- comon/cometa.h and comon/cometa.cpp: opening and creating a database, the constructor and
-- `save`. A thrown exception is `none`.
pub mod Fresh
use comon.Base.{
  ℕ, ◌+◌, Bool, true, false, List, [], ◌∷◌, ◌++◌, Option, none, some, nat_beq, ◌==◌, nat_eq,
  list_eq, Text, codes, decimal_text,
}
use comon.Base.Result.{Result, ok, err, e_fail}
use comon.Guid.{Guid, iid_iunknown, try_parse_guid}
use comon.Lfu.Cache.{LfuCache, create}
use comon.Cometa.Types.{Cotype, Coclass, interface}
use comon.Cometa.Registry.{Registry, win32, get_child_key_names, read_text_value}
use comon.Cometa.Versions.{get_tlbinfo, key_read}
use comon.Cometa.TypeLib.{TypeInfos}
use comon.Cometa.Database.{Database}
use comon.Cometa.Writing.{
  Outcome, returns, fails, stops, Writing, ◌>>=◌, ◌>>◌, write, insert_cotype, insert_coclass,
  fill_known_iids,
}
use comon.Cometa.Queries.{Cometa, invalidate_cache}

-- the version of the schema
abbrev pub schema_version : ℕ
schema_version = 5

-- `SQLite::Database` and its methods: opening a file for reading and writing, with or without
-- creating it, a statement that answers nothing, `select version from schema_version`, and a backup
-- into a file. `none` is an exception.
pub record Files (D : Database) : Type 0 where
  pub open_file : Text → Bool → Option D.Db
  pub exec : Text → D.Db → Option D.Db
  pub select_version : D.Db → Option (Option ℕ)
  pub backup : Text → D.Db → Option (Unit {0})

-- the statements of `init_db`
abbrev pub schema : List Text
schema =
    codes "create table schema_version (version integer not null);"
    ∷ (codes "insert into schema_version (version) values("
        ++ decimal_text schema_version
        ++ codes ")")
    ∷ codes
        "create table cotypes (\niid blob primary key, \ntype integer not null,\nname text not null,\nparent_iid blob not null,\nmethods_available int not null) without rowid"
    ∷ codes
        "create table cotype_methods (\niid blob not null,\nordinal integer not null,\nname text not null,\ncallconv integer not null,\ndispid integer null,\nreturn_type text not null,\nprimary key (iid, ordinal)) without rowid"
    ∷ codes
        "create table cotype_method_args (\niid blob not null,\nmethod_ordinal integer not null,\nname text not null,\nordinal integer not null,\ntype text not null,\nflags int not null,\nprimary key (iid, method_ordinal, ordinal)) without rowid"
    ∷ codes
        "create table coclasses (\nclsid blob primary key, \nname text not null\n) without rowid"
    ∷ codes
        "create table vtables (\nclsid blob not null, \niid blob not null,\nmodule_name text not null,\nmodule_timestamp integer not null,\nvtable integer not null,\nprimary key (clsid, iid)) without rowid;\ncreate index IX_vtables_iid on vtables (iid);\ncreate index IX_vtables_module_name on vtables (module_name)"
    ∷ []

module _ (D : Database) (files : Files D) where
  open D use {Db}

  unfoldable pub exec_all : List Text → Db → Option Db
  exec_all [] db = some db
  exec_all (statement ∷ statements) db = elim (files.exec statement db) [
    | none ↦ none
    | some db' ↦ exec_all statements db'
  ]

  unfoldable pub init_db : Text → Option Db
  unfolding exec_all
  init_db path = elim (files.open_file path true) [ none ↦ none | some db ↦ exec_all schema db ]

  -- the version that a database names, if it names one
  abbrev pub has_version : Option (Option ℕ) → Bool
  has_version (some (some version)) = nat_beq version schema_version
  has_version _ = false

  unfoldable pub open_db : Text → Option Db
  open_db path = elim (files.open_file path false) [
    | none ↦ none
    | some db ↦ elim (has_version (files.select_version db)) [ true ↦ some db | false ↦ none ]
  ]

  unfoldable pub is_valid_db : Text → Bool
  is_valid_db path = elim (files.open_file path false) [
    | none ↦ false
    | some db ↦ has_version (files.select_version db)
  ]

  unfoldable pub cometa_of : Db → List Guid → Option (Cometa D)
  cometa_of db known_iids = elim (create {K = Guid} {O = Option Cotype} 100) [
    | none ↦ none
    | some cotypes ↦ elim (create {K = Guid} {O = Option Coclass} 50) [
      | none ↦ none
      | some coclasses ↦ some (record {
        db = db;
        known_iids = known_iids;
        cotype_cache = cotypes;
        coclass_cache = coclasses;
      })
    ]
  ]

  -- an exception of the transaction leaves the constructor
  abbrev pub after_fill : Db × Outcome (Unit {0}) → List Guid → Option (Cometa D)
  after_fill (db, returns _) known_iids = cometa_of db known_iids
  after_fill (db, fails _) known_iids = none
  after_fill (db, stops) known_iids = none

  abbrev pub filled : Db → Option (Cometa D)
  filled db = let (s, known_iids) = fill_known_iids D [] db in after_fill s known_iids

  -- the constructor; an existing database is opened without any known identifiers
  unfoldable pub new_cometa : Text → Bool → Option (Cometa D)
  new_cometa db_path create_new = elim create_new [
    | true ↦ elim (init_db db_path) [ none ↦ none | some db ↦ filled db ]
    | false ↦ elim (open_db db_path) [ none ↦ none | some db ↦ cometa_of db [] ]
  ]

  unfoldable pub save : Text → Cometa D → Result (Unit {0})
  save dbpath c = elim (files.backup dbpath c.db) [ none ↦ err e_fail | some _ ↦ ok tt ]
