-- ===== src/Cometa/Database.antt =====
-- comon/cometa.cpp: the tables of the metadata, as the statements of that file use them. SQLite is
-- a parameter: an operation stands for each statement, and the laws are what SQL says of a primary
-- key, of `insert or replace`, of `order by` and of a transaction.
use comon.Base.{
  ℕ, ◌≡◌, ◌≢◌, Bool, true, false, List, [], ◌∷◌, Option, some, nat_beq, ltb, Text, nat_eq, list_eq,
  pair_eq, member, ◌||◌, ◌&&◌, not, ◌==◌,
}
use comon.Guid.{Guid}
use comon.Engine.{Comethod, ComethodArg}
use comon.Cometa.Types.{Cotype, Coclass}

-- a row of `vtables`: (clsid, iid), module_name, module_timestamp, vtable
abbrev pub VtableRow : Type 0
VtableRow = (Guid × Guid) × (Text × (ℕ × ℕ))

-- a row of `cotype_method_args`, with its ordinal
abbrev pub ArgRow : Type 0
ArgRow = ℕ × ComethodArg

pub record Database : Type 1 where
  pub Db : Type 0
  pub begin_transaction : Db → Db
  pub commit : Db → Db
  pub rollback : Db → Db
  -- whether an `insert or replace` throws, which then writes nothing
  pub throws : Db → Bool
  -- `insert or replace into` a table
  pub replace_cotype : Cotype → Db → Db
  pub replace_cotype_method : Comethod → Db → Db
  pub replace_cotype_method_arg : Guid → ℕ → ArgRow → Db → Db
  pub replace_coclass : Coclass → Db → Db
  pub replace_vtable : VtableRow → Db → Db
  -- the row of a primary key
  pub cotype : Guid → Db → Option Cotype
  pub coclass : Guid → Db → Option Coclass
  -- the rows of a type, and those of a method, in the order of their ordinals
  pub cotype_methods : Guid → Db → List Comethod
  pub cotype_method_args : Guid → ℕ → Db → List ArgRow
  -- all rows
  pub vtables : Db → List VtableRow

module _ {ℓ} {A : Type ℓ} (ordinal_of : A → ℕ) where
  -- a row at the place of its ordinal, in place of a row that has the same
  unfoldable pub place : A → List A → List A
  place row [] = row ∷ []
  place row (r ∷ rows) =
      let rest = place row rows in
      elim (ltb (ordinal_of row) (ordinal_of r)) [
        | true ↦ row ∷ r ∷ rows
        | false ↦ elim (nat_beq (ordinal_of row) (ordinal_of r)) [
          | true ↦ row ∷ rows
          | false ↦ r ∷ rest
        ]
      ]

module _ (D : Database) where
  open D use {
    Db, begin_transaction, commit, rollback, replace_cotype, replace_cotype_method,
    replace_cotype_method_arg, replace_coclass, replace_vtable, cotype, coclass, cotype_methods,
    cotype_method_args, vtables,
  }

  -- a state of the database that writing statements reach from another one
  pub data Writes (start : Db) : Db → Type 0 where
    none_yet : Writes start start
    write_cotype : (t : Cotype) (db : Db) → Writes start db → Writes start (replace_cotype t db)
    write_method :
        (m : Comethod) (db : Db) → Writes start db → Writes start (replace_cotype_method m db)
    write_arg :
        (iid : Guid) (n : ℕ) (r : ArgRow) (db : Db)
        → Writes start db
        → Writes start (replace_cotype_method_arg iid n r db)

  -- the tables of types, methods and arguments hold the same about a type
  pub record SameType (iid : Guid) (a b : Db) : Type 0 where
    pub same_cotype : cotype iid a ≡ cotype iid b
    pub same_methods : cotype_methods iid a ≡ cotype_methods iid b
    pub same_args : (n : ℕ) → cotype_method_args iid n a ≡ cotype_method_args iid n b

  -- What SQL says of the statements.
  pub record DatabaseLaws : Type 0 where
    pub cotype_replaced : (t : Cotype) (db : Db) → cotype t.iid (replace_cotype t db) ≡ some t
    pub replace_cotype_other :
        (t : Cotype) (iid : Guid) (db : Db) → t.iid ≢ iid → SameType iid (replace_cotype t db) db
    pub methods_replaced :
        (m : Comethod) (db : Db)
        → cotype_methods m.iid (replace_cotype_method m db)
          ≡ place (λ m. m.ordinal) m (cotype_methods m.iid db)
    pub replace_method_other :
        (m : Comethod) (iid : Guid) (db : Db)
        → m.iid ≢ iid
        → SameType iid (replace_cotype_method m db) db
    pub args_replaced :
        (iid : Guid) (n : ℕ) (r : ArgRow) (db : Db)
        → cotype_method_args iid n (replace_cotype_method_arg iid n r db)
          ≡ place (λ r. r.0) r (cotype_method_args iid n db)
    pub replace_arg_other :
        (i : Guid) (n : ℕ) (r : ArgRow) (iid : Guid) (db : Db)
        → i ≢ iid
        → SameType iid (replace_cotype_method_arg i n r db) db
    pub coclass_replaced : (c : Coclass) (db : Db) → coclass c.clsid (replace_coclass c db) ≡ some c
    pub replace_coclass_types :
        (c : Coclass) (iid : Guid) (db : Db) → SameType iid (replace_coclass c db) db
    pub vtables_replaced :
        (row r : VtableRow) (db : Db)
        → member r (vtables (replace_vtable row db))
          ≡ (row == r || (not (row.0 == r.0) && member r (vtables db)))
    pub begin_types : (iid : Guid) (db : Db) → SameType iid (begin_transaction db) db
    pub commit_types : (iid : Guid) (db : Db) → SameType iid (commit db) db
    pub rollback_types :
        (iid : Guid) (db db' : Db)
        → Writes (begin_transaction db) db'
        → SameType iid (rollback db') db
