-- ===== src/Cometa/Queries.antt =====
-- comon/cometa.h and comon/cometa.cpp: the object `cometa` with its caches, and the methods that
-- look types, classes, methods and virtual tables up. `none` is a failure of the cache, or the end
-- of the fuel.
pub mod Coherence
pub mod Chain
pub mod Tables
use comon.Base.{
  ℕ, zero, suc, ◌%◌, ◌^◌, Bool, true, false, ◌&&◌, List, [], ◌∷◌, ◌++◌, map, Option, none, some,
  nat_beq, ◌==◌, nat_eq, list_eq, pair_eq, member, Text, codes,
}
use comon.Guid.{Guid}
use comon.Engine.{Comethod, ComethodArg, Covtable, Comodule}
use comon.Lfu.Cache.{LfuCache, clear, contains, get, insert_entry}
use comon.Cometa.Types.{Cotype, Coclass}
use comon.Cometa.Database.{Database, VtableRow}

pub record Cometa (D : Database) : Type 0 where
  pub db : D.Db
  pub known_iids : List Guid
  pub cotype_cache : LfuCache Guid (Option Cotype)
  pub coclass_cache : LfuCache Guid (Option Coclass)

-- the rows that pass a test
abbrev pub rows_where {ℓ} : {A : Type ℓ} → (A → Bool) → List A → List A
rows_where p [] = []
rows_where p (r ∷ rows) = elim (p r) [ true ↦ r ∷ rows_where p rows | false ↦ rows_where p rows ]

-- `select distinct`
unfoldable pub distinct_rows : List (ℕ × Guid) → List (ℕ × Guid)
distinct_rows [] = []
distinct_rows (r ∷ rows) =
    let rest = distinct_rows rows in elim (member r rest) [ true ↦ rest | false ↦ r ∷ rest ]

-- whether methods start with `QueryInterface`
abbrev pub from_iunknown : List Comethod → Bool
from_iunknown [] = false
from_iunknown (m ∷ methods) = m.name == codes "QueryInterface"

module _ (D : Database) where
  unfoldable pub invalidate_cache : Cometa D → Cometa D
  unfolding clear
  invalidate_cache c = record c {
    cotype_cache = clear c.cotype_cache;
    coclass_cache = clear c.coclass_cache;
  }

-- `pick` gives the victim that the cache takes among keys of one frequency.
module _ (D : Database) (pick : List Guid → Guid) where
  open D use {Db, cotype, coclass, cotype_methods, cotype_method_args, vtables}

  abbrev pub Query : Type 0 → Type 0
  Query A = Cometa D → Option (Cometa D × A)

  unfoldable pub resolve_type : Guid → Query (Option Cotype)
  unfolding contains get insert_entry
  resolve_type iid c = elim (contains c.cotype_cache iid) [
    | true ↦ elim (get c.cotype_cache iid) [
      | none ↦ none
      | some (cache, t) ↦ some (record c { cotype_cache = cache }, t)
    ]
    | false ↦ elim (insert_entry pick c.cotype_cache iid (cotype iid c.db)) [
      | none ↦ none
      | some cache ↦ some (record c { cotype_cache = cache }, cotype iid c.db)
    ]
  ]

  -- The class that was found is not put into the cache.
  unfoldable pub resolve_class : Guid → Query (Option Coclass)
  unfolding contains get
  resolve_class clsid c = elim (contains c.coclass_cache clsid) [
    | true ↦ elim (get c.coclass_cache clsid) [
      | none ↦ none
      | some (cache, k) ↦ some (record c { coclass_cache = cache }, k)
    ]
    | false ↦ some (c, coclass clsid c.db)
  ]

  unfoldable pub resolve_type_name : Guid → Query (Option Text)
  resolve_type_name iid c = elim (resolve_type iid c) [
    | none ↦ none
    | some (c', none) ↦ some (c', none)
    | some (c', some t) ↦ some (c', some t.name)
  ]

  unfoldable pub resolve_class_name : Guid → Query (Option Text)
  resolve_class_name clsid c = elim (resolve_class clsid c) [
    | none ↦ none
    | some (c', none) ↦ some (c', none)
    | some (c', some k) ↦ some (c', some k.name)
  ]

  -- the methods of the parent in front of a type's own
  abbrev pub behind_parent :
      List Comethod
      → Option (Cometa D × Option (List Comethod))
      → Option (Cometa D × Option (List Comethod))
  behind_parent methods none = none
  behind_parent methods (some (c, none)) = some (c, none)
  behind_parent methods (some (c, some parent_methods)) = some (c, some (parent_methods ++ methods))

  -- Up the chain of parents, on fuel: the recursion of the code has no bound.
  unfoldable pub get_type_methods : ℕ → Guid → Query (Option (List Comethod))
  get_type_methods zero iid c = none
  get_type_methods (suc fuel) iid c =
      let up = get_type_methods fuel in
      elim (resolve_type iid c) [
        | none ↦ none
        | some (c', none) ↦ some (c', none)
        | some (c', some type) ↦ elim type.methods_available [
          | false ↦ some (c', none)
          | true ↦ elim (from_iunknown (cotype_methods iid c'.db)) [
            | true ↦ some (c', some (cotype_methods iid c'.db))
            | false ↦ behind_parent (cotype_methods iid c'.db) (up type.parent_iid c')
          ]
        ]
      ]

  unfoldable pub get_type_method_args : Comethod → Query (Option (List ComethodArg))
  get_type_method_args method c = elim (resolve_type method.iid c) [
    | none ↦ none
    | some (c', none) ↦ some (c', none)
    | some (c', some type) ↦ elim type.methods_available [
      | false ↦ some (c', none)
      | true ↦ some (c', some (map (λ r. r.1) (cotype_method_args method.iid method.ordinal c'.db)))
    ]
  ]

module _ (D : Database) where
  open D use {Db, vtables}

  -- `static_cast<ULONG>` cuts the address off at 32 bits.
  abbrev pub covtable_of : VtableRow → Covtable
  covtable_of ((clsid, iid), (name, (timestamp, vtable))) = record {
    clsid = clsid;
    iid = iid;
    address = vtable % 2 ^ 32;
  }

  abbrev pub in_module : Comodule → VtableRow → Bool
  in_module comodule ((clsid, iid), (name, (timestamp, vtable))) =
      name == comodule.name && timestamp == comodule.timestamp

  unfoldable pub get_module_vtables : Comodule → Db → List Covtable
  get_module_vtables comodule db = map covtable_of (rows_where (in_module comodule) (vtables db))

  abbrev pub of_iid : Guid → VtableRow → Bool
  of_iid i ((clsid, iid), (name, (timestamp, vtable))) = iid == i

  unfoldable pub find_vtables_by_iid : Guid → Db → List (Text × (Guid × ℕ))
  find_vtables_by_iid iid db =
      map (λ r. let ((clsid, _), (name, (_, vtable))) = r in (name, (clsid, vtable)))
        (rows_where (of_iid iid) (vtables db))

  abbrev pub of_clsid : Guid → VtableRow → Bool
  of_clsid i ((clsid, iid), (name, (timestamp, vtable))) = clsid == i

  unfoldable pub find_vtables_by_clsid : Guid → Db → List (Text × (Guid × ℕ))
  find_vtables_by_clsid clsid db =
      map (λ r. let ((_, iid), (name, (_, vtable))) = r in (name, (iid, vtable)))
        (rows_where (of_clsid clsid) (vtables db))

  abbrev pub named : Text → VtableRow → Bool
  named n ((clsid, iid), (name, (timestamp, vtable))) = name == n

  unfoldable pub find_clsids_by_module_name : Text → Db → List (ℕ × Guid)
  unfolding distinct_rows
  find_clsids_by_module_name module_name db = distinct_rows (
      map (λ r. let ((clsid, _), (_, (timestamp, _))) = r in (timestamp, clsid))
        (rows_where (named module_name) (vtables db)))
