-- ===== src/Cometa/Queries/Tables.antt =====
-- comon/cometa.cpp: virtual tables that are saved and read again.
use comon.Base.{
  ◌%◌, ◌^◌, ◌≡◌, ◌↔◌, refl, ◌∙◌, Bool, true, ◌&&◌, List, [], ◌∷◌, map, arith, ◌==◌, Equals, nat_eq,
  list_eq, pair_eq, member,
}
use comon.Engine.{Covtable, Comodule}
use comon.Cometa.Database.{Database, DatabaseLaws, VtableRow}
use comon.Cometa.Writing.{save_module_vtable}
use comon.Cometa.Queries.{
  rows_where, in_module, covtable_of, of_iid, of_clsid, get_module_vtables, find_vtables_by_iid,
  find_vtables_by_clsid,
}

-- `covtable` compared by its fields
abbrev pub covtable_beq : Covtable → Covtable → Bool
covtable_beq v w = v.clsid == w.clsid && (v.iid == w.iid && v.address == w.address)

pub covtable_beq_iff : (v w : Covtable) → (v ≡ w) ↔ (covtable_beq v w ≡ true)
covtable_beq_iff v w = ground arith

instance abbrev pub covtable_eq : Equals Covtable
covtable_eq = record { equals = covtable_beq; equals_iff = covtable_beq_iff }

same : {A : Type 0} ⦃e : Equals A⦄ (x : A) → (x == x) ≡ true
same ⦃e⦄ x = ground (arith, e.equals_iff x x)

module _ {A B : Type 0} ⦃e : Equals A⦄ ⦃f : Equals B⦄ where
  -- a row that passes the test is answered
  member-map-where :
      (p : A → Bool) (g : A → B) (r : A) (rows : List A)
      → member r rows ≡ true
      → p r ≡ true
      → member (g r) (map g (rows_where p rows)) ≡ true
  unfolding member
  member-map-where p g r [] h k = ground (arith, h)
  member-map-where p g r (x ∷ rows) h k =
      ground (arith, h, k, e.equals_iff x r, f.equals_iff (g x) (g r), member-map-where p g r rows)

module _ (D : Database) (laws : DatabaseLaws D) where
  abbrev saved_row : Comodule → Covtable → VtableRow
  saved_row m v = ((v.clsid, v.iid), (m.name, (m.timestamp, v.address)))

  saved :
      (m : Comodule) (v : Covtable) (db : D.Db)
      → member (saved_row m v) (D.vtables (save_module_vtable D m v db)) ≡ true
  unfolding save_module_vtable
  saved m v db =
      laws.vtables_replaced (saved_row m v) (saved_row m v) db ∙ rw (same (saved_row m v)) refl

  -- A virtual table that was saved for a module is found again: by the module's name and timestamp,
  -- with the low 32 bits of its address, and by its interface and by its class with the whole address,
  -- however large it is.
  pub save_module_vtable-found :
      (m : Comodule) (v : Covtable) (db : D.Db)
      → (member
            (record v { address = v.address % 2 ^ 32 })
            (get_module_vtables D m (save_module_vtable D m v db))
          ≡ true)
        × (member
              (m.name, (v.clsid, v.address))
              (find_vtables_by_iid D v.iid (save_module_vtable D m v db))
            ≡ true)
        × (member
              (m.name, (v.iid, v.address))
              (find_vtables_by_clsid D v.clsid (save_module_vtable D m v db))
            ≡ true)
  unfolding get_module_vtables find_vtables_by_iid find_vtables_by_clsid
  save_module_vtable-found m v db = (
    member-map-where (in_module D m) (covtable_of D) (saved_row m v) _ (saved m v db)
        (ground (arith, same m.name, same m.timestamp)),
    member-map-where (of_iid D v.iid) _ (saved_row m v) _ (saved m v db) (same v.iid),
    member-map-where (of_clsid D v.clsid) _ (saved_row m v) _ (saved m v db) (same v.clsid),
  )
