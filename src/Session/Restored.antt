-- ===== src/Session/Restored.antt =====
-- comon/comonitor.cpp with cometa.cpp: a table that a monitor registers and saves is there again when
-- its module is loaded another time, at whatever address.
pub mod Rows
use comon.Base.{
  add64, sub64, ℕ, ◌^◌, ◌%◌, ◌<◌, ◌≡◌, ◌↔◌, refl, sym, ap, ◌∙◌, Bool, true, false, not, ◌&&◌, ◌||◌,
  Option, none, some, List, [], ◌∷◌, map, inl, inr, Bool-cases, arith, nat_beq, nat_eq, list_eq,
  pair_eq, ◌==◌, member, find, Text,
}
use mathlib.Core.Path.{subst}
use comon.Base.Result.{ok}
use comon.Guid.{Guid}
use comon.Arch.{pointer_size}
use comon.Engine.{Engine, Comodule}
use comon.Ext.Filter.{Cofilter, is_clsid_allowed}
use comon.Cometa.Database.{Database, DatabaseLaws, VtableRow}
use comon.Cometa.Writing.{save_module_vtable}
use comon.Cometa.Queries.{rows_where, in_module, covtable_of, get_module_vtables}
use comon.Monitor.Types.{ModuleInfo}
use comon.Monitor.Monad.{State}
use comon.Monitor.Vtables.{get_module_info, register_vtable}
use comon.Monitor.Modules.{handle_module_load}
use comon.Monitor.Loading.Recorded.{load_one, load_all}
use comon.Monitor.Loading.{tables_in, handle_module_load_lem}
use comon.Monitor.Saving.{Ignores, saved_world, register_vtable-saved}
use comon.Session.Composed.{with_metadata, metadata_of}
use comon.Session.Restored.Rows.{HasRow, replaced-HasRow, loaded-row}

module _ (E : Engine) (D : Database) (laws : DatabaseLaws D) (pick : List Guid → Guid)
    (fuel : ℕ) where
  abbrev pub G : Engine
  G = with_metadata E D pick fuel

  abbrev pub database_of : G.World → D.Db
  database_of w = (metadata_of E D pick fuel w).db

  -- the row of a table of a module
  abbrev row_of : Guid → Guid → ℕ → ModuleInfo → VtableRow
  row_of clsid iid offset mi = ((clsid, iid), (mi.name, (mi.timestamp, offset)))

  Stored : VtableRow → G.World → Type 0
  Stored row w = HasRow D row (database_of w)

  Stored-Ignores : (row : VtableRow) → Ignores G (Stored row)
  unfolding Stored with_metadata metadata_of
  Stored-Ignores row = record {
    add_breakpoint = λ w p. p;
    set_offset = λ h a w p. p;
    set_command = λ h w p. p;
    add_flags = λ h f w p. p;
    virtual_protect = λ a q w p. p;
  }

  saved-Stored :
      (clsid iid : Guid) (offset : ℕ) (mi : ModuleInfo) (w : G.World)
      → Stored (row_of clsid iid offset mi) (
          saved_world G
            (Stored (row_of clsid iid offset mi))
            (Stored-Ignores (row_of clsid iid offset mi))
            clsid
            iid
            offset
            mi
            w)
  unfolding Stored with_metadata metadata_of save_module_vtable
  saved-Stored clsid iid offset mi w =
      replaced-HasRow D laws (row_of clsid iid offset mi) (database_of w)

  tables-loaded :
      (m : Comodule) (w : G.World)
      → G.get_module_vtables m w
        ≡ map (covtable_of D) (rows_where (in_module D m) (D.vtables (database_of w)))
  unfolding with_metadata metadata_of get_module_vtables
  tables-loaded m w = refl

  -- the table that is loaded from a database with the row
  load-Stored :
      (clsid iid : Guid) (offset base : ℕ) (mi : ModuleInfo) (u : State G.World)
      → HasRow D (row_of clsid iid offset mi) (database_of u.world)
      → offset < 2 ^ 32
      → is_clsid_allowed u.monitor.filter clsid ≡ true
      → load_all u.monitor.filter base
          (clsid, iid)
          (tables_in G (clsid, iid) mi.name mi.timestamp u.world)
          none
        ≡ some (add64 base offset)
  load-Stored clsid iid offset base mi u has small allowed =
      let m : Comodule = record {
        name = mi.name;
        timestamp = mi.timestamp;
        is_64bit = nat_beq (pointer_size G.arch) 8;
      } in
      let inside : in_module D m (row_of clsid iid offset mi) ≡ true = ground (
        arith,
        (list_eq {A = ℕ}).equals_iff mi.name mi.name,
        nat_eq.equals_iff mi.timestamp mi.timestamp,
      ) in
      let kept : offset % 2 ^ 32 ≡ offset = omega (arith, small) in
      ap (λ vs. load_all u.monitor.filter base (clsid, iid) vs none) (tables-loaded m u.world)
      ∙ loaded-row D u.monitor.filter base m (clsid, iid) (row_of clsid iid offset mi)
          (D.vtables (database_of u.world)) refl inside allowed has.there has.only
      ∙ ap (λ (n : ℕ). some (add64 base n)) kept

  same-HasRow :
      (row : VtableRow) (a b : D.Db) → D.vtables b ≡ D.vtables a → HasRow D row a → HasRow D row b
  same-HasRow row a b same has = record {
    there = ap (member row) same ∙ has.there;
    only = λ r at. has.only r (ap (member r) (sym same) ∙ at);
  }

  -- A table that a monitor registers for a pair that it has none for, with saving asked for, is
  -- restored: whenever later, in whatever monitor whose filter lets the class through and that has no
  -- table for the pair, the module with the same name and timestamp is loaded, at whatever base address,
  -- that monitor records the table at the same distance from the base, where the distance is below 2^32
  -- and no table was saved in the meantime. The registration itself may have failed to set breakpoints.
  pub register_vtable-handle_module_load :
      (clsid iid : Guid) (addr base base' : ℕ) (replace : Bool) (mi : ModuleInfo)
      (s u : State G.World)
      → find (clsid, iid) s.monitor.cotype_with_vtables ≡ none
      → G.get_module_by_offset addr s.world ≡ ok base
      → get_module_info G base s ≡ (s, ok mi)
      → sub64 addr base < 2 ^ 32
      → D.vtables (database_of u.world)
        ≡ D.vtables (database_of (register_vtable G clsid iid addr true replace s).0.world)
      → is_clsid_allowed u.monitor.filter clsid ≡ true
      → find (clsid, iid) u.monitor.cotype_with_vtables ≡ none
      → (t : State G.World) × (handle_module_load G mi.name mi.timestamp base' u ≡ (t, ok tt))
        × (find (clsid, iid) t.monitor.cotype_with_vtables ≡ some (add64 base' (sub64 addr base)))
  unfolding Stored
  register_vtable-handle_module_load clsid iid addr base base' replace mi s u gone known info small
        same allowed gone' =
      let row = row_of clsid iid (sub64 addr base) mi in
      let has =
        register_vtable-saved G (Stored row) (Stored-Ignores row) clsid iid addr base replace mi s
          gone known info (saved-Stored clsid iid (sub64 addr base) mi s.world) in
      let (t, done, at) = handle_module_load_lem G (clsid, iid) mi.name mi.timestamp base' u in
      (
        t,
        done,
        at
            ∙ ap
                (load_all u.monitor.filter base' (clsid, iid)
                  (tables_in G (clsid, iid) mi.name mi.timestamp u.world))
                gone'
            ∙ load-Stored clsid iid (sub64 addr base) base' mi u (same-HasRow row _ _ same has)
                small allowed,
      )
