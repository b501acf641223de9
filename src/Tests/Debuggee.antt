-- ===== src/Tests/Debuggee.antt =====
-- comon/comonitor.cpp and dbgsession.cpp against a small engine, which hands out identifiers in order
-- and never again, and a debuggee with one module.
use comon.Base.{
  ◌↔◌, ℕ, suc, ◌+◌, ◌≡◌, refl, true, none, some, [], ◌∷◌, arith, nat_eq, pair_eq, ltb, find,
  Distinct, codes,
}
use comon.Base.Result.{ok, err, error_not_found}
use comon.Arch.{x64}
use comon.Guid.{iid_iunknown}
use comon.Engine.{Engine, EngineLaws}
use comon.Ext.Filter.{no_filter}
use comon.Monitor.Types.{
  Breakpoint, BreakpointData, live, ModuleInfo, function_breakpoint, cobreakpoint_return,
}
use comon.Monitor.Monad.{State, ask, gets, act, call, modify, pure, ◌>>=◌, ◌>>◌, continue}
use comon.Monitor.Breakpoints.{
  set_breakpoint, create_breakpoint, protect_memory, protect_page, store_breakpoint,
  handle_breakpoint_removed,
}
use comon.Monitor.Breakpoints.Sound.{IsSound, IsRecorded, Alone}
use comon.Monitor.Breakpoints.Invariant.{set_breakpoint_lem}
use comon.Monitor.Breakpoints.Removal.{IsSound-IsSoundBut, handle_breakpoint_removed_lem}
use comon.Monitor.Vtables.{get_module_info, list_cotypes}
use comon.Monitor.Handlers.{handle_breakpoint}
use comon.Monitor.Modules.{new_monitor, start, handle_module_unload}
use comon.Monitor.Soundness.Events.{IsReachable, started, hit_breakpoint, IsReachable-IsSound}
use comon.Monitor.Listing.{list_cotypes_lem, or_empty, tables_of}
use comon.Monitor.Effects.{IsOutside, handle_module_unload_lem}

abbrev pub small_engine : Engine
small_engine = record {
  World = ℕ;
  Handle = ℕ;
  add_breakpoint = λ w. (suc w, ok w);
  set_offset = λ h a w. (w, ok tt);
  set_command = λ h w. w;
  get_id = λ h w. ok h;
  get_flags = λ h w. ok 4;
  set_flags = λ h f w. (w, ok tt);
  add_flags = λ h f w. (w, ok tt);
  get_breakpoint_by_id = λ i w. ok i;
  remove_breakpoint = λ h w. (w, ok tt);
  virtual_query =
      λ a w. ok (record { base_address = a; state = 0x1000; type = 0x20000; protect = 2 });
  virtual_protect = λ a p w. (w, ok 2);
  get_module_by_offset = λ a w. ok 0x10000;
  get_number_modules = λ w. ok 1;
  get_loaded_module_parameters =
      λ n w. ok (record { base = 0x10000; timestamp = 7; size = 0x1000 } ∷ []);
  get_module_parameters = λ a w. ok (record { base = a; timestamp = 7; size = 0x1000 });
  get_module_name = λ a w. ok (codes "shell");
  arch = x64 0 1 (2 ∷ 3 ∷ 4 ∷ 5 ∷ 6 ∷ 7 ∷ 8 ∷ 9 ∷ []);
  get_value = λ r w. ok 0;
  get_values = λ rs w. ok rs;
  read_pointers_virtual = λ a w. ok (a + 64);
  get_type_methods = λ g w. (w, none);
  get_type_method_args = λ m w. (w, none);
  get_module_vtables = λ m w. record { clsid = 5; iid = iid_iunknown; address = 16 } ∷ [];
  save_module_vtable = λ m v w. w;
  resolve_class_name = λ g w. (w, none);
  resolve_type_name = λ g w. (w, none);
  read_export_directory = λ base w. ok 0;
  read_export_table = λ a w. ok (record {
    number_of_names = 1;
    address_of_functions = 0;
    address_of_names = 0;
    address_of_name_ordinals = 0;
  });
  read_virtual = λ a n w. ok [];
  get_offset_by_name = λ t w. ok 32;
}

abbrev pub small_laws : EngineLaws small_engine
small_laws = record {
  live = λ w i. ltb i w;
  ident = λ h. h;
  get_id-ident = λ h w i e. ground (arith, e);
  get_breakpoint_by_id-ident = λ i w h e. ground (arith, e);
  add_fresh = λ w h e. ground (arith, e);
  add_new = λ w h e. ground (arith, e);
  add_keeps = λ w i e. ground (arith, e);
  remove_keeps = λ h w i other e. e;
  set_offset-live = λ h a w i. refl;
  set_command-live = λ h w i. refl;
  set_flags-live = λ h f w i. refl;
  add_flags-live = λ h f w i. refl;
  virtual_protect-live = λ a p w i. refl;
  get_type_methods-live = λ g w i. refl;
  get_type_method_args-live = λ m w i. refl;
  save_module_vtable-live = λ m v w i. refl;
  resolve_class_name-live = λ g w i. refl;
  resolve_type_name-live = λ g w i. refl;
}

-- a monitor of process 9 behind its constructor, with breakpoint 0 in the module
abbrev begun : State ℕ
begun = (start small_engine (record { world = 0; monitor = new_monitor 9 live no_filter })).0

begun-IsReachable : IsReachable small_engine small_laws begun
begun-IsReachable = started 0 9 live no_filter

-- the breakpoint is hit
abbrev hit : State ℕ
hit = (handle_breakpoint small_engine 0 begun).0

IsReachable-IsSound_example : IsSound small_engine small_laws Alone hit
IsReachable-IsSound_example =
    IsReachable-IsSound small_engine small_laws hit (hit_breakpoint begun 0 begun-IsReachable)

begun-IsSound : IsSound small_engine small_laws Alone begun
begun-IsSound = IsReachable-IsSound small_engine small_laws begun begun-IsReachable

-- a breakpoint at the return of a method, at which the user wants to stop
abbrev at_return : BreakpointData
at_return = record {
  brk = cobreakpoint_return (record {
    clsid = 5;
    iid = iid_iunknown;
    method_name = codes "AddRef";
    return_type = codes "ULONG";
    out_args = [];
    out_arg_values = [];
    should_stop = true;
  });
  addr = 0x30000;
  mem_protect = none;
}

abbrev returning : State ℕ
returning = record {
  world = 1;
  monitor = record (new_monitor 9 live no_filter) {
    breakpoints = (0, at_return) ∷ [];
    breakpoint_addresses = (0x30000, 0) ∷ [];
  };
}

handle_breakpoint_removed_lem_example :
    IsSound small_engine small_laws Alone (handle_breakpoint_removed small_engine 0 begun).0
    × (find 0 (handle_breakpoint_removed small_engine 0 begun).0.monitor.breakpoints ≡ none)
    × ((handle_breakpoint_removed small_engine 0 begun).1
        ≡ (elim (find 0 begun.monitor.breakpoints) [ none ↦ err error_not_found | some d ↦ ok tt ]))
handle_breakpoint_removed_lem_example =
    handle_breakpoint_removed_lem small_engine small_laws Alone 0 begun
      (IsSound-IsSoundBut small_engine small_laws Alone 0 begun begun-IsSound)

abbrev shell : ModuleInfo
shell = record { name = codes "shell"; timestamp = 7; size = 0x1000 }

abbrev placed_data : BreakpointData
placed_data = record {
  brk = function_breakpoint (codes "shell!f");
  addr = 0x10020;
  mem_protect = none;
}

-- breakpoint 0 and a table in the module
abbrev pub placed : State ℕ
placed = record {
  world = 1;
  monitor = record (new_monitor 9 live no_filter) {
    breakpoints = (0, placed_data) ∷ [];
    breakpoint_addresses = (0x10020, 0) ∷ [];
    cotype_with_vtables = ((5, iid_iunknown), 0x10010) ∷ [];
  };
}

placed-IsSound : IsSound small_engine small_laws Alone placed
unfolding find
placed-IsSound = record {
  linked = record { inverse = λ i a. ground arith; distinct = (refl, tt) };
  alive = λ i d at. ground (arith, at);
  apart = λ i f. absurd f;
}

placed-module : get_module_info small_engine 0x10000 placed ≡ (placed, ok shell)
unfolding get_module_info ask pure ◌>>=◌ continue
placed-module = refl

placed-Distinct : Distinct placed.monitor.cotype_with_vtables
unfolding find
placed-Distinct = (refl, tt)

handle_module_unload_lem_example :
    ((find 0 (handle_module_unload small_engine 0x10000 placed).0.monitor.breakpoints
        ≡ some placed_data)
      ↔ ((find 0 placed.monitor.breakpoints ≡ some placed_data)
          × IsOutside 0x10000 0x1000 placed_data.addr))
    × ((find
            (5, iid_iunknown)
            (handle_module_unload small_engine 0x10000 placed).0.monitor.cotype_with_vtables
          ≡ some 0x10010)
        ↔ ((find (5, iid_iunknown) placed.monitor.cotype_with_vtables ≡ some 0x10010)
            × IsOutside 0x10000 0x1000 0x10010))
handle_module_unload_lem_example =
    handle_module_unload_lem small_engine small_laws placed placed 0x10000 0 0x10010 placed_data
      (5, iid_iunknown) shell placed-module placed-IsSound (λ h w. refl) placed-Distinct

abbrev returns_here : Breakpoint
returns_here = function_breakpoint (codes "shell!g")

-- a second breakpoint, on a page that is made executable for it
abbrev placed_twice : State ℕ
placed_twice = record {
  world = 2;
  monitor =
      store_breakpoint 1 returns_here 0x30000
        (some (record { old_protect = 2; new_protect = 0x40 })) placed.monitor;
}

set-placed : set_breakpoint small_engine returns_here 0x30000 placed ≡ (placed_twice, ok 1)
unfolding set_breakpoint create_breakpoint protect_memory protect_page gets act call ask modify pure
    ◌>>=◌ ◌>>◌ continue find
set-placed = refl

set_breakpoint_lem_example : IsRecorded small_engine small_laws returns_here 0x30000 1 placed_twice
set_breakpoint_lem_example =
    set_breakpoint_lem small_engine small_laws Alone returns_here 0x30000 1 placed placed_twice
      placed-IsSound set-placed

list_cotypes_lem_example :
    or_empty (find 5 (list_cotypes begun.monitor)) ≡ tables_of 5 begun.monitor.cotype_with_vtables
list_cotypes_lem_example = list_cotypes_lem begun.monitor 5
