-- ===== src/Monitor/Modules.antt =====
-- comon/comonitor.cpp: `handle_module_load`, `handle_module_unload`, the constructor and the
-- destructor.
use comon.Base.{
  add64, ℕ, Bool, true, false, ◌&&◌, ◌||◌, List, [], ◌∷◌, ◌++◌, nat_beq, leb, nat_eq, pair_eq,
  list_eq, ◌==◌, Text, codes,
}
use comon.Base.Result.{ok}
use comon.Arch.{pointer_size}
use comon.Guid.{Guid}
use comon.Engine.{Engine, Covtable, ModuleParameters}
use comon.Ext.Filter.{Cofilter, is_clsid_allowed}
use comon.Monitor.Types.{
  Monitor, DebuggeeType, time_travel, live, memory_dump, unknown, function_breakpoint,
}
use comon.Monitor.Monad.{M, ◌>>=◌, ◌>>◌, ask, gets, attempt, modify, skip}
use comon.Monitor.Breakpoints.{set_breakpoint, unset_where}
use comon.Monitor.Exports.{get_exported_function_addr}
use comon.Monitor.Vtables.{add_cotype, break_on_method, get_module_info}

-- where breakpoints are set
abbrev pub breaks : DebuggeeType → Bool
breaks live = true
breaks time_travel = true
breaks memory_dump = false
breaks unknown = false

-- the functions that a module is searched for
unfoldable pub functions_to_monitor : Text → List Text
functions_to_monitor module_name =
    elim (module_name == codes "ole32" || module_name == codes "combase") [
      | true ↦ codes "DllGetClassObject" ∷ codes "CoRegisterClassObject" ∷ []
      | false ↦ codes "DllGetClassObject" ∷ []
    ]

-- `addr >= base_address && addr <= base_address + size`, in unsigned 64-bit arithmetic
abbrev pub in_module : ℕ → ℕ → ℕ → Bool
in_module base size addr = leb base addr && leb addr (add64 base size)

-- the loop over `_cotype_with_vtables` when a module goes
unfoldable pub drop_vtables : ℕ → ℕ → List ((Guid × Guid) × ℕ) → List ((Guid × Guid) × ℕ)
drop_vtables base size [] = []
drop_vtables base size ((key, vtbl) ∷ m) =
    let rest = drop_vtables base size m in
    elim (in_module base size vtbl) [ true ↦ rest | false ↦ (key, vtbl) ∷ rest ]

-- a monitor before its constructor looks at the modules of the debuggee
abbrev pub new_monitor : ℕ → DebuggeeType → Cofilter → Monitor
new_monitor pid dbgtype fltr = record {
  process_id = pid;
  dbgtype = dbgtype;
  filter = fltr;
  is_paused = false;
  breakpoints = [];
  breakpoint_addresses = [];
  cotype_with_vtables = [];
}

module _ (E : Engine) where
  open E use {
    World, arch, get_module_vtables, get_number_modules, get_loaded_module_parameters,
    get_module_name,
  }

  -- a table that the database knows in the module
  unfoldable pub load_vtable : Cofilter → DebuggeeType → ℕ → Covtable → M World (Unit {0})
  load_vtable filter dbgtype base_addr v = elim (is_clsid_allowed filter v.clsid) [
    | false ↦ skip
    | true ↦ do
      elim (breaks dbgtype) [
        | false ↦ skip
        | true ↦
            attempt
              (break_on_method E v.clsid v.iid (codes "QueryInterface") (add64 base_addr v.address))
      ]
      modify (add_cotype v.clsid v.iid (add64 base_addr v.address))
  ]

  unfoldable pub load_vtables : Cofilter → DebuggeeType → ℕ → List Covtable → M World (Unit {0})
  load_vtables _ dbgtype base_addr [] = skip
  load_vtables fltr dbgtype base_addr (v ∷ vs) = do
    load_vtable fltr dbgtype base_addr v
    load_vtables fltr dbgtype base_addr vs

  unfoldable pub break_on_function : Text → ℕ → Text → M World ℕ
  break_on_function module_name base_addr function_name = do
    dbgtype ← gets (λ m. m.dbgtype)
    fn_addr ← ask (λ w. get_exported_function_addr E base_addr function_name w dbgtype module_name)
    set_breakpoint E (function_breakpoint (module_name ++ b'!' ∷ function_name)) fn_addr

  unfoldable pub break_on_functions : Text → ℕ → List Text → M World (Unit {0})
  break_on_functions module_name base_addr [] = skip
  break_on_functions module_name base_addr (f ∷ fs) = do
    attempt (break_on_function module_name base_addr f)
    break_on_functions module_name base_addr fs

  unfoldable pub handle_module_load : Text → ℕ → ℕ → M World (Unit {0})
  handle_module_load module_name module_timestamp module_base_addr = do
    filter ← gets (λ m. m.filter)
    dbgtype ← gets (λ m. m.dbgtype)
    vtables ← ask (λ w. ok (
        get_module_vtables
          (record {
            name = module_name;
            timestamp = module_timestamp;
            is_64bit = nat_beq (pointer_size arch) 8;
          })
          w))
    load_vtables filter dbgtype module_base_addr vtables
    elim (breaks dbgtype) [
      | false ↦ skip
      | true ↦ break_on_functions module_name module_base_addr (functions_to_monitor module_name)
    ]

  unfoldable pub unset_module : ℕ → ℕ → M World (Unit {0})
  unset_module base size s = unset_where E (λ d. in_module base size d.addr) s.monitor.breakpoints s

  unfoldable pub handle_module_unload : ℕ → M World (Unit {0})
  handle_module_unload base_address = do
    mi ← get_module_info E base_address
    modify (λ m. record m {
      cotype_with_vtables = drop_vtables base_address mi.size m.cotype_with_vtables;
    })
    unset_module base_address mi.size

  -- a module that is loaded when the monitor starts
  unfoldable pub load_module : ModuleParameters → M World (Unit {0})
  load_module m = do name ← ask (get_module_name m.base); handle_module_load name m.timestamp m.base

  unfoldable pub load_modules : List ModuleParameters → M World (Unit {0})
  load_modules [] = skip
  load_modules (m ∷ ms) = do attempt (load_module m); load_modules ms

  -- the body of the constructor
  unfoldable pub start : M World (Unit {0})
  start = do
    count ← ask get_number_modules
    modules ← ask (get_loaded_module_parameters count)
    load_modules modules

  -- the destructor
  unfoldable pub stop : M World (Unit {0})
  stop s =
      let (s', _) = unset_where E (λ d. true) s.monitor.breakpoints s in
      (record s' { monitor = record s'.monitor { cotype_with_vtables = [] } }, ok tt)
