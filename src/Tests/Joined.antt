-- ===== src/Tests/Joined.antt =====
-- comon/comonitor.cpp with cometa.cpp and ext.cpp: monitors over the small engine that work with the small
-- database.
use comon.Base.{
  ℕ, sub64, add64, ◌≡◌, refl, true, false, some, arith, Text, codes, decimal_text, find, nat_eq,
  pair_eq,
}
use comon.Base.Result.{ok}
use comon.Guid.{Guid, iid_iunknown}
use comon.Engine.{Engine, EngineLaws}
use comon.Ext.Filter.{no_filter, is_clsid_allowed}
use comon.Monitor.Types.{live, ModuleInfo}
use comon.Monitor.Monad.{State, ask, pure, ◌>>=◌, continue}
use comon.Monitor.Vtables.{register_vtable, get_module_info, list_cotypes}
use comon.Monitor.Modules.{new_monitor, start, handle_module_load}
use comon.Monitor.Loading.Recorded.{load_all}
use comon.Monitor.Loading.{tables_in, handle_module_load_lem}
use comon.Monitor.Breakpoints.Sound.{IsSound, Alone}
use comon.Monitor.Soundness.Events.{started}
use comon.Session.Composed.{with_metadata, with_metadata-laws, beside, composed-IsSound}
use comon.Session.Restored.{register_vtable-handle_module_load}
use comon.Session.Commands.{show_cotypes}
use comon.Session.Status.{status_text}
use comon.Session.Status.Shown.{ShowsTable, status_text-ShowsTable}
use comon.Tests.Debuggee.{small_engine, small_laws, placed}
use comon.Tests.Sessions.{small_debugger, no_guid}
use comon.Tests.Caches.{first_key}
use comon.Tests.Store.{memory, memory_laws}
use comon.Tests.Metadata.{opened}

-- a monitor over the small engine and the small database, behind its constructor
abbrev joined : Engine
joined = with_metadata small_engine memory first_key 3

abbrev joined_laws : EngineLaws joined
joined_laws = with_metadata-laws small_engine memory first_key 3 small_laws

abbrev joined_world : joined.World
joined_world = beside small_engine memory first_key 3 (0, opened)

abbrev joined_begun : State joined.World
joined_begun =
    (start joined (record { world = joined_world; monitor = new_monitor 9 live no_filter })).0

joined-IsSound : IsSound joined joined_laws Alone joined_begun
joined-IsSound =
    composed-IsSound small_engine memory first_key 3 small_laws joined_begun
      (started joined_world 9 live no_filter)

abbrev shell : ModuleInfo
shell = record { name = codes "shell"; timestamp = 7; size = 0x1000 }

-- before a table of class 5 is registered at 0x10010
abbrev before : State joined.World
before = record { world = joined_world; monitor = new_monitor 9 live no_filter }

before-module : get_module_info joined 0x10000 before ≡ (before, ok shell)
unfolding get_module_info ask pure ◌>>=◌ continue with_metadata
before-module = refl

-- the monitor of a later process
abbrev later : State joined.World
later = record {
  world = (register_vtable joined 5 7 0x10010 true false before).0.world;
  monitor = new_monitor 12 live no_filter;
}

register_vtable-handle_module_load_example :
    (t : State joined.World) × (handle_module_load joined (codes "shell") 7 0x50000 later
      ≡ (t, ok tt))
    × (find (5, 7) t.monitor.cotype_with_vtables ≡ some (add64 0x50000 (sub64 0x10010 0x10000)))
unfolding with_metadata find is_clsid_allowed
register_vtable-handle_module_load_example =
    register_vtable-handle_module_load small_engine memory memory_laws first_key 3 5 7 0x10010
      0x10000 0x50000 false shell before later refl refl before-module (omega arith) refl refl refl

handle_module_load_lem_example :
    (t : State ℕ) × (handle_module_load small_engine (codes "shell") 7 0x50000 placed ≡ (t, ok tt))
    × (find (5, iid_iunknown) t.monitor.cotype_with_vtables
        ≡ load_all no_filter 0x50000
            (5, iid_iunknown)
            (tables_in small_engine (5, iid_iunknown) (codes "shell") 7 placed.world)
            (find (5, iid_iunknown) placed.monitor.cotype_with_vtables))
handle_module_load_lem_example =
    handle_module_load_lem small_engine (5, iid_iunknown) (codes "shell") 7 0x50000 placed

abbrev digits : Guid → Text
digits g = decimal_text g

placed-recorded : find (5, iid_iunknown) placed.monitor.cotype_with_vtables ≡ some 0x10010
unfolding find
placed-recorded = refl

status_text-ShowsTable_example :
    ShowsTable small_engine small_debugger no_guid digits iid_iunknown 0x10010
      (status_text small_engine digits placed.monitor 1).1
    × ((status_text small_engine digits placed.monitor 1).0
        ≡ show_cotypes small_engine small_debugger no_guid (list_cotypes placed.monitor) 1)
status_text-ShowsTable_example =
    status_text-ShowsTable small_engine small_debugger no_guid digits 5 iid_iunknown 0x10010
      placed.monitor 1 placed-recorded
