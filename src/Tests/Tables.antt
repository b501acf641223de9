-- ===== src/Tests/Tables.antt =====
-- comon/comonitor.cpp, `register_vtable`, at a table of a new class.
use comon.Base.{ℕ, ◌≡◌, refl, false, pair_eq, nat_eq, find}
use comon.Base.Result.{ok}
use comon.Guid.{iid_iunknown}
use comon.Monitor.Monad.{
  State, gets, act, call, ask, modify, pure, attempt, skip, ◌>>=◌, ◌>>◌, continue,
}
use comon.Monitor.Breakpoints.{set_breakpoint, create_breakpoint, protect_memory, protect_page}
use comon.CallContext.{read_pointer}
use comon.Monitor.Vtables.{register_vtable, register_new}
use comon.Monitor.Registration.{recorded, register_vtable_lem}
use comon.Tests.Debuggee.{small_engine, small_laws, placed}

-- class 6 has no table yet
abbrev registered : State ℕ
registered = (register_vtable small_engine 6 iid_iunknown 0x10018 false false placed).0

registered-ok :
    register_vtable small_engine 6 iid_iunknown 0x10018 false false placed ≡ (registered, ok tt)
unfolding register_vtable register_new set_breakpoint create_breakpoint protect_memory protect_page
    gets act call ask modify pure attempt skip ◌>>=◌ ◌>>◌ continue find read_pointer
registered-ok = refl

register_vtable_lem_example :
    find (6, iid_iunknown) registered.monitor.cotype_with_vtables
    ≡ recorded false 0x10018 (find (6, iid_iunknown) placed.monitor.cotype_with_vtables)
register_vtable_lem_example =
    register_vtable_lem small_engine small_laws 6 iid_iunknown 0x10018 false false placed registered
      registered-ok
