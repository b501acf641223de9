-- ===== src/Monitor/Hits.antt =====
-- comon/comonitor_com_breakpoints.cpp: what `handle_breakpoint` answers and what it leaves, whatever its
-- handlers meet.
use comon.Base.{
  ℕ, ◌≡◌, Bool, true, not, ◌&&◌, ◌||◌, ◌==◌, nat_eq, list_eq, nat_beq, codes, ends_with,
}
use comon.Base.Result.{Result, ok}
use comon.Guid.{iid_iclassfactory}
use comon.Engine.{Engine}
use comon.Monitor.Types.{
  Breakpoint, function_breakpoint, coquery_single_return_breakpoint, coregister_return_breakpoint,
  cobreakpoint, cobreakpoint_return,
}
use comon.Monitor.Monad.{State, M}
use comon.Monitor.Handlers.Methods.{stops_before}

-- Whether the debuggee goes on behind a breakpoint: behind every one that the monitor sets for itself,
-- and behind one of the user unless that is to stop there.
abbrev pub goes_on : Breakpoint → Bool
goes_on (coquery_single_return_breakpoint b) = true
goes_on (coregister_return_breakpoint b) = true
goes_on (function_breakpoint name) =
    ends_with (codes "!CoRegisterClassObject") name || ends_with (codes "!DllGetClassObject") name
goes_on (cobreakpoint b) =
    b.method_name == codes "QueryInterface"
    || ((b.iid == iid_iclassfactory && b.method_name == codes "CreateInstance")
        || not (stops_before b.behavior))
goes_on (cobreakpoint_return b) = not b.should_stop

-- the method answers the value in every state
record Gives {W A : Type 0} (m : M W A) (a : A) : Type 0 where
  gives : (s : State W) → (m s).1 ≡ ok a

-- the breakpoints that are meant to be hit once, by their kind
abbrev once_of : ℕ → Bool
once_of n = nat_beq n 1 || (nat_beq n 2 || nat_beq n 4)
