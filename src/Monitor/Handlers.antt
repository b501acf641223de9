-- ===== src/Monitor/Handlers.antt =====
-- comon/comonitor_com_breakpoints.cpp: `handle_breakpoint` and which handler it calls.
pub mod Methods
pub mod Creators
use Prim.Native.Nat.{bit_and}
use comon.Base.{
  nth, ℕ, ◌%◌, ◌^◌, Bool, true, false, not, ◌&&◌, none, some, List, [], ◌∷◌, map, nat_beq, ltb,
  nat_eq, pair_eq, list_eq, ◌==◌, find, Text, codes, ends_with,
}
use comon.Guid.{Guid, iid_iunknown, iid_iclassfactory}
use comon.Engine.{Engine, ComethodArg}
use comon.Ext.Filter.{is_clsid_allowed}
use comon.Monitor.Types.{
  Breakpoint, BreakpointData, alternative, Cobreakpoint, CobreakpointReturn, CobreakpointBehavior,
  CoquerySingleReturnBreakpoint, CoregisterReturnBreakpoint, stop_before_call, stop_after_call,
  always_stop, never_stop, function_breakpoint, coquery_single_return_breakpoint,
  coregister_return_breakpoint, cobreakpoint, cobreakpoint_return, is_onetime_breakpoint,
}
use comon.Monitor.Monad.{M, ◌>>=◌, ◌>>◌, pure, ask, gets, attempt, call, skip, throw}
use comon.Monitor.Breakpoints.{set_breakpoint, unset_breakpoint, invalid_iterator}
use comon.Arch.{cc_stdcall}
use comon.CallContext.{read_pointer, read_guid, read_method_frame, read_method_return_code}
use comon.Monitor.Vtables.{register_vtable}
use comon.Monitor.Handlers.Methods.{
  handle_coquery_return, handle_coregister_return, handle_cobreakpoint, handle_cobreakpoint_return,
}
use comon.Monitor.Handlers.Creators.{
  handle_dll_get_class_object, handle_co_register_class_object, handle_query_interface,
  handle_create_instance,
}

module _ (E : Engine) where
  open E use {World}

  -- `handled` after a handler that returns nothing
  unfoldable pub handled : M World (Unit {0}) → M World Bool
  handled m = do attempt m; pure true

  unfoldable pub handle_function : Text → M World Bool
  handle_function name = elim (ends_with (codes "!CoRegisterClassObject") name) [
    | true ↦ handled (handle_co_register_class_object E name)
    | false ↦ elim (ends_with (codes "!DllGetClassObject") name) [
      | true ↦ handled (handle_dll_get_class_object E name)
      | false ↦ pure false
    ]
  ]

  unfoldable pub handle_method : Cobreakpoint → M World Bool
  handle_method brk = elim (brk.method_name == codes "QueryInterface") [
    | true ↦ handled (handle_query_interface E brk.clsid)
    | false ↦ elim (brk.iid == iid_iclassfactory && brk.method_name == codes "CreateInstance") [
      | true ↦ handled (handle_create_instance E brk.clsid)
      | false ↦ handle_cobreakpoint E brk
    ]
  ]

  -- the handler of a kind of breakpoint
  unfoldable pub dispatch : Breakpoint → M World Bool
  dispatch (coquery_single_return_breakpoint brk) = handled (handle_coquery_return E brk)
  dispatch (coregister_return_breakpoint brk) = handled (handle_coregister_return E brk)
  dispatch (function_breakpoint name) = handle_function name
  dispatch (cobreakpoint brk) = handle_method brk
  dispatch (cobreakpoint_return brk) = handle_cobreakpoint_return E brk

  -- A breakpoint that is meant to be hit once is removed behind its handler, by the iterator that was
  -- found before it. Where the handler erased the entry the iterator is invalid. `set_breakpoint` does
  -- that at the address of the breakpoint itself, and puts another entry under the identifier; no
  -- handler sets a breakpoint of the kind that it handles, so that this entry is of another kind.
  unfoldable pub unset_onetime : ℕ → BreakpointData → M World (Unit {0})
  unset_onetime id found_brk = do
    now ← gets (λ m. find id m.breakpoints)
    elim now [
      | none ↦ throw invalid_iterator
      | some d ↦ elim (nat_beq (alternative d.brk) (alternative found_brk.brk)) [
        | false ↦ throw invalid_iterator
        | true ↦ elim (is_onetime_breakpoint d.brk) [
          | false ↦ skip
          | true ↦ attempt (unset_breakpoint E id d)
        ]
      ]
    ]

  -- whether the debuggee goes on; false too for a breakpoint that is not the monitor's
  unfoldable pub handle_breakpoint : ℕ → M World Bool
  handle_breakpoint id = do
    found ← gets (λ m. find id m.breakpoints)
    elim found [
      | none ↦ pure false
      | some d ↦ do result ← dispatch d.brk; unset_onetime id d; pure result
    ]
