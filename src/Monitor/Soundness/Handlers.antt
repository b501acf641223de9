-- ===== src/Monitor/Soundness/Handlers.antt =====
-- comon/comonitor_com_breakpoints.cpp: the handlers of breakpoints keep the maps in step.
use comon.Base.{
  ℕ, ◌≡◌, Bool, true, false, ◌&&◌, some, ◌==◌, nat_eq, list_eq, nat_beq, Text, codes, ends_with,
  find, Option-cases, inl, inr,
}
use comon.Guid.{Guid, iid_iclassfactory}
use comon.Engine.{Engine, EngineLaws}
use comon.Ext.Filter.{is_clsid_allowed}
use comon.Monitor.Types.{
  Breakpoint, BreakpointData, alternative, Cobreakpoint, CobreakpointReturn,
  CoquerySingleReturnBreakpoint, CoregisterReturnBreakpoint, is_onetime_breakpoint,
  function_breakpoint, coquery_single_return_breakpoint, coregister_return_breakpoint, cobreakpoint,
  cobreakpoint_return,
}
use comon.Monitor.Monad.{
  State, M, gets, attempt, skip, throw, ◌>>=◌, continue, Keeps-bind, Keeps-then, Keeps-pure,
  Keeps-ask, Keeps-gets, Keeps-attempt, Keeps-skip, Keeps-branch, Keeps-option,
}
use comon.Monitor.Breakpoints.{unset_breakpoint, invalid_iterator}
use comon.Monitor.Breakpoints.Sound.{IsSound}
use comon.Monitor.Breakpoints.Invariant.{set_breakpoint-IsSound}
use comon.Monitor.Breakpoints.Removal.{unset_breakpoint-IsSound}
use comon.Arch.{cc_stdcall}
use comon.Monitor.Handlers.Methods.{
  succeeded, has_args, log_com_call, handle_coquery_return, handle_coregister_return,
  set_cobreakpoint_return, handle_cobreakpoint, handle_cobreakpoint_return,
}
use comon.Monitor.Handlers.Creators.{
  handle_dll_get_class_object, handle_co_register_class_object, handle_query_interface,
  handle_create_instance,
}
use comon.Monitor.Handlers.{
  handled, handle_function, handle_method, dispatch, unset_onetime, handle_breakpoint,
}
use comon.Monitor.Soundness.{Sound, call-Sound, register_vtable-Sound}

module _ (E : Engine) (L : EngineLaws E) (foreign : ℕ → Type 0) where
  open E use {World}

  log_com_call-Sound : (clsid iid : Guid) → Sound E L foreign (log_com_call E clsid iid)
  unfolding log_com_call
  log_com_call-Sound clsid iid =
      Keeps-then (call-Sound E L foreign _ (L.resolve_class_name-live clsid))
        (call-Sound E L foreign _ (L.resolve_type_name-live iid))

  coquery_return-Sound :
      (brk : CoquerySingleReturnBreakpoint) → Sound E L foreign (handle_coquery_return E brk)
  unfolding handle_coquery_return
  coquery_return-Sound brk = Keeps-bind (Keeps-ask _) (λ code.
      Keeps-branch (succeeded code) (log_com_call-Sound _ _) (
        Keeps-then (log_com_call-Sound _ _) (
          Keeps-bind (Keeps-ask _) (λ object_addr.
            Keeps-bind (Keeps-ask _) (λ vtbl_addr. register_vtable-Sound E L foreign _ _ _ _ _)))))

  coregister_return-Sound :
      (brk : CoregisterReturnBreakpoint) → Sound E L foreign (handle_coregister_return E brk)
  unfolding handle_coregister_return
  coregister_return-Sound brk = Keeps-bind (Keeps-ask _) (λ code.
      Keeps-branch (succeeded code) (log_com_call-Sound _ _) (
        Keeps-then (Keeps-attempt (register_vtable-Sound E L foreign _ _ _ _ _))
          (log_com_call-Sound _ _)))

  cobreakpoint-Sound : (brk : Cobreakpoint) → Sound E L foreign (handle_cobreakpoint E brk)
  unfolding handle_cobreakpoint set_cobreakpoint_return
  cobreakpoint-Sound brk = Keeps-then (call-Sound E L foreign _ (L.resolve_type_name-live _)) (
      Keeps-then
        (Keeps-branch (has_args brk.args && nat_beq brk.callconv cc_stdcall) Keeps-skip (
          Keeps-attempt (
            Keeps-bind (Keeps-ask _)
              (λ frame. Keeps-then (set_breakpoint-IsSound E L foreign _ _) Keeps-skip))))
        (Keeps-pure _))

  cobreakpoint_return-Sound :
      (brk : CobreakpointReturn) → Sound E L foreign (handle_cobreakpoint_return E brk)
  unfolding handle_cobreakpoint_return
  cobreakpoint_return-Sound brk =
      Keeps-then (call-Sound E L foreign _ (L.resolve_type_name-live _)) (Keeps-pure _)

  dll_get_class_object-Sound :
      (name : Text) → Sound E L foreign (handle_dll_get_class_object E name)
  unfolding handle_dll_get_class_object
  dll_get_class_object-Sound name = Keeps-bind (Keeps-ask _) (λ frame.
      Keeps-bind (Keeps-ask _) (λ clsid. Keeps-bind (Keeps-gets _) (λ fltr.
        Keeps-branch (is_clsid_allowed fltr clsid) Keeps-skip (
          Keeps-bind (Keeps-ask _)
            (λ iid. Keeps-attempt (set_breakpoint-IsSound E L foreign _ _))))))

  co_register_class_object-Sound :
      (name : Text) → Sound E L foreign (handle_co_register_class_object E name)
  unfolding handle_co_register_class_object
  co_register_class_object-Sound name = Keeps-bind (Keeps-ask _) (λ frame.
      Keeps-bind (Keeps-ask _) (λ clsid. Keeps-bind (Keeps-gets _) (λ fltr.
        Keeps-branch (is_clsid_allowed fltr clsid) Keeps-skip (
          Keeps-bind (Keeps-ask _)
            (λ vtbl. Keeps-attempt (set_breakpoint-IsSound E L foreign _ _))))))

  query_interface-Sound : (clsid : Guid) → Sound E L foreign (handle_query_interface E clsid)
  unfolding handle_query_interface
  query_interface-Sound clsid = Keeps-bind (Keeps-ask _) (λ frame. Keeps-bind (Keeps-ask _) (λ iid.
      Keeps-bind (Keeps-gets _) (λ found.
        Keeps-option found (Keeps-attempt (set_breakpoint-IsSound E L foreign _ _))
          (λ addr. Keeps-skip))))

  create_instance-Sound : (clsid : Guid) → Sound E L foreign (handle_create_instance E clsid)
  unfolding handle_create_instance
  create_instance-Sound clsid = Keeps-bind (Keeps-ask _) (λ frame.
      Keeps-bind (Keeps-ask _) (λ iid. Keeps-attempt (set_breakpoint-IsSound E L foreign _ _)))

  handled-Sound : {m : M World (Unit {0})} → Sound E L foreign m → Sound E L foreign (handled E m)
  unfolding handled
  handled-Sound km = Keeps-then (Keeps-attempt km) (Keeps-pure _)

  handle_function-Sound : (name : Text) → Sound E L foreign (handle_function E name)
  unfolding handle_function
  handle_function-Sound name =
      Keeps-branch (ends_with (codes "!CoRegisterClassObject") name)
        (Keeps-branch (ends_with (codes "!DllGetClassObject") name) (Keeps-pure _)
          (handled-Sound (dll_get_class_object-Sound name)))
        (handled-Sound (co_register_class_object-Sound name))

  handle_method-Sound : (brk : Cobreakpoint) → Sound E L foreign (handle_method E brk)
  unfolding handle_method
  handle_method-Sound brk =
      Keeps-branch (brk.method_name == codes "QueryInterface")
        (Keeps-branch (brk.iid == iid_iclassfactory && brk.method_name == codes "CreateInstance")
          (cobreakpoint-Sound brk) (handled-Sound (create_instance-Sound brk.clsid)))
        (handled-Sound (query_interface-Sound brk.clsid))

  dispatch-Sound : (brk : Breakpoint) → Sound E L foreign (dispatch E brk)
  unfolding dispatch
  dispatch-Sound (coquery_single_return_breakpoint b) = handled-Sound (coquery_return-Sound b)
  dispatch-Sound (coregister_return_breakpoint b) = handled-Sound (coregister_return-Sound b)
  dispatch-Sound (function_breakpoint name) = handle_function-Sound name
  dispatch-Sound (cobreakpoint b) = handle_method-Sound b
  dispatch-Sound (cobreakpoint_return b) = cobreakpoint_return-Sound b

  onetime_branch :
      (once : Bool) (i : ℕ) (d : BreakpointData) (s : State World)
      → find i s.monitor.breakpoints ≡ some d
      → IsSound E L foreign s
      → IsSound E L foreign
          ((elim once as (λ x. M World (Unit {0})) [
            | false ↦ skip
            | true ↦ attempt (unset_breakpoint E i d)
          ])
            s).0
  unfolding attempt skip
  onetime_branch true i d s at v = unset_breakpoint-IsSound E L foreign i d s at v
  onetime_branch false i d s at v = v

  stands_branch :
      (stands : Bool) (m : M World (Unit {0})) (s : State World)
      → IsSound E L foreign s
      → IsSound E L foreign (m s).0
      → IsSound E L foreign
          ((elim stands as (λ x. M World (Unit {0})) [ false ↦ throw invalid_iterator | true ↦ m ])
            s).0
  unfolding throw
  stands_branch true m s v w = w
  stands_branch false m s v w = v

  onetime-IsSound :
      (i : ℕ) (found_brk : BreakpointData) (s : State World)
      → IsSound E L foreign s
      → IsSound E L foreign (unset_onetime E i found_brk s).0
  unfolding unset_onetime gets ◌>>=◌ continue throw
  onetime-IsSound i b s v = elim (Option-cases (find i s.monitor.breakpoints)) [
    | inl gone ↦ rw (gone, unset_onetime) v
    | inr (d, at) ↦
        rw (at, unset_onetime)
          (stands_branch (nat_beq (alternative d.brk) (alternative b.brk)) _ s v
            (onetime_branch (is_onetime_breakpoint d.brk) i d s at v))
  ]

  -- `handle_breakpoint` keeps the maps in step, whichever breakpoint was hit and whatever its handler
  -- did to the maps.
  pub handle_breakpoint-Sound : (i : ℕ) → Sound E L foreign (handle_breakpoint E i)
  unfolding handle_breakpoint
  handle_breakpoint-Sound i = Keeps-bind (Keeps-gets _) (λ found.
      Keeps-option found (Keeps-pure _) (λ d.
        Keeps-bind (dispatch-Sound d.brk)
          (λ result. Keeps-then (record { after = onetime-IsSound i d }) (Keeps-pure _))))
