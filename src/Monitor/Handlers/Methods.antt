-- ===== src/Monitor/Handlers/Methods.antt =====
-- comon/comonitor_com_breakpoints.cpp: the handlers of the returns from functions and of the breakpoints
-- on methods that the user sets.
use Prim.Native.Nat.{bit_and}
use comon.Base.{
  ℕ, ◌%◌, ◌^◌, Bool, true, false, not, ◌&&◌, List, [], ◌∷◌, map, nat_beq, ltb, nat_eq, pair_eq,
  list_eq, Text, codes,
}
use comon.Guid.{Guid}
use comon.Engine.{Engine, ComethodArg}
use comon.Monitor.Types.{
  Cobreakpoint, CobreakpointReturn, CobreakpointBehavior, CoquerySingleReturnBreakpoint,
  CoregisterReturnBreakpoint, stop_before_call, stop_after_call, always_stop, never_stop,
  cobreakpoint_return,
}
use comon.Monitor.Monad.{M, ◌>>=◌, ◌>>◌, pure, ask, attempt, call, skip}
use comon.Monitor.Breakpoints.{set_breakpoint}
use comon.Arch.{cc_stdcall}
use comon.CallContext.{read_pointer, read_method_frame, read_method_return_code}
use comon.Monitor.Vtables.{register_vtable}

-- `SUCCEEDED(value)`: the low 32 bits are no negative number
abbrev pub succeeded : ℕ → Bool
succeeded value = ltb (value % 2 ^ 32) (2 ^ 31)

-- `flags & (IDLFLAG_FOUT | IDLFLAG_FRETVAL)`
abbrev pub is_out : ComethodArg → Bool
is_out arg = not (nat_beq (bit_and arg.flags 0xa) 0)

-- the out parameters, and the types and values that they were read with
unfoldable pub out_params : List ComethodArg → List ℕ → List (ComethodArg × (Text × ℕ))
out_params (arg ∷ args) (v ∷ vs) =
    let rest = out_params args vs in
    elim (is_out arg) [ true ↦ (arg, (arg.type_name, v)) ∷ rest | false ↦ rest ]
out_params _ _ = []

abbrev pub has_args : List ComethodArg → Bool
has_args [] = false
has_args (a ∷ args) = true

abbrev pub stops_before : CobreakpointBehavior → Bool
stops_before stop_before_call = true
stops_before always_stop = true
stops_before stop_after_call = false
stops_before never_stop = false

abbrev pub stops_after : CobreakpointBehavior → Bool
stops_after stop_before_call = false
stops_after always_stop = true
stops_after stop_after_call = true
stops_after never_stop = false

module _ (E : Engine) where
  open E use {World, resolve_class_name, resolve_type_name}

  -- `log_com_call_success` and `log_com_call_error`, for their effect on the caches of `cometa`
  unfoldable pub log_com_call : Guid → Guid → M World (Unit {0})
  log_com_call clsid iid = do
    call (λ w. (resolve_class_name clsid w).0)
    call (λ w. (resolve_type_name iid w).0)

  unfoldable pub handle_coquery_return : CoquerySingleReturnBreakpoint → M World (Unit {0})
  handle_coquery_return brk = do
    code ← ask (read_method_return_code E (codes "HRESULT"))
    elim (succeeded code) [
      | false ↦ log_com_call brk.clsid brk.iid
      | true ↦ do
        log_com_call brk.clsid brk.iid
        object_addr ← ask (read_pointer E brk.object_address_address)
        vtbl_addr ← ask (read_pointer E object_addr)
        register_vtable E brk.clsid brk.iid vtbl_addr true false
    ]

  -- a failed registration is logged with the null identifier
  unfoldable pub handle_coregister_return : CoregisterReturnBreakpoint → M World (Unit {0})
  handle_coregister_return brk = do
    code ← ask (read_method_return_code E (codes "HRESULT"))
    elim (succeeded code) [
      | false ↦ log_com_call brk.clsid 0
      | true ↦ do
        attempt (register_vtable E brk.clsid brk.iid brk.vtbl_address true false)
        log_com_call brk.clsid brk.iid
    ]

  unfoldable pub set_cobreakpoint_return : Cobreakpoint → M World (Unit {0})
  set_cobreakpoint_return brk = do
    (arg_vals, return_addr) ←
        ask (read_method_frame E brk.callconv (map (λ a. a.type_name) brk.args))
    let outs = out_params brk.args arg_vals
    set_breakpoint E
        (cobreakpoint_return (record {
          clsid = brk.clsid;
          iid = brk.iid;
          method_name = brk.method_name;
          return_type = brk.return_type;
          out_args = map (λ o. o.0) outs;
          out_arg_values = map (λ o. o.1) outs;
          should_stop = stops_after brk.behavior;
        }))
        return_addr
    skip

  -- whether the debuggee goes on
  unfoldable pub handle_cobreakpoint : Cobreakpoint → M World Bool
  handle_cobreakpoint brk = do
    call (λ w. (resolve_type_name brk.iid w).0)
    elim (has_args brk.args && nat_beq brk.callconv cc_stdcall) [
      | false ↦ skip
      | true ↦ attempt (set_cobreakpoint_return brk)
    ]
    pure (not (stops_before brk.behavior))

  unfoldable pub handle_cobreakpoint_return : CobreakpointReturn → M World Bool
  handle_cobreakpoint_return brk = do
    call (λ w. (resolve_type_name brk.iid w).0)
    pure (not brk.should_stop)
