-- ===== src/Monitor/Types.antt =====
-- comon/comonitor.h: the data of the class `comonitor`.
use comon.Base.{ℕ, Bool, true, false, List, Option, Text}
use comon.Guid.{Guid}
use comon.Engine.{ComethodArg}
use comon.Ext.Filter.{Cofilter}

pub data DebuggeeType : Type 0 where
  time_travel live memory_dump unknown : DebuggeeType

pub data CobreakpointBehavior : Type 0 where
  stop_before_call stop_after_call always_stop never_stop : CobreakpointBehavior

pub record CoquerySingleReturnBreakpoint : Type 0 where
  pub clsid : Guid
  pub iid : Guid
  pub object_address_address : ℕ
  pub create_function_name : Text

pub record CoregisterReturnBreakpoint : Type 0 where
  pub clsid : Guid
  pub iid : Guid
  pub vtbl_address : ℕ
  pub register_function_name : Text

pub record Cobreakpoint : Type 0 where
  pub clsid : Guid
  pub iid : Guid
  pub method_name : Text
  pub callconv : ℕ
  pub return_type : Text
  pub args : List ComethodArg
  pub behavior : CobreakpointBehavior

pub record CobreakpointReturn : Type 0 where
  pub clsid : Guid
  pub iid : Guid
  pub method_name : Text
  pub return_type : Text
  pub out_args : List ComethodArg
  pub out_arg_values : List (Text × ℕ)
  pub should_stop : Bool

pub data Breakpoint : Type 0 where
  function_breakpoint : Text → Breakpoint
  coquery_single_return_breakpoint : CoquerySingleReturnBreakpoint → Breakpoint
  coregister_return_breakpoint : CoregisterReturnBreakpoint → Breakpoint
  cobreakpoint : Cobreakpoint → Breakpoint
  cobreakpoint_return : CobreakpointReturn → Breakpoint

pub record MemoryProtect : Type 0 where
  pub old_protect : ℕ
  pub new_protect : ℕ

pub record BreakpointData : Type 0 where
  pub brk : Breakpoint
  pub addr : ℕ
  pub mem_protect : Option MemoryProtect

pub record ModuleInfo : Type 0 where
  pub name : Text
  pub timestamp : ℕ
  pub size : ℕ

pub record Monitor : Type 0 where
  pub process_id : ℕ
  pub dbgtype : DebuggeeType
  pub filter : Cofilter
  pub is_paused : Bool
  pub breakpoints : List (ℕ × BreakpointData)
  pub breakpoint_addresses : List (ℕ × ℕ)
  pub cotype_with_vtables : List ((Guid × Guid) × ℕ)

-- `breakpoint::index`, the alternative of the variant
abbrev pub alternative : Breakpoint → ℕ
alternative (function_breakpoint name) = 0
alternative (coquery_single_return_breakpoint b) = 1
alternative (coregister_return_breakpoint b) = 2
alternative (cobreakpoint b) = 3
alternative (cobreakpoint_return b) = 4

unfoldable pub is_onetime_breakpoint : Breakpoint → Bool
is_onetime_breakpoint (function_breakpoint name) = false
is_onetime_breakpoint (coquery_single_return_breakpoint b) = true
is_onetime_breakpoint (coregister_return_breakpoint b) = true
is_onetime_breakpoint (cobreakpoint b) = false
is_onetime_breakpoint (cobreakpoint_return b) = true
