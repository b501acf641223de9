-- ===== src/Session/Extension.antt =====
-- comon/ext.cpp and comon/dbgsession.h: the entry points of the extension, and the events that a session
-- asks the engine for.
use Prim.Native.Nat.{bit_or}
use comon.Base.{ℕ, ◌+◌, ◌*◌, ◌%◌, ◌^◌}
use comon.Base.Result.{Result, ok}
use comon.Engine.{Engine}
use comon.Session.{Session, Debugger, detach}

-- `DEBUG_EVENT_BREAKPOINT`, `DEBUG_EVENT_EXIT_PROCESS`, `DEBUG_EVENT_LOAD_MODULE`,
-- `DEBUG_EVENT_UNLOAD_MODULE`, `DEBUG_EVENT_CHANGE_ENGINE_STATE`
abbrev pub event_breakpoint : ℕ
event_breakpoint = 0x1

abbrev pub event_exit_process : ℕ
event_exit_process = 0x20

abbrev pub event_load_module : ℕ
event_load_module = 0x40

abbrev pub event_unload_module : ℕ
event_unload_module = 0x80

abbrev pub event_change_engine_state : ℕ
event_change_engine_state = 0x800

unfoldable pub get_interest_mask : ℕ
get_interest_mask = bit_or event_exit_process (
    bit_or event_breakpoint
      (bit_or event_load_module (bit_or event_unload_module event_change_engine_state)))

-- `DEBUG_EXTENSION_VERSION(Major, Minor)`, and no flags; the numbers come from the build
unfoldable pub debug_extension_initialize : ℕ → ℕ → Result (ℕ × ℕ)
debug_extension_initialize major minor = ok (major % 2 ^ 16 * 2 ^ 16 + minor % 2 ^ 16, 0)

module _ (E : Engine) (D : Debugger E) where
  open E use {World}

  unfoldable pub debug_extension_notify : ℕ → ℕ → Session World → Session World
  debug_extension_notify notify argument s = s

  unfoldable pub debug_extension_uninitialize : Session World → Session World
  unfolding detach
  debug_extension_uninitialize s = detach E D s
