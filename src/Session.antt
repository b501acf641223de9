-- ===== src/Session.antt =====
-- comon/dbgsession.h and comon/dbgsession.cpp: the class `dbgsession`, which keeps a monitor for each
-- process and passes the engine's events on to the monitor of the current one.
pub mod Commands
pub mod Routing
pub mod Metadata
pub mod Composed
pub mod Soundness
pub mod Status
pub mod Extension
pub mod Restored
use comon.Base.{
  ℕ, ◌%◌, ◌^◌, Bool, true, false, not, Option, none, some, List, [], ◌∷◌, nat_beq, nat_eq, find,
  erase, insert, assign, Text,
}
use comon.Base.Result.{Result, ok, err}
use comon.Engine.{Engine}
use comon.Ext.Filter.{Cofilter}
use comon.Monitor.Types.{Monitor, DebuggeeType, live, memory_dump, time_travel, unknown}
use comon.Monitor.Monad.{State, M}
use comon.Monitor.Breakpoints.{handle_breakpoint_removed}
use comon.Monitor.Handlers.{handle_breakpoint}
use comon.Monitor.Modules.{handle_module_load, handle_module_unload, new_monitor, start, stop}

-- `DEBUG_STATUS_NO_CHANGE`, `DEBUG_STATUS_GO`, `DEBUG_CES_BREAKPOINTS`
abbrev pub status_no_change : ℕ
status_no_change = 0

abbrev pub status_go : ℕ
status_go = 1

abbrev pub ces_breakpoints : ℕ
ces_breakpoints = 4

-- `DEBUG_CLASS_USER_WINDOWS`, and its qualifiers for a live process (local or behind a process
-- server), for dumps (small and default) and for a trace
unfoldable pub get_debuggee_type : Result (ℕ × ℕ) → DebuggeeType
get_debuggee_type (err hr) = unknown
get_debuggee_type (ok (dbgclass, qualifier)) = elim (nat_beq dbgclass 2) [
  | false ↦ unknown
  | true ↦ elim (nat_beq qualifier 0) [
    | true ↦ live
    | false ↦ elim (nat_beq qualifier 1) [
      | true ↦ live
      | false ↦ elim (nat_beq qualifier 1024) [
        | true ↦ memory_dump
        | false ↦ elim (nat_beq qualifier 1025) [
          | true ↦ memory_dump
          | false ↦ elim (nat_beq qualifier 2) [ true ↦ time_travel | false ↦ unknown ]
        ]
      ]
    ]
  ]
]

pub record Session (W : Type 0) : Type 0 where
  pub world : W
  pub monitors : List (ℕ × Monitor)

-- What else the session asks of the engine, and the file name without its extension of
-- `std::filesystem::path`.
pub record Debugger (E : Engine) : Type 0 where
  pub current_process_id : E.World → ℕ
  pub query_debuggee_type : E.World → Result (ℕ × ℕ)
  pub get_radix : E.World → Result ℕ
  pub stem : Text → Text

module _ (E : Engine) (D : Debugger E) where
  open E use {World, Handle, get_id, get_breakpoint_by_id}
  open D use {current_process_id, query_debuggee_type, stem}

  abbrev pub active : Session World → ℕ
  active s = current_process_id s.world

  -- calls a method of the monitor of a process; `none` if there is no such monitor
  unfoldable pub on_monitor :
      {A : Type 0} → ℕ → M World A → Session World → Session World × Option (Result A)
  on_monitor pid method s = elim (find pid s.monitors) [
    | none ↦ (s, none)
    | some m ↦
        let (s', r) = method (record { world = s.world; monitor = m }) in
        (record { world = s'.world; monitors = assign pid s'.monitor s.monitors }, some r)
  ]

  unfoldable pub find_active_monitor : Session World → Option Monitor
  find_active_monitor s = find (active s) s.monitors

  unfoldable pub attach : Cofilter → Session World → Session World
  attach fltr s =
      let pid = active s in
      elim (find pid s.monitors) [
        | some m ↦ s
        | none ↦
            let (s', _) = start E (record {
              world = s.world;
              monitor = new_monitor pid (get_debuggee_type (query_debuggee_type s.world)) fltr;
            }) in
            record { world = s'.world; monitors = insert pid s'.monitor s.monitors }
      ]

  -- the destructor of the monitor runs
  unfoldable pub detach : Session World → Session World
  detach s =
      let pid = active s in
      elim (find pid s.monitors) [
        | none ↦ s
        | some m ↦
            let (s', _) = stop E (record { world = s.world; monitor = m }) in
            record { world = s'.world; monitors = erase pid s.monitors }
      ]

  -- `? DEBUG_STATUS_GO : DEBUG_STATUS_NO_CHANGE`
  unfoldable pub status_of : Option (Result Bool) → ℕ
  status_of (some (ok true)) = status_go
  status_of _ = status_no_change

  unfoldable pub breakpoint_event : Handle → Session World → Session World × ℕ
  breakpoint_event bp s = elim (get_id bp s.world) [
    | err hr ↦ (s, status_no_change)
    | ok id ↦ let (s', r) = on_monitor (active s) (handle_breakpoint E id) s in (s', status_of r)
  ]

  -- the loop over `_monitors`
  unfoldable pub notify_removed : ℕ → World → List (ℕ × Monitor) → World × List (ℕ × Monitor)
  notify_removed brk_id w [] = (w, [])
  notify_removed brk_id w ((pid, m) ∷ ms) =
      let (s, _) = handle_breakpoint_removed E brk_id (record { world = w; monitor = m }) in
      let (w', ms') = notify_removed brk_id s.world ms in (w', (pid, s.monitor) ∷ ms')

  unfoldable pub change_engine_state : ℕ → ℕ → Session World → Session World × ℕ
  change_engine_state flags argument s = elim (nat_beq flags ces_breakpoints) [
    | false ↦ (s, status_no_change)
    | true ↦
        let brk_id : ℕ = argument % 2 ^ 32 in
        elim (get_breakpoint_by_id brk_id s.world) [
          | ok bp ↦ (s, status_no_change)
          | err hr ↦
              let (w, ms) = notify_removed brk_id s.world s.monitors in
              (record { world = w; monitors = ms }, status_no_change)
        ]
  ]

  -- the name of a module: its own, or that of its image; a null pointer is `none`
  unfoldable pub module_name_of : Option Text → Option Text → Text
  module_name_of (some (c ∷ name)) image_name = c ∷ name
  module_name_of _ none = []
  module_name_of _ (some image) = stem image

  unfoldable pub load_module_event :
      ℕ → Option Text → Option Text → ℕ → Session World → Session World × ℕ
  load_module_event base_offset module_name image_name timestamp s =
      elim (module_name_of module_name image_name) [
        | [] ↦ (s, status_no_change)
        | c ∷ name ↦
            let (s', _) =
              on_monitor (active s) (handle_module_load E (c ∷ name) timestamp base_offset) s in
            (s', status_no_change)
      ]

  unfoldable pub unload_module_event : ℕ → Session World → Session World × ℕ
  unload_module_event image_base_addr s =
      let (s', _) = on_monitor (active s) (handle_module_unload E image_base_addr) s in
      (s', status_no_change)

  unfoldable pub exit_process_event : Session World → Session World × ℕ
  exit_process_event s = (detach s, status_no_change)
