-- ===== src/Monitor/Soundness/Events.antt =====
-- comon/comonitor.h: every event that the session passes on to a monitor, and every command that it
-- calls, keeps the maps of breakpoints in step; so all states that are reached from a new monitor
-- have them in step.
use comon.Base.{ℕ, ◌≡◌, refl, Bool, true, false, List, [], ◌∷◌, Text, nat_eq, nat_beq, arith, find}
use comon.Guid.{Guid}
use comon.Engine.{Engine, EngineLaws, Covtable, ModuleParameters}
use comon.Ext.Filter.{Cofilter, is_clsid_allowed}
use comon.Monitor.Types.{DebuggeeType, CobreakpointBehavior}
use comon.Monitor.Monad.{
  State, modify, Keeps-bind, Keeps-then, Keeps-ask, Keeps-gets, Keeps-attempt, Keeps-skip,
  Keeps-branch,
}
use comon.Monitor.Breakpoints.{handle_breakpoint_removed}
use comon.Monitor.Breakpoints.Sound.{IsSound, Alone}
use comon.Monitor.Breakpoints.Invariant.{set_breakpoint-IsSound}
use comon.Monitor.Breakpoints.Removal.{handle_breakpoint_removed_lem}
use comon.Monitor.Vtables.{register_vtable, pause, resume, create_cobreakpoint}
use comon.Monitor.Handlers.{handle_breakpoint}
use comon.Monitor.Modules.{
  breaks, functions_to_monitor, load_vtable, load_vtables, break_on_function, break_on_functions,
  handle_module_load, unset_module, handle_module_unload, load_module, load_modules, new_monitor,
  start, stop,
}
use comon.Monitor.Soundness.{
  Sound, modify-Sound, loop-Sound, get_module_info-Sound, break_on_method-Sound,
  register_vtable-Sound, pause-Sound, resume-Sound, create_cobreakpoint-Sound,
}
use comon.Monitor.Soundness.Handlers.{handle_breakpoint-Sound}

module _ (E : Engine) (L : EngineLaws E) (foreign : ℕ → Type 0) where
  open E use {World}

  load_vtable-Sound :
      (fltr : Cofilter) (dbgtype : DebuggeeType) (base : ℕ) (v : Covtable)
      → Sound E L foreign (load_vtable E fltr dbgtype base v)
  unfolding load_vtable
  load_vtable-Sound fltr dbgtype base v = Keeps-branch (is_clsid_allowed fltr v.clsid) Keeps-skip (
      Keeps-then
        (Keeps-branch (breaks dbgtype) Keeps-skip
          (Keeps-attempt (break_on_method-Sound E L foreign _ _ _ _)))
        (modify-Sound E L foreign _ (λ m. refl) (λ m. refl)))

  load_vtables-Sound :
      (fltr : Cofilter) (dbgtype : DebuggeeType) (base : ℕ) (vs : List Covtable)
      → Sound E L foreign (load_vtables E fltr dbgtype base vs)
  unfolding load_vtables
  load_vtables-Sound fltr dbgtype base [] = Keeps-skip
  load_vtables-Sound fltr dbgtype base (v ∷ vs) =
      Keeps-then (load_vtable-Sound fltr dbgtype base v) (load_vtables-Sound fltr dbgtype base vs)

  break_on_functions-Sound :
      (name : Text) (base : ℕ) (fs : List Text)
      → Sound E L foreign (break_on_functions E name base fs)
  unfolding break_on_functions break_on_function
  break_on_functions-Sound name base [] = Keeps-skip
  break_on_functions-Sound name base (f ∷ fs) =
      Keeps-then
        (Keeps-attempt (
          Keeps-bind (Keeps-gets _)
            (λ t. Keeps-bind (Keeps-ask _) (λ a. set_breakpoint-IsSound E L foreign _ a))))
        (break_on_functions-Sound name base fs)

  pub handle_module_load-Sound :
      (name : Text) (timestamp base : ℕ)
      → Sound E L foreign (handle_module_load E name timestamp base)
  unfolding handle_module_load
  handle_module_load-Sound name timestamp base = Keeps-bind (Keeps-gets _) (λ fltr.
      Keeps-bind (Keeps-gets _) (λ dbgtype. Keeps-bind (Keeps-ask _) (λ vtables.
        Keeps-then (load_vtables-Sound fltr dbgtype base vtables) (
          Keeps-branch (breaks dbgtype) Keeps-skip
            (break_on_functions-Sound name base (functions_to_monitor name))))))

  pub handle_module_unload-Sound : (base : ℕ) → Sound E L foreign (handle_module_unload E base)
  unfolding handle_module_unload unset_module
  handle_module_unload-Sound base = Keeps-bind (get_module_info-Sound E L foreign base) (λ mi.
      Keeps-then (modify-Sound E L foreign _ (λ m. refl) (λ m. refl))
        (record { after = λ s v. loop-Sound E L foreign _ s v }))

  load_modules-Sound : (ms : List ModuleParameters) → Sound E L foreign (load_modules E ms)
  unfolding load_modules load_module
  load_modules-Sound [] = Keeps-skip
  load_modules-Sound (m ∷ ms) =
      Keeps-then
        (Keeps-attempt (Keeps-bind (Keeps-ask _) (λ name. handle_module_load-Sound name _ _)))
        (load_modules-Sound ms)

  pub start-Sound : Sound E L foreign (start E)
  unfolding start
  start-Sound = Keeps-bind (Keeps-ask _) (λ count. Keeps-bind (Keeps-ask _) load_modules-Sound)

  -- the destructor
  pub stop-Sound : Sound E L foreign (stop E)
  unfolding stop modify
  stop-Sound = record {
    after = λ s v.
        (modify-Sound E L foreign (λ m. record m { cotype_with_vtables = [] }) (λ m. refl)
            (λ m. refl)).after
          _ (loop-Sound E L foreign _ s v);
  }

module _ (E : Engine) (L : EngineLaws E) where
  open E use {World}

  -- A state of a monitor that its constructor and any sequence of events and commands lead to.
  pub data IsReachable : State World → Type 0 where
    started :
        (w : World) (pid : ℕ) (dbgtype : DebuggeeType) (fltr : Cofilter)
        → IsReachable (start E (record { world = w; monitor = new_monitor pid dbgtype fltr })).0
    hit_breakpoint :
        (s : State World) (i : ℕ) → IsReachable s → IsReachable (handle_breakpoint E i s).0
    -- the user removes a breakpoint, and the engine tells the session
    removed_breakpoint :
        (s : State World) (i : ℕ) (w : World)
        → ((j : ℕ) → nat_beq j i ≡ false → L.live s.world j ≡ true → L.live w j ≡ true)
        → IsReachable s
        → IsReachable (handle_breakpoint_removed E i (record s { world = w })).0
    -- the debuggee runs, and the user works with the debugger
    went_on :
        (s : State World) (w : World)
        → ((j : ℕ) → L.live s.world j ≡ true → L.live w j ≡ true)
        → IsReachable s
        → IsReachable (record s { world = w })
    loaded_module :
        (s : State World) (name : Text) (timestamp base : ℕ)
        → IsReachable s
        → IsReachable (handle_module_load E name timestamp base s).0
    unloaded_module :
        (s : State World) (base : ℕ) → IsReachable s → IsReachable (handle_module_unload E base s).0
    registered_vtable :
        (s : State World) (clsid iid : Guid) (addr : ℕ) (save replace : Bool)
        → IsReachable s
        → IsReachable (register_vtable E clsid iid addr save replace s).0
    created_cobreakpoint :
        (s : State World) (clsid iid : Guid) (n : ℕ) (behavior : CobreakpointBehavior)
        → IsReachable s
        → IsReachable (create_cobreakpoint E clsid iid n behavior s).0
    was_paused : (s : State World) → IsReachable s → IsReachable (pause E s).0
    was_resumed : (s : State World) → IsReachable s → IsReachable (resume E s).0

module _ (E : Engine) (L : EngineLaws E) where
  open E use {World}

  new-IsSound :
      (w : World) (pid : ℕ) (dbgtype : DebuggeeType) (fltr : Cofilter)
      → IsSound E L Alone (record { world = w; monitor = new_monitor pid dbgtype fltr })
  unfolding find
  new-IsSound w pid dbgtype fltr = record {
    linked = record { inverse = λ i a. refl; distinct = tt };
    alive = λ i d at. ground (arith, at);
    apart = λ i f. absurd f;
  }

  -- Whatever sequence of events and commands a monitor went through since its constructor, and
  -- whatever the engine answered, its two maps name the same breakpoints from the identifier and from
  -- the address, and the engine has every breakpoint that is recorded, where breakpoints that the
  -- engine loses by other hands than the monitor's are announced to it at once.
  pub IsReachable-IsSound : (s : State World) → IsReachable E L s → IsSound E L Alone s
  IsReachable-IsSound _ (started w pid dbgtype fltr) =
      (start-Sound E L Alone).after _ (new-IsSound w pid dbgtype fltr)
  IsReachable-IsSound _ (hit_breakpoint s i r) =
      (handle_breakpoint-Sound E L Alone i).after s (IsReachable-IsSound s r)
  IsReachable-IsSound _ (removed_breakpoint s i w stay r) =
      let v = IsReachable-IsSound s r in
      (handle_breakpoint_removed_lem E L Alone i (record s { world = w })
        (record {
          linked = v.linked;
          others = λ j d other at. stay j other (v.alive j d at);
          apart = λ j f. absurd f;
        })).0
  IsReachable-IsSound _ (went_on s w stay r) =
      let v = IsReachable-IsSound s r in
      record {
        linked = v.linked;
        alive = λ j d at. stay j (v.alive j d at);
        apart = λ j f. absurd f;
      }
  IsReachable-IsSound _ (loaded_module s name timestamp base r) =
      (handle_module_load-Sound E L Alone name timestamp base).after s (IsReachable-IsSound s r)
  IsReachable-IsSound _ (unloaded_module s base r) =
      (handle_module_unload-Sound E L Alone base).after s (IsReachable-IsSound s r)
  IsReachable-IsSound _ (registered_vtable s clsid iid addr save replace r) =
      (register_vtable-Sound E L Alone clsid iid addr save replace).after s
        (IsReachable-IsSound s r)
  IsReachable-IsSound _ (created_cobreakpoint s clsid iid n behavior r) =
      (create_cobreakpoint-Sound E L Alone clsid iid n behavior).after s (IsReachable-IsSound s r)
  IsReachable-IsSound _ (was_paused s r) = (pause-Sound E L Alone).after s (IsReachable-IsSound s r)
  IsReachable-IsSound _ (was_resumed s r) =
      (resume-Sound E L Alone).after s (IsReachable-IsSound s r)
