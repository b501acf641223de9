-- ===== src/Monitor/Soundness.antt =====
-- comon/comonitor.cpp and comonitor_com_breakpoints.cpp: the methods keep the maps of breakpoints
-- in step; the handlers and the events are in child modules.
pub mod Handlers
pub mod Events
use comon.Base.{
  nth, ℕ, ◌≡◌, refl, Bool, true, false, ◌&&◌, not, Option, none, some, List, [], ◌∷◌, ◌==◌, nat_eq,
  list_eq, arith, nat_beq, Text, codes, Equals, ends_with,
}
use comon.Base.Result.{Result, ok, err, e_invalidarg}
use comon.Guid.{Guid, iid_iclassfactory}
use comon.Engine.{Engine, EngineLaws, Covtable, ModuleParameters, Comethod}
use comon.Ext.Filter.{Cofilter, is_clsid_allowed}
use comon.Monitor.Types.{
  Monitor, Breakpoint, BreakpointData, DebuggeeType, Cobreakpoint, CobreakpointReturn,
  CoquerySingleReturnBreakpoint, CoregisterReturnBreakpoint, CobreakpointBehavior,
  is_onetime_breakpoint, function_breakpoint, coquery_single_return_breakpoint,
  coregister_return_breakpoint, cobreakpoint, cobreakpoint_return,
}
use comon.Monitor.Monad.{
  State, M, Keeps, pure, throw, act, ask, gets, attempt, call, modify, skip, ◌>>=◌, ◌>>◌,
  Keeps-bind, Keeps-then, Keeps-pure, Keeps-throw, Keeps-ask, Keeps-gets, Keeps-attempt, Keeps-skip,
  Keeps-branch, Keeps-option,
}
use comon.Monitor.Breakpoints.{unset_breakpoint, unset_where}
use comon.Monitor.Breakpoints.Sound.{IsSound, IsSound-Stable, Keeps-act, Keeps-call}
use comon.Monitor.Breakpoints.Invariant.{set_breakpoint-IsSound}
use comon.Monitor.Breakpoints.Removal.{unset_breakpoint-IsSound}
use comon.Monitor.Breakpoints.Loop.{Listed-self, unset_where-IsSound}
use comon.Monitor.Vtables.{
  get_module_info, save_vtable, break_on_method, register_new, unset_interface, register_vtable,
  modify_breakpoint_flag, switch_breakpoints, pause, resume, break_on_comethod, create_cobreakpoint,
  add_cotype, erase_cotype,
}

module _ (E : Engine) (L : EngineLaws E) (foreign : ℕ → Type 0) where
  open E use {World}

  abbrev pub Sound : {A : Type 0} → M World A → Type 0
  Sound m = Keeps (IsSound E L foreign) m

  pub act-Sound :
      {A : Type 0} (f : World → World × Result A)
      → ((w : World) (i : ℕ) → L.live (f w).0 i ≡ L.live w i)
      → Sound (act f)
  act-Sound f same = Keeps-act E L f (IsSound-Stable E L foreign) same

  pub call-Sound :
      (f : World → World) → ((w : World) (i : ℕ) → L.live (f w) i ≡ L.live w i) → Sound (call f)
  call-Sound f same = Keeps-call E L f (IsSound-Stable E L foreign) same

  -- a change of other fields
  pub modify-Sound :
      (f : Monitor → Monitor)
      → ((m : Monitor) → (f m).breakpoints ≡ m.breakpoints)
      → ((m : Monitor) → (f m).breakpoint_addresses ≡ m.breakpoint_addresses)
      → Sound (modify f)
  unfolding modify
  modify-Sound f same same' = record {
    after = λ s v. record {
      linked = record {
        inverse = λ i a. rw (same s.monitor, same' s.monitor) (v.linked.inverse i a);
        distinct = rw (same s.monitor) v.linked.distinct;
      };
      alive = λ i d. rw (same s.monitor) (v.alive i d);
      apart = λ i f. rw (same s.monitor) (v.apart i f);
    };
  }

  pub loop-Sound :
      (p : BreakpointData → Bool) (s : State World)
      → IsSound E L foreign s
      → IsSound E L foreign (unset_where E p s.monitor.breakpoints s).0
  loop-Sound p s v =
      unset_where-IsSound E L foreign p s.monitor.breakpoints s v.linked.distinct
        (Listed-self s.monitor.breakpoints v.linked.distinct) v

  pub get_module_info-Sound : (base : ℕ) → Sound (get_module_info E base)
  unfolding get_module_info
  get_module_info-Sound base =
      Keeps-bind (Keeps-ask _) (λ m. Keeps-bind (Keeps-ask _) (λ name. Keeps-pure _))

  pub break_on_method-Sound :
      (clsid iid : Guid) (name : Text) (slot : ℕ) → Sound (break_on_method E clsid iid name slot)
  unfolding break_on_method
  break_on_method-Sound clsid iid name slot =
      Keeps-bind (Keeps-ask _) (λ a. set_breakpoint-IsSound E L foreign _ a)

  register_new-Sound :
      (clsid iid : Guid) (addr : ℕ) (save : Bool) → Sound (register_new E clsid iid addr save)
  unfolding register_new save_vtable
  register_new-Sound clsid iid addr save =
      Keeps-then
        (Keeps-branch save Keeps-skip (
          Keeps-attempt (
            Keeps-bind (Keeps-ask _) (λ base.
              Keeps-bind (get_module_info-Sound base)
                (λ mi. call-Sound _ (L.save_module_vtable-live _ _))))))
        (Keeps-bind (Keeps-ask _) (λ fn.
          Keeps-then (Keeps-attempt (set_breakpoint-IsSound E L foreign _ fn)) (
            Keeps-then (modify-Sound _ (λ m. refl) (λ m. refl)) (
              Keeps-branch (iid == iid_iclassfactory) Keeps-skip
                (Keeps-attempt (break_on_method-Sound clsid iid _ _))))))

  -- `register_vtable` keeps the maps in step on every path.
  pub register_vtable-Sound :
      (clsid iid : Guid) (addr : ℕ) (save replace : Bool)
      → Sound (register_vtable E clsid iid addr save replace)
  unfolding register_vtable unset_interface
  register_vtable-Sound clsid iid addr save replace = Keeps-bind (Keeps-gets _) (λ found.
      Keeps-option found (register_new-Sound clsid iid addr save) (λ a.
        Keeps-branch (nat_beq a addr)
          (Keeps-branch replace Keeps-skip (
            Keeps-then (modify-Sound _ (λ m. refl) (λ m. refl)) (
              Keeps-then (record { after = λ s v. loop-Sound _ s v })
                (register_new-Sound clsid iid addr save))))
          Keeps-skip))

  modify_flag-Sound : (i flag : ℕ) (enable : Bool) → Sound (modify_breakpoint_flag E i flag enable)
  unfolding modify_breakpoint_flag
  modify_flag-Sound i flag enable =
      Keeps-bind (Keeps-ask _)
        (λ bp. Keeps-bind (Keeps-ask _) (λ flags. act-Sound _ (L.set_flags-live bp _)))

  switch-Sound :
      (enable : Bool) (m : List (ℕ × BreakpointData)) → Sound (switch_breakpoints E enable m)
  unfolding switch_breakpoints
  switch-Sound enable [] = Keeps-skip
  switch-Sound enable ((i, d) ∷ m) =
      Keeps-then
        (Keeps-branch (is_onetime_breakpoint d.brk) (Keeps-attempt (modify_flag-Sound i 4 enable))
          Keeps-skip)
        (switch-Sound enable m)

  pub pause-Sound : Sound (pause E)
  unfolding pause
  pause-Sound =
      Keeps-bind (Keeps-gets _)
        (λ m. Keeps-then (switch-Sound false m) (modify-Sound _ (λ x. refl) (λ x. refl)))

  pub resume-Sound : Sound (resume E)
  unfolding resume
  resume-Sound =
      Keeps-bind (Keeps-gets _)
        (λ m. Keeps-then (switch-Sound true m) (modify-Sound _ (λ x. refl) (λ x. refl)))

  break_on_comethod-Sound :
      (clsid iid : Guid) (n : ℕ) (b : CobreakpointBehavior) (m : Comethod) (vtable : ℕ)
      → Sound (break_on_comethod E clsid iid n b m vtable)
  unfolding break_on_comethod
  break_on_comethod-Sound clsid iid n b m vtable = Keeps-bind (Keeps-ask _) (λ addr.
      Keeps-bind (act-Sound _ (L.get_type_method_args-live m))
        (λ args. Keeps-then (set_breakpoint-IsSound E L foreign _ addr) Keeps-skip))

  pub create_cobreakpoint-Sound :
      (clsid iid : Guid) (n : ℕ) (b : CobreakpointBehavior)
      → Sound (create_cobreakpoint E clsid iid n b)
  unfolding create_cobreakpoint
  create_cobreakpoint-Sound clsid iid n b =
      Keeps-bind (act-Sound _ (L.get_type_methods-live iid)) (λ methods.
        Keeps-option methods (Keeps-throw _) (λ ms. Keeps-option (nth ms n) (Keeps-throw _) (λ m.
          Keeps-bind (Keeps-gets _) (λ vtable.
            Keeps-option vtable (Keeps-throw _) (break_on_comethod-Sound clsid iid n b m)))))
