-- ===== src/Tests/Flags.antt =====
-- comon/comonitor.cpp, `pause` and `resume`, over an engine that keeps the flags of its breakpoints.
use comon.Base.{
  ℕ, suc, ◌<◌, ◌≡◌, refl, ap, sym, ◌+◌, true, false, none, [], arith, nat_beq, nat_eq, ltb, find,
}
use comon.Base.Bits.{bit}
use comon.Base.Result.{ok}
use comon.Engine.{Engine, EngineLaws}
use comon.Monitor.Monad.{State}
use comon.Monitor.Breakpoints.Sound.{IsSound, Alone}
use comon.Monitor.Vtables.{pause, resume}
use comon.Monitor.Pausing.Switched.{FlagLaws, is_switched}
use comon.Monitor.Pausing.{pause-resume}
use comon.Tests.Debuggee.{small_engine, placed}

abbrev set_one : ℕ → ℕ → (ℕ → ℕ) → ℕ → ℕ
set_one i f flags j = elim (nat_beq i j) [ true ↦ f | false ↦ flags j ]

abbrev flag_engine : Engine
flag_engine = record {
  World = ℕ × (ℕ → ℕ);
  Handle = ℕ;
  add_breakpoint = λ w. ((suc w.0, set_one w.0 0 w.1), ok w.0);
  set_offset = λ h a w. (w, ok tt);
  set_command = λ h w. w;
  get_id = λ h w. ok h;
  get_flags = λ h w. ok (w.1 h);
  set_flags = λ h f w. ((w.0, set_one h f w.1), ok tt);
  add_flags = λ h f w. (w, ok tt);
  get_breakpoint_by_id = λ i w. ok i;
  remove_breakpoint = λ h w. (w, ok tt);
  virtual_query = λ a w. small_engine.virtual_query a w.0;
  virtual_protect = λ a p w. (w, ok 2);
  get_module_by_offset = λ a w. small_engine.get_module_by_offset a w.0;
  get_number_modules = λ w. ok 1;
  get_loaded_module_parameters = λ n w. small_engine.get_loaded_module_parameters n w.0;
  get_module_parameters = λ a w. small_engine.get_module_parameters a w.0;
  get_module_name = λ a w. small_engine.get_module_name a w.0;
  arch = small_engine.arch;
  get_value = λ r w. ok 0;
  get_values = λ rs w. ok rs;
  read_pointers_virtual = λ a w. ok (a + 64);
  get_type_methods = λ g w. (w, none);
  get_type_method_args = λ m w. (w, none);
  get_module_vtables = λ m w. [];
  save_module_vtable = λ m v w. w;
  resolve_class_name = λ g w. (w, none);
  resolve_type_name = λ g w. (w, none);
  read_export_directory = λ base w. ok 0;
  read_export_table = λ a w. small_engine.read_export_table a w.0;
  read_virtual = λ a n w. ok [];
  get_offset_by_name = λ t w. ok 32;
}

abbrev flag_engine_laws : EngineLaws flag_engine
flag_engine_laws = record {
  live = λ w i. ltb i w.0;
  ident = λ h. h;
  get_id-ident = λ h w i e. ground (arith, e);
  get_breakpoint_by_id-ident = λ i w h e. ground (arith, e);
  add_fresh = λ w h e. ground (arith, e);
  add_new = λ w h e. ground (arith, e);
  add_keeps = λ w i e. ground (arith, e);
  remove_keeps = λ h w i other e. e;
  set_offset-live = λ h a w i. refl;
  set_command-live = λ h w i. refl;
  set_flags-live = λ h f w i. refl;
  add_flags-live = λ h f w i. refl;
  virtual_protect-live = λ a p w i. refl;
  get_type_methods-live = λ g w i. refl;
  get_type_method_args-live = λ m w i. refl;
  save_module_vtable-live = λ m v w i. refl;
  resolve_class_name-live = λ g w i. refl;
  resolve_type_name-live = λ g w i. refl;
}

abbrev flag_laws : FlagLaws flag_engine flag_engine_laws
flag_laws = record {
  flags_of = λ w. w.1;
  found = λ i w alive. (i, refl);
  read = λ i w h e. let same : i ≡ h = ground (arith, e) in ap (λ (k : ℕ). ok (w.1 k)) (sym same);
  written = λ i w h f e.
      let same : i ≡ h = ground (arith, e) in
      (refl, λ j. ap (λ (k : ℕ). set_one k f w.1 j) (sym same));
}

-- breakpoint 0, which is enabled
abbrev running : State flag_engine.World
running = record { world = (1, λ i. 4); monitor = placed.monitor }

running-IsSound : IsSound flag_engine flag_engine_laws Alone running
unfolding find
running-IsSound = record {
  linked = record { inverse = λ i a. ground arith; distinct = (refl, tt) };
  alive = λ i d at. ground (arith, at);
  apart = λ i f. absurd f;
}

pause-resume_example :
    (t : State flag_engine.World) × (u : State flag_engine.World) × (pause flag_engine running
      ≡ (t, ok tt))
    × (resume flag_engine t ≡ (u, ok tt))
    × ((i : ℕ) → is_switched (find i running.monitor.breakpoints) ≡ true → bit 2 (t.world.1 i) ≡ 0)
    × ((i : ℕ) → is_switched (find i running.monitor.breakpoints) ≡ false → t.world.1 i ≡ 4)
    × ((i n : ℕ) → n < 32 → bit n (u.world.1 i) ≡ bit n 4)
    × (t.monitor ≡ record running.monitor { is_paused = true })
    × (u.monitor ≡ record running.monitor { is_paused = false })
pause-resume_example =
    pause-resume flag_engine flag_engine_laws flag_laws running running-IsSound (λ i switched. refl)
