-- ===== src/Monitor/Saving.antt =====
-- comon/comonitor.cpp, `register_vtable`: the table that is saved stays as the metadata has it behind
-- `save_module_vtable`, whatever the engine does while the breakpoints are set.
use comon.Base.{ℕ, sub64, ◌≡◌, refl, Bool, true, none, nat_beq, nat_eq, pair_eq, ◌==◌, find, Text}
use comon.Base.Result.{Result, ok}
use comon.Arch.{pointer_size}
use comon.Guid.{Guid, iid_iclassfactory}
use comon.Engine.{Engine}
use comon.Monitor.Types.{Monitor, Breakpoint, ModuleInfo, DebuggeeType, live}
use comon.Monitor.Monad.{
  State, Keeps, act, ask, call, modify, gets, attempt, ◌>>=◌, continue, Keeps-bind, Keeps-then,
  Keeps-pure, Keeps-throw, Keeps-ask, Keeps-gets, Keeps-attempt, Keeps-skip, Keeps-branch,
  Keeps-option, Triple, Triple-then, Triple-Keeps, keeps_of_post,
}
use comon.Monitor.Breakpoints.{
  set_breakpoint, create_breakpoint, protect_memory, protect_page, mem_commit,
}
use comon.Monitor.Vtables.{
  get_module_info, save_vtable, break_on_method, register_new, register_vtable,
}

module _ (E : Engine) where
  open E use {World}

  -- What setting a breakpoint does in the engine keeps the property.
  pub record Ignores (P : World → Type 0) : Type 0 where
    pub add_breakpoint : (w : World) → P w → P (E.add_breakpoint w).0
    pub set_offset : (h : E.Handle) (a : ℕ) (w : World) → P w → P (E.set_offset h a w).0
    pub set_command : (h : E.Handle) (w : World) → P w → P (E.set_command h w)
    pub add_flags : (h : E.Handle) (f : ℕ) (w : World) → P w → P (E.add_flags h f w).0
    pub virtual_protect : (a p : ℕ) (w : World) → P w → P (E.virtual_protect a p w).0

module _ (E : Engine) (P : E.World → Type 0) (ignores : Ignores E P) where
  open E use {World}

  -- the property of a world in a state
  abbrev OfWorld : State World → Type 0
  OfWorld s = P s.world

  act-OfWorld :
      {A : Type 0} (f : World → World × Result A)
      → ((w : World) → P w → P (f w).0)
      → Keeps OfWorld (act f)
  unfolding act
  act-OfWorld f k = record { after = λ s p. k s.world p }

  call-OfWorld : (f : World → World) → ((w : World) → P w → P (f w)) → Keeps OfWorld (call f)
  unfolding call
  call-OfWorld f k = record { after = λ s p. k s.world p }

  modify-OfWorld : (f : Monitor → Monitor) → Keeps OfWorld (modify f)
  unfolding modify
  modify-OfWorld f = record { after = λ s p. p }

  protect_memory-OfWorld : (t : DebuggeeType) (a : ℕ) → Keeps OfWorld (protect_memory E t a)
  unfolding protect_memory protect_page
  protect_memory-OfWorld live a = Keeps-bind (Keeps-ask _) (λ info.
      Keeps-branch (nat_beq info.state mem_commit) (Keeps-throw _) (
        Keeps-branch _ (Keeps-pure none)
          (Keeps-bind (act-OfWorld _ (ignores.virtual_protect _ _)) (λ old. Keeps-pure _))))
  protect_memory-OfWorld t a = Keeps-pure none

  set_breakpoint-OfWorld : (brk : Breakpoint) (a : ℕ) → Keeps OfWorld (set_breakpoint E brk a)
  unfolding set_breakpoint create_breakpoint
  set_breakpoint-OfWorld brk a = Keeps-bind (Keeps-gets _) (λ found.
      Keeps-option found
        (Keeps-bind (act-OfWorld _ ignores.add_breakpoint) (λ h. Keeps-bind (Keeps-gets _) (λ t.
          Keeps-bind (protect_memory-OfWorld t a) (λ mp.
            Keeps-then (act-OfWorld _ (ignores.set_offset h a)) (
              Keeps-then (call-OfWorld _ (ignores.set_command h)) (
                Keeps-bind (Keeps-ask _) (λ i.
                  Keeps-then (act-OfWorld _ (ignores.add_flags h _))
                    (Keeps-then (modify-OfWorld _) (Keeps-pure i)))))))))
        (λ i. Keeps-then (modify-OfWorld _) (Keeps-pure i)))

  break_on_method-OfWorld :
      (clsid iid : Guid) (name : Text) (slot : ℕ)
      → Keeps OfWorld (break_on_method E clsid iid name slot)
  unfolding break_on_method
  break_on_method-OfWorld clsid iid name slot =
      Keeps-bind (Keeps-ask _) (λ a. set_breakpoint-OfWorld _ a)

  -- the world in which a table of a module has been saved
  abbrev pub saved_world : Guid → Guid → ℕ → ModuleInfo → World → World
  saved_world clsid iid offset mi w =
      E.save_module_vtable
        (record {
          name = mi.name;
          timestamp = mi.timestamp;
          is_64bit = nat_beq (pointer_size E.arch) 8;
        })
        (record { clsid = clsid; iid = iid; address = offset }) w

  save_vtable_lem :
      (clsid iid : Guid) (addr base : ℕ) (mi : ModuleInfo) (s : State World)
      → E.get_module_by_offset addr s.world ≡ ok base
      → get_module_info E base s ≡ (s, ok mi)
      → attempt (save_vtable E clsid iid addr) s
        ≡ (record s { world = saved_world clsid iid (sub64 addr base) mi s.world }, ok tt)
  unfolding save_vtable attempt ask call ◌>>=◌ continue
  save_vtable_lem clsid iid addr base mi s known info = rw (known, info) refl

  save-Triple :
      (clsid iid : Guid) (addr base : ℕ) (mi : ModuleInfo) (s : State World)
      → E.get_module_by_offset addr s.world ≡ ok base
      → get_module_info E base s ≡ (s, ok mi)
      → P (saved_world clsid iid (sub64 addr base) mi s.world)
      → Triple (λ u. s ≡ u) (attempt (save_vtable E clsid iid addr)) (λ _. OfWorld) OfWorld
  save-Triple clsid iid addr base mi s known info p = record {
    after = λ u same. rw (← same) (rw (save_vtable_lem clsid iid addr base mi s known info) p);
  }

  register_new-saved :
      (clsid iid : Guid) (addr base : ℕ) (mi : ModuleInfo) (s : State World)
      → E.get_module_by_offset addr s.world ≡ ok base
      → get_module_info E base s ≡ (s, ok mi)
      → P (saved_world clsid iid (sub64 addr base) mi s.world)
      → P (register_new E clsid iid addr true s).0.world
  unfolding register_new
  register_new-saved clsid iid addr base mi s known info p =
      keeps_of_post OfWorld (register_new E clsid iid addr true s) (
        (Triple-then (save-Triple clsid iid addr base mi s known info p) (
            Triple-Keeps (λ u q. q)
              (Keeps-bind (Keeps-ask _) (λ fn.
                Keeps-then (Keeps-attempt (set_breakpoint-OfWorld _ fn)) (
                  Keeps-then (modify-OfWorld _) (
                    Keeps-branch (iid == iid_iclassfactory) Keeps-skip
                      (Keeps-attempt (break_on_method-OfWorld clsid iid _ _)))))))).after
          s refl)

  -- A new table that is saved with its module: what holds of the world in which it has been saved, and
  -- setting breakpoints keeps, holds behind `register_vtable`, on success and on failure.
  pub register_vtable-saved :
      (clsid iid : Guid) (addr base : ℕ) (replace : Bool) (mi : ModuleInfo) (s : State World)
      → find (clsid, iid) s.monitor.cotype_with_vtables ≡ none
      → E.get_module_by_offset addr s.world ≡ ok base
      → get_module_info E base s ≡ (s, ok mi)
      → P (saved_world clsid iid (sub64 addr base) mi s.world)
      → P (register_vtable E clsid iid addr true replace s).0.world
  unfolding register_vtable gets ◌>>=◌ continue
  register_vtable-saved clsid iid addr base replace mi s gone known info p =
      rw (gone, register_vtable) (register_new-saved clsid iid addr base mi s known info p)
