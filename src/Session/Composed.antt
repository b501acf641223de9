-- ===== src/Session/Composed.antt =====
-- comon/dbgsession.h: a monitor works with the metadata of its session. The operations of `cometa`
-- that `Engine` leaves open are those of Cometa here, with its object in the world.
use comon.Base.{ℕ, ◌≡◌, refl, ap, Option, none, some, List}
use comon.Guid.{Guid}
use comon.Engine.{Engine, EngineLaws}
use comon.Cometa.Database.{Database}
use comon.Cometa.Queries.{
  Cometa, get_type_methods, get_type_method_args, get_module_vtables, resolve_class_name,
  resolve_type_name,
}
use comon.Cometa.Writing.{save_module_vtable}
use comon.Monitor.Monad.{State}
use comon.Monitor.Breakpoints.Sound.{IsSound, Alone}
use comon.Monitor.Soundness.Events.{IsReachable, IsReachable-IsSound}

module _ (E : Engine) (D : Database) (pick : List Guid → Guid) (fuel : ℕ) where
  abbrev pub Composed : Type 0
  Composed = E.World × Cometa D

  -- an operation of the engine
  abbrev pub engine_call : {A : Type 0} → (E.World → E.World × A) → Composed → Composed × A
  engine_call f (w, c) = let (w', r) = f w in ((w', c), r)

  abbrev pub answered : {A : Type 0} → Composed → Option (Cometa D × Option A) → Composed × Option A
  answered s none = (s, none)
  answered s (some (c, r)) = ((s.0, c), r)

  -- a query of the metadata; where it does not end nothing is answered
  abbrev pub query_call :
      {A : Type 0} → (Cometa D → Option (Cometa D × Option A)) → Composed → Composed × Option A
  query_call q s = answered s (q s.1)

  unfoldable pub with_metadata : Engine
  with_metadata = record {
    World = Composed;
    Handle = E.Handle;
    add_breakpoint = engine_call E.add_breakpoint;
    set_offset = λ h a. engine_call (E.set_offset h a);
    set_command = λ h s. (E.set_command h s.0, s.1);
    get_id = λ h s. E.get_id h s.0;
    get_flags = λ h s. E.get_flags h s.0;
    set_flags = λ h f. engine_call (E.set_flags h f);
    add_flags = λ h f. engine_call (E.add_flags h f);
    get_breakpoint_by_id = λ i s. E.get_breakpoint_by_id i s.0;
    remove_breakpoint = λ h. engine_call (E.remove_breakpoint h);
    virtual_query = λ a s. E.virtual_query a s.0;
    virtual_protect = λ a p. engine_call (E.virtual_protect a p);
    get_module_by_offset = λ a s. E.get_module_by_offset a s.0;
    get_number_modules = λ s. E.get_number_modules s.0;
    get_loaded_module_parameters = λ n s. E.get_loaded_module_parameters n s.0;
    get_module_parameters = λ a s. E.get_module_parameters a s.0;
    get_module_name = λ a s. E.get_module_name a s.0;
    arch = E.arch;
    get_value = λ r s. E.get_value r s.0;
    get_values = λ rs s. E.get_values rs s.0;
    read_pointers_virtual = λ a s. E.read_pointers_virtual a s.0;
    get_type_methods = λ iid. query_call (get_type_methods D pick fuel iid);
    get_type_method_args = λ m. query_call (get_type_method_args D pick m);
    get_module_vtables = λ m s. get_module_vtables D m s.1.db;
    save_module_vtable =
        λ m v s. let c = s.1 in (s.0, record c { db = save_module_vtable D m v c.db });
    resolve_class_name = λ clsid. query_call (resolve_class_name D pick clsid);
    resolve_type_name = λ iid. query_call (resolve_type_name D pick iid);
    read_export_directory = λ base s. E.read_export_directory base s.0;
    read_export_table = λ a s. E.read_export_table a s.0;
    read_virtual = λ a n s. E.read_virtual a n s.0;
    get_offset_by_name = λ t s. E.get_offset_by_name t s.0;
  }

  -- the engine and the metadata as one world
  unfoldable pub beside : Composed → with_metadata.World
  unfolding with_metadata
  beside s = s

  -- the metadata of a world
  unfoldable pub metadata_of : with_metadata.World → Cometa D
  unfolding with_metadata
  metadata_of s = s.1

  answered-engine :
      {A : Type 0} (s : Composed) (o : Option (Cometa D × Option A)) → (answered s o).0.0 ≡ s.0
  answered-engine s none = refl
  answered-engine s (some r) = refl

  -- The laws of the engine hold with the metadata beside it, so that what is proved of a monitor over
  -- any engine that satisfies them holds of one that works with Cometa.
  pub with_metadata-laws : EngineLaws E → EngineLaws with_metadata
  unfolding with_metadata
  with_metadata-laws L = record {
    live = λ s i. L.live s.0 i;
    ident = L.ident;
    get_id-ident = λ h s i e. L.get_id-ident h s.0 i e;
    get_breakpoint_by_id-ident = λ i s h e. L.get_breakpoint_by_id-ident i s.0 h e;
    add_fresh = λ s h e. L.add_fresh s.0 h e;
    add_new = λ s h e. L.add_new s.0 h e;
    add_keeps = λ s i e. L.add_keeps s.0 i e;
    remove_keeps = λ h s i other e. L.remove_keeps h s.0 i other e;
    set_offset-live = λ h a s i. L.set_offset-live h a s.0 i;
    set_command-live = λ h s i. L.set_command-live h s.0 i;
    set_flags-live = λ h f s i. L.set_flags-live h f s.0 i;
    add_flags-live = λ h f s i. L.add_flags-live h f s.0 i;
    virtual_protect-live = λ a p s i. L.virtual_protect-live a p s.0 i;
    get_type_methods-live =
        λ g s i. ap (λ w. L.live w i) (answered-engine s (get_type_methods D pick fuel g s.1));
    get_type_method_args-live =
        λ m s i. ap (λ w. L.live w i) (answered-engine s (get_type_method_args D pick m s.1));
    save_module_vtable-live = λ m v s i. refl;
    resolve_class_name-live =
        λ g s i. ap (λ w. L.live w i) (answered-engine s (resolve_class_name D pick g s.1));
    resolve_type_name-live =
        λ g s i. ap (λ w. L.live w i) (answered-engine s (resolve_type_name D pick g s.1));
  }

  -- Whatever sequence of events and commands a monitor that works with Cometa went through, its two
  -- maps of breakpoints are in step, and the engine has every breakpoint that is recorded.
  pub composed-IsSound :
      (L : EngineLaws E) (s : State with_metadata.World)
      → IsReachable with_metadata (with_metadata-laws L) s
      → IsSound with_metadata (with_metadata-laws L) Alone s
  composed-IsSound L s r = IsReachable-IsSound with_metadata (with_metadata-laws L) s r
