-- ===== src/Engine.antt =====
-- What comon uses of the debugger engine (DbgEng), of Win32, and of its own part `cometa`, as the
-- monitor sees them: operations on a world of which nothing else is known.
use comon.Base.{ℕ, ◌≡◌, ◌≢◌, Bool, true, false, List, Option, Text}
use comon.Base.Result.{Result, ok}
use comon.Arch.{Arch}
use comon.Guid.{Guid}

-- comon/cometa.h: `comethod_arg`
pub record ComethodArg : Type 0 where
  pub name : Text
  pub type_name : Text
  pub flags : ℕ

-- comon/cometa.h: `comethod`
pub record Comethod : Type 0 where
  pub iid : Guid
  pub name : Text
  pub ordinal : ℕ
  pub callconv : ℕ
  pub dispid : Option ℕ
  pub return_type : Text

-- comon/cometa.h: `covtable`
pub record Covtable : Type 0 where
  pub clsid : Guid
  pub iid : Guid
  pub address : ℕ

-- comon/cometa.h: `comodule`
pub record Comodule : Type 0 where
  pub name : Text
  pub timestamp : ℕ
  pub is_64bit : Bool

-- `MEMORY_BASIC_INFORMATION`
pub record MemoryInfo : Type 0 where
  pub base_address : ℕ
  pub state : ℕ
  pub type : ℕ
  pub protect : ℕ

-- `DEBUG_MODULE_PARAMETERS`
pub record ModuleParameters : Type 0 where
  pub base : ℕ
  pub timestamp : ℕ
  pub size : ℕ

-- `IMAGE_EXPORT_DIRECTORY`
pub record ExportTable : Type 0 where
  pub number_of_names : ℕ
  pub address_of_functions : ℕ
  pub address_of_names : ℕ
  pub address_of_name_ordinals : ℕ

pub record Engine : Type 1 where
  pub World : Type 0
  pub Handle : Type 0
  -- `IDebugControl4` and `IDebugBreakpoint2`
  pub add_breakpoint : World → World × Result Handle
  pub set_offset : Handle → ℕ → World → World × Result (Unit {0})
  pub set_command : Handle → World → World
  pub get_id : Handle → World → Result ℕ
  pub get_flags : Handle → World → Result ℕ
  pub set_flags : Handle → ℕ → World → World × Result (Unit {0})
  pub add_flags : Handle → ℕ → World → World × Result (Unit {0})
  pub get_breakpoint_by_id : ℕ → World → Result Handle
  pub remove_breakpoint : Handle → World → World × Result (Unit {0})
  -- `VirtualQueryEx` and `VirtualProtectEx`
  pub virtual_query : ℕ → World → Result MemoryInfo
  pub virtual_protect : ℕ → ℕ → World → World × Result ℕ
  -- `IDebugSymbols3`
  pub get_module_by_offset : ℕ → World → Result ℕ
  pub get_number_modules : World → Result ℕ
  pub get_loaded_module_parameters : ℕ → World → Result (List ModuleParameters)
  pub get_module_parameters : ℕ → World → Result ModuleParameters
  pub get_module_name : ℕ → World → Result Text
  -- the architecture that `call_context` found
  pub arch : Arch
  -- `IDebugRegisters2::GetValue` and `GetValues`, as `DEBUG_VALUE::I64`
  pub get_value : ℕ → World → Result ℕ
  pub get_values : List ℕ → World → Result (List ℕ)
  -- `IDebugDataSpaces4::ReadPointersVirtual` of one pointer
  pub read_pointers_virtual : ℕ → World → Result ℕ
  -- `cometa`, whose caches and database are part of the world
  pub get_type_methods : Guid → World → World × Option (List Comethod)
  pub get_type_method_args : Comethod → World → World × Option (List ComethodArg)
  pub get_module_vtables : Comodule → World → List Covtable
  pub save_module_vtable : Comodule → Covtable → World → World
  pub resolve_class_name : Guid → World → World × Option Text
  pub resolve_type_name : Guid → World → World × Option Text
  -- `IDebugDataSpaces4`: the address of the export directory among the headers of the image, the
  -- directory, and the bytes that could be read from an address
  pub read_export_directory : ℕ → World → Result ℕ
  pub read_export_table : ℕ → World → Result ExportTable
  pub read_virtual : ℕ → ℕ → World → Result (List ℕ)
  -- `IDebugSymbols3::GetOffsetByNameWide`
  pub get_offset_by_name : Text → World → Result ℕ

module _ (E : Engine) where
  open E use {
    World, Handle, add_breakpoint, set_offset, set_command, get_id, set_flags, add_flags,
    get_breakpoint_by_id, remove_breakpoint, virtual_protect, get_type_methods,
    get_type_method_args, save_module_vtable, resolve_class_name, resolve_type_name,
  }

  -- What the monitor relies on: identifiers tell the breakpoints of the engine apart, and only the
  -- removal of a breakpoint frees its identifier.
  pub record EngineLaws : Type 0 where
    pub live : World → ℕ → Bool
    pub ident : Handle → ℕ
    pub get_id-ident : (h : Handle) (w : World) (i : ℕ) → get_id h w ≡ ok i → i ≡ ident h
    pub get_breakpoint_by_id-ident :
        (i : ℕ) (w : World) (h : Handle) → get_breakpoint_by_id i w ≡ ok h → ident h ≡ i
    pub add_fresh :
        (w : World) (h : Handle) → (add_breakpoint w).1 ≡ ok h → live w (ident h) ≡ false
    pub add_new :
        (w : World) (h : Handle)
        → (add_breakpoint w).1 ≡ ok h
        → live (add_breakpoint w).0 (ident h) ≡ true
    pub add_keeps : (w : World) (i : ℕ) → live w i ≡ true → live (add_breakpoint w).0 i ≡ true
    pub remove_keeps :
        (h : Handle) (w : World) (i : ℕ)
        → i ≢ ident h
        → live w i ≡ true
        → live (remove_breakpoint h w).0 i ≡ true
    pub set_offset-live :
        (h : Handle) (a : ℕ) (w : World) (i : ℕ) → live (set_offset h a w).0 i ≡ live w i
    pub set_command-live : (h : Handle) (w : World) (i : ℕ) → live (set_command h w) i ≡ live w i
    pub set_flags-live :
        (h : Handle) (f : ℕ) (w : World) (i : ℕ) → live (set_flags h f w).0 i ≡ live w i
    pub add_flags-live :
        (h : Handle) (f : ℕ) (w : World) (i : ℕ) → live (add_flags h f w).0 i ≡ live w i
    pub virtual_protect-live :
        (a p : ℕ) (w : World) (i : ℕ) → live (virtual_protect a p w).0 i ≡ live w i
    pub get_type_methods-live :
        (g : Guid) (w : World) (i : ℕ) → live (get_type_methods g w).0 i ≡ live w i
    pub get_type_method_args-live :
        (m : Comethod) (w : World) (i : ℕ) → live (get_type_method_args m w).0 i ≡ live w i
    pub save_module_vtable-live :
        (m : Comodule) (v : Covtable) (w : World) (i : ℕ)
        → live (save_module_vtable m v w) i ≡ live w i
    pub resolve_class_name-live :
        (g : Guid) (w : World) (i : ℕ) → live (resolve_class_name g w).0 i ≡ live w i
    pub resolve_type_name-live :
        (g : Guid) (w : World) (i : ℕ) → live (resolve_type_name g w).0 i ≡ live w i
