-- ===== src/Monitor/Handlers/Creators.antt =====
-- comon/comonitor_com_breakpoints.cpp: the handlers of the functions and methods that create objects.

use comon.Base.{
  nth, ℕ, true, false, none, some, List, [], ◌∷◌, map, nat_eq, pair_eq, list_eq, find, Text, codes,
}
use comon.Guid.{Guid, iid_iunknown}
use comon.Engine.{Engine}
use comon.Ext.Filter.{is_clsid_allowed}
use comon.Monitor.Types.{coquery_single_return_breakpoint, coregister_return_breakpoint}
use comon.Monitor.Monad.{M, ◌>>=◌, ask, gets, attempt, skip}
use comon.Monitor.Breakpoints.{set_breakpoint}
use comon.Arch.{cc_stdcall}
use comon.CallContext.{read_pointer, read_guid, read_method_frame}

-- `args[n].value`
abbrev pub arg_value : List ℕ → ℕ → ℕ
arg_value args n = elim (nth args n) [ none ↦ 0 | some v ↦ v ]

module _ (E : Engine) where
  open E use {World}

  unfoldable pub handle_dll_get_class_object : Text → M World (Unit {0})
  handle_dll_get_class_object function_name = do
    (args, return_addr) ←
        ask (read_method_frame E cc_stdcall (map codes ("GUID*" ∷ "GUID*" ∷ "void**" ∷ [])))
    clsid ← ask (read_guid E (arg_value args 0))
    filter ← gets (λ m. m.filter)
    elim (is_clsid_allowed filter clsid) [
      | false ↦ skip
      | true ↦ do
        iid ← ask (read_guid E (arg_value args 1))
        attempt (
            set_breakpoint E
              (coquery_single_return_breakpoint (record {
                clsid = clsid;
                iid = iid;
                object_address_address = arg_value args 2;
                create_function_name = function_name;
              }))
              return_addr)
    ]

  unfoldable pub handle_co_register_class_object : Text → M World (Unit {0})
  handle_co_register_class_object function_name = do
    (args, return_addr) ←
        ask (read_method_frame E cc_stdcall (map codes ("GUID*" ∷ "IUnknown*" ∷ [])))
    clsid ← ask (read_guid E (arg_value args 0))
    filter ← gets (λ m. m.filter)
    elim (is_clsid_allowed filter clsid) [
      | false ↦ skip
      | true ↦ do
        vtbl_addr ← ask (read_pointer E (arg_value args 1))
        attempt (
            set_breakpoint E
              (coregister_return_breakpoint (record {
                clsid = clsid;
                iid = iid_iunknown;
                vtbl_address = vtbl_addr;
                register_function_name = function_name;
              }))
              return_addr)
    ]

  -- a pair of class and interface that has a table already is not followed
  unfoldable pub handle_query_interface : Guid → M World (Unit {0})
  handle_query_interface clsid = do
    (args, return_addr) ←
        ask (read_method_frame E cc_stdcall (map codes ("IUnknown*" ∷ "GUID*" ∷ "void**" ∷ [])))
    iid ← ask (read_guid E (arg_value args 1))
    found ← gets (λ m. find (clsid, iid) m.cotype_with_vtables)
    elim found [
      | some addr ↦ skip
      | none ↦ attempt (
          set_breakpoint E
            (coquery_single_return_breakpoint (record {
              clsid = clsid;
              iid = iid;
              object_address_address = arg_value args 2;
              create_function_name = codes "IUnknown::QueryInterface";
            }))
            return_addr)
    ]

  unfoldable pub handle_create_instance : Guid → M World (Unit {0})
  handle_create_instance clsid = do
    (args, return_addr) ← ask (
        read_method_frame E cc_stdcall
          (map codes ("IClassFactory*" ∷ "IUnknown*" ∷ "GUID*" ∷ "void**" ∷ [])))
    iid ← ask (read_guid E (arg_value args 2))
    attempt (
        set_breakpoint E
          (coquery_single_return_breakpoint (record {
            clsid = clsid;
            iid = iid;
            object_address_address = arg_value args 3;
            create_function_name = codes "IClassFactory::CreateInstance";
          }))
          return_addr)
