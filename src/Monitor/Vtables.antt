-- ===== src/Monitor/Vtables.antt =====
-- comon/comonitor.cpp: `get_module_info`, `register_vtable`, `list_cotypes`, `pause`, `resume`;
-- comon/comonitor_com_breakpoints.cpp: `modify_breakpoint_flag`, `create_cobreakpoint`.
use Prim.Native.Nat.{bit_and, bit_or}
use comon.Base.{
  nth, add64, sub64, ℕ, ◌-◌, ◌*◌, Bool, true, false, ◌&&◌, Option, none, some, List, [], ◌∷◌, ◌++◌,
  nat_beq, nat_eq, pair_eq, list_eq, ◌==◌, find, erase, insert, assign, Text, codes,
}
use comon.Base.Result.{ok, e_invalidarg}
use comon.Arch.{cc_stdcall, pointer_size}
use comon.CallContext.{read_pointer}
use comon.Guid.{Guid, iid_iclassfactory}
use comon.Engine.{Engine, Comethod, ComethodArg}
use comon.Monitor.Types.{
  Monitor, Breakpoint, BreakpointData, ModuleInfo, CobreakpointBehavior, stop_before_call,
  function_breakpoint, coquery_single_return_breakpoint, coregister_return_breakpoint, cobreakpoint,
  cobreakpoint_return, is_onetime_breakpoint,
}
use comon.Monitor.Monad.{M, ◌>>=◌, ◌>>◌, pure, throw, act, ask, gets, attempt, call, modify, skip}
use comon.Monitor.Breakpoints.{set_breakpoint, unset_where}

-- `cobreakpoint{ clsid, iid, method_name, CC_STDCALL }`: the other fields are value-initialised
abbrev pub method_breakpoint : Guid → Guid → Text → Breakpoint
method_breakpoint clsid iid method_name = cobreakpoint (record {
  clsid = clsid;
  iid = iid;
  method_name = method_name;
  callconv = cc_stdcall;
  return_type = [];
  args = [];
  behavior = stop_before_call;
})

-- whether a breakpoint belongs to an interface of a class
unfoldable pub is_breakpoint_for_interface : Guid → Guid → Breakpoint → Bool
is_breakpoint_for_interface clsid iid (cobreakpoint b) = b.clsid == clsid && b.iid == iid
is_breakpoint_for_interface clsid iid (coquery_single_return_breakpoint b) =
    b.clsid == clsid && b.iid == iid
is_breakpoint_for_interface clsid iid (coregister_return_breakpoint b) =
    b.clsid == clsid && b.iid == iid
is_breakpoint_for_interface clsid iid (function_breakpoint name) = false
is_breakpoint_for_interface clsid iid (cobreakpoint_return b) = false

abbrev pub add_cotype : Guid → Guid → ℕ → Monitor → Monitor
add_cotype clsid iid addr m = record m {
  cotype_with_vtables = insert (clsid, iid) addr m.cotype_with_vtables;
}

abbrev pub erase_cotype : Guid → Guid → Monitor → Monitor
erase_cotype clsid iid m = record m {
  cotype_with_vtables = erase (clsid, iid) m.cotype_with_vtables;
}

-- the loop of `list_cotypes`: the interfaces of each class, with their tables
unfoldable pub group_cotypes :
    List (Guid × List (ℕ × Guid)) → List ((Guid × Guid) × ℕ) → List (Guid × List (ℕ × Guid))
group_cotypes result [] = result
group_cotypes result (((clsid, iid), addr) ∷ m) =
    group_cotypes
      (elim (find clsid result) [
        | none ↦ insert clsid ((addr, iid) ∷ []) result
        | some vtables ↦ assign clsid (vtables ++ (addr, iid) ∷ []) result
      ])
      m

unfoldable pub list_cotypes : Monitor → List (Guid × List (ℕ × Guid))
list_cotypes m = group_cotypes [] m.cotype_with_vtables

abbrev pub args_or_none : Option (List ComethodArg) → List ComethodArg
args_or_none none = []
args_or_none (some args) = args

module _ (E : Engine) where
  open E use {
    World, arch, get_module_by_offset, get_module_parameters, get_module_name, save_module_vtable,
    get_breakpoint_by_id, get_flags, set_flags, get_type_methods, get_type_method_args,
  }

  unfoldable pub get_module_info : ℕ → M World ModuleInfo
  get_module_info base_address = do
    m ← ask (get_module_parameters base_address)
    name ← ask (get_module_name base_address)
    pure (record { name = name; timestamp = m.timestamp; size = m.size })

  -- the part of `register_vtable` that writes to the database
  unfoldable pub save_vtable : Guid → Guid → ℕ → M World (Unit {0})
  save_vtable clsid iid vtable_addr = do
    base_addr ← ask (get_module_by_offset vtable_addr)
    mi ← get_module_info base_addr
    call (
        save_module_vtable
          (record {
            name = mi.name;
            timestamp = mi.timestamp;
            is_64bit = nat_beq (pointer_size arch) 8;
          })
          (record { clsid = clsid; iid = iid; address = sub64 vtable_addr base_addr }))

  unfoldable pub break_on_method : Guid → Guid → Text → ℕ → M World ℕ
  break_on_method clsid iid method_name slot = do
    fn_address ← ask (read_pointer E slot)
    set_breakpoint E (method_breakpoint clsid iid method_name) fn_address

  -- the part of `register_vtable` from the database on
  unfoldable pub register_new : Guid → Guid → ℕ → Bool → M World (Unit {0})
  register_new clsid iid vtable_addr save_in_database = do
    elim save_in_database [ false ↦ skip | true ↦ attempt (save_vtable clsid iid vtable_addr) ]
    fn_address ← ask (read_pointer E vtable_addr)
    attempt (set_breakpoint E (method_breakpoint clsid iid (codes "QueryInterface")) fn_address)
    modify (add_cotype clsid iid vtable_addr)
    elim (iid == iid_iclassfactory) [
      | false ↦ skip
      | true ↦ attempt (
          break_on_method clsid iid (codes "CreateInstance")
            (add64 vtable_addr (3 * pointer_size arch)))
    ]

  unfoldable pub unset_interface : Guid → Guid → M World (Unit {0})
  unset_interface clsid iid s =
      unset_where E (λ d. is_breakpoint_for_interface clsid iid d.brk) s.monitor.breakpoints s

  unfoldable pub register_vtable : Guid → Guid → ℕ → Bool → Bool → M World (Unit {0})
  register_vtable clsid iid vtable_addr save_in_database replace_if_exists = do
    found ← gets (λ m. find (clsid, iid) m.cotype_with_vtables)
    elim found [
      | none ↦ register_new clsid iid vtable_addr save_in_database
      | some addr ↦ elim (nat_beq addr vtable_addr) [
        | true ↦ skip
        | false ↦ elim replace_if_exists [
          | false ↦ skip
          | true ↦ do
            modify (erase_cotype clsid iid)
            unset_interface clsid iid
            register_new clsid iid vtable_addr save_in_database
        ]
      ]
    ]

  unfoldable pub modify_breakpoint_flag : ℕ → ℕ → Bool → M World (Unit {0})
  modify_breakpoint_flag brk_id flag enable = do
    bp ← ask (get_breakpoint_by_id brk_id)
    flags ← ask (get_flags bp)
    act (
        set_flags bp
          (elim enable [ true ↦ bit_or flags flag | false ↦ bit_and flags (0xffffffff - flag) ]))

  -- the loops of `pause` and `resume`, with `DEBUG_BREAKPOINT_ENABLED`
  unfoldable pub switch_breakpoints : Bool → List (ℕ × BreakpointData) → M World (Unit {0})
  switch_breakpoints enable [] = skip
  switch_breakpoints enable ((brk_id, d) ∷ rest) = do
    elim (is_onetime_breakpoint d.brk) [
      | true ↦ skip
      | false ↦ attempt (modify_breakpoint_flag brk_id 4 enable)
    ]
    switch_breakpoints enable rest

  unfoldable pub pause : M World (Unit {0})
  pause = do
    brks ← gets (λ m. m.breakpoints)
    switch_breakpoints false brks
    modify (λ m. record m { is_paused = true })

  unfoldable pub resume : M World (Unit {0})
  resume = do
    brks ← gets (λ m. m.breakpoints)
    switch_breakpoints true brks
    modify (λ m. record m { is_paused = false })

  -- a method whose slot in a known table is read
  unfoldable pub break_on_comethod :
      Guid → Guid → ℕ → CobreakpointBehavior → Comethod → ℕ → M World (Unit {0})
  break_on_comethod clsid iid method_num behavior method vtable = do
    addr ← ask (read_pointer E (add64 vtable (method_num * pointer_size arch)))
    args ← act (λ w. let (w', r) = get_type_method_args method w in (w', ok r))
    set_breakpoint E
        (cobreakpoint (record {
          clsid = clsid;
          iid = iid;
          method_name = method.name;
          callconv = method.callconv;
          return_type = method.return_type;
          args = args_or_none args;
          behavior = behavior;
        }))
        addr
    skip

  unfoldable pub create_cobreakpoint : Guid → Guid → ℕ → CobreakpointBehavior → M World (Unit {0})
  create_cobreakpoint clsid iid method_num behavior = do
    methods ← act (λ w. let (w', r) = get_type_methods iid w in (w', ok r))
    elim methods [
      | none ↦ throw e_invalidarg
      | some ms ↦ elim (nth ms method_num) [
        | none ↦ throw e_invalidarg
        | some method ↦ do
          vtable ← gets (λ m. find (clsid, iid) m.cotype_with_vtables)
          elim vtable [
            | none ↦ throw e_invalidarg
            | some addr ↦ break_on_comethod clsid iid method_num behavior method addr
          ]
      ]
    ]
