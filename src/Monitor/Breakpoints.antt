-- ===== src/Monitor/Breakpoints.antt =====
-- comon/comonitor_com_breakpoints.cpp: `set_breakpoint`, `unset_breakpoint` and what they call;
-- comon/comonitor.h: `handle_breakpoint_removed`.
pub mod Sound
pub mod Creation
pub mod Invariant
pub mod Removal
pub mod Loop
use Prim.Native.Nat.{bit_and}
use comon.Base.{
  ℕ, ◌+◌, ◌^◌, Bool, true, false, not, ◌&&◌, Option, none, some, List, [], ◌∷◌, nat_beq, nat_eq,
  find, erase, insert,
}
use comon.Base.Result.{Result, ok, err, e_invalidarg, error_not_found}
use comon.Engine.{Engine, MemoryInfo}
use comon.Monitor.Types.{
  Monitor, Breakpoint, BreakpointData, MemoryProtect, DebuggeeType, live, is_onetime_breakpoint,
}
use comon.Monitor.Monad.{
  State, M, ◌>>=◌, ◌>>◌, pure, throw, act, ask, gets, attempt, call, modify, skip,
}

-- `MEM_COMMIT`, `MEM_IMAGE`, `PAGE_EXECUTE_READWRITE`
abbrev pub mem_commit : ℕ
mem_commit = 0x1000

abbrev pub mem_image : ℕ
mem_image = 0x1000000

abbrev pub page_execute_readwrite : ℕ
page_execute_readwrite = 0x40

-- `DEBUG_BREAKPOINT_ENABLED`, alone and with `DEBUG_BREAKPOINT_ONE_SHOT`
abbrev pub breakpoint_flags : Bool → ℕ
breakpoint_flags true = 0x14
breakpoint_flags false = 0x4

-- The use of an iterator whose entry was erased, or of the end of the map, has no defined outcome. A
-- method that comes to it ends with this value, which is no `HRESULT`.
abbrev pub invalid_iterator : ℕ
invalid_iterator = 2 ^ 32

-- what the two maps of breakpoints become
unfoldable pub store_breakpoint : ℕ → Breakpoint → ℕ → Option MemoryProtect → Monitor → Monitor
store_breakpoint brk_id brk address memprotect m = record m {
  breakpoints =
      insert brk_id (record { brk = brk; addr = address; mem_protect = memprotect }) m.breakpoints;
  breakpoint_addresses = insert address brk_id m.breakpoint_addresses;
}

-- new data under an identifier, with the page protection that is recorded there
unfoldable pub replace_breakpoint : ℕ → Breakpoint → ℕ → Monitor → Monitor
replace_breakpoint brk_id brk address m = elim (find brk_id m.breakpoints) [
  | none ↦ m
  | some found ↦ record m {
    breakpoints =
        insert brk_id (record { brk = brk; addr = address; mem_protect = found.mem_protect })
          (erase brk_id m.breakpoints);
  }
]

unfoldable pub remove_from_maps : ℕ → ℕ → Monitor → Monitor
remove_from_maps brk_id address m = record m {
  breakpoints = erase brk_id m.breakpoints;
  breakpoint_addresses = erase address m.breakpoint_addresses;
}

module _ (E : Engine) where
  open E use {
    World, Handle, add_breakpoint, set_offset, set_command, get_id, add_flags, get_breakpoint_by_id,
    remove_breakpoint, virtual_query, virtual_protect,
  }

  -- the page of a breakpoint, once it is known
  unfoldable pub protect_page : MemoryInfo → M World (Option MemoryProtect)
  protect_page meminfo = elim (nat_beq meminfo.state mem_commit) [
    | false ↦ throw e_invalidarg
    | true ↦
        elim (not (nat_beq meminfo.type mem_image)
          && nat_beq (bit_and meminfo.protect page_execute_readwrite) 0) [
            | false ↦ pure none
            | true ↦ do
              old ← act (virtual_protect meminfo.base_address page_execute_readwrite)
              pure (some (record { old_protect = old; new_protect = page_execute_readwrite }))
          ]
  ]

  -- only for a live debuggee
  unfoldable pub protect_memory : DebuggeeType → ℕ → M World (Option MemoryProtect)
  protect_memory live address = do meminfo ← ask (virtual_query address); protect_page meminfo
  protect_memory _ address = pure none

  unfoldable pub create_breakpoint : Breakpoint → ℕ → M World ℕ
  create_breakpoint brk address = do
    dbgbrk ← act add_breakpoint
    dbgtype ← gets (λ m. m.dbgtype)
    memprotect ← protect_memory dbgtype address
    act (set_offset dbgbrk address)
    call (set_command dbgbrk)
    brk_id ← ask (get_id dbgbrk)
    act (add_flags dbgbrk (breakpoint_flags (is_onetime_breakpoint brk)))
    modify (store_breakpoint brk_id brk address memprotect)
    pure brk_id

  -- an address that has a breakpoint keeps its identifier
  unfoldable pub set_breakpoint : Breakpoint → ℕ → M World ℕ
  set_breakpoint brk address = do
    found ← gets (λ m. find address m.breakpoint_addresses)
    elim found [
      | some brk_id ↦ do modify (replace_breakpoint brk_id brk address); pure brk_id
      | none ↦ create_breakpoint brk address
    ]

  -- reverts the protection of a page if it is still the one that was set
  unfoldable pub restore_page : ℕ → Option MemoryProtect → M World (Unit {0})
  restore_page address none = skip
  restore_page address (some mp) = do
    meminfo ← ask (virtual_query address)
    elim (nat_beq meminfo.protect mp.new_protect) [
      | false ↦ skip
      | true ↦ do act (virtual_protect meminfo.base_address mp.old_protect); skip
    ]

  -- the entry that the iterator stands on
  unfoldable pub unset_inner_breakpoint : ℕ → BreakpointData → M World (Unit {0})
  unset_inner_breakpoint brk_id d = do
    attempt (restore_page d.addr d.mem_protect)
    modify (remove_from_maps brk_id d.addr)

  -- A breakpoint that the engine does not know any more is gone already. While it is removed, the
  -- session is told and asks every monitor to forget it, which none records any more: this one has
  -- dropped it before, and no other has it.
  unfoldable pub remove_engine_breakpoint : ℕ → M World (Unit {0})
  remove_engine_breakpoint brk_id s = elim (get_breakpoint_by_id brk_id s.world) [
    | ok bp ↦ act (remove_breakpoint bp) s
    | err hr ↦ skip s
  ]

  unfoldable pub unset_breakpoint : ℕ → BreakpointData → M World (Unit {0})
  unset_breakpoint brk_id d = do unset_inner_breakpoint brk_id d; remove_engine_breakpoint brk_id

  unfoldable pub handle_breakpoint_removed : ℕ → M World (Unit {0})
  handle_breakpoint_removed brk_id = do
    found ← gets (λ m. find brk_id m.breakpoints)
    elim found [ none ↦ throw error_not_found | some d ↦ unset_inner_breakpoint brk_id d ]

  -- The loops `for (iter = begin; iter != end;)` over `_breakpoints` that unset what passes a test.
  -- `unset_breakpoint` moves the iterator on, and where it fails the loop moves it once more, which
  -- behind the last entry goes beyond the end of the map.
  unfoldable pub unset_where :
      (BreakpointData → Bool) → List (ℕ × BreakpointData) → M World (Unit {0})
  unset_where p [] s = skip s
  unset_where p ((i, d) ∷ []) s = elim (p d) [
    | false ↦ skip s
    | true ↦
        let (s', r) = unset_breakpoint i d s in
        elim r [ ok _ ↦ (s', ok tt) | err hr ↦ (s', err invalid_iterator) ]
  ]
  unset_where p ((i, d) ∷ e ∷ rest) s = elim (p d) [
    | false ↦ unset_where p (e ∷ rest) s
    | true ↦
        let (s', r) = unset_breakpoint i d s in
        elim r [ ok _ ↦ unset_where p (e ∷ rest) s' | err hr ↦ unset_where p rest s' ]
  ]
